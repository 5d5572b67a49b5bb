-- ===== src/Refund/Passes.antt =====
-- Passes of the refund worker (refund.go, deliverRequested and reconcile).
use ticket_online.Common.{ℕ, refl, Bool, true, false, List, [], ◌∷◌}
use ticket_online.Common.Text.{Text}
use ticket_online.Errors.{Error}
use ticket_online.Sql.{Action, Result, ok, err, Session, continue, ◌>>=◌}
use ticket_online.Sql.Keeps.{Keeps-pure, Keeps-raise}
use ticket_online.Sql.Preserves.{
  Preserves, Preserves-Keeps, Preserves-Runs, Preserves-attempt, Preserves-if, Preserves-bind,
}
use ticket_online.Sql.Runs.{Runs-map}
use ticket_online.Schema.{Db}
use ticket_online.Refund.Provider.{
  ProviderStatus, QueuedRefund, SendResult, accepted, rejected, uncertain, is_settled,
}
use ticket_online.Refund.Queue.{
  Gateway, QueueKind, is_refunded, is_refund_failed, too_late, is_processing, failed_message,
  late_message, open_message, unchecked_message, to_send, to_check, release_claim,
  finish_from_provider, take_rejection, take_result, send_item, resume_item, deliver_item,
  settle_checked, reconcile_item, each_item, claim_refunds, deliver_requested, reconcile,
}
use ticket_online.Refund.Finish.{finish}
use ticket_online.Refund.Lifecycle.{Evolves, Evolves-trans}
use ticket_online.Refund.Finishing.{Runs-finish}
use ticket_online.Refund.Releasing.{Runs-release_claim}
use ticket_online.Refund.Claiming.{UniqueRefunds, Runs-claim_refunds}

module _ (start : Db) where
  abbrev Follows : {A : Type 0} → Action Db A → Type 0
  Follows = Preserves (Evolves start)

  Follows-finish :
      (now : ℕ) (id message : Text) (success : Bool) → Follows (finish now id success message)
  Follows-finish now id message success =
      Preserves-Runs _
        λ w d e. Runs-map _ (λ r d' f. Evolves-trans e f) (Runs-finish w d now id message success)

  Follows-release :
      (now : ℕ) (item : QueuedRefund) (message : Text) (attempted : Bool)
      → Follows (release_claim now item message attempted)
  Follows-release now item message attempted = Preserves-Runs _ λ w d e.
      Runs-map _ (λ r d' f. Evolves-trans e f) (Runs-release_claim now item message attempted w d)

  Follows-provider :
      (now : ℕ) (item : QueuedRefund) (s : ProviderStatus)
      → Follows (finish_from_provider now item s)
  unfolding finish_from_provider
  Follows-provider now item s =
      Preserves-if (is_refunded item s) _ _
        (Preserves-bind _ _ (Follows-finish now item.order_id [] true)
          λ _. Preserves-Keeps _ (Keeps-pure true))
        (Preserves-if (is_refund_failed s) _ _
          (Preserves-bind _ _ (Follows-finish now item.order_id failed_message false)
            λ _. Preserves-Keeps _ (Keeps-pure true))
          (Preserves-Keeps _ (Keeps-pure false)))

  module _ (g : Gateway) (now : ℕ) (item : QueuedRefund) where
    Follows-rejection :
        (message : Text) (r : Result ProviderStatus) → Follows (take_rejection g now item message r)
    unfolding take_rejection
    Follows-rejection message (err e) =
        Follows-release now item (unchecked_message g message e) true
    Follows-rejection message (ok s) =
        Preserves-if (is_settled s) _ _ (Follows-finish now item.order_id message false)
          (Follows-release now item message true)

    Follows-result : (r : SendResult) → Follows (take_result g now item r)
    unfolding take_result
    Follows-result (uncertain message) = Follows-release now item message true
    Follows-result (accepted message) = Follows-release now item message true
    Follows-result (rejected message) = Follows-rejection message _

    Follows-send : Follows (send_item g now item)
    unfolding send_item
    Follows-send =
        Preserves-if (too_late now item.retry_deadline) _ _
          (Follows-release now item late_message false) (Follows-result _)

    Follows-resume : (r : Result ProviderStatus) → Follows (resume_item g now item r)
    unfolding resume_item
    Follows-resume (err e) = Follows-release now item (g.message e) false
    Follows-resume (ok s) = Preserves-bind _ _ (Follows-provider now item s) λ finished.
        Preserves-if finished _ _ (Preserves-Keeps _ (Keeps-pure tt)) (
          Preserves-if (is_settled s) _ _ Follows-send
            (Follows-release now item open_message false))

    Follows-deliver : Follows (deliver_item g now item)
    unfolding deliver_item
    Follows-deliver = Preserves-if (is_processing item.status) _ _ (Follows-resume _) Follows-send

    Follows-checked : (r : Result ProviderStatus) → Follows (settle_checked g now item r)
    unfolding settle_checked
    Follows-checked (err e) =
        Preserves-bind _ _ (Follows-release now item (g.message e) false)
          λ _. Preserves-Keeps _ (Keeps-raise e)
    Follows-checked (ok s) = Preserves-bind _ _ (Follows-provider now item s) λ finished.
        Preserves-if finished _ _ (Preserves-Keeps _ (Keeps-pure tt))
          (Follows-release now item [] false)

  Follows-each :
      (work : QueuedRefund → Action Db (Unit {0}))
      → ((i : QueuedRefund) → Follows (work i))
      → (is : List QueuedRefund) (es : List Error) → Follows (each_item work is es)
  unfolding each_item
  Follows-each work f [] es = Preserves-Keeps _ (Keeps-pure es)
  Follows-each work f (i ∷ is) es =
      Preserves-bind _ _ (Preserves-attempt _ (f i)) λ r. Follows-each work f is _

-- A pass claims refunds and works on each.
pass-Evolves :
    (s : Session Db) (kind : QueueKind) (now : ℕ) (tokens : Text → Text)
    (work : QueuedRefund → Action Db (Unit {0}))
    → UniqueRefunds s.stored.order_refunds
    → ((start : Db) (i : QueuedRefund) → Preserves (Evolves start) (work i))
    → Evolves s.stored
        ((claim_refunds kind now tokens >>= λ items. each_item work items []) s).1.stored
unfolding ◌>>=◌
pass-Evolves s kind now tokens work u f =
    go (claim_refunds kind now tokens s).0 (claim_refunds kind now tokens s).1
      ((Runs-claim_refunds s.working s.stored kind now tokens u).at s refl refl)
  where
    go :
        (r : Result (List QueuedRefund)) (s' : Session Db)
        → Evolves s.stored s'.stored
        → Evolves s.stored (continue (λ items. each_item work items []) r s').1.stored
    go (err e) s' moved = moved
    go (ok items) s' moved = (Follows-each s.stored work (f s.stored) items []).at s' moved

-- A pass of the worker, deliverRequested or reconcile, moves each refund along its life only, and
-- loses none, whatever Midtrans answers and wherever its connection is lost.
pub pass_moves_on :
    (g : Gateway) (now : ℕ) (tokens : Text → Text) (s : Session Db)
    → UniqueRefunds s.stored.order_refunds
    → Evolves s.stored (deliver_requested g now tokens s).1.stored
      × Evolves s.stored (reconcile g now tokens s).1.stored
unfolding deliver_requested reconcile reconcile_item
pass_moves_on g now tokens s u = (
  pass-Evolves s to_send now tokens (deliver_item g now) u λ start i. Follows-deliver start g now i,
  pass-Evolves s to_check now tokens _ u λ start i. Follows-checked start g now i _,
)
