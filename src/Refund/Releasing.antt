-- ===== src/Refund/Releasing.antt =====
-- releaseClaim (refund.go) moves a refund along its life.
use ticket_online.Common.{◌≡◌, refl, ℕ, Bool, true, ◌&&◌, ◌||◌, update, and_true}
use ticket_online.Common.Text.{Text, same}
use ticket_online.Sql.Reads.{Reads-fail_if}
use ticket_online.Sql.Runs.{Runs, Runs-autocommit, Runs-on_reads}
use ticket_online.Schema.{RefundStatus, OrderRefund, Db}
use ticket_online.Refund.Provider.{QueuedRefund}
use ticket_online.Refund.Queue.{
  is_processing, is_unknown, same_token, holds_claim, released, release_claim,
}
use ticket_online.Refund.Lifecycle.{Moves, Reach, Evolves, Evolves-refl, here, next, release}
use ticket_online.Refund.Rows.{update-Goes}

released-life :
    (s : RefundStatus) → (is_processing s || is_unknown s) ≡ true → Reach s RefundStatus.unknown
released-life RefundStatus.processing h = next here release
released-life RefundStatus.unknown h = here
released-life RefundStatus.requested h = absurd (cc)
released-life RefundStatus.succeeded h = absurd (cc)
released-life RefundStatus.failed h = absurd (cc)
released-life RefundStatus.manual_required h = absurd (cc)

module _ (now : ℕ) (item : QueuedRefund) (message : Text) (attempted : Bool) where
  released-Moves :
      (r : OrderRefund) → holds_claim item r ≡ true → Moves r (released now message attempted r)
  released-Moves r h = record {
    order_id = refl;
    amount = refl;
    key = refl;
    original = refl;
    life =
        released-life r.status
          (and_true (same r.order_id item.order_id && same_token r.claim_token item.claim_token) _
            h).1;
  }

  pub Runs-release_claim :
      (w d : Db) → Runs w d (release_claim now item message attempted) (λ _ d'. Evolves d d')
  unfolding release_claim
  Runs-release_claim w d =
      Runs-autocommit _ _ (Evolves-refl d) (Runs-on_reads _ _ (Reads-fail_if _ _) moved moved)
    where
      moved : Evolves d (record d {
        order_refunds = update (holds_claim item) (released now message attempted) d.order_refunds;
      })
      moved = record {
        at = λ j.
            update-Goes (holds_claim item) (released now message attempted) (λ r. refl)
              released-Moves j d.order_refunds;
      }
