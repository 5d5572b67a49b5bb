-- ===== src/Refund/Submitting.antt =====
-- What a request for a refund (refund.go, submit) may leave.
use mathlib.Core.Option
use ticket_online.Common.{
  ◌≡◌, refl, subst, ◌∙◌, ℕ, Bool, true, false, not, ◌&&◌, not-false, Option, none, some, [], ◌∷◌,
  ◌++◌, arith, if◌then◌else◌, inl, inr, List, ap, select?-append, select?-append_other,
  select?-found, update,
}
use ticket_online.Common.Text.{Text, same, same_iff, same_refl, trim_space}
use ticket_online.Sql.{Action, Result, ok, Session}
use ticket_online.Sql.Keeps.{Keeps-query_stored, Keeps-attempt}
use ticket_online.Sql.Reads.{Reads-query, Reads-or_raise, Reads-pure, Reads-if, ok_eq, found_of}
use ticket_online.Sql.Frame.{Runs-frame}
use ticket_online.Sql.Runs.{
  Runs, Runs-if, Runs-reads, Runs-writes, Runs-begin, Runs-commit, Runs-pure, Runs-fail_if,
  Runs-exec_checked, Runs-keeping, Writes-exec,
}
use ticket_online.Payment.Status.{is_paid, is_succeeded}
use ticket_online.Payment.Expiry.{order_row, payment_row}
use ticket_online.Schema.{OrderStatus, RefundStatus, Order, Payment, OrderRefund, Db}
use ticket_online.Reservation.Reads.{Reads-for_order}
use ticket_online.Refund.Provider.{ProviderStatus, Config}
use ticket_online.Refund.Finish.{refund_row, set_refund, set_order_status}
use ticket_online.Refund.Submit.{
  Prefetch, prefetch, Requester, is_failed, reopened, submit_again, write_refund, submit_manual,
  submit_automatic, can_automate, submit_new, submit_locked, RefundResult, has_checkin,
  is_refundable, submit, paid_order,
}
use ticket_online.Refund.Rows.{row_in, set_row_same, set_row_other}
use ticket_online.Refund.Asking.{Reads-settlement, Reads-requester, Keeps-check_admin}
use ticket_online.Refund.Requests.{
  touched, Frame-write_audit, pending_order, open_again, IsNew, Asks, lost, set_refund_pending,
  fails, repeated, reopens, asks,
}

module _ (is_event : Bool) (d : Db) (o : Order) (mine : order_row o.id d ≡ some o) where
  abbrev Asked : Db → Action Db RefundResult → Type 0
  Asked w m = Runs w d m (Asks is_event o.id d)

  failed_status : (s : RefundStatus) → is_failed s ≡ true → s ≡ RefundStatus.failed
  failed_status RefundStatus.failed h = refl
  failed_status RefundStatus.requested h = absurd (cc)
  failed_status RefundStatus.processing h = absurd (cc)
  failed_status RefundStatus.unknown h = absurd (cc)
  failed_status RefundStatus.succeeded h = absurd (cc)
  failed_status RefundStatus.manual_required h = absurd (cc)

  reopened-open_again :
      (r : OrderRefund) → r.status ≡ RefundStatus.failed → reopened r ≡ open_again r
  reopened-open_again r e = ground (arith, e)

  reopened-order : (r : OrderRefund) → (reopened r).order_id ≡ r.order_id
  reopened-order r = ground arith

  Asked-again :
      (who : Requester) (r : OrderRefund)
      → refund_row o.id d ≡ some r
      → Asked d (submit_again o.id who is_event r)
  unfolding submit_again
  Asked-again who r found =
      Runs-if (is_event && is_failed r.status) _ _
        (λ both.
          let asked : is_event ≡ true = ground arith in
          let failed : r.status ≡ RefundStatus.failed = failed_status r.status (ground arith) in
          Runs-writes _ _ _ (Writes-exec _) fails λ _. Runs-writes _ _ _ (Writes-exec _) fails λ _.
            Runs-frame _ _ (Frame-write_audit _ _ _ _) fails λ _ w e.
              Runs-commit _ (lost is_event o.id d) (
                Runs-pure _ (
                  let pending =
                    set_refund_pending is_event o.id d o w w.orders mine
                      (unfold set_order_status in ap (λ x. x.1) e) in
                  let rows : w.order_refunds ≡ (set_refund o.id reopened d).order_refunds =
                    unfold set_order_status in ap (λ x. x.0) e in
                  reopens r o _ w found failed asked
                    (set_row_same o.id reopened reopened-order d w rows found
                      ∙ ap some (reopened-open_again r failed))
                    (record {
                      was = mine;
                      waits = pending.0;
                      other_orders = pending.1;
                      other_refunds = set_row_other o.id reopened reopened-order d w rows;
                    }))))
        (λ not_both.
          Runs-commit _ (lost is_event o.id d)
            (Runs-pure _ (repeated r _ found refl (λ asked e. ground (arith, not_both, asked, e)))))

  module _ (p : Payment) (paid_by : payment_row o.id d ≡ some p)
      (succeeded : is_succeeded p.status ≡ true) (whole : p.amount ≡ o.total)
      (refundable : is_refundable o.status ≡ true) (fresh : refund_row o.id d ≡ none) where
    -- What the INSERT and the UPDATE leave.
    asked_row :
        (q : OrderRefund) (x : RefundResult) (w w' : Db)
        → write_refund q d ≡ some w
        → touched w' ≡ touched (set_order_status o.id OrderStatus.refund_pending w)
        → q.order_id ≡ o.id
        → IsNew d is_event o.id o q
        → Asks is_event o.id d (ok x) w'
    unfolding write_refund set_order_status
    asked_row q x w w' wrote e order new =
        let rows : w'.order_refunds ≡ d.order_refunds ++ q ∷ [] = ground (arith, ap (λ y. y.0) e) in
        let was : w.orders ≡ d.orders = ground arith in
        let pending = set_refund_pending is_event o.id d o w' w'.orders mine (
          ap (λ y. y.1) e
          ∙ ap
              (λ os.
                (set_order_status o.id OrderStatus.refund_pending
                  (record d { orders = os })).orders)
              was) in
        asks q o x w' fresh
          (ap (row_in o.id) rows
            ∙ select?-append (λ r. same r.order_id o.id) d.order_refunds q fresh
                (rw order (same_refl o.id)))
          new
          (record {
            was = mine;
            waits = pending.0;
            other_orders = pending.1;
            other_refunds = λ j other.
                ap (row_in j) rows
                ∙ select?-append_other (λ r. same r.order_id j) d.order_refunds q
                    (rw order (ground (arith, same_iff o.id j, same_iff j o.id)));
          })

    Asked-manual :
        (now : ℕ) (key : Text) (who : Requester)
        → is_event ≡ true
        → Asked d (submit_manual now key who o p)
    unfolding submit_manual
    Asked-manual now key who event =
        Runs-exec_checked _ _ _ (lost is_event o.id d) (lost is_event o.id d) λ w wrote.
          Runs-writes _ _ _ (Writes-exec _) fails λ _.
            Runs-frame _ _ (Frame-write_audit _ _ _ _) fails λ _ w1 e1.
              Runs-commit _ (lost is_event o.id d) (
                Runs-pure _ (
                  asked_row _ _ w w1 wrote e1 refl (record {
                    payment = p;
                    paid_by = paid_by;
                    succeeded = succeeded;
                    whole = whole;
                    refundable = refundable;
                    begun = inr (refl, event);
                    amount = whole;
                    original = refl;
                    unused = λ no_event. absurd (cc);
                  })))

    Asked-automatic :
        (now : ℕ) (key transaction : Text) (who : Requester)
        → Asked d (submit_automatic now key transaction who is_event o p)
    unfolding submit_automatic
    Asked-automatic now key transaction who =
        Runs-reads _ _ _ (Reads-if is_event _ _ _ _ (Reads-pure false) (Reads-query _))
          (lost is_event o.id d) (λ e _. fails e)
          λ used is_used.
            Runs-fail_if _ _ _ (λ _. fails _)
              λ free.
                Runs-exec_checked _ _ _ (lost is_event o.id d) (lost is_event o.id d) λ w wrote.
                  Runs-frame _ _ (Frame-write_audit _ _ _ _) fails λ _ w1 e1.
                    Runs-writes _ _ _ (Writes-exec _) fails λ _.
                      Runs-commit _ (lost is_event o.id d) (
                        Runs-pure _ (
                          asked_row _ _ w _ wrote (again w w1 e1) refl (record {
                            payment = p;
                            paid_by = paid_by;
                            succeeded = succeeded;
                            whole = whole;
                            refundable = refundable;
                            begun = inl refl;
                            amount = whole;
                            original = refl;
                            unused = λ staff. ok_eq (no_checkin used is_used staff) ∙ free;
                          })))
      where
        no_checkin :
            (used : Bool)
            → (if is_event then ok false else ok (has_checkin o.id d)) ≡ ok used
            → is_event ≡ false
            → ◌≡◌ {A = Result Bool} (ok (has_checkin o.id d)) (ok used)
        no_checkin used h staff = rw staff at h

        again :
            (w w1 : Db)
            → touched w1 ≡ touched w
            → touched (set_order_status o.id OrderStatus.refund_pending w1)
              ≡ touched (set_order_status o.id OrderStatus.refund_pending w)
        again w w1 e =
            unfold set_order_status in
            ap
              (λ (x : List OrderRefund × List Order).
                (x.0, update (λ q. same q.id o.id) pending_order x.1))
              e

  Asked-new :
      (config : Config) (now : ℕ) (parse : Text → Option ℕ) (key : Text) (who : Requester)
      (verified : Prefetch) (p : Payment)
      → payment_row o.id d ≡ some p
      → refund_row o.id d ≡ none
      → Asked d (submit_new config now parse key who is_event verified o p)
  unfolding submit_new
  Asked-new config now parse key who verified p paid_by fresh =
      Runs-fail_if _ _ _ (λ _. fails _)
        λ refundable.
          Runs-reads _ _ _ (Reads-if (is_paid o.status) _ _ _ _ (Reads-pure true) (Reads-query _))
            (lost is_event o.id d) (λ e _. fails e)
            λ reconciled _.
              Runs-fail_if _ _ _ (λ _. fails _)
                λ _.
                  Runs-fail_if _ _ _ (λ _. fails _)
                    λ paid.
                      Runs-reads _ _ _
                        (Reads-if (can_automate config now p p.paid_at) _ _ _ _
                          (Reads-settlement now parse p verified) (Reads-pure (false, [])))
                        (lost is_event o.id d) (λ e _. fails e)
                        λ automatic _.
                          Runs-if (is_event && not automatic.0) _ _
                            (λ by_hand.
                              Asked-manual p paid_by (ground arith) (ground arith)
                                (not-false _ refundable) fresh now key who (ground arith))
                            (λ _.
                              Runs-fail_if _ _ _ (λ _. fails _)
                                λ _.
                                  Asked-automatic p paid_by (ground arith) (ground arith)
                                    (not-false _ refundable) fresh now key automatic.1 who)

  Asked-locked :
      (config : Config) (now : ℕ) (parse : Text → Option ℕ) (key : Text) (who : Requester)
      (verified : Prefetch) (p : Payment) (existing : Option OrderRefund)
      → payment_row o.id d ≡ some p
      → refund_row o.id d ≡ existing
      → Asked d (submit_locked config now parse key who is_event verified o p existing)
  unfolding submit_locked
  Asked-locked config now parse key who verified p (some r) paid_by found = Asked-again who r found
  Asked-locked config now parse key who verified p none paid_by fresh =
      Asked-new config now parse key who verified p paid_by fresh

paid_order_parts :
    (id : Text) (d : Db) (o : Order) (p : Payment)
    → paid_order id d ≡ some (o, p)
    → (order_row id d ≡ some o) × (payment_row id d ≡ some p)
unfolding Option.bind
paid_order_parts id d o p h = go (order_row id d) (payment_row id d) h
  where
    go :
        (x : Option Order) (y : Option Payment)
        → Option.bind x (λ a. Option.map {B = Order × Payment} (λ b. (a, b)) y) ≡ some (o, p)
        → (x ≡ some o) × (y ≡ some p)
    go none y e = absurd (cc)
    go (some a) none e = absurd (cc)
    go (some a) (some b) e = (cc, cc)

-- A request for a refund, by staff or by an event change, whatever Midtrans answers and wherever the
-- connection is lost, either fails and stores nothing; or the order has a refund, which did not fail or
-- staff asks, and nothing is stored; or an event change reopens the order's failed refund, to be paid by
-- hand; or the order, which is paid or closed with a payment that took its whole total, has none, and a
-- refund of that total is stored, to be sent, or for an event change to be paid by hand, and for staff
-- only if no ticket of the order is used. Where a refund is stored or reopened the order waits for it,
-- and no other order and no other refund changes.
pub submit-Asks :
    (config : Config) (hash : Text → Text) (now : ℕ) (ask : Text → Option ProviderStatus)
    (parse : Text → Option ℕ) (key token id reason : Text) (is_event : Bool) (s : Session Db)
    → Asks is_event id s.stored
        (submit config hash now ask parse key token id reason is_event s).0
        (submit config hash now ask parse key token id reason is_event s).1.stored
unfolding submit
submit-Asks config hash now ask parse key token id reason is_event s =
    (all s.working s.stored).at s refl refl
  where
    locked :
        (d : Db) (who : Requester) (verified : Prefetch) (row : Order × Payment)
        (existing : Option OrderRefund)
        → paid_order id d ≡ some row
        → refund_row id d ≡ existing
        → Runs d d
            (submit_locked config now parse key who is_event verified row.0 row.1 existing)
            (Asks is_event id d)
    locked d who verified (o, p) existing found refund =
        let (order, payment) = paid_order_parts id d o p found in
        let this : o.id ≡ id =
          (same_iff _ _).0 (select?-found (λ q. same q.id id) d.orders order) in
        subst
          (λ i.
            order_row i d ≡ some o
            → payment_row i d ≡ some p
            → refund_row i d ≡ existing
            → Runs d d (submit_locked config now parse key who is_event verified o p existing)
                (Asks is_event i d))
          this
          (λ order payment refund.
            Asked-locked is_event d o order config now parse key who verified p existing payment
              refund)
          order payment refund

    all :
        (w d : Db)
        → Runs w d
            (submit config hash now ask parse key token id reason is_event)
            (Asks is_event id d)
    all w d =
        Runs-fail_if _ _ _ (λ _. fails _)
          λ _. Runs-keeping _ _ (Keeps-check_admin hash now token is_event) fails λ _ w1.
            Runs-keeping _ _ (Keeps-attempt _ (Keeps-query_stored _)) fails λ before w2.
              Runs-begin _ (fails _) (
                Runs-reads _ _ _ (Reads-requester hash now token id (trim_space reason) is_event)
                  (fails _) (λ e _. fails e)
                  λ who _.
                    Runs-reads _ _ _ (Reads-for_order id) (fails _) (λ e _. fails e)
                      λ _ _.
                        Runs-reads _ _ _ (Reads-query _) (fails _) (λ e _. fails e)
                          λ found is_found.
                            Runs-reads _ _ _ (Reads-or_raise found _) (fails _) (λ e _. fails e)
                              λ row is_row.
                                Runs-reads _ _ _ (Reads-query _) (fails _) (λ e _. fails e)
                                  λ existing is_existing.
                                    locked d who (prefetch config now ask before) row existing
                                      (ok_eq is_found ∙ found_of found _ is_row)
                                      (ok_eq is_existing))
