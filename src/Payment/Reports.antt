-- ===== src/Payment/Reports.antt =====
-- Reports of the gateway keep every paid order backed by a payment (midtrans.go).
use mathlib.Core.Option
use ticket_online.Common.{
  ℕ, ◌≡◌, refl, sym, ap, subst, ◌⊎◌, inl, inr, Bool, true, false, not, ◌&&◌, ◌||◌, Option, none,
  some, List, arith, select?, select?-found, update, Bool-cases,
}
use ticket_online.Common.Text.{Text, same, same_iff}
use ticket_online.Errors.{order_not_found}
use ticket_online.Sql.{Result, ok, Session, commit, ◌>>◌}
use ticket_online.Sql.Reads.{from_option, Reads-query, Reads-pure, Reads-or_raise}
use ticket_online.Sql.Runs.{
  Runs, Runs-reads, Runs-writes, Writes-exec, Runs-begin, Runs-commit_last, Runs-fail_if,
  Runs-assoc,
}
use ticket_online.Sql.Frame.{
  Frame, Runs-frame, Frame-exec, Frame-pure, Frame-if, Frame-attempt, Frame-bind,
}
use ticket_online.Schema.{PaymentStatus, Payment, Order, Db}
use ticket_online.EventState.{State}
use ticket_online.Reservation.Reads.{Reads-for_order}
use ticket_online.Payment.Status.{is_succeeded, is_failed, is_waiting, is_pending}
use ticket_online.Payment.Tickets.{Draw}
use ticket_online.Payment.Expiry.{order_row, expire_locked_order, close_order}
use ticket_online.Payment.Simulate.{update_payment, mark_paid, record_failure}
use ticket_online.Payment.Gateway.{
  payment_at, joined_at, reported, succeeded_late, set_payment, take_late, open_case, grant_refund,
  take_success, take_status, apply_gateway_status,
}
use ticket_online.Payment.Untouched.{money, Frame-issue_and_load_tickets, Frame-return_items}
use ticket_online.Payment.Backed.{
  Backed, BackedBy, Joined, paid_at, success_at, to_paid, changed-BackedBy, paid_at-to_paid,
  paid_at-closed, success_at-this, unpaid, key_of,
}
use ticket_online.Payment.Settled.{Reads-payment_blocked}

abbrev Kept : Result (Unit {0}) → Db → Type 0
Kept r d = Backed d

pub Frame-record_failure : Frame money record_failure
Frame-record_failure = Frame-attempt _ (Frame-exec _ (λ w. refl))

-- The same orders and payments are as well backed.
pub same_money :
    {os : List Order} {ps : List Payment} (w : Db) → money w ≡ (os, ps) → BackedBy os ps → Backed w
same_money w e b = subst (λ (m : List Order × List Payment). BackedBy m.0 m.1) (sym e) b

module _ (now : ℕ) (d : Db) (sound : Backed d) where
  -- The last UPDATE: a success, or any status for an order that is not paid.
  set_payment-Kept :
      (status : PaymentStatus) (id : Text) (p : Payment) (os : List Order) (w : Db)
      → select? (λ q. same q.order_id id) w.payments ≡ some p
      → BackedBy os w.payments
      → ((j : Text) → paid_at j w.orders ≡ true → (paid_at j os ≡ true) ⊎ (j ≡ id))
      → (is_succeeded status ≡ true) ⊎ (paid_at id w.orders ≡ false)
      → Runs w d (set_payment now status id >> commit) Kept
  unfolding set_payment update_payment
  set_payment-Kept status id p os w found b orders how = Runs-assoc _ _ _ (
      Runs-writes _ _ _ (Writes-exec _) (λ _. sound)
        λ _.
          Runs-frame {g = money} _ _
            (Frame-if _ _ _ (Frame-bind _ _ Frame-record_failure (λ _. Frame-pure _))
              (Frame-pure _))
            (λ _. sound)
            λ _ w' e. Runs-commit_last sound (
              same_money w' e (
                changed-BackedBy id (reported now status) (λ q. refl) os w.orders w.payments orders
                  (success how) b)))
    where
      success :
          (is_succeeded status ≡ true) ⊎ (paid_at id w.orders ≡ false)
          → (success_at id (update (λ q. same q.order_id id) (reported now status) w.payments)
              ≡ true)
            ⊎ (paid_at id w.orders ≡ false)
      success (inl good) =
          inl (success_at-this id (reported now status) (λ q. refl) w.payments p (λ q. good) found)
      success (inr free) = inr free

  -- A late success: no order became paid on the way.
  take_late-Kept :
      (gw transaction : Text) (blocked : Bool) (state : State) (id : Text) (p : Payment)
      (os : List Order) (w : Db)
      → select? (λ q. same q.order_id id) w.payments ≡ some p
      → BackedBy os w.payments
      → ((j : Text) → paid_at j w.orders ≡ true → paid_at j os ≡ true)
      → Runs w d (take_late now gw transaction blocked state id p >> commit) Kept
  unfolding take_late update_payment open_case
  take_late-Kept gw transaction blocked state id p os w found b orders = Runs-assoc _ _ _ (
      Runs-writes _ _ _ (Writes-exec _) (λ _. sound)
        λ _. Runs-assoc _ _ _ (
          Runs-writes _ _ _ (Writes-exec _) (λ _. sound)
            λ _.
              Runs-frame {g = money} _ _
                (Frame-if _ _ _ (Frame-exec _ (λ v. unfold grant_refund in refl)) (Frame-pure _))
                (λ _. sound)
                λ _ w' e. Runs-commit_last sound (
                  same_money w' e (
                    changed-BackedBy id (succeeded_late now) (λ q. refl) os w.orders w.payments
                      (λ j h. inl (orders j h))
                      (inl (
                        success_at-this id (succeeded_late now) (λ q. refl) w.payments p (λ q. refl)
                          found))
                      b))))

  -- The order was closed and its stock returned before.
  closed_late-Kept :
      (gw transaction : Text) (blocked : Bool) (state : State) (o : Order) (p : Payment) (w : Db)
      → Joined d o p
      → money w ≡ money d
      → Runs
          (close_order o.id w)
          d
          (take_late now gw transaction blocked state o.id p >> commit)
          Kept
  unfolding close_order
  closed_late-Kept gw transaction blocked state o p w j e =
      let same_orders : w.orders ≡ d.orders = ap (λ (m : List Order × List Payment). m.0) e in
      let same_payments : w.payments ≡ d.payments = ap (λ (m : List Order × List Payment). m.1) e in
      take_late-Kept gw transaction blocked state o.id p d.orders (close_order o.id w)
        (rw same_payments j.payment) (subst (BackedBy d.orders) (sym same_payments) sound)
        λ k h.
          subst (λ os. paid_at k os ≡ true) same_orders
            (paid_at-closed o.id k _ w.orders (ground arith) h)

  take_success-Kept :
      (draw : Draw) (gw transaction : Text) (blocked : Bool) (state : State) (o : Order)
      (p : Payment)
      → Joined d o p
      → Runs d d (take_success now draw gw transaction blocked state o p >> commit) Kept
  unfolding take_success mark_paid
  take_success-Kept draw gw transaction blocked state o p j =
      elim (Bool-cases (blocked && is_pending o.status)) [
        | inl stopped ↦ rw stopped (
            unfold expire_locked_order in
            Runs-assoc _ _ _ (
              Runs-assoc _ _ _ (
                Runs-reads _ _ _ (Reads-query _) sound (λ _ _. sound)
                  λ items _. Runs-assoc _ _ _ (
                    Runs-frame {g = money} _ _ (Frame-return_items items) (λ _. sound)
                      λ _ w e.
                        Runs-writes _ _ _ (Writes-exec _) (λ _. sound)
                          λ _. closed_late-Kept gw transaction blocked state o p w j e))))
        | inr other ↦ rw other (elim (Bool-cases (not (is_pending o.status))) [
          | inl settled ↦ rw settled (
              take_late-Kept gw transaction blocked state o.id p d.orders d j.payment sound
                (λ k h. h))
          | inr waiting ↦ rw waiting (
              Runs-assoc _ _ _ (
                Runs-writes _ _ _ (Writes-exec _) (λ _. sound)
                  λ _. Runs-assoc _ _ _ (
                    Runs-frame {g = money} _ _ (Frame-issue_and_load_tickets draw o.id) (λ _. sound)
                      λ _ w e.
                        let same_orders : w.orders ≡ to_paid o.id d.orders =
                          ap (λ (m : List Order × List Payment). m.0) e in
                        let same_payments : w.payments ≡ d.payments =
                          ap (λ (m : List Order × List Payment). m.1) e in
                        set_payment-Kept PaymentStatus.succeeded o.id p d.orders w
                          (rw same_payments j.payment)
                          (subst (BackedBy d.orders) (sym same_payments) sound)
                          (λ k h.
                            paid_at-to_paid o.id k d.orders
                              (subst (λ os. paid_at k os ≡ true) same_orders h))
                          (inl refl))))
        ])
      ]

  take_status-Kept :
      (draw : Draw) (gw transaction : Text) (status : PaymentStatus) (blocked : Bool)
      (state : State) (o : Order) (p : Payment)
      → Joined d o p
      → Runs d d (take_status now draw gw transaction status blocked state o p >> commit) Kept
  unfolding take_status
  take_status-Kept draw gw transaction status blocked state o p j =
      elim (Bool-cases (is_succeeded p.status || (is_failed p.status && is_waiting status))) [
        | inl settled ↦ rw settled (
            Runs-reads _ _ _ (Reads-pure tt) sound (λ _ _. sound)
              λ _ _. Runs-commit_last sound sound)
        | inr fresh ↦ rw fresh (elim (Bool-cases (is_succeeded status)) [
          | inl good ↦ rw good (take_success-Kept draw gw transaction blocked state o p j)
          | inr bad ↦ rw bad (
              set_payment-Kept status o.id p d.orders d j.payment sound (λ k h. inl h)
                (inr (unpaid d o p sound j (ground arith))))
        ])
      ]

-- The rows that the join finds.
order_of :
    (d : Db) (p : Payment) (o : Order)
    → Backed d
    → select? (λ q. same q.order_id p.order_id) d.payments ≡ some p
    → order_row p.order_id d ≡ some o
    → Joined d o p
unfolding paid_at
order_of d p o b at found =
    let this : o.id ≡ p.order_id =
      (same_iff _ _).0 (select?-found (λ v. same v.id p.order_id) d.orders found) in
    record { payment = rw this at; order = rw (this, found) refl }

order_payment-Joined :
    (d : Db) (p : Payment) (found : Option Order) (row : Order × Payment)
    → Backed d
    → select? (λ q. same q.order_id p.order_id) d.payments ≡ some p
    → order_row p.order_id d ≡ found
    → Option.map (λ v. (v, p)) found ≡ some row
    → Joined d row.0 row.1
order_payment-Joined d p none row b at is_found e = absurd (cc)
order_payment-Joined d p (some o) row b at is_found e =
    let pair : (o, p) ≡ row = cc in
    subst (λ (r : Order × Payment). Joined d r.0 r.1) pair (order_of d p o b at is_found)

payment-Joined :
    (gw : Text) (d : Db) (found : Option Payment) (row : Order × Payment)
    → Backed d
    → payment_at gw d ≡ found
    → Option.bind found (λ q. Option.map (λ v. (v, q)) (order_row q.order_id d)) ≡ some row
    → Joined d row.0 row.1
unfolding Option.bind
payment-Joined gw d none row b is_found e = absurd (cc)
payment-Joined gw d (some p) row b is_found e =
    order_payment-Joined d p (order_row p.order_id d) row b (key_of _ d.payments p b.keys is_found)
      refl e

joined-Joined :
    (gw : Text) (d : Db) (joined : Option (Order × Payment)) (row : Order × Payment)
    → Backed d
    → ◌≡◌ {A = Result (Option (Order × Payment))} (ok (joined_at gw d)) (ok joined)
    → from_option joined order_not_found ≡ ok row
    → Joined d row.0 row.1
joined-Joined gw d none row b join e = absurd (cc)
joined-Joined gw d (some r) row b join e =
    let this : joined_at gw d ≡ some row = cc in
    payment-Joined gw d (payment_at gw d) row b refl this

-- A report of the gateway, on every path and wherever the connection is lost, keeps the tables so
-- that each paid order has a payment that succeeded, and each order one payment at most.
pub apply_gateway_status-Backed :
    (now : ℕ) (draw : Draw) (gw gross transaction fraud : Text) (s : Session Db)
    → Backed s.stored
    → Backed (apply_gateway_status now draw gw gross transaction fraud s).1.stored
unfolding apply_gateway_status
apply_gateway_status-Backed now draw gw gross transaction fraud s sound =
    (all_kept s.working s.stored sound).at s refl refl
  where
    all_kept :
        (w d : Db)
        → Backed d
        → Runs w d (apply_gateway_status now draw gw gross transaction fraud) Kept
    all_kept w d sound = Runs-begin _ sound (
        Runs-assoc _ _ _ (
          Runs-reads _ _ _ (Reads-query _) sound (λ _ _. sound)
            λ target _. Runs-assoc _ _ _ (
              Runs-reads _ _ _ (Reads-or_raise target _) sound (λ _ _. sound)
                λ id _. Runs-assoc _ _ _ (
                  Runs-reads _ _ _ (Reads-for_order id) sound (λ _ _. sound)
                    λ state _. Runs-assoc _ _ _ (
                      Runs-reads _ _ _ (Reads-payment_blocked id state) sound (λ _ _. sound)
                        λ blocked _. Runs-assoc _ _ _ (
                          Runs-reads _ _ _ (Reads-query _) sound (λ _ _. sound)
                            λ joined is_joined. Runs-assoc _ _ _ (
                              Runs-reads _ _ _ (Reads-or_raise joined _) sound (λ _ _. sound)
                                λ row is_row. Runs-assoc _ _ _ (
                                  Runs-fail_if _ _ _ (λ _. sound)
                                    λ _.
                                      take_status-Kept now d sound draw gw transaction _ blocked
                                        state row.0 row.1
                                        (joined-Joined gw d joined row sound is_joined
                                          is_row)))))))))
