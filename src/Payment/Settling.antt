-- ===== src/Payment/Settling.antt =====
-- The expiry of unpaid orders and the simulated payments keep every paid order backed by a payment
-- (expiry.go, payment.go).
use ticket_online.Common.{
  ℕ, ◌≡◌, refl, ◌∙◌, inl, inr, Bool, true, false, not, ◌&&◌, ◌||◌, Option, none, some, List, [],
  ◌∷◌, ◌++◌, arith, select?-found, update, any, All, ltb,
}
use ticket_online.Common.Text.{Text, same, same_iff}
use ticket_online.Errors.{order_not_found}
use ticket_online.Sql.{Result, ok, Session, Action, raise, ◌>>=◌}
use ticket_online.Sql.Reads.{from_option, Reads-query, Reads-or_raise, Reads-on_no_rows}
use ticket_online.Sql.Runs.{
  Runs, Runs-pure, Runs-raise, Runs-reads, Runs-writes, Writes-exec, Runs-begin, Runs-commit,
  Runs-commit_last, Runs-fail_if, Runs-assoc, Runs-if, Runs-exec_checked,
}
use ticket_online.Sql.Frame.{Runs-frame}
use ticket_online.Schema.{Payment, Order, Db}
use ticket_online.Reservation.Reads.{Reads-for_order}
use ticket_online.Payment.Status.{is_succeeded, is_pending, is_paid}
use ticket_online.Payment.Tickets.{Draw}
use ticket_online.Payment.Expiry.{
  is_kept, order_row, payment_row, expire_locked_order, close_order, expire_unpaid,
  expire_order_locally,
}
use ticket_online.Payment.Simulate.{
  PaymentRequest, same_method, again, refused_amount, mark_paid, update_payment, is_gateway, first,
  insert_payment, settle, replay, pay_again, pay_first, pay, pay_due, simulate_valid, simulate,
  after_parse, parse_request,
}
use ticket_online.Payment.Untouched.{money, Frame-issue_and_load_tickets, Frame-return_items}
use ticket_online.Payment.Backed.{
  changed-BackedBy, success_at-this, append-BackedBy, Backed, paid_at, success_at, closed-BackedBy,
  paid-BackedBy,
}
use ticket_online.Payment.Settled.{Reads-payment_blocked}
use ticket_online.Payment.Reports.{same_money, Frame-record_failure}

-- expireLockedOrder and the rest `k` of the transaction, from tables with the same orders.
pub Runs-expire_locked_order :
    {A : Type 0} (d : Db) (id : Text) (k : Unit {0} → Action Db A) (Q : Result A → Db → Type 0)
    → Backed d
    → ((r : Result A) → Q r d)
    → ((w : Db) → Backed w → Runs w d (k tt) Q)
    → Runs d d (expire_locked_order id >>= k) Q
unfolding expire_locked_order
Runs-expire_locked_order d id k Q sound kept goes = Runs-assoc _ _ _ (
    Runs-reads _ _ _ (Reads-query _) (kept _) (λ _ _. kept _)
      λ items _. Runs-assoc _ _ _ (
        Runs-frame {g = money} _ _ (Frame-return_items items) (λ _. kept _)
          λ _ w e.
            Runs-writes _ _ _ (Writes-exec _) (λ _. kept _)
              λ _. goes (close_order id w) (closed w (same_money w e sound))))
  where
    closed : (w : Db) → Backed w → Backed (close_order id w)
    closed w b = unfold close_order in closed-BackedBy id _ w.orders w.payments (ground arith) b

expire_unpaid-Kept :
    (now : ℕ) (id expected : Text) (d : Db) (found : Option (Order × Option Payment))
    → Backed d
    → Runs d d (expire_unpaid now id expected found) (λ _ d'. Backed d')
unfolding expire_unpaid
expire_unpaid-Kept now id expected d none b = Runs-pure _ b
expire_unpaid-Kept now id expected d (some (o, p)) b =
    Runs-if (is_kept now expected o p) _ _ (λ _. Runs-pure _ b)
      λ _. Runs-expire_locked_order d id _ _ b (λ _. b) λ w bw. Runs-commit_last b bw

-- Expiring an unpaid order keeps the tables so that each paid order has a payment that succeeded.
pub expire_order_locally-Backed :
    (now : ℕ) (id expected : Text) (s : Session Db)
    → Backed s.stored
    → Backed (expire_order_locally now id expected s).1.stored
unfolding expire_order_locally
expire_order_locally-Backed now id expected s sound = (kept s.working s.stored sound).at s refl refl
  where
    kept :
        (w d : Db) → Backed d → Runs w d (expire_order_locally now id expected) (λ _ d'. Backed d')
    kept w d b = Runs-begin _ b (
        Runs-reads _ _ _ (Reads-for_order id) b (λ _ _. b)
          λ _ _.
            Runs-reads _ _ _ (Reads-query _) b (λ _ _. b)
              λ found _. expire_unpaid-Kept now id expected d found b)

-- The UPDATE that a simulated payment makes.
again_lem :
    (now : ℕ) (r : PaymentRequest) (o : Order) (w d : Db)
    → refused_amount o.total (again now r o) o.id d ≡ some w
    → (w.orders ≡ d.orders)
      × (w.payments ≡ update (λ q. same q.order_id o.id) (again now r o) d.payments)
unfolding update_payment
again_lem now r o w d e = ground arith

-- The key on order_id, and what the INSERT adds.
no_payment :
    (p : Payment) (ps : List Payment)
    → any
        (λ q.
          same q.id p.id
          || same q.order_id p.order_id
          || is_gateway q.gateway_order_id p.gateway_order_id)
        ps
      ≡ false
    → All (λ q. same q.order_id p.order_id ≡ false) ps
no_payment p [] h = tt
no_payment p (q ∷ qs) h = (ground arith, no_payment p qs (ground arith))

insert_payment_lem :
    (p : Payment) (d w : Db)
    → insert_payment p d ≡ some w
    → (w.orders ≡ d.orders)
      × (w.payments ≡ d.payments ++ p ∷ [])
      × All (λ q. same q.order_id p.order_id ≡ false) d.payments
unfolding insert_payment
insert_payment_lem p d w e = (ground arith, ground arith, no_payment p d.payments (ground arith))

module _ (now : ℕ) (draw : Draw) (d : Db) (sound : Backed d) where
  -- The end of Simulate, from tables that hold the new payment row.
  settle-Kept :
      (replayed succeeds : Bool) (o : Order) (p : Payment) (w : Db)
      → Backed w
      → (succeeds ≡ true → success_at o.id w.payments ≡ true)
      → Runs w d (settle draw replayed succeeds o p) (λ _ d'. Backed d')
  unfolding settle mark_paid
  settle-Kept replayed true o p w b success =
      Runs-writes _ _ _ (Writes-exec _) (λ _. sound)
        λ _.
          Runs-frame {g = money} _ _ (Frame-issue_and_load_tickets draw o.id) (λ _. sound)
            λ tickets w' e.
              let paid : Backed w' =
                same_money w' e (paid-BackedBy o.id w.orders w.payments (success refl) b) in
              Runs-commit _ sound (Runs-pure _ paid)
  settle-Kept replayed false o p w b success =
      Runs-frame {g = money} _ _ Frame-record_failure (λ _. sound)
        λ _ w' e. Runs-commit _ sound (Runs-pure _ (same_money w' e b))

  replay-Kept :
      (r : PaymentRequest) (o : Order) (p : Payment)
      → Runs d d (replay draw r o p) (λ _ d'. Backed d')
  unfolding replay
  replay-Kept r o p =
      Runs-if (is_succeeded p.status && r.succeeds && same_method r.method p.method) _ _
        (λ _.
          Runs-frame {g = money} _ _ (Frame-issue_and_load_tickets draw o.id) (λ _. sound)
            λ tickets w' e. Runs-commit _ sound (Runs-pure _ (same_money w' e sound)))
        (λ _. Runs-raise _ sound)

  pay_again-Kept :
      (r : PaymentRequest) (o : Order) (p : Payment)
      → payment_row o.id d ≡ some p
      → paid_at o.id d.orders ≡ false
      → Runs d d (pay_again now draw r o p) (λ _ d'. Backed d')
  unfolding pay_again update_payment
  pay_again-Kept r o p found waiting =
      Runs-if (is_succeeded p.status) _ _ (λ _. Runs-raise _ sound)
        λ _.
          Runs-if (same_method p.method r.method && not r.succeeds) _ _ (λ _. Runs-pure _ sound)
            λ _. Runs-exec_checked _ _ _ sound sound λ w e.
              let (same_orders, same_payments) = again_lem now r o w d e in
              settle-Kept true r.succeeds o (again now r o p) w
                (rw (same_orders, same_payments)
                  (changed-BackedBy o.id (again now r o) (λ q. refl) d.orders d.orders d.payments
                    (λ j h. inl h) (inr waiting) sound))
                (λ good. rw same_payments (
                  success_at-this o.id (again now r o) (λ q. refl) d.payments p (λ q. rw good refl)
                    found))

  pay_first-Kept :
      (new_id : Text) (r : PaymentRequest) (o : Order)
      → Runs d d (pay_first now draw new_id r o) (λ _ d'. Backed d')
  unfolding pay_first
  pay_first-Kept new_id r o =
      Runs-fail_if _ _ _ (λ _. sound)
        λ _. Runs-exec_checked _ _ _ sound sound λ w e.
          let (same_orders, new_payments, fresh) =
            insert_payment_lem (first now new_id r o) d w e in
          let (b, success) =
            append-BackedBy d.orders d.payments (first now new_id r o) fresh sound in
          settle-Kept false r.succeeds o _ w (rw (same_orders, new_payments) b)
            (λ good. rw new_payments (success ∙ rw good refl))

  pay-Kept :
      (found : Option Payment) (new_id : Text) (r : PaymentRequest) (o : Order)
      → payment_row o.id d ≡ found
      → paid_at o.id d.orders ≡ is_paid o.status
      → Runs d d (pay found now draw new_id r o) (λ _ d'. Backed d')
  unfolding pay
  pay-Kept none new_id r o is_found status = pay_first-Kept new_id r o
  pay-Kept (some p) new_id r o is_found status =
      Runs-if (is_paid o.status) _ _ (λ _. replay-Kept r o p)
        λ unpaid. pay_again-Kept r o p is_found (status ∙ unpaid)

  pay_due-Kept :
      (new_id : Text) (r : PaymentRequest) (o : Order)
      → paid_at o.id d.orders ≡ is_paid o.status
      → Runs d d (pay_due now draw new_id r o) (λ _ d'. Backed d')
  unfolding pay_due
  pay_due-Kept new_id r o status =
      Runs-if (is_pending o.status && not (ltb now o.expires_at)) _ _
        (λ _.
          Runs-expire_locked_order d o.id _ _ sound (λ _. sound)
            λ w b. Runs-commit _ sound (Runs-raise _ b))
        (λ _.
          Runs-reads _ _ _ (Reads-query _) sound (λ _ _. sound)
            λ found is_found. pay-Kept found new_id r o (ground arith) status)

-- The row of an order has its status.
paid_at-row :
    (id : Text) (d : Db) (o : Order)
    → order_row id d ≡ some o
    → paid_at o.id d.orders ≡ is_paid o.status
unfolding paid_at
paid_at-row id d o found =
    let this : o.id ≡ id = (same_iff _ _).0 (select?-found (λ v. same v.id id) d.orders found) in
    rw (this, found) refl

simulate_valid-Kept :
    (now : ℕ) (draw : Draw) (new_id id : Text) (r : PaymentRequest) (w d : Db)
    → Backed d
    → Runs w d (simulate_valid now draw new_id id r) (λ _ d'. Backed d')
unfolding simulate_valid
simulate_valid-Kept now draw new_id id r w d b = Runs-begin _ b (
    Runs-reads _ _ _ (Reads-on_no_rows _ _ _ (Reads-for_order id)) b (λ _ _. b)
      λ state _.
        Runs-reads _ _ _ (Reads-payment_blocked id state) b (λ _ _. b)
          λ blocked _.
            Runs-fail_if _ _ _ (λ _. b)
              λ _.
                Runs-reads _ _ _ (Reads-query _) b (λ _ _. b)
                  λ found is_found.
                    Runs-reads _ _ _ (Reads-or_raise found _) b (λ _ _. b)
                      λ o is_o.
                        Runs-fail_if _ _ _ (λ _. b)
                          λ _.
                            pay_due-Kept now draw d b new_id r o
                              (paid_at-row id d o (found_row found o is_found is_o)))
  where
    found_row :
        (found : Option Order) (o : Order)
        → ◌≡◌ {A = Result (Option Order)} (ok (order_row id d)) (ok found)
        → from_option found order_not_found ≡ ok o
        → order_row id d ≡ some o
    found_row none o e h = absurd (cc)
    found_row (some v) o e h = cc

-- A simulated payment, whatever is asked and wherever the connection is lost, keeps the tables so
-- that each paid order has a payment that succeeded, and each order one payment at most.
pub simulate-Backed :
    (now : ℕ) (draw : Draw) (new_id id method result : Text) (s : Session Db)
    → Backed s.stored
    → Backed (simulate now draw new_id id method result s).1.stored
unfolding simulate
simulate-Backed now draw new_id id method result s sound = go (parse_request method result)
  where
    go : (r : Option PaymentRequest) → Backed (after_parse r now draw new_id id s).1.stored
    go none = unfold raise in sound
    go (some r) = (simulate_valid-Kept now draw new_id id r s.working s.stored sound).at s refl refl
