-- ===== src/Payment/Settled.antt =====
-- Reports of the gateway that change nothing (midtrans.go, ApplyGatewayStatusTx).
use mathlib.Core.Option
use ticket_online.Common.{
  ℕ, ◌≡◌, refl, sym, subst, ◌⊎◌, inl, inr, Bool, true, false, not, Option, none, some, arith,
  Bool-cases, if◌then◌else◌,
}
use ticket_online.Common.Text.{Text, same}
use ticket_online.Errors.{order_not_found, invalid_request}
use ticket_online.Sql.{Result, ok, Session, fail_if, commit, ◌>>◌}
use ticket_online.Sql.Reads.{from_option, Reads, Reads-query, Reads-pure, Reads-or_raise}
use ticket_online.Sql.Runs.{
  Runs, Runs-reads, Runs-begin, Runs-commit_last, Runs-fail_if, Runs-assoc,
}
use ticket_online.Schema.{PaymentStatus, Payment, Order, Db}
use ticket_online.EventState.{State, payment_blocked, can_sell, is_stopped}
use ticket_online.Reservation.Reads.{Reads-for_order}
use ticket_online.Payment.Status.{is_succeeded, format_amount}
use ticket_online.Payment.Expiry.{order_row}
use ticket_online.Payment.Tickets.{Draw}
use ticket_online.Payment.Gateway.{payment_at, joined_at, take_status, apply_gateway_status}

pub Reads-payment_blocked :
    (id : Text) (state : State)
    → Reads
        (payment_blocked id state)
        (λ d. ok (if not (can_sell state) then true else is_stopped id d))
unfolding payment_blocked
Reads-payment_blocked id state = elim (Bool-cases (not (can_sell state))) [
  | inl shut ↦ rw shut (Reads-pure true)
  | inr free ↦ rw free (Reads-query _)
]

joined_payment :
    (o : Option Order) (p : Payment) (row : Order × Payment)
    → Option.map (λ v. (v, p)) o ≡ some row
    → row.1 ≡ p
joined_payment none p row h = absurd (cc)
joined_payment (some o) p row h = cc

-- The joined row of a gateway order has its payment.
joined_row :
    (gw : Text) (d : Db) (p : Payment) (joined : Option (Order × Payment)) (row : Order × Payment)
    → payment_at gw d ≡ some p
    → ◌≡◌ {A = Result (Option (Order × Payment))} (ok (joined_at gw d)) (ok joined)
    → from_option joined order_not_found ≡ ok row
    → row.1 ≡ p
unfolding Option.bind
joined_row gw d p none row found join e = absurd (cc)
joined_row gw d p (some r) row found join e =
    let this : joined_at gw d ≡ some row = cc in
    joined_payment (order_row p.order_id d) p row (
      subst
        (λ (o : Option Payment).
          Option.bind o (λ q. Option.map (λ v. (v, q)) (order_row q.order_id d)) ≡ some row)
        found this)

-- The last two steps, for a row that is settled or whose amount is another.
finish_unchanged :
    (now : ℕ) (draw : Draw) (gw gross transaction : Text) (status : PaymentStatus) (blocked : Bool)
    (state : State) (row : Order × Payment) (d : Db)
    → (is_succeeded row.1.status ≡ true) ⊎ (same (format_amount row.1.amount) gross ≡ false)
    → Runs d d
        ((fail_if (not (same (format_amount row.1.amount) gross)) invalid_request
            >> take_status now draw gw transaction status blocked state row.0 row.1)
          >> commit)
        (λ _ d'. d' ≡ d)
unfolding take_status
finish_unchanged now draw gw gross transaction status blocked state row d (inl done) =
    Runs-assoc _ _ _ (
      Runs-fail_if _ _ _ (λ _. refl)
        λ _.
          rw done
            (Runs-reads _ _ _ (Reads-pure tt) refl (λ _ _. refl) λ _ _. Runs-commit_last refl refl))
finish_unchanged now draw gw gross transaction status blocked state row d (inr other) =
    Runs-assoc _ _ _ (Runs-fail_if _ _ _ (λ _. refl) λ fits. absurd (ground arith))

-- A report for a payment that has succeeded, or with another amount than the payment's, changes
-- nothing in the tables, whatever it says and wherever the connection is lost.
pub apply_gateway_status-unchanged :
    (now : ℕ) (draw : Draw) (gw gross transaction fraud : Text) (p : Payment) (s : Session Db)
    → payment_at gw s.stored ≡ some p
    → (is_succeeded p.status ≡ true) ⊎ (same (format_amount p.amount) gross ≡ false)
    → (apply_gateway_status now draw gw gross transaction fraud s).1.stored ≡ s.stored
unfolding apply_gateway_status
apply_gateway_status-unchanged now draw gw gross transaction fraud p s found settled =
    (all_unchanged s.working s.stored found).at s refl refl
  where
    all_unchanged :
        (w d : Db)
        → payment_at gw d ≡ some p
        → Runs w d (apply_gateway_status now draw gw gross transaction fraud) (λ _ d'. d' ≡ d)
    all_unchanged w d found = Runs-begin _ refl (
        Runs-assoc _ _ _ (
          Runs-reads _ _ _ (Reads-query _) refl (λ _ _. refl)
            λ target _. Runs-assoc _ _ _ (
              Runs-reads _ _ _ (Reads-or_raise target _) refl (λ _ _. refl)
                λ id _. Runs-assoc _ _ _ (
                  Runs-reads _ _ _ (Reads-for_order id) refl (λ _ _. refl)
                    λ state _. Runs-assoc _ _ _ (
                      Runs-reads _ _ _ (Reads-payment_blocked id state) refl (λ _ _. refl)
                        λ blocked _. Runs-assoc _ _ _ (
                          Runs-reads _ _ _ (Reads-query _) refl (λ _ _. refl)
                            λ joined is_joined. Runs-assoc _ _ _ (
                              Runs-reads _ _ _ (Reads-or_raise joined _) refl (λ _ _. refl)
                                λ row is_row.
                                  finish_unchanged now draw gw gross transaction _ blocked state row
                                    d
                                    (subst
                                      (λ (q : Payment).
                                        (is_succeeded q.status ≡ true)
                                        ⊎ (same (format_amount q.amount) gross ≡ false))
                                      (sym (joined_row gw d p joined row found is_joined is_row))
                                      settled))))))))
