-- ===== src/Payment/Reconcile.antt =====
-- backend/internal/payment/midtrans_status.go: expireOrderWithMidtrans. What Midtrans answers is the
-- parameter `answers`; an answer that does not come, or does not parse, is `none`.
use ticket_online.Common.{ℕ, Bool, not, ◌&&◌, ◌||◌, Option, none, some, [], ltb, if◌then◌else◌}
use ticket_online.Common.Text.{Text, text, same, to_upper}
use ticket_online.Errors.{provider}
use ticket_online.Sql.{Session, Action, pure, query_stored, or_raise, fail_if, ◌>>=◌, ◌>>◌}
use ticket_online.Sql.Keeps.{Keeps-pure, Keeps-query_stored, Keeps-or_raise, Keeps-fail_if}
use ticket_online.Sql.Preserves.{Preserves, Preserves-Keeps, Preserves-if, Preserves-bind}
use ticket_online.Schema.{Order, Payment, Db}
use ticket_online.Payment.Status.{
  is_pending, is_waiting, is_gateway_success, is_gateway_failure, payment_amount_matches,
}
use ticket_online.Payment.Tickets.{Draw}
use ticket_online.Payment.Expiry.{order_payment, gateway_of, has_status, expire_order_locally}
use ticket_online.Payment.Gateway.{apply_gateway_status}
use ticket_online.Payment.Backed.{Backed}
use ticket_online.Payment.Reports.{apply_gateway_status-Backed}
use ticket_online.Payment.Settling.{expire_order_locally-Backed}

pub record GatewayStatus : Type 0 where
  pub gross_amount : Text
  pub transaction : Text
  pub fraud : Text

-- The status at first, whether a cancellation is accepted, and the status after it.
pub record Answers : Type 0 where
  pub has_key : Bool
  pub status : Option GatewayStatus
  pub cancels : Bool
  pub status_after : Option GatewayStatus

abbrev amount_of : Option Payment → ℕ
amount_of none = 0
amount_of (some p) = p.amount

unfoldable pub apply_answer : ℕ → Draw → Text → GatewayStatus → Action Db (Unit {0})
apply_answer now draw gw a = apply_gateway_status now draw gw a.gross_amount a.transaction a.fraud

unfoldable pub fail_and_expire : ℕ → Draw → Text → Text → GatewayStatus → Action Db (Unit {0})
unfolding apply_answer
fail_and_expire now draw id gw a = apply_answer now draw gw a >> expire_order_locally now id gw

-- After the cancellation.
unfoldable pub confirm_cancel : ℕ → Draw → Answers → Text → Text → ℕ → Action Db (Unit {0})
unfolding fail_and_expire apply_answer
confirm_cancel now draw answers id gw amount = do
  fail_if (not answers.cancels) provider
  a ← or_raise answers.status_after provider
  fail_if (not (payment_amount_matches amount a.gross_amount)) provider
  if is_gateway_success a.transaction a.fraud
      then apply_answer now draw gw a
      else (fail_if (not (is_gateway_failure a.transaction)) provider
          >> fail_and_expire now draw id gw a)

unfoldable pub reconcile : ℕ → Draw → Answers → Text → Text → ℕ → Action Db (Unit {0})
unfolding confirm_cancel fail_and_expire apply_answer
reconcile now draw answers id gw amount = do
  fail_if (not answers.has_key) provider
  a ← or_raise answers.status provider
  fail_if (not (payment_amount_matches amount a.gross_amount)) provider
  if is_gateway_success a.transaction a.fraud
      then apply_answer now draw gw a
      else if is_gateway_failure a.transaction
      then fail_and_expire now draw id gw a
      else (fail_if (not (same (to_upper a.transaction) (text "PENDING"))) provider
          >> confirm_cancel now draw answers id gw amount)

unfoldable pub expire_found :
    ℕ → Draw → Answers → Text → Option (Order × Option Payment) → Action Db (Unit {0})
unfolding reconcile
expire_found now draw answers id none = pure tt
expire_found now draw answers id (some (o, p)) =
    if not (is_pending o.status) || ltb now o.expires_at
    then pure tt
    else if not (same (gateway_of p) []) && has_status is_waiting p
    then reconcile now draw answers id (gateway_of p) (amount_of p)
    else expire_order_locally now id (gateway_of p)

unfoldable pub expire_order_with_midtrans : ℕ → Draw → Answers → Text → Action Db (Unit {0})
unfolding expire_found
expire_order_with_midtrans now draw answers id = do
  found ← query_stored (order_payment id)
  expire_found now draw answers id found

apply_answer-Preserves :
    (now : ℕ) (draw : Draw) (gw : Text) (a : GatewayStatus)
    → Preserves Backed (apply_answer now draw gw a)
unfolding apply_answer
apply_answer-Preserves now draw gw a = record {
  at = apply_gateway_status-Backed now draw gw a.gross_amount a.transaction a.fraud;
}

expire-Preserves : (now : ℕ) (id gw : Text) → Preserves Backed (expire_order_locally now id gw)
expire-Preserves now id gw = record { at = expire_order_locally-Backed now id gw }

fail_and_expire-Preserves :
    (now : ℕ) (draw : Draw) (id gw : Text) (a : GatewayStatus)
    → Preserves Backed (fail_and_expire now draw id gw a)
unfolding fail_and_expire
fail_and_expire-Preserves now draw id gw a =
    Preserves-bind _ _ (apply_answer-Preserves now draw gw a) (λ _. expire-Preserves now id gw)

confirm_cancel-Preserves :
    (now : ℕ) (draw : Draw) (answers : Answers) (id gw : Text) (amount : ℕ)
    → Preserves Backed (confirm_cancel now draw answers id gw amount)
unfolding confirm_cancel
confirm_cancel-Preserves now draw answers id gw amount =
    Preserves-bind _ _ (Preserves-Keeps _ (Keeps-fail_if _ _)) λ _.
      Preserves-bind _ _ (Preserves-Keeps _ (Keeps-or_raise answers.status_after _)) λ a.
        Preserves-bind _ _ (Preserves-Keeps _ (Keeps-fail_if _ _)) λ _.
          Preserves-if (is_gateway_success a.transaction a.fraud) _ _
            (apply_answer-Preserves now draw gw a)
            (Preserves-bind _ _ (Preserves-Keeps _ (Keeps-fail_if _ _))
              (λ _. fail_and_expire-Preserves now draw id gw a))

reconcile-Preserves :
    (now : ℕ) (draw : Draw) (answers : Answers) (id gw : Text) (amount : ℕ)
    → Preserves Backed (reconcile now draw answers id gw amount)
unfolding reconcile
reconcile-Preserves now draw answers id gw amount =
    Preserves-bind _ _ (Preserves-Keeps _ (Keeps-fail_if _ _)) λ _.
      Preserves-bind _ _ (Preserves-Keeps _ (Keeps-or_raise answers.status _)) λ a.
        Preserves-bind _ _ (Preserves-Keeps _ (Keeps-fail_if _ _)) λ _.
          Preserves-if (is_gateway_success a.transaction a.fraud) _ _
            (apply_answer-Preserves now draw gw a)
            (Preserves-if (is_gateway_failure a.transaction) _ _
              (fail_and_expire-Preserves now draw id gw a)
              (Preserves-bind _ _ (Preserves-Keeps _ (Keeps-fail_if _ _))
                (λ _. confirm_cancel-Preserves now draw answers id gw amount)))

expire_found-Preserves :
    (now : ℕ) (draw : Draw) (answers : Answers) (id : Text)
    (found : Option (Order × Option Payment))
    → Preserves Backed (expire_found now draw answers id found)
unfolding expire_found
expire_found-Preserves now draw answers id none = Preserves-Keeps _ (Keeps-pure _)
expire_found-Preserves now draw answers id (some (o, p)) =
    Preserves-if (not (is_pending o.status) || ltb now o.expires_at) _ _
      (Preserves-Keeps _ (Keeps-pure _))
      (Preserves-if (not (same (gateway_of p) []) && has_status is_waiting p) _ _
        (reconcile-Preserves now draw answers id (gateway_of p) (amount_of p))
        (expire-Preserves now id (gateway_of p)))

-- The expiry of an order with Midtrans, whatever Midtrans answers and wherever the connection is
-- lost, keeps the tables so that each paid order has a payment that succeeded, and each order one
-- payment at most.
pub expire_order_with_midtrans-Backed :
    (now : ℕ) (draw : Draw) (answers : Answers) (id : Text) (s : Session Db)
    → Backed s.stored
    → Backed (expire_order_with_midtrans now draw answers id s).1.stored
unfolding expire_order_with_midtrans
expire_order_with_midtrans-Backed now draw answers id =
    (Preserves-bind _ _ (Preserves-Keeps _ (Keeps-query_stored _))
      (λ found. expire_found-Preserves now draw answers id found)).at
