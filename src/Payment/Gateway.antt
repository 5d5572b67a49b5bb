-- ===== src/Payment/Gateway.antt =====
-- backend/internal/payment/midtrans.go and midtrans_status.go: what Midtrans reports of a payment.
use mathlib.Core.Option
use ticket_online.Common.{
  ℕ, Bool, true, false, not, ◌&&◌, ◌||◌, Option, none, some, List, [], ◌∷◌, ◌++◌, select?, update,
  any, leb, if◌then◌else◌,
}
use ticket_online.Common.Text.{Text, same}
use ticket_online.Errors.{order_not_found, invalid_request}
use ticket_online.Sql.{Action, pure, query, or_raise, exec, begin, commit, fail_if, ◌>>=◌, ◌>>◌}
use ticket_online.Schema.{Order, PaymentStatus, Payment, PaymentCase, EventChange, RefundRight, Db}
use ticket_online.EventState.{State, for_order, payment_blocked}
use ticket_online.Payment.Status.{
  is_pending, is_waiting, is_failed, is_succeeded, or_now, new_status, format_amount,
}
use ticket_online.Payment.Tickets.{Draw, issue_and_load_tickets}
use ticket_online.Payment.Expiry.{expire_locked_order, order_row}
use ticket_online.Payment.Simulate.{update_payment, mark_paid, record_failure}

abbrev pub has_gateway : Text → Payment → Bool
has_gateway gw p = elim p.gateway_order_id [ none ↦ false | some g ↦ same g gw ]

abbrev pub payment_at : Text → Db → Option Payment
payment_at gw d = select? (has_gateway gw) d.payments

-- orders JOIN payments WHERE gateway_order_id = ?
abbrev pub joined_at : Text → Db → Option (Order × Payment)
joined_at gw d =
    Option.bind (payment_at gw d) λ p. Option.map (λ o. (o, p)) (order_row p.order_id d)

-- INSERT INTO payment_reconciliation_cases … ON DUPLICATE KEY UPDATE provider_status
unfoldable pub open_case : PaymentCase → Db → Db
open_case c d = record d {
  payment_cases =
      if any (λ e. same e.gateway_order_id c.gateway_order_id) d.payment_cases
      then update (λ e. same e.gateway_order_id c.gateway_order_id)
          (λ e. record e { provider_status = c.provider_status }) d.payment_cases
      else d.payment_cases ++ c ∷ [];
}

-- The change of an event with the greatest version.
abbrev later : EventChange → Option EventChange → EventChange
later c none = c
later c (some e) = if leb e.version c.version then c else e

abbrev last_change : Text → List EventChange → Option EventChange
last_change id [] = none
last_change id (c ∷ cs) =
    let rest = last_change id cs in if same c.event_id id then some (later c rest) else rest

abbrev put_right : Text → Option EventChange → List RefundRight → List RefundRight
put_right id none rs = rs
put_right id (some c) rs =
    if any (λ r. same r.order_id id) rs
    then update (λ r. same r.order_id id) (λ r. record r { requested = true }) rs
    else rs ++ record { order_id = id; change_id = c.id; requested = true } ∷ []

-- INSERT INTO event_refund_rights … ON DUPLICATE KEY UPDATE requested = TRUE
unfoldable pub grant_refund : Text → Text → Db → Db
grant_refund id event_id d = record d {
  refund_rights = put_right id (last_change event_id d.event_changes) d.refund_rights;
}

abbrev pub succeeded_late : ℕ → Payment → Payment
succeeded_late now q = record q {
  status = PaymentStatus.succeeded;
  started_at = or_now q.started_at now;
  paid_at = some now;
}

-- A success for an order that is no longer pending: the money is there, the tickets are not.
unfoldable pub take_late : ℕ → Text → Text → Bool → State → Text → Payment → Action Db (Unit {0})
unfolding open_case grant_refund update_payment
take_late now gw transaction blocked state id p = do
  exec (
      open_case (record {
        order_id = id;
        gateway_order_id = gw;
        amount = p.amount;
        provider_status = transaction;
        is_open = true;
      }))
  exec (update_payment id (succeeded_late now))
  if blocked then exec (grant_refund id state.id) else pure tt

abbrev started : PaymentStatus → Option ℕ → ℕ → Option ℕ
started status at now = if is_succeeded status then or_now at now else at

abbrev paid_now : PaymentStatus → ℕ → Option ℕ
paid_now status now = if is_succeeded status then some now else none

abbrev pub reported : ℕ → PaymentStatus → Payment → Payment
reported now status q = record q {
  status = status;
  started_at = started status q.started_at now;
  paid_at = paid_now status now;
}

-- The last UPDATE, and the count of a failure.
unfoldable pub set_payment : ℕ → PaymentStatus → Text → Action Db (Unit {0})
unfolding update_payment
set_payment now status id = do
  exec (update_payment id (reported now status))
  if is_failed status then record_failure >> pure tt else pure tt

-- A success: an order that is blocked gives its stock back first and counts as cancelled.
unfoldable pub take_success :
    ℕ → Draw → Text → Text → Bool → State → Order → Payment → Action Db (Unit {0})
unfolding expire_locked_order take_late mark_paid issue_and_load_tickets set_payment
take_success now draw gw transaction blocked state o p =
    if blocked && is_pending o.status
    then expire_locked_order o.id >> take_late now gw transaction blocked state o.id p
    else if not (is_pending o.status)
    then take_late now gw transaction blocked state o.id p
    else do
      exec (mark_paid o.id)
      issue_and_load_tickets draw o.id
      set_payment now PaymentStatus.succeeded o.id

-- What is already settled stays.
unfoldable pub take_status :
    ℕ → Draw → Text → Text → PaymentStatus → Bool → State → Order → Payment → Action Db (Unit {0})
unfolding take_success set_payment
take_status now draw gw transaction status blocked state o p =
    if is_succeeded p.status || (is_failed p.status && is_waiting status)
    then pure tt
    else if is_succeeded status
    then take_success now draw gw transaction blocked state o p
    else set_payment now status o.id

abbrev order_of_payment : Text → Db → Option Text
order_of_payment gw d = Option.map (λ p. p.order_id) (payment_at gw d)

unfoldable pub apply_gateway_status_tx : ℕ → Draw → Text → Text → Text → Text → Action Db (Unit {0})
unfolding take_status new_status format_amount
apply_gateway_status_tx now draw gw gross transaction fraud = do
  target ← query (order_of_payment gw)
  id ← or_raise target order_not_found
  state ← for_order id
  blocked ← payment_blocked id state
  found ← query (joined_at gw)
  row ← or_raise found order_not_found
  fail_if (not (same (format_amount row.1.amount) gross)) invalid_request
  take_status now draw gw transaction (new_status transaction fraud) blocked state row.0 row.1

unfoldable pub apply_gateway_status : ℕ → Draw → Text → Text → Text → Text → Action Db (Unit {0})
unfolding apply_gateway_status_tx
apply_gateway_status now draw gw gross transaction fraud = do
  begin
  apply_gateway_status_tx now draw gw gross transaction fraud
  commit
