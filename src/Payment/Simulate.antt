-- ===== src/Payment/Simulate.antt =====
-- backend/internal/payment/payment.go: Validate and Simulate. `new_id` is the random id of a
-- payment.
use ticket_online.Common.{
  ℕ, Bool, true, false, not, ◌&&◌, ◌||◌, Option, none, some, List, [], ◌∷◌, ◌++◌, update, any, ltb,
  ◌==◌, if◌then◌else◌,
}
use ticket_online.Common.Text.{Text, text, same, trim_space, to_upper}
use ticket_online.Errors.{
  driver, invalid_request, order_not_found, order_not_payable, payment_conflict,
}
use ticket_online.Sql.{
  Result, Action, pure, raise, query, or_raise, on_no_rows, attempt, exec, exec_checked, begin,
  commit, fail_if, ◌>>=◌, ◌>>◌,
}
use ticket_online.Schema.{OrderStatus, Order, Method, PaymentStatus, Payment, Db}
use ticket_online.EventState.{for_order, payment_blocked}
use ticket_online.Payment.Status.{is_pending, is_paid, is_succeeded, or_now}
use ticket_online.Payment.Tickets.{Draw, Ticket, issue_and_load_tickets}
use ticket_online.Payment.Expiry.{expire_locked_order, order_row, payment_row}

-- A request that Validate accepts.
pub record PaymentRequest : Type 0 where
  pub method : Method
  pub succeeds : Bool

abbrev pub method_of : Text → Option Method
method_of m =
    if same m (text "QRIS")
    then some Method.qris
    else if same m (text "VIRTUAL_ACCOUNT")
    then some Method.virtual_account
    else if same m (text "GOPAY")
    then some Method.gopay
    else none

abbrev outcome_of : Text → Option Bool
outcome_of r =
    if same r (text "SUCCEEDED")
    then some true
    else if same r (text "FAILED")
    then some false
    else none

abbrev both : Option Method → Option Bool → Option PaymentRequest
both none r = none
both (some m) none = none
both (some m) (some r) = some (record { method = m; succeeds = r })

unfoldable pub parse_request : Text → Text → Option PaymentRequest
parse_request method result =
    both (method_of (to_upper (trim_space method))) (outcome_of (to_upper (trim_space result)))

abbrev pub same_method : Method → Method → Bool
same_method Method.qris Method.qris = true
same_method Method.virtual_account Method.virtual_account = true
same_method Method.gopay Method.gopay = true
same_method _ _ = false

abbrev pub result_status : Bool → PaymentStatus
result_status succeeds = if succeeds then PaymentStatus.succeeded else PaymentStatus.failed

abbrev pub paid_time : Bool → ℕ → Option ℕ
paid_time succeeds now = if succeeds then some now else none

abbrev pub is_gateway : Option Text → Option Text → Bool
is_gateway none b = false
is_gateway (some a) none = false
is_gateway (some a) (some b) = same a b

-- INSERT INTO payments, under its keys and the CHECK on the amount.
unfoldable pub insert_payment : Payment → Db → Option Db
insert_payment p d =
    if p.amount == 0
      || any
          (λ q.
            same q.id p.id
            || same q.order_id p.order_id
            || is_gateway q.gateway_order_id p.gateway_order_id)
          d.payments
    then none
    else some (record d { payments = d.payments ++ p ∷ [] })

-- UPDATE payments SET … WHERE order_id = ?
unfoldable pub update_payment : Text → (Payment → Payment) → Db → Db
update_payment id f d = record d { payments = update (λ p. same p.order_id id) f d.payments }

-- UPDATE orders SET status = 'PAID' WHERE id = ? AND status = 'PENDING'
unfoldable pub mark_paid : Text → Db → Db
mark_paid id d = record d {
  orders =
      update (λ o. same o.id id && is_pending o.status)
        (λ o. record o { status = OrderStatus.paid }) d.orders;
}

-- The INSERT IGNORE of a conversion event, whose table is not modelled and whose error is dropped.
abbrev pub record_failure : Action Db (Result (Unit {0}))
record_failure = attempt (exec (λ d. d))

pub record Paid : Type 0 where
  pub payment : Payment
  pub order_status : OrderStatus
  pub tickets : List Ticket
  pub replayed : Bool

-- After the payment row is written: a failure is counted; a success marks the order and issues its
-- tickets. Then the transaction commits.
unfoldable pub settle : Draw → Bool → Bool → Order → Payment → Action Db Paid
unfolding mark_paid issue_and_load_tickets
settle draw replayed true o p = do
  exec (mark_paid o.id)
  tickets ← issue_and_load_tickets draw o.id
  commit
  pure (record {
    payment = p;
    order_status = OrderStatus.paid;
    tickets = tickets;
    replayed = replayed;
  })
settle draw replayed false o p = do
  record_failure
  commit
  pure (record { payment = p; order_status = o.status; tickets = []; replayed = replayed })

-- The order is paid and has a payment.
unfoldable pub replay : Draw → PaymentRequest → Order → Payment → Action Db Paid
replay draw r o p =
    if is_succeeded p.status && r.succeeds && same_method r.method p.method
    then (do
      tickets ← issue_and_load_tickets draw o.id
      commit
      pure (record { payment = p; order_status = o.status; tickets = tickets; replayed = true }))
    else raise payment_conflict

abbrev pub again : ℕ → PaymentRequest → Order → Payment → Payment
again now r o p = record p {
  method = r.method;
  amount = o.total;
  status = result_status r.succeeds;
  started_at = or_now p.started_at now;
  paid_at = paid_time r.succeeds now;
}

abbrev pub refused_amount : ℕ → (Payment → Payment) → Text → Db → Option Db
refused_amount amount f id d = if amount == 0 then none else some (update_payment id f d)

-- The order is pending and has a payment.
unfoldable pub pay_again : ℕ → Draw → PaymentRequest → Order → Payment → Action Db Paid
unfolding settle update_payment
pay_again now draw r o p =
    if is_succeeded p.status
    then raise payment_conflict
    else if same_method p.method r.method && not r.succeeds
    then pure (record { payment = p; order_status = o.status; tickets = []; replayed = true })
    else do
      exec_checked driver (refused_amount o.total (again now r o) o.id)
      settle draw true r.succeeds o (again now r o p)

abbrev pub first : ℕ → Text → PaymentRequest → Order → Payment
first now new_id r o = record {
  id = new_id;
  order_id = o.id;
  method = r.method;
  amount = o.total;
  status = result_status r.succeeds;
  started_at = some now;
  paid_at = paid_time r.succeeds now;
  gateway_order_id = none;
  gateway_reference = none;
  redirect_url = none;
}

unfoldable pub pay_first : ℕ → Draw → Text → PaymentRequest → Order → Action Db Paid
unfolding settle insert_payment
pay_first now draw new_id r o = do
  fail_if (not (is_pending o.status)) order_not_payable
  exec_checked driver (insert_payment (first now new_id r o))
  settle draw false r.succeeds o (first now new_id r o)

unfoldable pub pay : Option Payment → ℕ → Draw → Text → PaymentRequest → Order → Action Db Paid
unfolding pay_again pay_first replay
pay none now draw new_id r o = pay_first now draw new_id r o
pay (some p) now draw new_id r o =
    if is_paid o.status then replay draw r o p else pay_again now draw r o p

-- An order that is due expires, which is stored, and is not paid.
unfoldable pub pay_due : ℕ → Draw → Text → PaymentRequest → Order → Action Db Paid
unfolding pay expire_locked_order
pay_due now draw new_id r o =
    if is_pending o.status && not (ltb now o.expires_at)
    then (do expire_locked_order o.id; commit; raise order_not_payable)
    else (do existing ← query (payment_row o.id); pay existing now draw new_id r o)

unfoldable pub simulate_valid : ℕ → Draw → Text → Text → PaymentRequest → Action Db Paid
unfolding pay_due
simulate_valid now draw new_id id r = do
  begin
  state ← on_no_rows order_not_found (for_order id)
  blocked ← payment_blocked id state
  fail_if blocked order_not_payable
  found ← query (order_row id)
  o ← or_raise found order_not_found
  fail_if (not (is_pending o.status) && not (is_paid o.status)) order_not_payable
  pay_due now draw new_id r o

abbrev pub after_parse : Option PaymentRequest → ℕ → Draw → Text → Text → Action Db Paid
after_parse none now draw new_id id = raise invalid_request
after_parse (some r) now draw new_id id = simulate_valid now draw new_id id r

unfoldable pub simulate : ℕ → Draw → Text → Text → Text → Text → Action Db Paid
unfolding parse_request simulate_valid
simulate now draw new_id id method result =
    after_parse (parse_request method result) now draw new_id id
