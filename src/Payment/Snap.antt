-- ===== src/Payment/Snap.antt =====
-- backend/internal/payment/midtrans.go: BeginSnap and SetSnapURL. `new_id` is a random id.
use ticket_online.Common.{
  ℕ, Bool, not, ◌&&◌, ◌||◌, Option, none, some, [], ◌++◌, select?, update, any, take, ltb,
  if◌then◌else◌,
}
use ticket_online.Common.Text.{Text, text, same}
use ticket_online.Errors.{
  driver, no_rows, order_not_found, order_not_payable, payment_conflict, payment_attempt_changed,
}
use ticket_online.Sql.{
  Action, pure, raise, query, or_raise, on_no_rows, exec_checked, begin, commit, fail_if, ◌>>=◌,
  ◌>>◌,
}
use ticket_online.Schema.{Order, Method, PaymentStatus, Payment, Db}
use ticket_online.EventState.{for_order, payment_blocked}
use ticket_online.Payment.Status.{is_pending, is_waiting, or_empty, or_now}
use ticket_online.Payment.Expiry.{order_row, payment_row}
use ticket_online.Payment.Simulate.{same_method, is_gateway, insert_payment}

pub record Snap : Type 0 where
  pub id : Text
  pub amount : ℕ
  pub gateway_order_id : Text
  pub redirect : Text

-- orderID + "-" + attempt[:12]
abbrev pub attempt_id : Text → Text → Text
attempt_id order_id random = order_id ++ text "-" ++ take 12 random

abbrev restarted : Method → Text → Payment → Payment
restarted method gw p = record p {
  method = method;
  status = PaymentStatus.pending;
  paid_at = none;
  gateway_order_id = some gw;
  gateway_reference = none;
  redirect_url = none;
}

-- The UPDATE of a failed payment, under the key on gateway_order_id.
unfoldable pub restart_payment : Method → Text → Text → Db → Option Db
restart_payment method gw id d =
    if any (λ p. not (same p.id id) && is_gateway p.gateway_order_id (some gw)) d.payments
    then none
    else some (record d { payments = update (λ p. same p.id id) (restarted method gw) d.payments })

abbrev first_snap : Text → Method → Order → Payment
first_snap new_id method o = record {
  id = new_id;
  order_id = o.id;
  method = method;
  amount = o.total;
  status = PaymentStatus.pending;
  started_at = none;
  paid_at = none;
  gateway_order_id = some (attempt_id o.id new_id);
  gateway_reference = none;
  redirect_url = none;
}

-- The order's payment by its status: one that waits is gone on with, one that failed starts again.
unfoldable pub resume_snap : PaymentStatus → Text → Method → Order → Payment → Action Db Snap
unfolding restart_payment
resume_snap PaymentStatus.succeeded new_id method o p = raise payment_conflict
resume_snap PaymentStatus.pending new_id method o p = do
  fail_if (not (same_method p.method method)) payment_conflict
  commit
  pure (record {
    id = p.id;
    amount = p.amount;
    gateway_order_id = or_empty p.gateway_order_id;
    redirect = or_empty p.redirect_url;
  })
resume_snap PaymentStatus.failed new_id method o p = do
  exec_checked driver (restart_payment method (attempt_id o.id new_id) p.id)
  commit
  pure (record {
    id = p.id;
    amount = p.amount;
    gateway_order_id = attempt_id o.id new_id;
    redirect = [];
  })

unfoldable pub snap_for : Option Payment → Text → Method → Order → Action Db Snap
unfolding resume_snap insert_payment
snap_for (some p) new_id method o = resume_snap p.status new_id method o p
snap_for none new_id method o = do
  exec_checked driver (insert_payment (first_snap new_id method o))
  commit
  pure (record {
    id = new_id;
    amount = o.total;
    gateway_order_id = attempt_id o.id new_id;
    redirect = [];
  })

unfoldable pub begin_snap : ℕ → Text → Text → Method → Action Db Snap
unfolding snap_for
begin_snap now new_id id method = do
  begin
  state ← on_no_rows order_not_found (for_order id)
  blocked ← payment_blocked id state
  fail_if blocked order_not_payable
  found ← query (order_row id)
  o ← or_raise found order_not_found
  fail_if (not (is_pending o.status) || not (ltb now o.expires_at)) order_not_payable
  existing ← query (payment_row o.id)
  snap_for existing new_id method o

abbrev payment_with : Text → Db → Option Payment
payment_with id d = select? (λ p. same p.id id) d.payments

abbrev order_with : Text → Db → Option Text
order_with id d = elim (payment_with id d) [ none ↦ none | some p ↦ some p.order_id ]

abbrev or_text : Option Text → Text → Option Text
or_text none t = some t
or_text (some u) t = some u

abbrev is_attempt : Text → Text → Payment → Bool
is_attempt id gw p = same p.id id && is_gateway p.gateway_order_id (some gw) && is_waiting p.status

-- The UPDATE of a waiting attempt, under the key on gateway_reference.
unfoldable pub set_redirect : ℕ → Text → Text → Text → Text → Db → Option Db
set_redirect now id gw token redirect d =
    if any (is_attempt id gw) d.payments
      && any (λ p. not (same p.id id) && is_gateway p.gateway_reference (some token)) d.payments
    then none
    else some (record d {
      payments =
          update (is_attempt id gw)
            (λ p. record p {
              gateway_reference = or_text p.gateway_reference token;
              redirect_url = or_text p.redirect_url redirect;
              started_at = or_now p.started_at now;
            })
            d.payments;
    })

-- The count of changed rows only repeats the test of the redirect that follows it.
unfoldable pub set_snap_url : ℕ → Text → Text → Text → Text → Action Db Text
unfolding set_redirect
set_snap_url now id gw token redirect = do
  begin
  target ← query (order_with id)
  order_id ← or_raise target no_rows
  state ← for_order order_id
  blocked ← payment_blocked order_id state
  fail_if blocked order_not_payable
  exec_checked driver (set_redirect now id gw token redirect)
  found ← query (payment_with id)
  p ← or_raise found payment_attempt_changed
  current ← or_raise p.gateway_order_id driver
  fail_if (not (same current gw) || not (is_waiting p.status)) payment_attempt_changed
  fail_if (same (or_empty p.redirect_url) []) payment_attempt_changed
  commit
  pure (or_empty p.redirect_url)
