-- ===== src/Payment/Expiry.antt =====
-- backend/internal/payment/expiry.go and the end of midtrans_status.go: an unpaid order gives its
-- stock back. `now` is the clock.
use mathlib.Core.Option
use ticket_online.Common.{
  ℕ, ◌+◌, Bool, false, not, ◌&&◌, ◌||◌, Option, none, some, List, [], ◌∷◌, select?, update, any,
  ltb, ◌==◌, if◌then◌else◌,
}
use ticket_online.Common.Text.{Text, same}
use ticket_online.Errors.{driver}
use ticket_online.Sql.{Action, pure, query, exec, exec_checked, begin, commit, ◌>>=◌, ◌>>◌}
use ticket_online.Schema.{Tier, OrderStatus, Order, OrderItem, PaymentStatus, Payment, Db}
use ticket_online.EventState.{for_order, is_stopped}
use ticket_online.Payment.Status.{is_pending, is_waiting, is_succeeded, or_empty}
use ticket_online.Payment.Tickets.{sorted_items}

abbrev overfull : ℕ → ℕ → Tier → Bool
overfull quantity id t = (t.id == id) && ltb t.capacity (t.available + quantity)

-- UPDATE ticket_tiers SET available_quantity = available_quantity + ? WHERE id = ?, under the CHECK
-- that no more is available than the capacity.
unfoldable pub return_stock : ℕ → ℕ → Db → Option Db
return_stock quantity id d =
    if any (overfull quantity id) d.tiers
    then none
    else some (record d {
      tiers =
          update (λ t. t.id == id) (λ t. record t { available = t.available + quantity }) d.tiers;
    })

unfoldable pub return_items : List OrderItem → Action Db (Unit {0})
unfolding return_stock
return_items [] = pure tt
return_items (i ∷ is) = exec_checked driver (return_stock i.quantity i.tier_id) >> return_items is

-- UPDATE orders SET status = IF(…, 'CANCELLED', 'EXPIRED') WHERE id = ?
unfoldable pub close_order : Text → Db → Db
close_order id d = record d {
  orders =
      update (λ o. same o.id id)
        (λ o. record o {
          status = if is_stopped id d then OrderStatus.cancelled else OrderStatus.expired;
        })
        d.orders;
}

unfoldable pub expire_locked_order : Text → Action Db (Unit {0})
unfolding return_items close_order
expire_locked_order id = do
  items ← query (sorted_items id)
  return_items items
  exec (close_order id)

abbrev pub order_row : Text → Db → Option Order
order_row id d = select? (λ o. same o.id id) d.orders

abbrev pub payment_row : Text → Db → Option Payment
payment_row id d = select? (λ p. same p.order_id id) d.payments

-- orders LEFT JOIN payments: the order's row with its payment, if it has one.
abbrev pub order_payment : Text → Db → Option (Order × Option Payment)
order_payment id d = Option.map (λ o. (o, payment_row id d)) (order_row id d)

abbrev pub gateway_of : Option Payment → Text
gateway_of none = []
gateway_of (some p) = or_empty p.gateway_order_id

abbrev pub has_status : (PaymentStatus → Bool) → Option Payment → Bool
has_status f none = false
has_status f (some p) = f p.status

-- What keeps the order: it is not due, or its payment is not settled as expected.
abbrev pub is_kept : ℕ → Text → Order → Option Payment → Bool
is_kept now expected o p =
    not (is_pending o.status)
    || ltb now o.expires_at
    || not (same (gateway_of p) expected)
    || (not (same (gateway_of p) []) && has_status is_waiting p)
    || has_status is_succeeded p

unfoldable pub expire_unpaid :
    ℕ → Text → Text → Option (Order × Option Payment) → Action Db (Unit {0})
unfolding expire_locked_order
expire_unpaid now id expected none = pure tt
expire_unpaid now id expected (some (o, p)) =
    if is_kept now expected o p then pure tt else expire_locked_order id >> commit

unfoldable pub expire_order_locally : ℕ → Text → Text → Action Db (Unit {0})
unfolding expire_unpaid
expire_order_locally now id expected = do
  begin
  for_order id
  found ← query (order_payment id)
  expire_unpaid now id expected found
