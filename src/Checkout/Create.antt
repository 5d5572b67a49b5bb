-- ===== src/Checkout/Create.antt =====
-- backend/internal/checkout/checkout.go: Create, with what it writes. `digest` is requestHash, `now`
-- the clock, `id` and `reference` the random texts that the code draws.
use ticket_online.Common.{
  ℕ, suc, ◌+◌, ◌-◌, Bool, false, not, ◌&&◌, ◌||◌, Option, none, some, List, [], ◌∷◌, ◌++◌, length,
  select?, any, update, ltb, ◌==◌, if◌then◌else◌,
}
use ticket_online.Common.Text.{Text, same}
use ticket_online.Errors.{driver, closed, access_denied, invalid_request, reservation_not_found}
use ticket_online.Sql.{
  Result, ok, err, Action, pure, raise, query, or_raise, on_no_rows, fail_if, begin, exec_checked,
  commit, ◌>>=◌, ◌>>◌,
}
use ticket_online.Schema.{converted, ReservationRow, Order, OrderStatus, OrderItem, Attendee, Db}
use ticket_online.EventState.{State, for_reservation, can_sell}
use ticket_online.Pricing.{Quote, Snapshot, calculate, max_u64}
use ticket_online.Reservation.Transactions.{is_reference}
use ticket_online.Reservation.Store.{items_of, is_active}
use ticket_online.Checkout.{
  Attendees, CheckoutRequest, CheckoutItem, CheckoutOrder, CheckoutBuyer, validate,
}
use ticket_online.Checkout.Asked.{
  reservation_row, replay, check_status, held_lines, check_attendees, names_of, Totals, add_items,
}

-- INSERT INTO orders, under its keys and CHECKs; the table computes the total.
unfoldable pub insert_order : Order → Db → Option Db
insert_order o d =
    if any
        (λ p.
          same p.id o.id || same p.reference o.reference || same p.reservation_id o.reservation_id)
        d.orders
      || o.subtotal == 0
      || ltb o.subtotal o.discount
      || ltb max_u64 (o.subtotal + o.admin_fee)
    then none
    else some (record d {
      orders = d.orders ++ record o { total = o.subtotal + o.admin_fee - o.discount } ∷ [];
    })

unfoldable pub insert_voucher : Text → Snapshot → Db → Option Db
insert_voucher id v d =
    if any (λ w. same w.order_id id) d.order_vouchers
    then none
    else some (record d {
      order_vouchers =
          d.order_vouchers
          ++ record {
            order_id = id;
            code = v.code;
            kind = v.kind;
            value = v.value;
            consumed = false;
          }
            ∷ [];
    })

unfoldable pub write_voucher : Text → Option Snapshot → Action Db (Unit {0})
unfolding insert_voucher
write_voucher id none = pure tt
write_voucher id (some v) = exec_checked driver (insert_voucher id v)

unfoldable pub insert_order_attendee : Attendee → Db → Option Db
insert_order_attendee a d =
    if any (λ b. same b.order_id a.order_id && b.tier_id == a.tier_id && b.number == a.number)
      d.attendees
    then none
    else some (record d { attendees = d.attendees ++ a ∷ [] })

unfoldable pub write_attendees : Text → ℕ → ℕ → List Text → Action Db (Unit {0})
unfolding insert_order_attendee
write_attendees id tier_id number [] = pure tt
write_attendees id tier_id number (name ∷ names) = do
  exec_checked driver (
      insert_order_attendee
        (record { order_id = id; tier_id = tier_id; number = number; name = name }))
  write_attendees id tier_id (suc number) names

unfoldable pub insert_order_item : OrderItem → Db → Option Db
insert_order_item i d =
    if any (λ j. same j.order_id i.order_id && j.tier_id == i.tier_id) d.order_items
    then none
    else some (record d { order_items = d.order_items ++ i ∷ [] })

unfoldable pub write_items : Text → List Attendees → List CheckoutItem → Action Db (Unit {0})
unfolding insert_order_item write_attendees names_of
write_items id people [] = pure tt
write_items id people (i ∷ is) = do
  exec_checked driver (
      insert_order_item (record {
        order_id = id;
        tier_id = i.ticket_tier_id;
        tier_name = i.name;
        quantity = i.quantity;
        unit_price = i.unit_price;
      }))
  write_attendees id i.ticket_tier_id 1 (names_of i.tier_id people)
  write_items id people is

unfoldable pub insert_buyer : Text → CheckoutBuyer → Db → Option Db
insert_buyer id b d =
    if any (λ c. same c.order_id id) d.buyers
    then none
    else some (record d {
      buyers =
          d.buyers
          ++ record {
            order_id = id;
            name = b.name;
            email = b.email;
            phone = b.phone;
            identity = b.identity;
          }
            ∷ [];
    })

-- UPDATE reservations SET status = 'CONVERTED', … WHERE id = ? AND status = 'ACTIVE',
-- under the unique key on the reference.
unfoldable pub convert_reservation : Text → Text → Db → Option Db
convert_reservation reference id d =
    if any (λ r. is_reference reference r.order_reference) d.reservations
    then none
    else some (record d {
      reservations =
          update (λ r. same r.id id && is_active r.status)
            (λ r. record r { status = converted; order_reference = some reference }) d.reservations;
    })

-- The columns that the INSERT names; the table computes the total.
abbrev pub pending_order : Text → Text → Text → ReservationRow → Totals → Quote → Order
pending_order id reference hash row totals q = record {
  id = id;
  reference = reference;
  reservation_id = row.id;
  status = OrderStatus.pending;
  subtotal = totals.subtotal;
  admin_fee = q.admin_fee;
  discount = q.discount;
  total = 0;
  request_hash = some hash;
  expires_at = row.expires_at;
  access_deadline = none;
}

-- Create from the first INSERT on.
unfoldable pub store_order :
    Text
    → Text
    → Text
    → ReservationRow
    → CheckoutRequest
    → Totals
    → Quote
    → Action Db (CheckoutOrder × Bool)
unfolding insert_order write_voucher write_items insert_buyer convert_reservation
store_order id reference hash row request totals q = do
  exec_checked driver (insert_order (pending_order id reference hash row totals q))
  write_voucher id q.voucher
  write_items id request.attendees totals.items
  exec_checked driver (insert_buyer id request.buyer)
  exec_checked driver (convert_reservation reference row.id)
  commit
  pure (
    record {
      id = id;
      reference = reference;
      reservation_id = row.id;
      status = OrderStatus.pending;
      expires_at = row.expires_at;
      subtotal = totals.subtotal;
      admin_fee = q.admin_fee;
      discount = q.discount;
      total = q.total;
      items = totals.items;
      voucher = q.voucher;
    },
    false,
  )

unfoldable pub place :
    ℕ
    → Text
    → Text
    → Text
    → State
    → ReservationRow
    → CheckoutRequest
    → Action Db (CheckoutOrder × Bool)
unfolding check_status items_of held_lines check_attendees add_items calculate store_order
place now id reference hash state row request = do
  fail_if (not (can_sell state)) closed
  check_status row.status now row.expires_at
  lines ← query (λ d. held_lines d.tiers (items_of row.id d))
  check_attendees [] request.attendees
  totals ← add_items request.attendees lines (record { items = []; subtotal = 0; seen = [] })
  fail_if (length totals.items == 0 || ltb (max_u64 - totals.subtotal) 0) invalid_request
  fail_if (not (length totals.seen == length request.attendees)) invalid_request
  q ← calculate state.id totals.subtotal request.voucher_code now
  store_order id reference hash row request totals q

unfoldable pub place_or_replay :
    Option Order
    → ℕ
    → Text
    → Text
    → Text
    → State
    → ReservationRow
    → CheckoutRequest
    → Action Db (CheckoutOrder × Bool)
unfolding replay place
place_or_replay (some o) now id reference hash state row request = replay hash o
place_or_replay none now id reference hash state row request =
    place now id reference hash state row request

unfoldable pub create_valid :
    ℕ → Text → Text → Text → Text → Text → CheckoutRequest → Action Db (CheckoutOrder × Bool)
unfolding for_reservation place_or_replay
create_valid now id reference hash reservation_id key request = do
  begin
  state ← on_no_rows reservation_not_found (for_reservation reservation_id)
  found ← query (reservation_row reservation_id)
  row ← or_raise found reservation_not_found
  fail_if (not (same row.idempotency_key key)) access_denied
  existing ← query (λ d. select? (λ o. same o.reservation_id reservation_id) d.orders)
  place_or_replay existing now id reference hash state row request

abbrev pub create_checked :
    Result CheckoutRequest
    → (Text → CheckoutRequest → Text)
    → ℕ
    → Text
    → Text
    → Text
    → Text
    → Action Db (CheckoutOrder × Bool)
create_checked (err e) digest now id reference reservation_id key = raise e
create_checked (ok r) digest now id reference reservation_id key =
    create_valid now id reference (digest reservation_id r) reservation_id key r

unfoldable pub create :
    (Text → Option Text)
    → (Text → CheckoutRequest → Text)
    → ℕ
    → Text
    → Text
    → Text
    → Text
    → CheckoutRequest
    → Action Db (CheckoutOrder × Bool)
unfolding create_valid validate
create address digest now id reference reservation_id key raw =
    create_checked (validate address raw) digest now id reference reservation_id key
