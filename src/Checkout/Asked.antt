-- ===== src/Checkout/Asked.antt =====
-- backend/internal/checkout/checkout.go: Quote, loadItems, and what Create reads and checks before it
-- writes.
use mathlib.Core.Option
use ticket_online.Common.{
  ℕ, ◌+◌, ◌-◌, ◌*◌, ◌/◌, Bool, true, false, not, ◌&&◌, ◌||◌, Option, none, some, List, [], ◌∷◌,
  ◌++◌, length, select, select?, any, sum_of, ltb, ◌==◌, if◌then◌else◌,
}
use ticket_online.Common.Text.{Text, same, trim_space, to_upper}
use ticket_online.Errors.{
  driver, access_denied, invalid_request, voucher_unavailable, reservation_not_found,
  reservation_expired, reservation_cancelled, reservation_converted, idempotency_conflict,
}
use ticket_online.Sql.{Action, pure, raise, query, or_raise, fail_if, begin, commit, ◌>>=◌, ◌>>◌}
use ticket_online.Schema.{
  Tier, ReservationStatus, active, expired, cancelled, converted, ReservationRow, ReservationItem,
  Order, OrderItem, Db,
}
use ticket_online.Pricing.{Quote, Snapshot, calculate, valid_code, u64, max_u64}
use ticket_online.Reservation.Store.{items_of, is_active}
use ticket_online.Checkout.{Attendees, CheckoutItem, CheckoutOrder}

abbrev pub reservation_row : Text → Db → Option ReservationRow
reservation_row id d = select? (λ r. same r.id id) d.reservations

-- SELECT COALESCE(SUM(quantity*unit_price),0): a sum beyond 64 bits fails to scan.
abbrev subtotal_in : Text → Db → ℕ
subtotal_in id d = sum_of (λ i. i.quantity * i.unit_price) (items_of id d)

unfoldable pub quote : ℕ → Text → Text → Text → Action Db Quote
unfolding calculate items_of
quote now reservation_id key raw_code =
    let code = to_upper (trim_space raw_code) in
    do
      fail_if (not (same code []) && not (valid_code code)) voucher_unavailable
      begin
      found ← query (reservation_row reservation_id)
      row ← or_raise found reservation_not_found
      fail_if (not (same key row.idempotency_key)) access_denied
      fail_if (not (is_active row.status) || not (ltb now row.expires_at)) reservation_expired
      subtotal ← query (subtotal_in reservation_id)
      fail_if (ltb max_u64 subtotal) driver
      q ← calculate row.event_id subtotal code now
      commit
      pure q

abbrev snapshot_in : Text → Db → Option Snapshot
snapshot_in id d =
    Option.map (λ v. record { code = v.code; kind = v.kind; value = v.value })
      (select? (λ v. same v.order_id id) d.order_vouchers)

unfoldable pub load_snapshot : Text → Action Db (Option Snapshot)
load_snapshot id = query (snapshot_in id)

abbrev insert_line : CheckoutItem → List CheckoutItem → List CheckoutItem
insert_line i [] = i ∷ []
insert_line i (j ∷ js) =
    let rest = insert_line i js in
    if ltb j.ticket_tier_id i.ticket_tier_id then j ∷ rest else i ∷ j ∷ js

abbrev join_order_item : OrderItem → Option Tier → List CheckoutItem → List CheckoutItem
join_order_item i none rest = rest
join_order_item i (some t) rest =
    insert_line
      (record {
        tier_id = t.slug;
        ticket_tier_id = i.tier_id;
        name = i.tier_name;
        quantity = i.quantity;
        unit_price = i.unit_price;
        line_total = i.quantity * i.unit_price;
      })
      rest

-- order_items JOIN ticket_tiers, ORDER BY the tier's id.
unfoldable pub order_lines : List Tier → List OrderItem → List CheckoutItem
order_lines tiers [] = []
order_lines tiers (i ∷ is) =
    join_order_item i (select? (λ t. t.id == i.tier_id) tiers) (order_lines tiers is)

unfoldable pub load_items : Order → Action Db CheckoutOrder
unfolding load_snapshot order_lines
load_items o = do
  voucher ← load_snapshot o.id
  items ← query λ d. order_lines d.tiers (select (λ i. same i.order_id o.id) d.order_items)
  pure (record {
    id = o.id;
    reference = o.reference;
    reservation_id = o.reservation_id;
    status = o.status;
    expires_at = o.expires_at;
    subtotal = o.subtotal;
    admin_fee = o.admin_fee;
    discount = o.discount;
    total = o.total;
    items = items;
    voucher = voucher;
  })

-- The order of the reservation, if the same request made it.
abbrev pub is_hash : Option Text → Text → Bool
is_hash none hash = false
is_hash (some h) hash = same h hash

unfoldable pub replay : Text → Order → Action Db (CheckoutOrder × Bool)
unfolding load_items
replay hash o = do
  fail_if (not (is_hash o.request_hash hash)) idempotency_conflict
  existing ← load_items o
  pure (existing, true)

unfoldable pub check_status : ReservationStatus → ℕ → ℕ → Action Db (Unit {0})
check_status cancelled now expires_at = raise reservation_cancelled
check_status expired now expires_at = raise reservation_expired
check_status converted now expires_at = raise reservation_converted
check_status active now expires_at = fail_if (not (ltb now expires_at)) reservation_expired

-- reservation_items JOIN ticket_tiers, as `items_of` orders them.
abbrev held_line : ReservationItem → Option Tier → List CheckoutItem → List CheckoutItem
held_line i none rest = rest
held_line i (some t) rest =
    record {
      tier_id = t.slug;
      ticket_tier_id = i.tier_id;
      name = t.name;
      quantity = i.quantity;
      unit_price = i.unit_price;
      line_total = 0;
    }
    ∷ rest

unfoldable pub held_lines : List Tier → List ReservationItem → List CheckoutItem
held_lines tiers [] = []
held_lines tiers (i ∷ is) =
    held_line i (select? (λ t. t.id == i.tier_id) tiers) (held_lines tiers is)

-- The loop that fills `attendeeNames`; `seen` holds the entries before.
unfoldable pub check_attendees : List Attendees → List Attendees → Action Db (Unit {0})
check_attendees seen [] = pure tt
check_attendees seen (a ∷ people) = do
  fail_if (same a.tier_id [] || length a.names == 0 || any (λ b. same b.tier_id a.tier_id) seen)
      invalid_request
  check_attendees (a ∷ seen) people

abbrev names_in : Option Attendees → List Text
names_in none = []
names_in (some a) = a.names

unfoldable pub names_of : Text → List Attendees → List Text
names_of tier_id people = names_in (select? (λ a. same a.tier_id tier_id) people)

pub record Totals : Type 0 where
  pub items : List CheckoutItem
  pub subtotal : ℕ
  pub seen : List Text

abbrev mark_seen : Text → List Text → List Text
mark_seen t seen = if any (same t) seen then seen else t ∷ seen

-- The loop over the reservation's items.
unfoldable pub add_items : List Attendees → List CheckoutItem → Totals → Action Db Totals
unfolding names_of
add_items people [] acc = pure acc
add_items people (i ∷ is) acc = do
  fail_if (i.unit_price == 0 || i.quantity == 0 || ltb (max_u64 / i.unit_price) i.quantity)
      invalid_request
  let line_total = u64 (i.quantity * i.unit_price)
  fail_if (not (length (names_of i.tier_id people) == i.quantity)) invalid_request
  fail_if (ltb (max_u64 - acc.subtotal) line_total) invalid_request
  add_items people is (record {
    items = acc.items ++ record i { line_total = line_total } ∷ [];
    subtotal = u64 (acc.subtotal + line_total);
    seen = mark_seen i.tier_id acc.seen;
  })
