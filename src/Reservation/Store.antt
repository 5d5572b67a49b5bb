-- ===== src/Reservation/Store.antt =====
-- backend/internal/reservation/repository.go and worker.go. A transaction runs alone: the rows it
-- reads stay locked until it ends. `now` is the clock, `new_id` and `new_reference` the random
-- texts that the code draws.
use mathlib.Core.Option
use ticket_online.Common.{
  ℕ, ◌+◌, ◌*◌, ◌%◌, ◌^◌, Bool, true, false, not, ◌&&◌, ◌||◌, Option, none, some, List, [], ◌∷◌,
  ◌++◌, min, select, select?, update, ltb, ◌==◌, if◌then◌else◌,
}
use ticket_online.Common.Text.{Text, same}
use ticket_online.Errors.{no_rows, reservation_expired}
use ticket_online.Sql.{Action, pure, query, query_stored, or_raise, exec, fail_if, ◌>>=◌, ◌>>◌}
use ticket_online.Schema.{
  Event, Tier, ReservationStatus, active, expired, ReservationRow, ReservationItem, Db,
}

pub record ResponseItem : Type 0 where
  pub tier_id : Text
  pub name : Text
  pub quantity : ℕ
  pub unit_price : ℕ
  pub line_total : ℕ

pub record Reservation : Type 0 where
  pub id : Text
  pub status : ReservationStatus
  pub expires_at : ℕ
  pub event_id : Text
  pub event_artist : Text
  pub items : List ResponseItem
  pub subtotal : ℕ
  pub reference : Option Text

pub record ReservationRecord : Type 0 where
  pub id : Text
  pub event_id : Text
  pub status : ReservationStatus
  pub request_hash : Text
  pub reference : Option Text
  pub event_artist : Text
  pub expires_at : ℕ
  pub items : List ResponseItem

abbrev pub u64 : ℕ → ℕ
u64 n = n % 2 ^ 64

abbrev pub is_active : ReservationStatus → Bool
is_active active = true
is_active _ = false

abbrev pub is_expired : ReservationStatus → Bool
is_expired expired = true
is_expired _ = false

-- The loop that adds the line totals up.
unfoldable pub subtotal_of : ℕ → List ResponseItem → ℕ
subtotal_of acc [] = acc
subtotal_of acc (i ∷ is) = subtotal_of (u64 (acc + i.line_total)) is

unfoldable pub response : ReservationRecord → Reservation
unfolding subtotal_of
response r = record {
  id = r.id;
  status = r.status;
  expires_at = r.expires_at;
  event_id = r.event_id;
  event_artist = r.event_artist;
  items = r.items;
  subtotal = subtotal_of 0 r.items;
  reference = r.reference;
}

-- reservation_items JOIN ticket_tiers, ORDER BY the tier's id.
abbrev pub insert_by_tier : ReservationItem → List ReservationItem → List ReservationItem
insert_by_tier i [] = i ∷ []
insert_by_tier i (j ∷ js) =
    let rest = insert_by_tier i js in if ltb j.tier_id i.tier_id then j ∷ rest else i ∷ j ∷ js

abbrev pub order_by_tier : List ReservationItem → List ReservationItem
order_by_tier [] = []
order_by_tier (i ∷ is) = insert_by_tier i (order_by_tier is)

unfoldable pub items_of : Text → Db → List ReservationItem
items_of id d = order_by_tier (select (λ i. same i.reservation_id id) d.reservation_items)

abbrev join_tier : ReservationItem → Option Tier → List ResponseItem
join_tier i none = []
join_tier i (some t) =
    record {
      tier_id = t.slug;
      name = t.name;
      quantity = i.quantity;
      unit_price = i.unit_price;
      line_total = u64 (i.quantity * i.unit_price);
    }
    ∷ []

unfoldable pub join_tiers : List Tier → List ReservationItem → List ResponseItem
join_tiers tiers [] = []
join_tiers tiers (i ∷ is) =
    join_tier i (select? (λ t. t.id == i.tier_id) tiers) ++ join_tiers tiers is

abbrev to_record : ReservationRow → Event → ReservationRecord
to_record r e = record {
  id = r.id;
  event_id = r.event_id;
  status = r.status;
  request_hash = r.request_hash;
  reference = r.order_reference;
  event_artist = e.artist;
  expires_at = r.expires_at;
  items = [];
}

-- reservations JOIN events.
abbrev pub header_of : Text → Db → Option ReservationRecord
header_of id d =
    Option.bind (select? (λ r. same r.id id) d.reservations)
      λ r. Option.map (to_record r) (select? (λ e. same e.id r.event_id) d.events)

-- `get` and `getForUpdate`, inside the transaction.
unfoldable pub get_record : Text → Action Db ReservationRecord
unfolding items_of join_tiers
get_record id = do
  found ← query (header_of id)
  header ← or_raise found no_rows
  items ← query (λ d. join_tiers d.tiers (items_of id d))
  pure (record header { items = items })

-- The same reads outside a transaction.
unfoldable pub get_stored : Text → Action Db ReservationRecord
unfolding items_of join_tiers
get_stored id = do
  found ← query_stored (header_of id)
  header ← or_raise found no_rows
  items ← query_stored (λ d. join_tiers d.tiers (items_of id d))
  pure (record header { items = items })

-- `record.status == "EXPIRED" || (record.status == "ACTIVE" && !now.Before(record.expiresAt))`
abbrev pub has_ended : ℕ → ReservationRecord → Bool
has_ended now r = is_expired r.status || (is_active r.status && not (ltb now r.expires_at))

unfoldable pub get_tx : ℕ → Text → Action Db Reservation
get_tx now id = do
  r ← get_record id
  fail_if (has_ended now r) reservation_expired
  pure (response r)

-- UPDATE ticket_tiers SET available_quantity = LEAST(capacity, available_quantity + ?) WHERE id = ?
unfoldable pub restore_tier : ReservationItem → List Tier → List Tier
restore_tier i =
    update (λ t. t.id == i.tier_id)
      (λ t. record t { available = min t.capacity (t.available + i.quantity) })

unfoldable pub restore_loop : List ReservationItem → Action Db (Unit {0})
unfolding restore_tier
restore_loop [] = pure tt
restore_loop (i ∷ is) = exec (λ d. record d { tiers = restore_tier i d.tiers }) >> restore_loop is

unfoldable pub restore_items : Text → Action Db (Unit {0})
restore_items id = do items ← query (items_of id); restore_loop items

-- UPDATE reservations SET status = ? WHERE id = ? AND status = 'ACTIVE'
unfoldable pub end_reservation :
    ReservationStatus → Text → List ReservationRow → List ReservationRow
end_reservation status id =
    update (λ r. same r.id id && is_active r.status) (λ r. record r { status = status })

abbrev pub set_ended : ReservationStatus → Text → Db → Db
set_ended status id d = record d { reservations = end_reservation status id d.reservations }
