-- ===== src/Reservation/Create.antt =====
-- backend/internal/reservation/repository.go: Create and replayByKey. `digest` is the hash of a
-- canonical request and `ttl` the life of a reservation.
use ticket_online.Common.{
  ℕ, ◌+◌, ◌-◌, ◌*◌, Bool, true, false, not, ◌&&◌, ◌||◌, Option, none, some, List, [], ◌∷◌, ◌++◌,
  length, select, select?, update, any, leb, ltb, ◌==◌, if◌then◌else◌,
}
use ticket_online.Common.Text.{Text, same}
use ticket_online.Errors.{
  duplicate_key, closed, no_rows, event_not_found, tier_not_found, insufficient_stock,
  order_limit_exceeded, idempotency_conflict, reservation_expired,
}
use ticket_online.Sql.{
  Result, ok, err, Action, pure, raise, query, query_stored, or_raise, on_no_rows, attempt, begin,
  exec, exec_checked, rollback, commit, fail_if, ◌>>=◌, ◌>>◌,
}
use ticket_online.Schema.{Event, Publication, Tier, active, ReservationRow, ReservationItem, Db}
use ticket_online.EventState.{State, read, can_sell}
use ticket_online.Reservation.Request.{
  ItemRequest, Request, normalize_request, sort_items, request_hash,
}
use ticket_online.Reservation.Store.{
  ResponseItem, Reservation, ReservationRecord, u64, has_ended, response, get_stored, get_tx,
}

-- The map from slug to tier: a later row of a slug replaces an earlier one.
unfoldable pub put_tier : Tier → List Tier → List Tier
put_tier v [] = v ∷ []
put_tier v (t ∷ ts) = if same t.slug v.slug then v ∷ ts else t ∷ put_tier v ts

unfoldable pub tier_map : List Tier → List Tier → List Tier
unfolding put_tier
tier_map acc [] = acc
tier_map acc (t ∷ ts) = tier_map (put_tier t acc) ts

-- A missing key reads as the zero tier.
abbrev zero_tier : Tier
zero_tier = record {
  id = 0;
  event_id = [];
  slug = [];
  name = [];
  price = 0;
  capacity = 0;
  available = 0;
  max_per_order = 0;
  gate = [];
}

abbrev or_zero : Option Tier → Tier
or_zero none = zero_tier
or_zero (some t) = t

unfoldable pub tier_at : List Tier → Text → Tier
tier_at tiers slug = or_zero (select? (λ t. same t.slug slug) tiers)

-- SELECT … FROM ticket_tiers WHERE event_id = ? AND slug IN (…)
unfoldable pub tiers_for : Text → List ItemRequest → Db → List Tier
tiers_for event_id items d =
    select (λ t. same t.event_id event_id && any (λ i. same i.tier_id t.slug) items) d.tiers

unfoldable pub check_items : List Tier → List ItemRequest → Action Db (Unit {0})
unfolding tier_at
check_items tiers [] = pure tt
check_items tiers (i ∷ is) = do
  fail_if (ltb (tier_at tiers i.tier_id).max_per_order i.quantity) order_limit_exceeded
  fail_if (ltb (tier_at tiers i.tier_id).available i.quantity) insufficient_stock
  check_items tiers is

-- INSERT INTO reservations, under its primary key and the unique key on the idempotency key.
unfoldable pub insert_reservation : ReservationRow → Db → Option Db
insert_reservation r d =
    if any (λ q. same q.id r.id || same q.idempotency_key r.idempotency_key) d.reservations
    then none
    else some (record d { reservations = d.reservations ++ r ∷ [] })

abbrev pub insert_item_row : ReservationItem → Db → Db
insert_item_row i d = record d { reservation_items = d.reservation_items ++ i ∷ [] }

-- UPDATE … SET available_quantity = available_quantity - ? WHERE id = ? AND available_quantity >= ?
unfoldable pub take_stock : ℕ → ℕ → List Tier → List Tier
take_stock q id =
    update (λ t. t.id == id && leb q t.available) (λ t. record t { available = t.available - q })

pub record Held : Type 0 where
  pub items : List ResponseItem
  pub subtotal : ℕ

-- The loop that inserts the items and takes their stock.
unfoldable pub hold_items : Text → List Tier → List ItemRequest → Held → Action Db Held
unfolding tier_at take_stock
hold_items id tiers [] acc = pure acc
hold_items id tiers (i ∷ is) acc = do
  let t = tier_at tiers i.tier_id
  let line_total = u64 (i.quantity * t.price)
  exec (
      insert_item_row (record {
        reservation_id = id;
        tier_id = t.id;
        quantity = i.quantity;
        unit_price = t.price;
      }))
  exec (λ d. record d { tiers = take_stock i.quantity t.id d.tiers })
  hold_items id tiers is (record {
    items =
        acc.items
        ++ record {
          tier_id = t.slug;
          name = t.name;
          quantity = i.quantity;
          unit_price = t.price;
          line_total = line_total;
        }
          ∷ [];
    subtotal = u64 (acc.subtotal + line_total);
  })

abbrev pub by_key : Text → Db → Option ReservationRow
by_key key d = select? (λ r. same r.idempotency_key key) d.reservations

abbrev id_of : Option ReservationRow → Option Text
id_of none = none
id_of (some r) = some r.id

unfoldable pub get_by_key : Text → Action Db ReservationRecord
get_by_key key = do
  found ← query_stored (λ d. id_of (by_key key d))
  id ← or_raise found no_rows
  get_stored id

-- `on_no_rows no_rows`: the source wraps the same error once more.
unfoldable pub replay_by_key : ℕ → Text → Text → Action Db Reservation
unfolding get_by_key
replay_by_key now key hash = do
  r ← on_no_rows no_rows (get_by_key key)
  fail_if (not (same r.request_hash hash)) idempotency_conflict
  fail_if (has_ended now r) reservation_expired
  pure (response r)

abbrev pub is_published : Publication → Bool
is_published Publication.published = true
is_published _ = false

-- After the INSERT: a duplicate key means that another call with the key was first.
unfoldable pub after_insert :
    Result (Unit {0})
    → ℕ
    → Text
    → Text
    → ReservationRow
    → Event
    → List Tier
    → List ItemRequest
    → Action Db Reservation
unfolding hold_items replay_by_key
after_insert (err duplicate_key) now key hash row event tiers items =
    rollback >> replay_by_key now key hash
after_insert (err e) now key hash row event tiers items = raise e
after_insert (ok _) now key hash row event tiers items = do
  held ← hold_items row.id tiers items (record { items = []; subtotal = 0 })
  commit
  pure (record {
    id = row.id;
    status = active;
    expires_at = row.expires_at;
    event_id = row.event_id;
    event_artist = event.artist;
    items = held.items;
    subtotal = held.subtotal;
    reference = none;
  })

unfoldable pub create_new : ℕ → ℕ → Text → Text → Text → State → Request → Action Db Reservation
unfolding check_items tiers_for tier_map insert_reservation after_insert
create_new now ttl new_id key hash state request = do
  found ← query (λ d. select? (λ e. same e.id request.event_id) d.events)
  event ← or_raise found event_not_found
  fail_if (not (is_published event.publication)) event_not_found
  fail_if (not (can_sell state)) closed
  let items = sort_items request.items
  rows ← query (tiers_for request.event_id items)
  let tiers = tier_map [] rows
  fail_if (not (length tiers == length items)) tier_not_found
  check_items tiers items
  let row : ReservationRow = record {
    id = new_id;
    event_id = request.event_id;
    status = active;
    idempotency_key = key;
    request_hash = hash;
    expires_at = now + ttl;
    order_reference = none;
  }
  inserted ← attempt (exec_checked duplicate_key (insert_reservation row))
  after_insert inserted now key hash row event tiers items

unfoldable pub create_or_replay :
    Option ReservationRow → ℕ → ℕ → Text → Text → Text → State → Request → Action Db Reservation
unfolding create_new
create_or_replay none now ttl new_id key hash state request =
    create_new now ttl new_id key hash state request
create_or_replay (some r) now ttl new_id key hash state request = do
  fail_if (not (same r.request_hash hash)) idempotency_conflict
  get_tx now r.id

unfoldable pub create : (Request → Text) → ℕ → ℕ → Text → Text → Request → Action Db Reservation
unfolding create_or_replay
create digest now ttl new_id key raw = do
  let request = normalize_request raw
  let hash = request_hash digest request
  begin
  state ← on_no_rows event_not_found (read request.event_id)
  existing ← query (by_key key)
  create_or_replay existing now ttl new_id key hash state request
