-- ===== src/Reservation/Examples.antt =====
-- Runs of the reservation calls on a shop with one event and one tier.
use mathlib.Core.Option
use ticket_online.Common.{ℕ, ◌≡◌, refl, false, Option, none, some, List, [], ◌∷◌, map}
use ticket_online.Common.Text.{Text, text, same, trim_space, less}
use ticket_online.Errors.{order_limit_exceeded, reservation_expired}
use ticket_online.Sql.{err, Session}
use ticket_online.Schema.{
  Publication, Lifecycle, Event, Tier, active, ReservationRow, ReservationItem, Db, empty_db,
}
use ticket_online.Reservation.Request.{Request, validate_request, valid_items}
use ticket_online.Reservation.Valid.{Distinct, Positive, work_items, validated_items}
use ticket_online.Reservation.Ledger.{holds, held}
use ticket_online.Reservation.Transactions.{cancel, convert}
use ticket_online.Reservation.Create.{create}
use ticket_online.Reservation.Sound.{IsSound}
use ticket_online.Reservation.History.{
  Call, created, cancelled, converted, shown, swept, serve_all, serve_all-IsSound,
}
use ticket_online.Reservation.Atomic.{create_error-stored, convert_error-stored}
use ticket_online.Common.Text.{trim_left}
use ticket_online.EventState.{for_reservation, read, can_sell, current_change, to_state}
use ticket_online.Reservation.Create.{
  after_insert, check_items, create_new, create_or_replay, get_by_key, hold_items,
  insert_reservation, put_tier, replay_by_key, take_stock, tier_at, tier_map, tiers_for,
}
use ticket_online.Reservation.History.{submit, serve}
use ticket_online.Reservation.Request.{normalize_request, sort_items, insert_item, request_hash}
use ticket_online.Reservation.Store.{
  get_record, end_reservation, get_stored, get_tx, items_of, join_tiers, response, restore_items,
  restore_loop, restore_tier, subtotal_of,
}
use ticket_online.Reservation.Transactions.{
  get, expire_one, run_batch, batch_loop, cancel_record, convert_record, end_as, ended_ids,
  expire_row, set_converted,
}
use ticket_online.Sql.{
  ◌>>=◌, attempt, begin, commit, exec, exec_checked, fail_if, on_no_rows, or_raise, pure, query,
  query_stored, raise, rollback, statement,
}

abbrev concert : Event
concert = record {
  id = text "ev";
  artist = text "Artist";
  publication = Publication.published;
  lifecycle = Lifecycle.scheduled;
  change_version = 0;
  sales_paused = false;
  starts_at = some 9000;
}

-- Ten seats, of which reservation `r1` holds two until time 100.
abbrev tier : Tier
tier = record {
  id = 7;
  event_id = text "ev";
  slug = text "vip";
  name = text "VIP";
  price = 500;
  capacity = 10;
  available = 8;
  max_per_order = 4;
  gate = [];
}

abbrev first_row : ReservationRow
first_row = record {
  id = text "r1";
  event_id = text "ev";
  status = active;
  idempotency_key = text "key-1";
  request_hash = text "h";
  expires_at = 100;
  order_reference = none;
}

abbrev first_item : ReservationItem
first_item = record { reservation_id = text "r1"; tier_id = 7; quantity = 2; unit_price = 500 }

abbrev shop : Db
shop = record empty_db {
  events = concert ∷ [];
  tiers = tier ∷ [];
  reservations = first_row ∷ [];
  reservation_items = first_item ∷ [];
}

abbrev digest : Request → Text
digest r = r.event_id

abbrev three_seats : Request
three_seats = record {
  event_id = text " ev ";
  items = record { tier_id = text "vip"; quantity = 3 } ∷ [];
}

abbrev nine_seats : Request
nine_seats = record {
  event_id = text "ev";
  items = record { tier_id = text "vip"; quantity = 9 } ∷ [];
}

abbrev at_start : Session Db
at_start = record { stored = shop; working = shop; remaining = none }

shop-IsSound : IsSound shop
unfolding holds held same
shop-IsSound = record { ledger = (refl, tt); unique = (tt, tt); owned = (refl, tt) }

-- The expired reservation gives its seats back, a new one takes three, one call is cut off.
abbrev calls : List (Option ℕ × Call)
calls =
    (none, created 50 (text "r2") (text "checkout-key-000000001") three_seats)
    ∷ (some 3, cancelled 60 (text "r2"))
    ∷ (none, converted 70 (text "TO-1") (text "r2"))
    ∷ (none, swept 120 (λ _. 120))
    ∷ (none, shown 130 (text "r1"))
    ∷ []

serve_all_run : map (λ t. t.available) (serve_all digest 600 calls shop).tiers ≡ 7 ∷ []
unfolding serve_all get ◌>>=◌ expire_one for_reservation run_batch convert cancel submit trim_space
    validate_request same normalize_request create read can_sell sort_items get_record Option.bind
    less trim_left current_change to_state after_insert check_items create_new create_or_replay
    get_by_key hold_items insert_reservation put_tier replay_by_key take_stock tier_at tier_map
    tiers_for serve insert_item request_hash valid_items end_reservation get_stored get_tx items_of
    join_tiers response restore_items restore_loop restore_tier subtotal_of batch_loop cancel_record
    convert_record end_as ended_ids expire_row set_converted attempt begin commit exec exec_checked
    fail_if on_no_rows or_raise pure query query_stored raise rollback statement
serve_all_run = refl

serve_all-IsSound_example : IsSound (serve_all digest 600 calls shop)
serve_all-IsSound_example = serve_all-IsSound digest 600 calls shop shop-IsSound

three_seats-valid : validate_request three_seats ≡ none
unfolding validate_request valid_items same trim_space
three_seats-valid = refl

validated_items_example : Distinct (work_items three_seats) × Positive (work_items three_seats)
validated_items_example = validated_items three_seats three_seats-valid

nine_refused :
    (create digest 50 600 (text "r3") (text "k") nine_seats at_start).0 ≡ err order_limit_exceeded
unfolding create create_or_replay create_new check_items tier_at tiers_for tier_map put_tier read
    to_state current_change can_sell normalize_request sort_items insert_item request_hash
    trim_space same ◌>>=◌ begin on_no_rows query or_raise fail_if raise pure statement Option.bind
nine_refused = refl

create_error-stored_example :
    (create digest 50 600 (text "r3") (text "k") nine_seats at_start).1.stored ≡ shop
create_error-stored_example =
    create_error-stored digest 50 600 (text "r3") (text "k") nine_seats at_start _ nine_refused

late_refused : (convert 150 (text "TO-2") (text "r1") at_start).0 ≡ err reservation_expired
unfolding convert convert_record for_reservation read to_state current_change can_sell get_record
    items_of join_tiers restore_items restore_loop restore_tier same exec set_converted ◌>>=◌ begin
    on_no_rows query or_raise fail_if raise pure statement Option.bind
late_refused = refl

convert_error-stored_example : (convert 150 (text "TO-2") (text "r1") at_start).1.stored ≡ shop
convert_error-stored_example =
    convert_error-stored 150 (text "TO-2") (text "r1") at_start _ late_refused

-- Cancel, at the same time, stores the expiry.
late_cancel : map (λ t. t.available) (cancel 150 (text "r1") at_start).1.stored.tiers ≡ 10 ∷ []
unfolding cancel cancel_record for_reservation read to_state current_change can_sell get_record
    items_of join_tiers end_as end_reservation restore_items restore_loop restore_tier same exec
    commit ◌>>=◌ begin on_no_rows query or_raise fail_if raise pure statement Option.bind
late_cancel = refl
