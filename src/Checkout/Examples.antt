-- ===== src/Checkout/Examples.antt =====
-- A checkout of two seats with a voucher, and one with a phone number that is too short.
use mathlib.Core.Option
use ticket_online.Common.{◌≡◌, refl, true, false, Bool, Option, none, some, [], ◌∷◌, map}
use ticket_online.Common.Text.{Text, text, same, trim_space, trim_left, to_upper, to_lower}
use ticket_online.Errors.{invalid_request}
use ticket_online.Sql.{
  Result, ok, err, Session, ◌>>=◌, begin, commit, exec, exec_checked, fail_if, on_no_rows, or_raise,
  pure, query, raise, statement,
}
use ticket_online.Schema.{Publication, Lifecycle, VoucherKind, OrderStatus, active, Db, empty_db}
use ticket_online.EventState.{for_reservation, read, can_sell, current_change, to_state}
use ticket_online.Pricing.{
  calculate, apply_voucher, discount, is_usable, read_voucher, usage, usage_in, valid_code,
}
use ticket_online.Reservation.Store.{items_of}
use ticket_online.Checkout.{CheckoutRequest, CheckoutOrder, validate, digits, trim_request}
use ticket_online.Checkout.Asked.{add_items, check_attendees, check_status, held_lines, names_of}
use ticket_online.Checkout.Create.{
  convert_reservation, create, create_valid, insert_buyer, insert_order, insert_order_attendee,
  insert_order_item, insert_voucher, place, place_or_replay, store_order, write_attendees,
  write_items, write_voucher,
}
use ticket_online.Checkout.Outcomes.{Places}
use ticket_online.Checkout.Placed.{create-Places}
use ticket_online.Checkout.OnSale.{IsOnSale, new_order-IsOnSale}

abbrev shop : Db
shop = record empty_db {
  events =
      record {
        id = text "ev";
        artist = text "Artist";
        publication = Publication.published;
        lifecycle = Lifecycle.scheduled;
        change_version = 0;
        sales_paused = false;
        starts_at = some 9000;
      }
      ∷ [];
  tiers =
      record {
        id = 7;
        event_id = text "ev";
        slug = text "vip";
        name = text "VIP";
        price = 500;
        capacity = 10;
        available = 8;
        max_per_order = 4;
        gate = [];
      }
      ∷ [];
  reservations =
      record {
        id = text "r1";
        event_id = text "ev";
        status = active;
        idempotency_key = text "key-1";
        request_hash = text "h";
        expires_at = 100;
        order_reference = none;
      }
      ∷ [];
  reservation_items =
      record { reservation_id = text "r1"; tier_id = 7; quantity = 2; unit_price = 500 } ∷ [];
  vouchers =
      record {
        code = text "HALF";
        kind = VoucherKind.percent;
        value = 50;
        starts_at = 0;
        ends_at = 1000;
        is_active = true;
        event_id = none;
        minimum_subtotal = 0;
        quota = 1;
        revision = 1;
      }
      ∷ [];
  settings = some (record { admin_fee = 25; revision = 1 });
}

abbrev address : Text → Option Text
address = some

abbrev digest : Text → CheckoutRequest → Text
digest id r = r.buyer.email

abbrev request_from : Text → CheckoutRequest
request_from phone = record {
  buyer = record { name = text " Ayu "; email = text "a@b.c"; phone = phone; identity = [] };
  voucher_code = text "half";
  attendees = record { tier_id = text "VIP"; names = text "Ayu" ∷ text "Budi" ∷ [] } ∷ [];
}

abbrev raw : CheckoutRequest
raw = request_from (text "+62 812-345-678")

abbrev request : CheckoutRequest
request = record {
  buyer = record {
    name = text "Ayu";
    email = text "a@b.c";
    phone = text "+62812345678";
    identity = [];
  };
  voucher_code = text "HALF";
  attendees = record { tier_id = text "vip"; names = text "Ayu" ∷ text "Budi" ∷ [] } ∷ [];
}

abbrev at_start : Session Db
at_start = record { stored = shop; working = empty_db; remaining = none }

abbrev checkout : CheckoutRequest → Result (CheckoutOrder × Bool) × Session Db
checkout r =
    create address digest 50 (text "o1") (text "TO-1") (text "r1") (text "key-1") r at_start

raw-valid : validate address raw ≡ ok request
unfolding validate digits trim_request trim_space trim_left to_upper to_lower same valid_code
raw-valid = refl

short_refused : (checkout (request_from (text "12-34"))).0 ≡ err invalid_request
unfolding create validate digits trim_request trim_space trim_left to_upper to_lower same raise
short_refused = refl

checkout_totals : map (λ o. o.total) (checkout raw).1.stored.orders ≡ 525 ∷ []
unfolding create create_valid validate digits trim_request trim_space trim_left to_upper to_lower
    same valid_code for_reservation read can_sell current_change to_state calculate apply_voucher
    discount is_usable read_voucher usage usage_in items_of add_items check_attendees check_status
    convert_reservation held_lines insert_buyer insert_order insert_order_attendee insert_order_item
    insert_voucher names_of place place_or_replay store_order write_attendees write_items
    write_voucher ◌>>=◌ begin commit exec exec_checked fail_if on_no_rows or_raise pure query
    statement Option.bind
checkout_totals = refl

create-Places_example :
    Places shop 50
      (text "a@b.c")
      (text "r1")
      (text "key-1")
      (checkout raw).0
      (checkout raw).1.stored
create-Places_example =
    create-Places address digest 50 (text "o1") (text "TO-1") (text "r1") (text "key-1") raw request
      at_start raw-valid

-- The order of two seats at half their price, with the fee.
abbrev order : CheckoutOrder
order = record {
  id = text "o1";
  reference = text "TO-1";
  reservation_id = text "r1";
  status = OrderStatus.pending;
  expires_at = 100;
  subtotal = 1000;
  admin_fee = 25;
  discount = 500;
  total = 525;
  items =
      record {
        tier_id = text "vip";
        ticket_tier_id = 7;
        name = text "VIP";
        quantity = 2;
        unit_price = 500;
        line_total = 1000;
      }
      ∷ [];
  voucher = some (record { code = text "HALF"; kind = VoucherKind.percent; value = 50 });
}

placed : (checkout raw).0 ≡ ok (order, false)
unfolding create create_valid validate digits trim_request trim_space trim_left to_upper to_lower
    same valid_code for_reservation read can_sell current_change to_state calculate apply_voucher
    discount is_usable read_voucher usage usage_in items_of add_items check_attendees check_status
    convert_reservation held_lines insert_buyer insert_order insert_order_attendee insert_order_item
    insert_voucher names_of place place_or_replay store_order write_attendees write_items
    write_voucher ◌>>=◌ begin commit exec exec_checked fail_if on_no_rows or_raise pure query
    statement Option.bind
placed = refl

new_order-IsOnSale_example : IsOnSale shop (text "r1")
new_order-IsOnSale_example =
    new_order-IsOnSale address digest 50 (text "o1") (text "TO-1") (text "r1") (text "key-1") raw
      request at_start order raw-valid placed
