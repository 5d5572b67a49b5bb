-- ===== src/Checkin/Examples.antt =====
-- Runs of check-ins.
use mathlib.Core.Option
use ticket_online.Common.{true, false, ◌≡◌, refl, none, some, List, [], ◌∷◌, arith}
use ticket_online.Common.Text.{
  Text, text, same, same_folded, trim_space, trim_left, to_upper, to_lower, is_hex, has_prefix,
}
use ticket_online.Sql.{
  Session, ok, ◌>>=◌, begin, commit, query, or_raise, fail_if, pure, exec, exec_checked, statement,
  attempt,
}
use ticket_online.Sql.Lasts.{lasting}
use ticket_online.Schema.{
  Publication, Lifecycle, Event, converted, OrderStatus, Eticket, staff, StaffUser, Db, empty_db,
}
use ticket_online.EventState.{for_order, read, to_state, current_change, can_check_in}
use ticket_online.Payment.Tickets.{to_ticket}
use ticket_online.Reservation.Reads.{state_of_order, read_result}
use ticket_online.StaffAuth.{
  signed_in, authenticate_tx, is_assigned, authorize_ticket_status_tx, to_staff,
}
use ticket_online.Checkin.{
  Request, admitted, normalize, normalize_ticket_code, attempt_row, write_attempt, insert_attempt,
  write_checkin, admit, check_snapshot, check_order, check_ticket, check_authorized,
  check_normalized, check_in, ticket_id_of,
}
use ticket_online.Checkin.Admission.{Serves, Admission}
use ticket_online.Checkin.Log.{
  check_in-Serves, serve_all, serve_all-Logged, Call, LoggedIn, checkins_of, admissions_of,
}
use ticket_online.Checkin.Codes.{normalize_ticket_code-roundtrip}
use ticket_online.Checkin.Served.{Admits, check_in-Admits}

abbrev hash : Text → Text
hash t = t

abbrev token : Text
token = text "0123456789012345678901234567890123456789abc"

abbrev ticket_id : Text
ticket_id = text "00112233445566778899aabbccddeeff"

abbrev request : Request
request = record {
  event_id = text " e1";
  gate = text "A";
  code = text "et-00112233445566778899aabbccddeeff ";
}

abbrev row : Eticket
row = record {
  id = ticket_id;
  order_id = text "o1";
  tier_id = 1;
  number = 1;
  attendee_name = text "Ana";
  event_id = text "e1";
  event_artist = text "X";
  gate = text "A";
  issued_at = 20;
}

abbrev concert : Event
concert = record {
  id = text "e1";
  artist = text "X";
  publication = Publication.published;
  lifecycle = Lifecycle.scheduled;
  change_version = 0;
  sales_paused = false;
  starts_at = some 1000;
}

abbrev sam : StaffUser
sam = record {
  id = text "s1";
  name = text "Sam";
  email = text "s@x.id";
  password_hash = [];
  role = staff;
  is_active = true;
}

abbrev tables : Db
tables = record empty_db {
  events = concert ∷ [];
  reservations =
      record {
        id = text "r1";
        event_id = text "e1";
        status = converted;
        idempotency_key = text "k";
        request_hash = text "h";
        expires_at = 10;
        order_reference = some (text "TO-1");
      }
      ∷ [];
  orders =
      record {
        id = text "o1";
        reference = text "TO-1";
        reservation_id = text "r1";
        status = OrderStatus.paid;
        subtotal = 1250;
        admin_fee = 0;
        discount = 0;
        total = 1250;
        request_hash = none;
        expires_at = 10;
        access_deadline = none;
      }
      ∷ [];
  etickets = row ∷ [];
  staff_users = sam ∷ [];
  staff_sessions = record { token_hash = token; staff_id = text "s1"; expires_at = 500 } ∷ [];
  staff_assignments = record { staff_id = text "s1"; event_id = text "e1"; gate = text "A" } ∷ [];
}

abbrev at_gate : Session Db
at_gate = record { stored = tables; working = empty_db; remaining = some 20 }

first_scan : (check_in hash 100 token request at_gate).0 ≡ ok (admitted (to_ticket row) 100)
unfolding check_in same_folded authenticate_tx authorize_ticket_status_tx same trim_space trim_left
    to_upper to_lower is_hex has_prefix ◌>>=◌ begin commit query or_raise fail_if pure exec
    exec_checked statement attempt for_order read to_state current_change can_check_in attempt_row
    write_attempt write_checkin insert_attempt normalize signed_in Option.bind check_normalized
    check_authorized check_ticket check_order check_snapshot admit
first_scan = refl

-- The same ticket again, and a scan that loses its connection after three statements.
abbrev scans : List Call
scans =
    record { now = 100; token = token; request = request; remaining = none }
    ∷ record { now = 101; token = token; request = request; remaining = none }
    ∷ record { now = 102; token = token; request = request; remaining = some 3 }
    ∷ []

tables-LoggedIn : LoggedIn tables
unfolding checkins_of admissions_of
tables-LoggedIn = record { once = λ id. omega arith; agree = λ id. refl }

serve_all-Logged_example : LoggedIn (serve_all hash scans tables)
serve_all-Logged_example = serve_all-Logged hash scans tables tables-LoggedIn

check_in-Serves_example :
    Serves hash 100 token request tables
      (check_in hash 100 token request at_gate).0
      (check_in hash 100 token request at_gate).1.stored
check_in-Serves_example = check_in-Serves hash 100 token request at_gate

may_enter : Admission hash 100 token request tables
unfolding authenticate_tx same same_folded trim_space trim_left to_upper to_lower is_hex has_prefix
    read to_state current_change can_check_in normalize signed_in Option.bind is_assigned
    state_of_order read_result
may_enter = record {
  principal = to_staff sam;
  request = record {
    event_id = text "e1";
    gate = text "A";
    code = text "ET-00112233445566778899AABBCCDDEEFF";
  };
  row = row;
  status = OrderStatus.paid;
  event_id = text "e1";
  state = to_state concert none;
  signed = refl;
  staff = refl;
  normalized = refl;
  assigned = refl;
  ticket = refl;
  order = refl;
  paid = refl;
  event = (refl, refl);
  not_held = refl;
  current = refl;
  is_open = refl;
  gate = refl;
  unused = refl;
}

check_in-Admits_example :
    Admits hash 100 token request tables tables-LoggedIn may_enter
      (check_in hash 100 token request (lasting empty_db tables)).0
      (check_in hash 100 token request (lasting empty_db tables)).1.stored
check_in-Admits_example =
    check_in-Admits hash 100 token request tables tables-LoggedIn may_enter empty_db

normalize_ticket_code-roundtrip_example :
    (normalize_ticket_code (text " et-00112233445566778899aabbccddeeff ")
      ≡ some (to_ticket row).code)
    × (ticket_id_of (to_ticket row).code ≡ row.id)
unfolding trim_space trim_left to_upper is_hex
normalize_ticket_code-roundtrip_example =
    normalize_ticket_code-roundtrip row (text " et-00112233445566778899aabbccddeeff ") refl refl
      refl refl
