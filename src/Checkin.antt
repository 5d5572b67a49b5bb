-- ===== src/Checkin.antt =====
-- backend/internal/checkin/checkin.go: tickets admitted at a gate, and the log of the attempts.
-- `hash` is SHA-256 of a token and `now` the clock. A ticket's snapshot is its row in etickets.
pub mod Admission
pub mod Steps
pub mod Log
pub mod Codes
pub mod Served
pub mod Examples
use ticket_online.Common.{
  ℕ, Bool, true, false, not, ◌&&◌, ◌||◌, Option, none, some, List, [], ◌∷◌, ◌++◌, length, drop,
  select?, any, ltb, ◌==◌, if◌then◌else◌,
}
use mathlib.Core.Option
use ticket_online.Common.Text.{Text, text, same, trim_space, to_upper, to_lower, is_hex, has_prefix}
use ticket_online.Errors.{
  Error, driver, closed, invalid_request, ticket_not_found, wrong_gate, order_not_paid, ticket_used,
  forbidden,
}
use ticket_online.Sql.{
  Action, Result, ok, err, pure, raise, query, or_raise, fail_if, begin, exec_checked, commit,
  attempt, ◌>>=◌, ◌>>◌,
}
use ticket_online.Schema.{OrderStatus, Outcome, Eticket, TicketCheckin, CheckinAttempt, Db}
use ticket_online.EventState.{State, for_order, can_check_in, event_of_reservation}
use ticket_online.Payment.Status.{is_paid}
use ticket_online.Payment.Tickets.{Ticket, to_ticket}
use ticket_online.StaffAuth.{Staff, is_staff, authenticate_tx, authorize_ticket_status_tx}

pub record Request : Type 0 where
  pub event_id : Text
  pub gate : Text
  pub code : Text

-- What CheckIn returns once an attempt is written: the ticket is admitted at a time, or refused with
-- an error, which two refusals return with the ticket.
pub data Answer : Type 0 where
  admitted : Ticket → ℕ → Answer
  refused : Error → Answer
  refused_gate : Ticket → Answer
  already_used : Ticket → ℕ → Answer

unfoldable pub normalize_ticket_code : Text → Option Text
normalize_ticket_code code =
    let c = to_upper (trim_space code) in
    if not (length c == 35) || not (has_prefix c (text "ET-")) || not (is_hex (drop 3 c))
    then none
    else some c

abbrev with_code : Text → Text → Option Text → Option Request
with_code event_id gate none = none
with_code event_id gate (some code) =
    some (record { event_id = event_id; gate = gate; code = code })

unfoldable pub normalize : Request → Option Request
unfolding normalize_ticket_code
normalize r =
    let event_id = trim_space r.event_id in
    let gate = trim_space r.gate in
    let code = to_upper (trim_space r.code) in
    if same event_id []
      || ltb 64 (length event_id)
      || same gate []
      || ltb 100 (length gate)
      || same code []
    then none
    else with_code event_id gate (normalize_ticket_code code)

-- A trimmed value that fits its column, or NULL.
abbrev pub kept : ℕ → Text → Option Text
kept limit value =
    let v = trim_space value in
    if not (same v []) && not (ltb limit (length v)) then some v else none

abbrev pub same_option : Option Text → Option Text → Bool
same_option (some a) (some b) = same a b
same_option _ _ = false

-- The unique key on checked_in_ticket_id, which NULL never meets.
unfoldable pub write_attempt : CheckinAttempt → Db → Option Db
write_attempt a d =
    if any (λ b. same_option b.checked_in_ticket_id a.checked_in_ticket_id) d.checkin_attempts
    then none
    else some (record d { checkin_attempts = d.checkin_attempts ++ a ∷ [] })

unfoldable pub attempt_row : ℕ → Staff → Request → Outcome → Option Text → Option ℕ → CheckinAttempt
attempt_row now principal request outcome ticket_id at = record {
  checked_in_ticket_id = ticket_id;
  ticket_code = normalize_ticket_code request.code;
  event_id = kept 64 request.event_id;
  gate = kept 100 request.gate;
  staff_id = principal.id;
  staff_name = principal.name;
  outcome = outcome;
  recorded_at = now;
  checked_in_at = at;
}

unfoldable pub insert_attempt :
    ℕ → Staff → Request → Outcome → Option Text → Option ℕ → Action Db (Unit {0})
unfolding write_attempt
insert_attempt now principal request outcome ticket_id at =
    exec_checked driver (write_attempt (attempt_row now principal request outcome ticket_id at))

-- The attempt is stored, and the answer is what its caller returns.
unfoldable pub finish_attempt : ℕ → Staff → Request → Outcome → Option ℕ → Answer → Action Db Answer
unfolding insert_attempt
finish_attempt now principal request outcome at answer =
    insert_attempt now principal request outcome none at >> (commit >> pure answer)

-- The primary key of ticket_checkins.
unfoldable pub write_checkin : TicketCheckin → Db → Option Db
write_checkin c d =
    if any (λ b. same b.ticket_id c.ticket_id) d.ticket_checkins
    then none
    else some (record d { ticket_checkins = d.ticket_checkins ++ c ∷ [] })

abbrev pub checked_in_at : Text → Db → Option ℕ
checked_in_at id d =
    Option.map (λ c. c.checked_in_at) (select? (λ c. same c.ticket_id id) d.ticket_checkins)

-- The end of CheckIn, when all else allows it: the ticket is used, or is admitted now.
unfoldable pub admit : ℕ → Staff → Request → Text → Text → Ticket → Option ℕ → Action Db Answer
unfolding finish_attempt write_checkin
admit now principal request id event_id ticket (some at) =
    finish_attempt now principal request Outcome.ticket_already_used (some at)
      (already_used ticket at)
admit now principal request id event_id ticket none =
    exec_checked driver (
      write_checkin (record {
        ticket_id = id;
        staff_id = principal.id;
        event_id = event_id;
        gate = request.gate;
        checked_in_at = now;
      }))
    >> (insert_attempt now principal request Outcome.checked_in (some id) (some now)
        >> (commit >> pure (admitted ticket now)))

unfoldable pub check_snapshot :
    ℕ → Staff → Request → Text → Text → Option Eticket → Action Db Answer
unfolding admit
check_snapshot now principal request id event_id none =
    finish_attempt now principal request Outcome.ticket_not_found none (refused ticket_not_found)
check_snapshot now principal request id event_id (some row) =
    let ticket = to_ticket row in
    if not (same ticket.id id) || not (same ticket.event_id event_id)
    then finish_attempt now principal request Outcome.ticket_not_found none
        (refused ticket_not_found)
    else if not (same ticket.gate request.gate)
    then finish_attempt now principal request Outcome.wrong_gate none (refused_gate ticket)
    else query (checked_in_at id) >>= admit now principal request id event_id ticket

abbrev pub is_held : Text → Db → Bool
is_held id d = any (λ r. same r.order_id id && r.requested) d.refund_rights

abbrev pub ticket_row : Text → Db → Option Eticket
ticket_row id d = select? (λ t. same t.id id) d.etickets

-- orders JOIN reservations: the order's status with its event.
abbrev pub order_event : Text → Db → Option (OrderStatus × Text)
order_event id d =
    Option.bind (select? (λ o. same o.id id) d.orders)
      λ o. Option.map (λ e. (o.status, e)) (event_of_reservation o.reservation_id d)

unfoldable pub check_order :
    ℕ → Staff → Request → Text → Text → State → Option (OrderStatus × Text) → Action Db Answer
unfolding check_snapshot
check_order now principal request id order_id state none =
    finish_attempt now principal request Outcome.ticket_not_found none (refused ticket_not_found)
check_order now principal request id order_id state (some (status, event_id)) =
    if not (is_paid status)
    then finish_attempt now principal request Outcome.order_not_paid none (refused order_not_paid)
    else if not (same event_id request.event_id)
    then finish_attempt now principal request Outcome.ticket_not_found none
        (refused ticket_not_found)
    else query (is_held order_id) >>= λ held.
        if held || not (can_check_in state now)
        then finish_attempt now principal request Outcome.event_changed none (refused closed)
        else query (ticket_row id) >>= check_snapshot now principal request id event_id

abbrev pub order_of_ticket : Text → Db → Option Text
order_of_ticket id d = Option.map (λ t. t.order_id) (ticket_row id d)

abbrev pub ticket_id_of : Text → Text
ticket_id_of code = to_lower (drop 3 code)

unfoldable pub check_ticket : ℕ → Staff → Request → Text → Option Text → Action Db Answer
unfolding check_order
check_ticket now principal request id none =
    finish_attempt now principal request Outcome.ticket_not_found none (refused ticket_not_found)
check_ticket now principal request id (some order_id) = do
  state ← for_order order_id
  found ← query (order_event order_id)
  check_order now principal request id order_id state found

unfoldable pub check_authorized : ℕ → Staff → Request → Result (Unit {0}) → Action Db Answer
unfolding check_ticket
check_authorized now principal request (err forbidden) =
    finish_attempt now principal request Outcome.forbidden none (refused forbidden)
check_authorized now principal request (err e) = raise e
check_authorized now principal request (ok _) =
    let id = ticket_id_of request.code in
    query (order_of_ticket id) >>= check_ticket now principal request id

unfoldable pub check_normalized : ℕ → Staff → Request → Option Request → Action Db Answer
unfolding check_authorized
check_normalized now principal submitted none =
    finish_attempt now principal submitted Outcome.invalid_request none (refused invalid_request)
check_normalized now principal submitted (some request) =
    attempt (authorize_ticket_status_tx principal request.event_id request.gate)
    >>= check_authorized now principal request

unfoldable pub check_in : (Text → Text) → ℕ → Text → Request → Action Db Answer
unfolding check_normalized normalize
check_in hash now token request = do
  begin
  principal ← authenticate_tx hash now token
  fail_if (not (is_staff principal.role)) forbidden
  check_normalized now principal request (normalize request)

pub record TicketStatus : Type 0 where
  pub ticket : Ticket
  pub order_status : OrderStatus
  pub current_event : State
  pub is_checked_in : Bool
  pub can_check_in : Bool
  pub checked_in_at : Option ℕ

abbrev status_of : Ticket → OrderStatus → State → Bool → Option ℕ → TicketStatus
status_of ticket order_status state allowed none = record {
  ticket = ticket;
  order_status = order_status;
  current_event = state;
  is_checked_in = false;
  can_check_in = allowed;
  checked_in_at = none;
}
status_of ticket order_status state allowed (some at) = record {
  ticket = ticket;
  order_status = order_status;
  current_event = state;
  is_checked_in = true;
  can_check_in = false;
  checked_in_at = some at;
}

unfoldable pub get_ticket_status : (Text → Text) → ℕ → Text → Text → Action Db TicketStatus
unfolding normalize_ticket_code
get_ticket_status hash now token code = do
  normalized ← or_raise (normalize_ticket_code code) invalid_request
  begin
  principal ← authenticate_tx hash now token
  let id = ticket_id_of normalized
  target ← query (order_of_ticket id)
  order_id ← or_raise target ticket_not_found
  state ← for_order order_id
  found ← query (order_event order_id)
  order ← or_raise found ticket_not_found
  snapshot ← query (ticket_row id)
  row ← or_raise snapshot ticket_not_found
  let ticket = to_ticket row
  fail_if (not (same ticket.id id) || not (same ticket.event_id order.1)) ticket_not_found
  authorize_ticket_status_tx principal order.1 ticket.gate
  held ← query (is_held order_id)
  used ← query (checked_in_at id)
  pure (status_of ticket order.0 state (is_paid order.0 && not held && can_check_in state now) used)
