-- ===== src/Checkin/Admission.antt =====
-- What CheckIn does on every branch (checkin.go): it fails and stores nothing, it refuses and logs
-- one attempt, or it admits a ticket that may be admitted and logs that.
use ticket_online.Common.{ℕ, ◌≡◌, true, false, Option, none, some, [], ◌∷◌, ◌++◌}
use ticket_online.Common.Text.{Text}
use ticket_online.Errors.{
  Error, closed, invalid_request, ticket_not_found, order_not_paid, forbidden,
}
use ticket_online.Sql.{Result, ok, err}
use ticket_online.Schema.{OrderStatus, Outcome, Eticket, TicketCheckin, CheckinAttempt, Db}
use ticket_online.EventState.{State, can_check_in}
use ticket_online.Payment.Status.{is_paid}
use ticket_online.Payment.Tickets.{to_ticket}
use ticket_online.Reservation.Reads.{state_of_order}
use ticket_online.StaffAuth.{Staff, is_staff, is_assigned}
use ticket_online.StaffAuth.Access.{principal_in}
use ticket_online.Checkin.{
  Request, Answer, admitted, refused, refused_gate, already_used, normalize, ticket_id_of,
  ticket_row, order_event, is_held, checked_in_at, normalize_ticket_code, kept,
}

-- The outcome that the log gives a refusal; an admission is none.
abbrev pub outcome_of : Answer → Option Outcome
outcome_of (admitted t at) = none
outcome_of (refused_gate t) = some Outcome.wrong_gate
outcome_of (already_used t at) = some Outcome.ticket_already_used
outcome_of (refused invalid_request) = some Outcome.invalid_request
outcome_of (refused forbidden) = some Outcome.forbidden
outcome_of (refused ticket_not_found) = some Outcome.ticket_not_found
outcome_of (refused order_not_paid) = some Outcome.order_not_paid
outcome_of (refused closed) = some Outcome.event_changed
outcome_of (refused _) = none

abbrev pub with_attempt : CheckinAttempt → Db → Db
with_attempt a d = record d { checkin_attempts = d.checkin_attempts ++ a ∷ [] }

abbrev pub with_checkin : TicketCheckin → Db → Db
with_checkin c d = record d { ticket_checkins = d.ticket_checkins ++ c ∷ [] }

module _ (hash : Text → Text) (now : ℕ) (token : Text) (submitted : Request) (d : Db) where
  -- Why a ticket may be admitted.
  pub record Admission : Type 0 where
    pub principal : Staff
    pub request : Request
    pub row : Eticket
    pub status : OrderStatus
    pub event_id : Text
    pub state : State
    pub signed : principal_in hash now token d ≡ ok principal
    pub staff : is_staff principal.role ≡ true
    pub normalized : normalize submitted ≡ some request
    pub assigned : is_assigned principal.id request.event_id request.gate d ≡ true
    pub ticket : ticket_row (ticket_id_of request.code) d ≡ some row
    pub order : order_event row.order_id d ≡ some (status, event_id)
    pub paid : is_paid status ≡ true
    pub event : (event_id ≡ request.event_id) × (row.event_id ≡ event_id)
    pub not_held : is_held row.order_id d ≡ false
    pub current : state_of_order row.order_id d ≡ ok state
    pub is_open : can_check_in state now ≡ true
    pub gate : row.gate ≡ request.gate
    pub unused : checked_in_at (ticket_id_of request.code) d ≡ none

  abbrev pub checkin_of : Admission → TicketCheckin
  checkin_of a = record {
    ticket_id = ticket_id_of a.request.code;
    staff_id = a.principal.id;
    event_id = a.event_id;
    gate = a.request.gate;
    checked_in_at = now;
  }

  abbrev pub attempt_of : Admission → CheckinAttempt
  attempt_of a = record {
    checked_in_ticket_id = some (ticket_id_of a.request.code);
    ticket_code = normalize_ticket_code a.request.code;
    event_id = kept 64 a.request.event_id;
    gate = kept 100 a.request.gate;
    staff_id = a.principal.id;
    staff_name = a.principal.name;
    outcome = Outcome.checked_in;
    recorded_at = now;
    checked_in_at = some now;
  }

  pub data Serves : Result Answer → Db → Type 0 where
    fails : (e : Error) → Serves (err e) d
    refuses :
        (a : CheckinAttempt) (answer : Answer)
        → outcome_of answer ≡ some a.outcome
        → a.checked_in_ticket_id ≡ none
        → Serves (ok answer) (with_attempt a d)
    admits :
        (a : Admission)
        → Serves
            (ok (admitted (to_ticket a.row) now))
            (with_attempt (attempt_of a) (with_checkin (checkin_of a) d))
