-- ===== src/Checkout/OnSale.antt =====
-- Which events a checkout sells tickets of (checkout.go, Create; eventstate/state.go).
use mathlib.Core.Option
use ticket_online.Common.{ℕ, ◌≡◌, refl, sym, ap, subst, true, false, Option, none, some, select?}
use ticket_online.Common.Text.{Text, same}
use ticket_online.Sql.{ok, Session}
use ticket_online.Sql.Reads.{found_of}
use ticket_online.Schema.{Event, ReservationRow, Db}
use ticket_online.EventState.{
  State, to_state, current_change, can_sell, read_in, event_of_reservation,
}
use ticket_online.EventState.Gates.{IsHeld, can_sell-IsHeld}
use ticket_online.Reservation.Reads.{state_of_reservation, read_result}
use ticket_online.Checkout.{CheckoutRequest, CheckoutOrder, validate}
use ticket_online.Checkout.Asked.{reservation_row}
use ticket_online.Checkout.Create.{create}
use ticket_online.Checkout.Outcomes.{Places}
use ticket_online.Checkout.Placed.{create-Places}

-- The event of the reservation, as its row is.
pub record IsOnSale (d : Db) (reservation_id : Text) : Type 0 where
  pub row : ReservationRow
  pub event : Event
  pub reserved : reservation_row reservation_id d ≡ some row
  pub announced : select? (λ e. same e.id row.event_id) d.events ≡ some event
  pub takes_place : IsHeld event.lifecycle
  pub not_paused : event.sales_paused ≡ false

event_row :
    (id : Text) (d : Db) (state : State)
    → read_result id d ≡ ok state
    → (e : Event) × (select? (λ e. same e.id id) d.events ≡ some e)
      × (to_state e (current_change e d.event_changes) ≡ state)
unfolding read_result
event_row id d state h = go (select? (λ e. same e.id id) d.events) (found_of (read_in id d) _ h)
  where
    go :
        (o : Option Event)
        → Option.map (λ e. to_state e (current_change e d.event_changes)) o ≡ some state
        → (e : Event) × (o ≡ some e) × (to_state e (current_change e d.event_changes) ≡ state)
    go none e = absurd (cc)
    go (some e) h = (e, refl, cc)

on_sale :
    (id : Text) (d : Db) (row : ReservationRow) (state : State)
    → reservation_row id d ≡ some row
    → state_of_reservation id d ≡ ok state
    → can_sell state ≡ true
    → IsOnSale d id
unfolding state_of_reservation
on_sale id d row state found is_state sells =
    let reserved : event_of_reservation id d ≡ some row.event_id =
      ap (Option.map (λ (r : ReservationRow). r.event_id)) found in
    let (e, announced, this) = event_row row.event_id d state (rw reserved at is_state) in
    let (takes_place, not_paused) =
      can_sell-IsHeld e _ (subst (λ s. can_sell s ≡ true) (sym this) sells) in
    record {
      row = row;
      event = e;
      reserved = found;
      announced = announced;
      takes_place = takes_place;
      not_paused = not_paused;
    }

-- A checkout that stores a new order is for a reservation of an event that is scheduled or rescheduled
-- and whose sales are not paused: a postponed or cancelled event sells nothing.
pub new_order-IsOnSale :
    (address : Text → Option Text) (digest : Text → CheckoutRequest → Text) (now : ℕ)
    (id reference reservation_id key : Text) (raw request : CheckoutRequest) (s : Session Db)
    (o : CheckoutOrder)
    → validate address raw ≡ ok request
    → (create address digest now id reference reservation_id key raw s).0 ≡ ok (o, false)
    → IsOnSale s.stored reservation_id
new_order-IsOnSale address digest now id reference reservation_id key raw request s o valid placed =
    let after = create address digest now id reference reservation_id key raw s in
    let places =
      subst
        (λ r.
          Places s.stored now (digest reservation_id request) reservation_id key r after.1.stored)
        placed
        (create-Places address digest now id reference reservation_id key raw request s valid) in
    let orderable = places.1 in
    let (state, is_state, sells) = orderable.on_sale in
    on_sale reservation_id s.stored places.0 state orderable.found is_state sells
