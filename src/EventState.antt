-- ===== src/EventState.antt =====
-- backend/internal/eventstate/state.go: what an event's lifecycle lets the other parts do. Row locks
-- (`lock`) change no result and are left out.
pub mod Gates
pub mod Examples
use ticket_online.Common.{
  ℕ, suc, ◌+◌, ◌*◌, ◌/◌, Bool, true, false, not, ◌&&◌, ◌||◌, Option, none, some, ◌==◌,
  if◌then◌else◌, select?, any, List, [],
}
use ticket_online.Common.Text.{Text, same}
use ticket_online.Errors.{no_rows}
use ticket_online.Sql.{Action, query, or_raise, pure, ◌>>=◌}
use mathlib.Core.Option
use ticket_online.Schema.{Event, EventChange, Lifecycle, Db}

pub record State : Type 0 where
  pub id : Text
  pub status : Lifecycle
  pub version : ℕ
  pub sales_paused : Bool
  pub starts_at : Option ℕ
  pub announcement : Text
  pub refund_deadline : Option ℕ

abbrev pub is_open : Lifecycle → Bool
is_open Lifecycle.scheduled = true
is_open Lifecycle.rescheduled = true
is_open _ = false

-- `starts.Valid && s.Status != "POSTPONED" && s.Status != "CANCELLED"`
abbrev shown_start : Lifecycle → Option ℕ → Option ℕ
shown_start Lifecycle.postponed at = none
shown_start Lifecycle.cancelled at = none
shown_start _ at = at

-- The LEFT JOIN with the change of the event's current version.
abbrev announcement_of : Option EventChange → Text
announcement_of none = []
announcement_of (some c) = c.announcement

abbrev deadline_of : Option EventChange → Option ℕ
deadline_of none = none
deadline_of (some c) = c.refund_deadline

unfoldable pub to_state : Event → Option EventChange → State
to_state e change = record {
  id = e.id;
  status = e.lifecycle;
  version = e.change_version;
  sales_paused = e.sales_paused;
  starts_at = shown_start e.lifecycle e.starts_at;
  announcement = announcement_of change;
  refund_deadline = deadline_of change;
}

unfoldable pub current_change : Event → List EventChange → Option EventChange
current_change e = select? λ c. same c.event_id e.id && c.version == e.change_version

abbrev pub read_in : Text → Db → Option State
read_in id d =
    Option.map (λ e. to_state e (current_change e d.event_changes))
      (select? (λ e. same e.id id) d.events)

unfoldable pub read : Text → Action Db State
unfolding to_state current_change
read id = do found ← query (read_in id); or_raise found no_rows

abbrev pub event_of_reservation : Text → Db → Option Text
event_of_reservation id d =
    Option.map (λ r. r.event_id) (select? (λ r. same r.id id) d.reservations)

-- The event of an order, over its reservation.
abbrev pub event_of_order : Text → Db → Option Text
event_of_order id d =
    Option.bind (select? (λ o. same o.id id) d.orders)
      (λ o. event_of_reservation o.reservation_id d)

unfoldable pub for_order : Text → Action Db State
for_order id = do
  found ← query (event_of_order id)
  event_id ← or_raise found no_rows
  read event_id

unfoldable pub for_reservation : Text → Action Db State
for_reservation id = do
  found ← query (event_of_reservation id)
  event_id ← or_raise found no_rows
  read event_id

unfoldable pub can_sell : State → Bool
can_sell s = is_open s.status && not s.sales_paused

abbrev pub day : ℕ
day = 86400000000

-- Seven hours: the offset of WIB.
abbrev pub wib_offset : ℕ
wib_offset = 25200000000

-- The calendar day of a moment in WIB, which `Format("2006-01-02")` writes.
abbrev pub wib_day : ℕ → ℕ
wib_day at = (at + wib_offset) / day

abbrev on_concert_day : Option ℕ → ℕ → Bool
on_concert_day none now = false
on_concert_day (some start) now = wib_day now == wib_day start

unfoldable pub can_check_in : State → ℕ → Bool
can_check_in s now =
    if not (is_open s.status)
    then false
    else if s.version == 0
    then true
    else on_concert_day s.starts_at now

abbrev pub is_stopped : Text → Db → Bool
is_stopped id d = any (λ w. same w.order_id id && w.stop_pending) d.change_orders

-- A pending order of an earlier schedule stays blocked after sales reopen.
unfoldable pub payment_blocked : Text → State → Action Db Bool
unfolding can_sell
payment_blocked id s = if not (can_sell s) then pure true else query (is_stopped id)
