-- ===== src/EventState/Examples.antt =====
-- Runs of the gates of an event.
use ticket_online.Common.{◌+◌, ◌*◌, ◌≤◌, ◌<◌, ◌≡◌, refl, true, false, none, some, ◌↔◌, arith}
use ticket_online.Common.Text.{text}
use ticket_online.Schema.{Lifecycle}
use ticket_online.EventState.{State, can_check_in, wib_day, day, wib_offset}
use ticket_online.EventState.Gates.{can_check_in-day}

abbrev moved : State
moved = record {
  id = text "ev";
  status = Lifecycle.rescheduled;
  version = 2;
  sales_paused = false;
  starts_at = some 300000000000;
  announcement = text "new date";
  refund_deadline = none;
}

can_check_in-day_example : (can_check_in moved 310000000000 ≡ true) ↔ (
    (wib_day 300000000000 * day ≤ 310000000000 + wib_offset)
    × (310000000000 + wib_offset < wib_day 300000000000 * day + day))
can_check_in-day_example = can_check_in-day moved 300000000000 310000000000 refl (omega arith) refl
