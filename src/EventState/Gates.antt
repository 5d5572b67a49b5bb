-- ===== src/EventState/Gates.antt =====
-- What the gates of eventstate/state.go let through.
use ticket_online.Common.{
  ℕ, ◌+◌, ◌*◌, ◌≤◌, ◌<◌, ◌≡◌, ◌↔◌, ◌⊎◌, inl, inr, refl, true, false, Option, some, arith,
}
use ticket_online.Schema.{Event, EventChange, Lifecycle}
use ticket_online.EventState.{
  State, is_open, to_state, can_sell, can_check_in, day, wib_offset, wib_day,
}

-- A changed event that is open and has a start admits visitors on one day only: from midnight WIB
-- of the concert day until the next midnight.
pub can_check_in-day :
    (s : State) (start now : ℕ)
    → is_open s.status ≡ true
    → 0 < s.version
    → s.starts_at ≡ some start
    → (can_check_in s now ≡ true)
      ↔ ((wib_day start * day ≤ now + wib_offset) × (now + wib_offset < wib_day start * day + day))
unfolding can_check_in
can_check_in-day s start now opened changed starts = (λ h. ground arith, λ h. ground arith)

-- The lifecycles in which an event takes place as announced.
abbrev pub IsHeld : Lifecycle → Type 0
IsHeld l = (l ≡ Lifecycle.scheduled) ⊎ (l ≡ Lifecycle.rescheduled)

IsHeld-status : (l : Lifecycle) → is_open l ≡ true → IsHeld l
IsHeld-status Lifecycle.scheduled h = inl refl
IsHeld-status Lifecycle.rescheduled h = inr refl
IsHeld-status Lifecycle.postponed h = absurd (cc)
IsHeld-status Lifecycle.cancelled h = absurd (cc)

-- An event as read from the tables sells only as long as it takes place and its sales go on.
pub can_sell-IsHeld :
    (e : Event) (change : Option EventChange)
    → can_sell (to_state e change) ≡ true
    → IsHeld e.lifecycle × (e.sales_paused ≡ false)
unfolding can_sell to_state
can_sell-IsHeld e change h = (IsHeld-status e.lifecycle (ground arith), ground arith)

pub can_check_in-IsHeld :
    (e : Event) (change : Option EventChange) (now : ℕ)
    → can_check_in (to_state e change) now ≡ true
    → IsHeld e.lifecycle
unfolding can_check_in to_state
can_check_in-IsHeld e change now h = IsHeld-status e.lifecycle (ground arith)
