-- ===== src/Payment/Expiring.antt =====
-- What the expiry of an unpaid order (expiry.go, expireOrderLocally) may leave.
use ticket_online.Common.{
  ℕ, ◌+◌, ◌≤◌, ◌<◌, ◌≡◌, ◌≢◌, Bool, true, false, Option, none, some, List, [], ◌∷◌, update, ◌==◌,
  if◌then◌else◌, ◌⊎◌,
}
use mathlib.Core.Option
use ticket_online.Common.Text.{Text, same}
use ticket_online.Errors.{Error, driver}
use ticket_online.Sql.{Result, ok, err}
use ticket_online.Sql.Runs.{Runs}
use ticket_online.Schema.{OrderStatus, Order, OrderItem, Payment, Tier, Db}
use ticket_online.Payment.Status.{is_waiting, is_succeeded}
use ticket_online.Payment.Tickets.{sorted_items}
use ticket_online.Payment.Expiry.{order_row, payment_row, gateway_of, has_status}

-- The tiers with the seats of the items given back.
abbrev pub given_back : List OrderItem → List Tier → List Tier
given_back [] ts = ts
given_back (i ∷ is) ts =
    given_back is
      (update (λ t. t.id == i.tier_id) (λ t. record t { available = t.available + i.quantity }) ts)

-- Why an order stays as it is.
pub data Stays (now : ℕ) (expected : Text) (o : Order) (p : Option Payment) : Type 0 where
  settled : o.status ≢ OrderStatus.pending → Stays now expected o p
  early : now < o.expires_at → Stays now expected o p
  other_gateway : gateway_of p ≢ expected → Stays now expected o p
  at_gateway : gateway_of p ≢ [] → has_status is_waiting p ≡ true → Stays now expected o p
  paid : has_status is_succeeded p ≡ true → Stays now expected o p

-- An order that is due: pending, late, and with no payment under way or done.
pub record IsDue (now : ℕ) (expected : Text) (o : Order) (p : Option Payment) : Type 0 where
  pub unpaid : o.status ≡ OrderStatus.pending
  pub late : o.expires_at ≤ now
  pub same_gateway : gateway_of p ≡ expected
  pub idle : has_status is_succeeded p ≡ false

module _ (now : ℕ) (id expected : Text) (d : Db) where
  pub data Expires : Result (Unit {0}) → Db → Type 0 where
    fails : (e : Error) → Expires (err e) d
    missing : order_row id d ≡ none → Expires (ok tt) d
    stays :
        (o : Order)
        → order_row id d ≡ some o
        → Stays now expected o (payment_row id d)
        → Expires (ok tt) d
    expires :
        (o o' : Order) (d' : Db)
        → order_row id d ≡ some o
        → IsDue now expected o (payment_row id d)
        → order_row id d' ≡ some o'
        → (o'.status ≡ OrderStatus.expired) ⊎ (o'.status ≡ OrderStatus.cancelled)
        → ((j : Text) → same j id ≡ false → order_row j d' ≡ order_row j d)
        → d'.payments ≡ d.payments
        → d'.tiers ≡ given_back (sorted_items id d) d.tiers
        → Expires (ok tt) d'

  abbrev lost : Expires (err driver) d
  lost = fails driver

  abbrev set_to : OrderStatus → Order → Order
  set_to to o = record o { status = to }

  abbrev set : OrderStatus → List Order → List Order
  set to = update (λ o. same o.id id) (set_to to)

  abbrev to_end : Bool → OrderStatus
  to_end stopped = if stopped then OrderStatus.cancelled else OrderStatus.expired
