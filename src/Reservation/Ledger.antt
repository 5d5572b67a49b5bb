-- ===== src/Reservation/Ledger.antt =====
-- The stock ledger: what is available of a tier and what reservations hold of it make its capacity.
use ticket_online.Common.{
  ℕ, ◌+◌, ◌≡◌, refl, ap, inl, inr, Bool, true, false, ◌&&◌, Option, none, some, List, [], ◌∷◌,
  arith, select, select?, sum_of, ◌==◌, if◌then◌else◌, Bool-cases,
}
use ticket_online.Common.Text.{Text, same, same_iff}
use ticket_online.Schema.{
  Tier, ReservationStatus, active, converted, ReservationRow, ReservationItem, Db,
}
use ticket_online.Reservation.Store.{
  is_active, items_of, order_by_tier, insert_by_tier, restore_tier, end_reservation, set_ended,
}
use ticket_online.Reservation.Reads.{restore_all, restored}

-- An active reservation holds its tickets, and so does one that became an order.
abbrev pub is_holding : ReservationStatus → Bool
is_holding active = true
is_holding converted = true
is_holding _ = false

abbrev holds_row : Option ReservationRow → Bool
holds_row none = false
holds_row (some r) = is_holding r.status

unfoldable pub holds : List ReservationRow → Text → Bool
holds rs id = holds_row (select? (λ r. same r.id id) rs)

-- The quantity of tier `t` in a list of items, and in those that a set of reservations holds.
unfoldable pub amount : ℕ → List ReservationItem → ℕ
amount t = sum_of λ i. if i.tier_id == t then i.quantity else 0

unfoldable pub held : (Text → Bool) → ℕ → List ReservationItem → ℕ
held h t = sum_of λ i. if h i.reservation_id && i.tier_id == t then i.quantity else 0

abbrev pub Balanced : (ℕ → ℕ) → List Tier → Type 0
Balanced h [] = Unit {0}
Balanced h (t ∷ ts) = (t.available + h t.id ≡ t.capacity) × Balanced h ts

abbrev pub Ledger : Db → Type 0
Ledger d = Balanced (λ t. held (holds d.reservations) t d.reservation_items) d.tiers

pub Balanced-same :
    (h h' : ℕ → ℕ) (ts : List Tier) → ((t : ℕ) → h t ≡ h' t) → Balanced h ts → Balanced h' ts
Balanced-same h h' [] e b = tt
Balanced-same h h' (t ∷ ts) e b = (omega (arith, e t.id, b.0), Balanced-same h h' ts e b.1)

restore_tier-Balanced :
    (i : ReservationItem) (h h' : ℕ → ℕ) (ts : List Tier)
    → ((t : ℕ) → h t ≡ h' t + (if i.tier_id == t then i.quantity else 0))
    → Balanced h ts
    → Balanced h' (restore_tier i ts)
unfolding restore_tier
restore_tier-Balanced i h h' [] e b = tt
restore_tier-Balanced i h h' (t ∷ ts) e b =
    (ground (arith, e t.id), restore_tier-Balanced i h h' ts e b.1)

-- Restoring items moves their amounts from what is held to what is available; `LEAST` cuts nothing.
pub restore_all-Balanced :
    (items : List ReservationItem) (h h' : ℕ → ℕ) (ts : List Tier)
    → ((t : ℕ) → h t ≡ h' t + amount t items)
    → Balanced h ts
    → Balanced h' (restore_all items ts)
unfolding restore_all amount
restore_all-Balanced [] h h' ts e b = Balanced-same h h' ts (λ t. omega (arith, e t)) b
restore_all-Balanced (i ∷ is) h h' ts e b =
    restore_all-Balanced is (λ t. h' t + amount t is) h' (restore_tier i ts) (λ t. refl)
      (restore_tier-Balanced i h (λ t. h' t + amount t is) ts (λ t. omega (arith, e t)) b)

-- Sorting by tier keeps the amounts.
amount-insert_by_tier :
    (t : ℕ) (i : ReservationItem) (is : List ReservationItem)
    → amount t (insert_by_tier i is) ≡ amount t (i ∷ is)
unfolding amount
amount-insert_by_tier t i [] = refl
amount-insert_by_tier t i (j ∷ js) = ground (arith, amount-insert_by_tier t i js)

amount-order_by_tier :
    (t : ℕ) (is : List ReservationItem) → amount t (order_by_tier is) ≡ amount t is
unfolding amount
amount-order_by_tier t [] = refl
amount-order_by_tier t (i ∷ is) =
    omega (arith, amount-insert_by_tier t i (order_by_tier is), amount-order_by_tier t is)

-- Two holders that differ in one reservation, which only the first holds.
held_without :
    (h h' : Text → Bool) (id : Text) (t : ℕ) (is : List ReservationItem)
    → ((j : Text) → h' j ≡ (if same j id then false else h j))
    → h id ≡ true
    → held h t is ≡ held h' t is + amount t (select (λ i. same i.reservation_id id) is)
unfolding held amount
held_without h h' id t [] e on = refl
held_without h h' id t (i ∷ is) e on = elim (Bool-cases (same i.reservation_id id)) [
  | inl hit ↦
      let here : i.reservation_id ≡ id = (same_iff _ _).0 hit in
      ground (arith, held_without h h' id t is e on, e i.reservation_id, ap h here)
  | inr miss ↦ ground (arith, held_without h h' id t is e on, e i.reservation_id)
]

holds-end_other :
    (status : ReservationStatus) (id j : Text) (rs : List ReservationRow)
    → same j id ≡ false
    → holds (end_reservation status id rs) j ≡ holds rs j
unfolding holds end_reservation
holds-end_other status id j [] other = refl
holds-end_other status id j (q ∷ qs) other =
    ground (
      arith,
      same_iff q.id j,
      same_iff q.id id,
      same_iff j id,
      holds-end_other status id j qs other,
    )

-- Ending the active reservation `id` takes it out of the holders, and no other.
holds-end_reservation :
    (status : ReservationStatus) (id j : Text) (rs : List ReservationRow) (r : ReservationRow)
    → is_holding status ≡ false
    → select? (λ q. same q.id id) rs ≡ some r
    → is_active r.status ≡ true
    → holds (end_reservation status id rs) j ≡ (if same j id then false else holds rs j)
unfolding holds end_reservation
holds-end_reservation status id j [] r ends found live = absurd (cc)
holds-end_reservation status id j (q ∷ qs) r ends found live = ground (
  arith,
  same_iff q.id j,
  same_iff q.id id,
  same_iff j id,
  holds-end_other status id j qs,
  holds-end_reservation status id j qs r ends,
)

holds-active :
    (id : Text) (rs : List ReservationRow) (r : ReservationRow)
    → select? (λ q. same q.id id) rs ≡ some r
    → is_active r.status ≡ true
    → holds rs id ≡ true
unfolding holds
holds-active id rs r found live = rw found (ground arith)

-- Ending an active reservation and restoring its items keeps the ledger.
pub release-Ledger :
    (status : ReservationStatus) (id : Text) (d : Db) (r : ReservationRow)
    → is_holding status ≡ false
    → select? (λ q. same q.id id) d.reservations ≡ some r
    → is_active r.status ≡ true
    → Ledger d
    → Ledger (set_ended status id (restored (items_of id d) d))
unfolding items_of
release-Ledger status id d r ends found live balanced =
    restore_all-Balanced (items_of id d) _ _ d.tiers moved balanced
  where
    moved :
        (t : ℕ)
        → held (holds d.reservations) t d.reservation_items
          ≡ held (holds (end_reservation status id d.reservations)) t d.reservation_items
            + amount t (items_of id d)
    moved t =
        rw (amount-order_by_tier t (select (λ i. same i.reservation_id id) d.reservation_items)) (
          held_without (holds d.reservations) (holds (end_reservation status id d.reservations)) id
            t d.reservation_items
            (λ j. holds-end_reservation status id j d.reservations r ends found live)
            (holds-active id d.reservations r found live))
