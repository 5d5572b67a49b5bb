-- ===== src/Reservation/Holding.antt =====
-- Create's loop over the items: inserting a reservation's items and taking their stock moves their
-- amounts from what is available to what is held.
use mathlib.Core.List.{append-nil, append_assoc}
use ticket_online.Common.{
  ℕ, ◌+◌, ◌≤◌, ◌<◌, ◌≡◌, refl, sym, ap, ◌∙◌, ◌≢◌, inl, inr, true, false, Option, none, some, List,
  [], ◌∷◌, ◌++◌, arith, select?, All, select?-All, Bool-cases, ltb, ◌==◌, if◌then◌else◌,
}
use ticket_online.Common.Text.{Text, same, same_iff}
use ticket_online.Errors.{order_limit_exceeded, insufficient_stock}
use ticket_online.Sql.{Result, ok, err}
use ticket_online.Sql.Reads.{Reads, ◌then_ok◌, Reads-pure, Reads-fail_if, Reads-bind}
use ticket_online.Sql.Runs.{Writes, Writes-pure, Writes-exec, Writes-bind}
use ticket_online.Schema.{Tier, ReservationItem, Db}
use ticket_online.Reservation.Request.{ItemRequest}
use ticket_online.Reservation.Create.{
  put_tier, tier_map, tier_at, tiers_for, check_items, take_stock, insert_item_row, Held,
  hold_items,
}
use ticket_online.Reservation.Keys.{
  Member, All-select, All-members, UniqueIds, eq_of_ids, update-UniqueIds,
}
use ticket_online.Reservation.Ledger.{Balanced, Balanced-same, amount}
use ticket_online.Reservation.Valid.{Distinct, Positive}

-- Reading the map of tiers finds rows of the table only.
put_tier-All {ℓ} :
    (P : Tier → Type ℓ) (v : Tier) (ts : List Tier) → P v → All P ts → All P (put_tier v ts)
unfolding put_tier
put_tier-All P v [] p a = (p, tt)
put_tier-All P v (t ∷ ts) p a = elim (Bool-cases (same t.slug v.slug)) [
  | inl hit ↦ rw hit (p, a.1)
  | inr miss ↦ rw miss (a.0, put_tier-All P v ts p a.1)
]

tier_map-All {ℓ} :
    (P : Tier → Type ℓ) (acc ts : List Tier) → All P acc → All P ts → All P (tier_map acc ts)
unfolding tier_map
tier_map-All P acc [] a b = a
tier_map-All P acc (t ∷ ts) a b =
    tier_map-All P (put_tier t acc) ts (put_tier-All P t acc b.0 a) b.1

pub tiers_for-All :
    (event_id : Text) (items : List ItemRequest) (d : Db)
    → All (λ t. Member t d.tiers) (tier_map [] (tiers_for event_id items d))
unfolding tiers_for
tiers_for-All event_id items d =
    tier_map-All _ [] _ tt (All-select _ _ d.tiers (All-members d.tiers))

-- The checks of the items, as a function.
pub checked : List Tier → List ItemRequest → Result (Unit {0})
checked tiers [] = ok tt
checked tiers (i ∷ is) =
    (if ltb (tier_at tiers i.tier_id).max_per_order i.quantity
      then err order_limit_exceeded
      else ok tt)
    then_ok λ _.
        (if ltb (tier_at tiers i.tier_id).available i.quantity
          then err insufficient_stock
          else ok tt)
        then_ok λ _. checked tiers is

pub Reads-check_items :
    (tiers : List Tier) (items : List ItemRequest)
    → Reads (check_items tiers items) (λ d. checked tiers items)
unfolding check_items checked
Reads-check_items tiers [] = Reads-pure tt
Reads-check_items tiers (i ∷ is) =
    Reads-bind _ _ _ _ (Reads-fail_if _ _)
      λ _. Reads-bind _ _ _ _ (Reads-fail_if _ _) λ _. Reads-check_items tiers is

-- A tier that an item names: a row of the table, with enough stock.
pub record Picked (ts tiers : List Tier) (i : ItemRequest) : Type 0 where
  pub slug : same (tier_at tiers i.tier_id).slug i.tier_id ≡ true
  pub row : Member (tier_at tiers i.tier_id) ts
  pub enough : i.quantity ≤ (tier_at tiers i.tier_id).available

tier_at-Picked :
    (ts tiers : List Tier) (i : ItemRequest)
    → All (λ t. Member t ts) tiers
    → 0 < i.quantity
    → i.quantity ≤ (tier_at tiers i.tier_id).available
    → Picked ts tiers i
unfolding tier_at
tier_at-Picked ts tiers i rows pos enough = go (select? (λ t. same t.slug i.tier_id) tiers) refl
  where
    go : (o : Option Tier) → select? (λ t. same t.slug i.tier_id) tiers ≡ o → Picked ts tiers i
    go none e = absurd (ground arith)
    go (some t) e =
        let (hit, member) = select?-All (λ t. Member t ts) _ tiers rows e in
        record { slug = rw e hit; row = rw e member; enough = enough }

pub checked-Picked :
    (ts tiers : List Tier) (items : List ItemRequest)
    → All (λ t. Member t ts) tiers
    → Positive items
    → checked tiers items ≡ ok tt
    → All (Picked ts tiers) items
unfolding checked
checked-Picked ts tiers [] rows pos h = tt
checked-Picked ts tiers (i ∷ is) rows pos h = (
  tier_at-Picked ts tiers i rows pos.0 (ground arith),
  checked-Picked ts tiers is rows pos.1 (ground arith),
)

-- The rows that the loop inserts, and the tables after it.
unfoldable pub rows_of : Text → List Tier → List ItemRequest → List ReservationItem
rows_of id tiers [] = []
rows_of id tiers (i ∷ is) =
    record {
      reservation_id = id;
      tier_id = (tier_at tiers i.tier_id).id;
      quantity = i.quantity;
      unit_price = (tier_at tiers i.tier_id).price;
    }
    ∷ rows_of id tiers is

pub take_rows : List ReservationItem → List Tier → List Tier
take_rows [] ts = ts
take_rows (r ∷ rs) ts = take_rows rs (take_stock r.quantity r.tier_id ts)

pub hold_rows : List ReservationItem → Db → Db
hold_rows [] d = d
hold_rows (r ∷ rs) d =
    hold_rows rs (record (insert_item_row r d) { tiers = take_stock r.quantity r.tier_id d.tiers })

pub Writes-hold_items :
    (id : Text) (tiers : List Tier) (items : List ItemRequest) (acc : Held)
    → Writes (hold_items id tiers items acc) (hold_rows (rows_of id tiers items))
unfolding hold_items hold_rows rows_of
Writes-hold_items id tiers [] acc = Writes-pure acc
Writes-hold_items id tiers (i ∷ is) acc =
    Writes-bind _ _ _ _ (Writes-exec _)
      λ _. Writes-bind _ _ _ _ (Writes-exec _) λ _. Writes-hold_items id tiers is _

pub hold_rows_lem :
    (rs : List ReservationItem) (d : Db)
    → ((hold_rows rs d).tiers ≡ take_rows rs d.tiers)
      × ((hold_rows rs d).reservation_items ≡ d.reservation_items ++ rs)
      × ((hold_rows rs d).reservations ≡ d.reservations)
unfolding hold_rows take_rows
hold_rows_lem [] d = (refl, sym (append-nil d.reservation_items), refl)
hold_rows_lem (r ∷ rs) d =
    let e : Db = record (insert_item_row r d) { tiers = take_stock r.quantity r.tier_id d.tiers } in
    let (tiers, items, reservations) = hold_rows_lem rs e in
    (tiers, items ∙ append_assoc d.reservation_items (r ∷ []) rs, reservations)

-- Enough of a row's tier is left, in every row with its id.
abbrev Enough : List Tier → ReservationItem → Type 0
Enough ts r = All (λ t. t.id ≡ r.tier_id → r.quantity ≤ t.available) ts

-- The rows name different tiers.
abbrev Apart : List ReservationItem → Type 0
Apart [] = Unit {0}
Apart (r ∷ rs) = All (λ q. q.tier_id ≢ r.tier_id) rs × Apart rs

take_stock-Balanced :
    (r : ReservationItem) (h h' : ℕ → ℕ) (ts : List Tier)
    → ((t : ℕ) → h' t ≡ h t + (if r.tier_id == t then r.quantity else 0))
    → Enough ts r
    → Balanced h ts
    → Balanced h' (take_stock r.quantity r.tier_id ts)
unfolding take_stock
take_stock-Balanced r h h' [] e n b = tt
take_stock-Balanced r h h' (t ∷ ts) e n b =
    (ground (arith, e t.id, n.0), take_stock-Balanced r h h' ts e n.1 b.1)

take_stock-Enough :
    (r q : ReservationItem) (ts : List Tier)
    → q.tier_id ≢ r.tier_id
    → Enough ts q
    → Enough (take_stock r.quantity r.tier_id ts) q
unfolding take_stock
take_stock-Enough r q [] apart n = tt
take_stock-Enough r q (t ∷ ts) apart n =
    ((λ e. ground (arith, n.0)), take_stock-Enough r q ts apart n.1)

take_stock-Enoughs :
    (r : ReservationItem) (rs : List ReservationItem) (ts : List Tier)
    → All (λ q. q.tier_id ≢ r.tier_id) rs
    → All (Enough ts) rs
    → All (Enough (take_stock r.quantity r.tier_id ts)) rs
take_stock-Enoughs r [] ts apart n = tt
take_stock-Enoughs r (q ∷ qs) ts apart n =
    (take_stock-Enough r q ts apart.0 n.0, take_stock-Enoughs r qs ts apart.1 n.1)

-- Taking the stock of rows moves their amounts to what is held.
pub take_rows-Balanced :
    (rs : List ReservationItem) (h h' : ℕ → ℕ) (ts : List Tier)
    → ((t : ℕ) → h' t ≡ h t + amount t rs)
    → Apart rs
    → All (Enough ts) rs
    → Balanced h ts
    → Balanced h' (take_rows rs ts)
unfolding take_rows amount
take_rows-Balanced [] h h' ts e apart n b = Balanced-same h h' ts (λ t. omega (arith, e t)) b
take_rows-Balanced (r ∷ rs) h h' ts e apart n b =
    take_rows-Balanced rs (λ t. h t + (if r.tier_id == t then r.quantity else 0)) h' _
      (λ t. omega (arith, e t)) apart.1 (take_stock-Enoughs r rs ts apart.0 n.1)
      (take_stock-Balanced r h _ ts (λ t. refl) n.0 b)

pub take_rows-UniqueIds :
    (rs : List ReservationItem) (ts : List Tier) → UniqueIds ts → UniqueIds (take_rows rs ts)
unfolding take_rows take_stock
take_rows-UniqueIds [] ts k = k
take_rows-UniqueIds (r ∷ rs) ts k = take_rows-UniqueIds rs _ (update-UniqueIds _ _ (λ t. refl) ts k)

module _ (ts tiers : List Tier) (unique : UniqueIds ts) where
  Picked-Enough :
      (i : ItemRequest)
      → Picked ts tiers i
      → (us : List Tier) → All (λ t. Member t ts) us
      → All (λ t. t.id ≡ (tier_at tiers i.tier_id).id → i.quantity ≤ t.available) us
  Picked-Enough i p [] m = tt
  Picked-Enough i p (u ∷ us) m = (
    (λ e.
        let this : u ≡ tier_at tiers i.tier_id = eq_of_ids ts u _ unique m.0 p.row e in
        rw this p.enough),
    Picked-Enough i p us m.1,
  )

  Picked-apart :
      (i j : ItemRequest)
      → Picked ts tiers i
      → Picked ts tiers j
      → same j.tier_id i.tier_id ≡ false
      → (tier_at tiers j.tier_id).id ≢ (tier_at tiers i.tier_id).id
  Picked-apart i j p q apart e =
      let this : tier_at tiers j.tier_id ≡ tier_at tiers i.tier_id =
        eq_of_ids ts _ _ unique q.row p.row e in
      let slugs : (tier_at tiers j.tier_id).slug ≡ (tier_at tiers i.tier_id).slug =
        ap (λ (t : Tier). t.slug) this in
      let si = (same_iff _ _).0 p.slug in
      let sj = (same_iff _ _).0 q.slug in
      absurd (ground (arith, (same_iff j.tier_id i.tier_id).1 (sym sj ∙ slugs ∙ si)))

  -- The rows of checked items of different tiers can all be taken.
  pub rows_of-Apart :
      (id : Text) (items : List ItemRequest)
      → Distinct items
      → All (Picked ts tiers) items
      → Apart (rows_of id tiers items) × All (Enough ts) (rows_of id tiers items)
  unfolding rows_of
  rows_of-Apart id [] d p = (tt, tt)
  rows_of-Apart id (i ∷ is) d p =
      let (apart, enough) = rows_of-Apart id is d.1 p.1 in
      ((first i p.0 is d.0 p.1, apart), (Picked-Enough i p.0 ts (All-members ts), enough))
    where
      first :
          (i : ItemRequest)
          → Picked ts tiers i
          → (js : List ItemRequest) → All (λ j. same j.tier_id i.tier_id ≡ false) js
          → All (Picked ts tiers) js
          → All (λ q. q.tier_id ≢ (tier_at tiers i.tier_id).id) (rows_of id tiers js)
      first i pi [] a pj = tt
      first i pi (j ∷ js) a pj = (Picked-apart i j pi pj.0 a.0, first i pi js a.1 pj.1)
