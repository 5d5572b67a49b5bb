-- ===== src/Reservation/Keys.antt =====
-- The keys of the tables that reservations use: unique tier ids, and items that belong to a
-- reservation. The statements of repository.go keep both.
use ticket_online.Common.{
  ℕ, ◌≡◌, refl, sym, ap, subst⁻¹, ◌∙◌, ◌≢◌, ◌⊎◌, inl, inr, Bool, true, ◌||◌, List, [], ◌∷◌, ◌++◌,
  arith, select, update, any, All, Bool-cases,
}
use ticket_online.Common.Text.{Text, same}
use ticket_online.Schema.{Tier, ReservationRow, ReservationItem}

abbrev pub Member : {A : Type 0} → A → List A → Type 0
Member v [] = ⊥
Member v (x ∷ xs) = (v ≡ x) ⊎ Member v xs

pub All-Member {κ} :
    {A : Type 0} (P : A → Type κ) (xs : List A) {v : A} → All P xs → Member v xs → P v
All-Member P [] a m = absurd m
All-Member P (x ∷ xs) a (inl e) = subst⁻¹ P e a.0
All-Member P (x ∷ xs) a (inr m) = All-Member P xs a.1 m

pub All-map {ℓ κ μ} :
    {A : Type ℓ} (P : A → Type κ) (Q : A → Type μ) (xs : List A)
    → ((x : A) → P x → Q x)
    → All P xs
    → All Q xs
All-map P Q [] f a = tt
All-map P Q (x ∷ xs) f a = (f x a.0, All-map P Q xs f a.1)

pub All-select {ℓ κ} :
    {A : Type ℓ} (P : A → Type κ) (p : A → Bool) (xs : List A) → All P xs → All P (select p xs)
All-select P p [] a = tt
All-select P p (x ∷ xs) a = elim (Bool-cases (p x)) [
  | inl hit ↦ rw hit (a.0, All-select P p xs a.1)
  | inr miss ↦ rw miss (All-select P p xs a.1)
]

-- Every row of a table is a member of it.
pub All-members : {A : Type 0} (xs : List A) → All (λ x. Member x xs) xs
All-members [] = tt
All-members (x ∷ xs) = (
  inl refl,
  All-map (λ y. Member y xs) (λ y. Member y (x ∷ xs)) xs (λ y m. inr m) (All-members xs),
)

-- PRIMARY KEY (id) of ticket_tiers.
abbrev pub UniqueIds : List Tier → Type 0
UniqueIds [] = Unit {0}
UniqueIds (t ∷ ts) = All (λ u. u.id ≢ t.id) ts × UniqueIds ts

pub eq_of_ids :
    (ts : List Tier) (u v : Tier) → UniqueIds ts → Member u ts → Member v ts → u.id ≡ v.id → u ≡ v
eq_of_ids [] u v k mu mv e = absurd mu
eq_of_ids (t ∷ ts) u v k (inl eu) (inl ev) e = eu ∙ sym ev
eq_of_ids (t ∷ ts) u v k (inl eu) (inr mv) e =
    absurd (All-Member (λ w. w.id ≢ t.id) ts k.0 mv (sym e ∙ ap (λ (w : Tier). w.id) eu))
eq_of_ids (t ∷ ts) u v k (inr mu) (inl ev) e =
    absurd (All-Member (λ w. w.id ≢ t.id) ts k.0 mu (e ∙ ap (λ (w : Tier). w.id) ev))
eq_of_ids (t ∷ ts) u v k (inr mu) (inr mv) e = eq_of_ids ts u v k.1 mu mv e

-- An UPDATE that leaves the ids alone keeps them unique.
module _ (p : Tier → Bool) (f : Tier → Tier) (keeps : (t : Tier) → (f t).id ≡ t.id) where
  All-update :
      (k : ℕ) (ts : List Tier) → All (λ u. u.id ≢ k) ts → All (λ u. u.id ≢ k) (update p f ts)
  All-update k [] a = tt
  All-update k (t ∷ ts) a = elim (Bool-cases (p t)) [
    | inl hit ↦ rw hit ((λ e. a.0 (sym (keeps t) ∙ e)), All-update k ts a.1)
    | inr miss ↦ rw miss (a.0, All-update k ts a.1)
  ]

  pub update-UniqueIds : (ts : List Tier) → UniqueIds ts → UniqueIds (update p f ts)
  update-UniqueIds [] k = tt
  update-UniqueIds (t ∷ ts) k = elim (Bool-cases (p t)) [
    | inl hit ↦ rw (hit, keeps t) (All-update t.id ts k.0, update-UniqueIds ts k.1)
    | inr miss ↦ rw miss (All-update t.id ts k.0, update-UniqueIds ts k.1)
  ]

-- FOREIGN KEY (reservation_id) of reservation_items.
abbrev pub has_row : List ReservationRow → Text → Bool
has_row rs id = any (λ r. same r.id id) rs

abbrev pub Owned : List ReservationRow → List ReservationItem → Type 0
Owned rs = All λ i. has_row rs i.reservation_id ≡ true

module _ (p : ReservationRow → Bool) (f : ReservationRow → ReservationRow)
    (keeps : (r : ReservationRow) → (f r).id ≡ r.id) where
  has_row-update :
      (rs : List ReservationRow) (id : Text) → has_row (update p f rs) id ≡ has_row rs id
  has_row-update [] id = refl
  has_row-update (r ∷ rs) id = elim (Bool-cases (p r)) [
    | inl hit ↦ rw (hit, keeps r, has_row-update rs id)
    | inr miss ↦ rw (miss, has_row-update rs id)
  ]

  pub update-Owned :
      (rs : List ReservationRow) (items : List ReservationItem)
      → Owned rs items
      → Owned (update p f rs) items
  update-Owned rs items =
      All-map (λ i. has_row rs i.reservation_id ≡ true)
        (λ i. has_row (update p f rs) i.reservation_id ≡ true) items
        (λ i h. has_row-update rs i.reservation_id ∙ h)

pub has_row-append :
    (rs : List ReservationRow) (r : ReservationRow) (id : Text)
    → has_row (rs ++ r ∷ []) id ≡ (has_row rs id || same r.id id)
has_row-append [] r id = ground arith
has_row-append (q ∷ qs) r id = ground (arith, has_row-append qs r id)
