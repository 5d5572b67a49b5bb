-- ===== src/Common/Lists.antt =====
-- Lists measured by native numbers, and lists read as table rows: the parts of SELECT and UPDATE.
use Prim.Native.Nat.{ℕ, zero, suc, ◌+◌}
use mathlib.Core.Path.{◌≡◌, refl, ap, subst}
use mathlib.Core.Bool.{Bool, true, false, ◌||◌, ◌&&◌}
use mathlib.Core.List.{List, [], ◌∷◌, ◌++◌}
use mathlib.Core.Option.{Option, none, some}
use mathlib.Core.Logic.{inl, inr}
use native.Mathlib.Omega.{arith}
use ticket_online.Common.Tests.{if◌then◌else◌, Bool-cases}

module _ {ℓ} {A : Type ℓ} where
  abbrev pub length : List A → ℕ
  length [] = 0
  length (x ∷ xs) = suc (length xs)

  abbrev pub take : ℕ → List A → List A
  take zero xs = []
  take (suc n) [] = []
  take (suc n) (x ∷ xs) = x ∷ take n xs

  abbrev pub drop : ℕ → List A → List A
  drop zero xs = xs
  drop (suc n) [] = []
  drop (suc n) (x ∷ xs) = drop n xs

  -- SELECT … WHERE p, the first row.
  abbrev pub select? : (A → Bool) → List A → Option A
  select? p [] = none
  select? p (x ∷ xs) = if p x then some x else select? p xs

  -- SELECT … WHERE p, every row.
  abbrev pub select : (A → Bool) → List A → List A
  select p [] = []
  select p (x ∷ xs) = let rest = select p xs in if p x then x ∷ rest else rest

  -- UPDATE … SET f WHERE p.
  abbrev pub update : (A → Bool) → (A → A) → List A → List A
  update p f [] = []
  update p f (x ∷ xs) = (if p x then f x else x) ∷ update p f xs

  -- SELECT EXISTS(… WHERE p).
  abbrev pub any : (A → Bool) → List A → Bool
  any p [] = false
  any p (x ∷ xs) = p x || any p xs

  abbrev pub all : (A → Bool) → List A → Bool
  all p [] = true
  all p (x ∷ xs) = p x && all p xs

  -- SELECT COALESCE(SUM(f), 0).
  abbrev pub sum_of : (A → ℕ) → List A → ℕ
  sum_of f [] = 0
  sum_of f (x ∷ xs) = f x + sum_of f xs

  pub length-append : (xs ys : List A) → length (xs ++ ys) ≡ length xs + length ys
  length-append [] ys = omega arith
  length-append (x ∷ xs) ys = omega (arith, length-append xs ys)

  pub sum_of-append : (f : A → ℕ) (xs ys : List A) → sum_of f (xs ++ ys) ≡ sum_of f xs + sum_of f ys
  sum_of-append f [] ys = omega arith
  sum_of-append f (x ∷ xs) ys = omega (arith, sum_of-append f xs ys)

  -- Every row satisfies P.
  abbrev pub All {κ} : (A → Type κ) → List A → Type κ
  All P [] = Unit
  All P (x ∷ xs) = P x × All P xs

  -- A selected row passes the test, and is a row of the table.
  pub select?-found : (p : A → Bool) (xs : List A) {x : A} → select? p xs ≡ some x → p x ≡ true
  select?-found p [] e = absurd (cc)
  select?-found p (y ∷ ys) {x} e = elim (Bool-cases (p y)) [
    | inl hit ↦
        let found : some y ≡ some x = rw hit at e in
        let this : y ≡ x = cc in subst (λ z. p z ≡ true) this hit
    | inr miss ↦ select?-found p ys (rw miss at e)
  ]

  pub select?-All {κ} :
      (P : A → Type κ) (p : A → Bool) (xs : List A) {x : A}
      → All P xs
      → select? p xs ≡ some x
      → (p x ≡ true) × P x
  select?-All P p [] ps e = absurd (cc)
  select?-All P p (y ∷ ys) {x} ps e = elim (Bool-cases (p y)) [
    | inl hit ↦
        let found : some y ≡ some x = rw hit at e in
        let this : y ≡ x = cc in (subst (λ z. p z ≡ true) this hit, subst P this ps.0)
    | inr miss ↦ select?-All P p ys ps.1 (rw miss at e)
  ]

  -- UPDATE of rows that stay in the selection, and of rows outside it.
  pub select?-update :
      (p : A → Bool) (f : A → A) (xs : List A)
      → ((x : A) → p (f x) ≡ p x)
      → {x : A} → select? p xs ≡ some x
      → select? p (update p f xs) ≡ some (f x)
  select?-update p f [] keeps e = absurd (cc)
  select?-update p f (y ∷ ys) keeps {x} e = elim (Bool-cases (p y)) [
    | inl hit ↦
        let found : some y ≡ some x = rw hit at e in
        let this : y ≡ x = cc in rw hit (rw (keeps y, hit) (ap (λ z. some (f z)) this))
    | inr miss ↦ rw miss (rw miss (select?-update p f ys keeps (rw miss at e)))
  ]

  pub select?-update_other :
      (p q : A → Bool) (f : A → A) (xs : List A)
      → ((x : A) → q (f x) ≡ q x)
      → ((x : A) → p x ≡ true → q x ≡ false)
      → select? q (update p f xs) ≡ select? q xs
  select?-update_other p q f [] keeps apart = refl
  select?-update_other p q f (y ∷ ys) keeps apart = elim (Bool-cases (p y)) [
    | inl hit ↦ rw (hit, keeps y, apart y hit) (select?-update_other p q f ys keeps apart)
    | inr miss ↦ elim (Bool-cases (q y)) [
      | inl this ↦ rw (miss, this) refl
      | inr other ↦ rw (miss, other) (select?-update_other p q f ys keeps apart)
    ]
  ]

  -- INSERT of a row that is the first of its kind, and of a row outside the selection.
  pub select?-append :
      (p : A → Bool) (xs : List A) (x : A)
      → select? p xs ≡ none
      → p x ≡ true
      → select? p (xs ++ x ∷ []) ≡ some x
  select?-append p [] x e hit = rw hit refl
  select?-append p (y ∷ ys) x e hit = elim (Bool-cases (p y)) [
    | inl this ↦ absurd (ground arith)
    | inr other ↦ rw other (select?-append p ys x (rw other at e) hit)
  ]

  pub select?-append_other :
      (p : A → Bool) (xs : List A) (x : A) → p x ≡ false → select? p (xs ++ x ∷ []) ≡ select? p xs
  select?-append_other p [] x miss = rw miss refl
  select?-append_other p (y ∷ ys) x miss = elim (Bool-cases (p y)) [
    | inl this ↦ rw this refl
    | inr other ↦ rw other (select?-append_other p ys x miss)
  ]
