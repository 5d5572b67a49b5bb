-- ===== src/Sql/Reads.antt =====
-- Actions that only read: the result is a function `g` of the working tables, or the driver's error,
-- and the session's tables stay as they are.
use ticket_online.Common.{
  ◌≡◌, refl, ap, ◌∙◌, Option, none, some, ◌⊎◌, inl, inr, arith, Bool, true, false, if◌then◌else◌,
}
use ticket_online.Errors.{Error, driver}
use ticket_online.Sql.{
  Result, ok, err, Session, Action, pure, raise, query, or_raise, on_no_rows, fail_if,
  replace_no_rows, continue, ◌>>=◌,
}

pub record Reads {D A : Type 0} (m : Action D A) (g : D → Result A) : Type 0 where
  pub stored : (s : Session D) → (m s).1.stored ≡ s.stored
  pub working : (s : Session D) → (m s).1.working ≡ s.working
  pub result : (s : Session D) → ((m s).0 ≡ g s.working) ⊎ ((m s).0 ≡ err driver)

pub ok_eq : {A : Type 0} {a b : A} → ◌≡◌ {A = Result A} (ok a) (ok b) → a ≡ b
ok_eq h = cc

abbrev pub from_option : {A : Type 0} → Option A → Error → Result A
from_option none e = err e
from_option (some a) e = ok a

-- What a row that must be there is.
pub found_of : {A : Type 0} (o : Option A) {a : A} (e : Error) → from_option o e ≡ ok a → o ≡ some a
found_of none e h = absurd (cc)
found_of (some b) e h = ap some (ok_eq h)

infixl 5 ◌then_ok◌
abbrev pub ◌then_ok◌ : {A B : Type 0} → Result A → (A → Result B) → Result B
ok a then_ok f = f a
err e then_ok f = err e

module _ {D A : Type 0} where
  pub Reads-pure : (a : A) → Reads {D = D} (pure a) (λ d. ok a)
  unfolding pure
  Reads-pure a = record { stored = λ s. refl; working = λ s. refl; result = λ s. inl refl }

  pub Reads-raise : (e : Error) → Reads {D = D} {A = A} (raise e) (λ d. err e)
  unfolding raise
  Reads-raise e = record { stored = λ s. refl; working = λ s. refl; result = λ s. inl refl }

  pub Reads-query : (f : D → A) → Reads (query f) (λ d. ok (f d))
  unfolding query
  Reads-query f = record {
    stored = λ s. ground arith;
    working = λ s. ground arith;
    result = λ s. ground arith;
  }

  pub Reads-or_raise :
      (o : Option A) (e : Error) → Reads {D = D} (or_raise o e) (λ d. from_option o e)
  unfolding or_raise
  Reads-or_raise none e = record { stored = λ s. refl; working = λ s. refl; result = λ s. inl refl }
  Reads-or_raise (some a) e = record {
    stored = λ s. refl;
    working = λ s. refl;
    result = λ s. inl refl;
  }

  pub Reads-on_no_rows :
      (e : Error) (m : Action D A) (g : D → Result A)
      → Reads m g
      → Reads (on_no_rows e m) (λ d. replace_no_rows e (g d))
  unfolding on_no_rows
  Reads-on_no_rows e m g r = record {
    stored = r.stored;
    working = r.working;
    result = λ s. go (m s).0 (g s.working) (r.result s);
  }
    where
      go :
          (x y : Result A)
          → (x ≡ y) ⊎ (x ≡ err driver)
          → (replace_no_rows e x ≡ replace_no_rows e y) ⊎ (replace_no_rows e x ≡ err driver)
      go x y (inl h) = inl (cc)
      go x y (inr h) = inr (rw h)

  pub Reads-if :
      (b : Bool) (m n : Action D A) (g h : D → Result A)
      → Reads m g
      → Reads n h
      → Reads (if b then m else n) (λ d. if b then g d else h d)
  Reads-if true m n g h rm rn = rm
  Reads-if false m n g h rm rn = rn

module _ {D : Type 0} where
  pub Reads-fail_if :
      (b : Bool) (e : Error) → Reads {D = D} (fail_if b e) (λ d. if b then err e else ok tt)
  unfolding fail_if
  Reads-fail_if true e = record { stored = λ s. refl; working = λ s. refl; result = λ s. inl refl }
  Reads-fail_if false e = record { stored = λ s. refl; working = λ s. refl; result = λ s. inl refl }

abbrev Answer : {D B : Type 0} → Result B × Session D → Session D → Result B → Type 0
Answer out s y =
    (out.1.stored ≡ s.stored) × (out.1.working ≡ s.working) × ((out.0 ≡ y) ⊎ (out.0 ≡ err driver))

module _ {D A B : Type 0} where
  pub Reads-bind :
      (m : Action D A) (g : D → Result A) (f : A → Action D B) (h : A → D → Result B)
      → Reads m g
      → ((a : A) → Reads (f a) (h a))
      → Reads (m >>= f) (λ d. g d then_ok λ a. h a d)
  unfolding ◌>>=◌
  Reads-bind m g f h rm rf = record {
    stored = λ s. (at s).0;
    working = λ s. (at s).1;
    result = λ s. (at s).2;
  }
    where
      go :
          (s : Session D) (x y : Result A) (s' : Session D)
          → s'.stored ≡ s.stored
          → s'.working ≡ s.working
          → (x ≡ y) ⊎ (x ≡ err driver)
          → Answer (continue f x s') s (y then_ok λ a. h a s.working)
      go s (ok a) (ok b) s' es ew (inl c) =
          let e : a ≡ b = cc in
          ((rf a).stored s' ∙ es, (rf a).working s' ∙ ew, rw (← e, ← ew) ((rf a).result s'))
      go s (ok a) (ok b) s' es ew (inr c) = absurd (cc)
      go s (ok a) (err e) s' es ew c = absurd (ground arith)
      go s (err e) y s' es ew c = ground arith

      at :
          (s : Session D)
          → Answer (continue f (m s).0 (m s).1) s (g s.working then_ok λ a. h a s.working)
      at s = go s (m s).0 (g s.working) (m s).1 (rm.stored s) (rm.working s) (rm.result s)
