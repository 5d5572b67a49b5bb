-- ===== src/Sql/Keeps.antt =====
-- Which actions leave the stored tables as they are: every one but `commit`. One rule for each way
-- to build an action.
use ticket_online.Common.{
  ◌≡◌, refl, ◌∙◌, Bool, true, false, Option, none, some, if◌then◌else◌, arith,
}
use ticket_online.Errors.{Error}
use ticket_online.Sql.{
  Result, ok, err, Session, Action, pure, raise, query, query_stored, or_raise, on_no_rows, attempt,
  begin, exec, exec_checked, rollback, commit, fail_if, continue, ◌>>=◌,
}

pub record Keeps {D A : Type 0} (m : Action D A) : Type 0 where
  pub at : (s : Session D) → (m s).1.stored ≡ s.stored

-- An action that stores nothing if it fails.
pub record KeepsOnError {D A : Type 0} (m : Action D A) : Type 0 where
  pub at : (s : Session D) (e : Error) → (m s).0 ≡ err e → (m s).1.stored ≡ s.stored

module _ {D A : Type 0} where
  pub Keeps-pure : (a : A) → Keeps {D = D} (pure a)
  unfolding pure
  Keeps-pure a = record { at = λ s. refl }

  pub Keeps-raise : (e : Error) → Keeps {D = D} {A = A} (raise e)
  unfolding raise
  Keeps-raise e = record { at = λ s. refl }

  pub Keeps-query : (f : D → A) → Keeps (query f)
  unfolding query
  Keeps-query f = record { at = λ s. ground arith }

  pub Keeps-query_stored : (f : D → A) → Keeps (query_stored f)
  unfolding query_stored
  Keeps-query_stored f = record { at = λ s. ground arith }

  pub Keeps-or_raise : (o : Option A) (e : Error) → Keeps {D = D} (or_raise o e)
  unfolding or_raise
  Keeps-or_raise none e = record { at = λ s. refl }
  Keeps-or_raise (some a) e = record { at = λ s. refl }

  pub Keeps-on_no_rows : (e : Error) (m : Action D A) → Keeps m → Keeps (on_no_rows e m)
  unfolding on_no_rows
  Keeps-on_no_rows e m k = record { at = k.at }

  pub Keeps-attempt : (m : Action D A) → Keeps m → Keeps (attempt m)
  unfolding attempt
  Keeps-attempt m k = record { at = k.at }

  pub Keeps-if : (b : Bool) (m n : Action D A) → Keeps m → Keeps n → Keeps (if b then m else n)
  Keeps-if true m n km kn = km
  Keeps-if false m n km kn = kn

module _ {D : Type 0} where
  pub Keeps-begin : Keeps {D = D} begin
  unfolding begin
  Keeps-begin = record { at = λ s. ground arith }

  pub Keeps-exec : (f : D → D) → Keeps (exec f)
  unfolding exec
  Keeps-exec f = record { at = λ s. ground arith }

  pub Keeps-exec_checked : (e : Error) (f : D → Option D) → Keeps (exec_checked e f)
  unfolding exec_checked
  Keeps-exec_checked e f = record { at = λ s. ground arith }

  pub Keeps-rollback : Keeps {D = D} rollback
  unfolding rollback
  Keeps-rollback = record { at = λ s. refl }

  pub Keeps-fail_if : (b : Bool) (e : Error) → Keeps {D = D} (fail_if b e)
  unfolding fail_if
  Keeps-fail_if true e = record { at = λ s. refl }
  Keeps-fail_if false e = record { at = λ s. refl }

  pub KeepsOnError-commit : KeepsOnError {D = D} commit
  unfolding commit
  KeepsOnError-commit = record { at = λ s e h. ground arith }

module _ {D A B : Type 0} where
  pub Keeps-bind :
      (m : Action D A) (f : A → Action D B) → Keeps m → ((a : A) → Keeps (f a)) → Keeps (m >>= f)
  unfolding ◌>>=◌
  Keeps-bind m f km kf = record { at = λ s. go (m s).0 (m s).1 (km.at s) }
    where
      go : (r : Result A) (s' : Session D) {d : D} → s'.stored ≡ d → (continue f r s').1.stored ≡ d
      go (ok a) s' h = (kf a).at s' ∙ h
      go (err e) s' h = h

  pub KeepsOnError-bind :
      (m : Action D A) (f : A → Action D B)
      → Keeps m
      → ((a : A) → KeepsOnError (f a))
      → KeepsOnError (m >>= f)
  unfolding ◌>>=◌
  KeepsOnError-bind m f km kf = record { at = λ s e. go (m s).0 (m s).1 e (km.at s) }
    where
      go :
          (r : Result A) (s' : Session D) (e : Error) {d : D}
          → s'.stored ≡ d
          → (continue f r s').0 ≡ err e
          → (continue f r s').1.stored ≡ d
      go (ok a) s' e h x = (kf a).at s' e x ∙ h
      go (err _) s' e h x = h

  -- What a commit is followed by must not fail.
  pub KeepsOnError-commit_pure :
      (m : Action D A) (f : A → B) → KeepsOnError m → KeepsOnError (m >>= λ a. pure (f a))
  unfolding ◌>>=◌
  KeepsOnError-commit_pure m f km = record { at = λ s e. go (m s).0 (m s).1 e (km.at s e) }
    where
      go :
          (r : Result A) (s' : Session D) (e : Error) {d : D}
          → (r ≡ err e → s'.stored ≡ d)
          → (continue (λ a. pure {D = D} (f a)) r s').0 ≡ err e
          → (continue (λ a. pure {D = D} (f a)) r s').1.stored ≡ d
      go (ok a) s' e h x = cc
      go (err _) s' e h x = h (cc)

module _ {D A : Type 0} where
  pub KeepsOnError-Keeps : (m : Action D A) → Keeps m → KeepsOnError m
  KeepsOnError-Keeps m k = record { at = λ s e h. k.at s }

  pub KeepsOnError-if :
      (b : Bool) (m n : Action D A)
      → KeepsOnError m
      → KeepsOnError n
      → KeepsOnError (if b then m else n)
  KeepsOnError-if true m n km kn = km
  KeepsOnError-if false m n km kn = kn

pub ruleset keeps_rules = (
  Keeps-pure, Keeps-raise, Keeps-query, Keeps-query_stored, Keeps-or_raise, Keeps-on_no_rows,
  Keeps-attempt, Keeps-if, Keeps-begin, Keeps-exec, Keeps-exec_checked, Keeps-rollback,
  Keeps-fail_if, Keeps-bind,
)

pub ruleset atomic_rules = (
  KeepsOnError-commit, KeepsOnError-bind, KeepsOnError-commit_pure, KeepsOnError-Keeps, keeps_rules,
)
