-- ===== src/Sql/Runs.antt =====
-- What a transaction stores and returns, statement by statement: `Runs w d m Q` says that `m`, begun
-- with the working tables `w` and the stored ones `d`, ends with a result and stored tables that
-- satisfy `Q`, wherever the connection is lost. One rule for each statement in front of the rest.
use ticket_online.Common.{
  ◌≡◌, refl, sym, ap, subst, ◌∙◌, Option, none, some, ◌⊎◌, inl, inr, arith, Bool, true, false,
  if◌then◌else◌, ℕ, zero, suc,
}
use ticket_online.Errors.{Error, driver}
use ticket_online.Sql.{
  Result, ok, err, Session, Action, pure, raise, query, autocommit, begin, exec, exec_checked,
  commit, rollback, attempt, fail_if, continue, ◌>>=◌,
}
use ticket_online.Sql.Reads.{Reads}
use ticket_online.Sql.Keeps.{Keeps}

pub record Runs {D A : Type 0} (w d : D) (m : Action D A) (Q : Result A → D → Type 0) : Type 0 where
  pub at : (s : Session D) → s.working ≡ w → s.stored ≡ d → Q (m s).0 (m s).1.stored

-- An action that changes the working tables by `f`, or fails.
pub record Writes {D A : Type 0} (m : Action D A) (f : D → D) : Type 0 where
  pub stored : (s : Session D) → (m s).1.stored ≡ s.stored
  pub working : (s : Session D) (a : A) → (m s).0 ≡ ok a → (m s).1.working ≡ f s.working

module _ {D : Type 0} where
  pub Writes-pure : {A : Type 0} (a : A) → Writes {D = D} (pure a) (λ w. w)
  unfolding pure
  Writes-pure a = record { stored = λ s. refl; working = λ s b h. refl }

  pub Writes-exec : (f : D → D) → Writes (exec f) f
  unfolding exec
  Writes-exec f = record { stored = λ s. ground arith; working = λ s a h. ground arith }

module _ {D A : Type 0} {w d : D} {Q : Result A → D → Type 0} where
  pub Runs-pure : (a : A) → Q (ok a) d → Runs w d (pure a) Q
  unfolding pure
  Runs-pure a q = record { at = λ s ew ed. rw ed q }

  pub Runs-raise : (e : Error) → Q (err e) d → Runs w d (raise e) Q
  unfolding raise
  Runs-raise e q = record { at = λ s ew ed. rw ed q }

  -- What leaves the stored tables alone, where the result does not matter.
  pub Runs-Keeps : (m : Action D A) → Keeps m → ((r : Result A) → Q r d) → Runs w d m Q
  Runs-Keeps m k q = record { at = λ s ew ed. subst (Q (m s).0) (sym (k.at s ∙ ed)) (q (m s).0) }

  pub Runs-if :
      (b : Bool) (m n : Action D A)
      → (b ≡ true → Runs w d m Q)
      → (b ≡ false → Runs w d n Q)
      → Runs w d (if b then m else n) Q
  Runs-if true m n rm rn = rm refl
  Runs-if false m n rm rn = rn refl

  pub Runs-on_reads :
      (m : Action D A) (g : D → Result A) → Reads m g → Q (err driver) d → Q (g w) d → Runs w d m Q
  Runs-on_reads m g r lost q = record {
    at = λ s ew ed. go (m s).0 (rw (← ew) (r.result s)) (r.stored s ∙ ed);
  }
    where
      go : (x : Result A) {d' : D} → (x ≡ g w) ⊎ (x ≡ err driver) → d' ≡ d → Q x d'
      go x (inl h) ed = rw (h, ed) q
      go x (inr h) ed = rw (h, ed) lost

module _ {D A B : Type 0} {w d : D} {Q : Result B → D → Type 0} where
  pub Runs-reads :
      (m : Action D A) (g : D → Result A) (k : A → Action D B)
      → Reads m g
      → Q (err driver) d
      → ((e : Error) → g w ≡ err e → Q (err e) d)
      → ((a : A) → g w ≡ ok a → Runs w d (k a) Q)
      → Runs w d (m >>= k) Q
  unfolding ◌>>=◌
  Runs-reads m g k r lost fails goes = record {
    at =
        λ s ew ed. go (m s).0 (m s).1 (rw (← ew) (r.result s)) (r.working s ∙ ew) (r.stored s ∙ ed);
  }
    where
      go :
          (x : Result A) (s' : Session D)
          → (x ≡ g w) ⊎ (x ≡ err driver)
          → s'.working ≡ w
          → s'.stored ≡ d
          → Q (continue k x s').0 (continue k x s').1.stored
      go (ok a) s' (inl h) ew ed = (goes a (sym h)).at s' ew ed
      go (ok a) s' (inr h) ew ed = absurd (cc)
      go (err e) s' (inl h) ew ed = rw ed (fails e (sym h))
      go (err e) s' (inr h) ew ed = let same_error : e ≡ driver = cc in rw (same_error, ed) lost

  -- What only reads, where the caller looks at its error.
  pub Runs-attempt_reads :
      (m : Action D A) (g : D → Result A) (k : Result A → Action D B)
      → Reads m g
      → Runs w d (k (err driver)) Q
      → Runs w d (k (g w)) Q
      → Runs w d (attempt m >>= k) Q
  unfolding ◌>>=◌
  Runs-attempt_reads m g k r lost goes = record {
    at =
        λ s ew ed. go (m s).0 (m s).1 (rw (← ew) (r.result s)) (r.working s ∙ ew) (r.stored s ∙ ed);
  }
    where
      go :
          (x : Result A) (s' : Session D)
          → (x ≡ g w) ⊎ (x ≡ err driver)
          → s'.working ≡ w
          → s'.stored ≡ d
          → Q (k x s').0 (k x s').1.stored
      go x s' (inl h) ew ed = rw h (goes.at s' ew ed)
      go x s' (inr h) ew ed = rw h (lost.at s' ew ed)

  pub Runs-writes :
      (m : Action D A) (f : D → D) (k : A → Action D B)
      → Writes m f
      → ((e : Error) → Q (err e) d)
      → ((a : A) → Runs (f w) d (k a) Q)
      → Runs w d (m >>= k) Q
  unfolding ◌>>=◌
  Runs-writes m f k r fails goes = record {
    at = λ s ew ed. go (m s).0 (m s).1 (λ a h. rw (← ew) (r.working s a h)) (r.stored s ∙ ed);
  }
    where
      go :
          (x : Result A) (s' : Session D)
          → ((a : A) → x ≡ ok a → s'.working ≡ f w)
          → s'.stored ≡ d
          → Q (continue k x s').0 (continue k x s').1.stored
      go (ok a) s' ew ed = (goes a).at s' (ew a refl) ed
      go (err e) s' ew ed = rw ed (fails e)

  -- What stores nothing, whatever it does to the working tables.
  pub Runs-keeping :
      (m : Action D A) (k : A → Action D B)
      → Keeps m
      → ((e : Error) → Q (err e) d)
      → ((a : A) (w' : D) → Runs w' d (k a) Q)
      → Runs w d (m >>= k) Q
  unfolding ◌>>=◌
  Runs-keeping m k r fails goes = record { at = λ s ew ed. go (m s).0 (m s).1 (r.at s ∙ ed) }
    where
      go :
          (x : Result A) (s' : Session D)
          → s'.stored ≡ d
          → Q (continue k x s').0 (continue k x s').1.stored
      go (ok a) s' ed = (goes a s'.working).at s' refl ed
      go (err e) s' ed = rw ed (fails e)

  pub Runs-autocommit :
      (f : D → A × D) (k : A → Action D B)
      → Q (err driver) d
      → Runs w (f d).1 (k (f d).0) Q
      → Runs w d (autocommit f >>= k) Q
  unfolding ◌>>=◌ autocommit
  Runs-autocommit f k lost goes = record { at = λ s ew ed. go s s.remaining ew ed }
    where
      go :
          (s : Session D) (n : Option ℕ)
          → s.working ≡ w
          → s.stored ≡ d
          → let s1 = record s { remaining = n } in
            Q ((autocommit f >>= k) s1).0 ((autocommit f >>= k) s1).1.stored
      go s none ew ed = rw ed (goes.at _ ew refl)
      go s (some zero) ew ed = rw ed lost
      go s (some (suc n)) ew ed = rw ed (goes.at _ ew refl)

module _ {D B : Type 0} {w d : D} {Q : Result B → D → Type 0} where
  pub Runs-begin :
      (k : Unit {0} → Action D B) → Q (err driver) d → Runs d d (k tt) Q → Runs w d (begin >>= k) Q
  unfolding ◌>>=◌
  Runs-begin k lost goes = record { at = λ s ew ed. go s s.remaining ed }
    where
      go :
          (s : Session D) (n : Option ℕ)
          → s.stored ≡ d
          → let s1 = record s { remaining = n } in
            Q ((begin >>= k) s1).0 ((begin >>= k) s1).1.stored
      go s none ed = goes.at _ ed ed
      go s (some zero) ed = rw ed lost
      go s (some (suc n)) ed = goes.at _ ed ed

  pub Runs-commit :
      (k : Unit {0} → Action D B) → Q (err driver) d → Runs w w (k tt) Q → Runs w d (commit >>= k) Q
  unfolding ◌>>=◌
  Runs-commit k lost goes = record { at = λ s ew ed. go s s.remaining ew ed }
    where
      go :
          (s : Session D) (n : Option ℕ)
          → s.working ≡ w
          → s.stored ≡ d
          → let s1 = record s { remaining = n } in
            Q ((commit >>= k) s1).0 ((commit >>= k) s1).1.stored
      go s none ew ed = goes.at _ ew ew
      go s (some zero) ew ed = rw ed lost
      go s (some (suc n)) ew ed = goes.at _ ew ew

  pub Runs-rollback : (k : Unit {0} → Action D B) → Runs d d (k tt) Q → Runs w d (rollback >>= k) Q
  unfolding ◌>>=◌
  Runs-rollback k goes = record { at = λ s ew ed. goes.at _ ed ed }

  pub Runs-exec_checked :
      (e : Error) (f : D → Option D) (k : Unit {0} → Action D B)
      → Q (err driver) d
      → Q (err e) d
      → ((w' : D) → f w ≡ some w' → Runs w' d (k tt) Q)
      → Runs w d (exec_checked e f >>= k) Q
  unfolding ◌>>=◌
  Runs-exec_checked e f k lost refused goes = record {
    at = λ s ew ed. go s s.remaining (f s.working) refl ew ed;
  }
    where
      go :
          (s : Session D) (n : Option ℕ) (o : Option D)
          → f s.working ≡ o
          → s.working ≡ w
          → s.stored ≡ d
          → let s1 = record s { remaining = n } in
            Q ((exec_checked e f >>= k) s1).0 ((exec_checked e f >>= k) s1).1.stored
      go s (some zero) o eo ew ed = rw ed lost
      go s none none eo ew ed = rw (eo, ed) refused
      go s none (some w') eo ew ed = rw eo ((goes w' (ap f (sym ew) ∙ eo)).at _ refl ed)
      go s (some (suc n)) none eo ew ed = rw (eo, ed) refused
      go s (some (suc n)) (some w') eo ew ed = rw eo ((goes w' (ap f (sym ew) ∙ eo)).at _ refl ed)

  pub Runs-attempt_exec :
      (e : Error) (f : D → Option D) (k : Result (Unit {0}) → Action D B)
      → Runs w d (k (err driver)) Q
      → Runs w d (k (err e)) Q
      → ((w' : D) → f w ≡ some w' → Runs w' d (k (ok tt)) Q)
      → Runs w d (attempt (exec_checked e f) >>= k) Q
  unfolding ◌>>=◌
  Runs-attempt_exec e f k lost refused goes = record {
    at = λ s ew ed. go s s.remaining (f s.working) refl ew ed;
  }
    where
      go :
          (s : Session D) (n : Option ℕ) (o : Option D)
          → f s.working ≡ o
          → s.working ≡ w
          → s.stored ≡ d
          → let s1 = record s { remaining = n } in
            Q
              ((attempt (exec_checked e f) >>= k) s1).0
              ((attempt (exec_checked e f) >>= k) s1).1.stored
      go s (some zero) o eo ew ed = lost.at _ ew ed
      go s none none eo ew ed = rw eo (refused.at _ ew ed)
      go s none (some w') eo ew ed = rw eo ((goes w' (ap f (sym ew) ∙ eo)).at _ refl ed)
      go s (some (suc n)) none eo ew ed = rw eo (refused.at _ ew ed)
      go s (some (suc n)) (some w') eo ew ed = rw eo ((goes w' (ap f (sym ew) ∙ eo)).at _ refl ed)

  pub Runs-fail_if :
      (b : Bool) (e : Error) (k : Unit {0} → Action D B)
      → (b ≡ true → Q (err e) d)
      → (b ≡ false → Runs w d (k tt) Q)
      → Runs w d (fail_if b e >>= k) Q
  unfolding ◌>>=◌
  Runs-fail_if true e k stops goes = record { at = λ s ew ed. rw ed (stops refl) }
  Runs-fail_if false e k stops goes = record { at = λ s ew ed. (goes refl).at s ew ed }

module _ {D : Type 0} {w d : D} {Q : Result (Unit {0}) → D → Type 0} where
  pub Runs-commit_last : Q (err driver) d → Q (ok tt) w → Runs w d commit Q
  unfolding commit
  Runs-commit_last lost stored = record { at = λ s ew ed. go s s.remaining ew ed }
    where
      go :
          (s : Session D) (n : Option ℕ)
          → s.working ≡ w
          → s.stored ≡ d
          → let s1 = record s { remaining = n } in Q (commit s1).0 (commit s1).1.stored
      go s none ew ed = rw ew stored
      go s (some zero) ew ed = rw ed lost
      go s (some (suc n)) ew ed = rw ew stored

module _ {D A B C : Type 0} {w d : D} {Q : Result C → D → Type 0} where
  pub Runs-assoc :
      (m : Action D A) (f : A → Action D B) (k : B → Action D C)
      → Runs w d (m >>= λ a. f a >>= k) Q
      → Runs w d ((m >>= f) >>= k) Q
  unfolding ◌>>=◌
  Runs-assoc m f k r = record { at = λ s ew ed. go (m s).0 (m s).1 (r.at s ew ed) }
    where
      go :
          (x : Result A) (s' : Session D)
          → let whole = continue (λ a. f a >>= k) x s' in
            let parts = continue k (continue f x s').0 (continue f x s').1 in
            Q whole.0 whole.1.stored → Q parts.0 parts.1.stored
      go (ok a) s' q = q
      go (err e) s' q = q

module _ {D A B : Type 0} where
  pub Writes-bind :
      (m : Action D A) (f : D → D) (k : A → Action D B) (g : D → D)
      → Writes m f
      → ((a : A) → Writes (k a) g)
      → Writes (m >>= k) (λ w. g (f w))
  unfolding ◌>>=◌
  Writes-bind m f k g wm wk = record {
    stored = λ s. (go s (m s).0 (m s).1 (wm.stored s) (wm.working s)).0;
    working = λ s. (go s (m s).0 (m s).1 (wm.stored s) (wm.working s)).1;
  }
    where
      go :
          (s : Session D) (x : Result A) (s' : Session D)
          → s'.stored ≡ s.stored
          → ((a : A) → x ≡ ok a → s'.working ≡ f s.working)
          → ((continue k x s').1.stored ≡ s.stored)
            × ((b : B) → (continue k x s').0 ≡ ok b → (continue k x s').1.working ≡ g (f s.working))
      go s (ok a) s' es ew =
          ((wk a).stored s' ∙ es, λ b h. rw (← ew a refl) ((wk a).working s' b h))
      go s (err e) s' es ew = (es, λ b h. absurd (cc))

  -- A write whose values were read just before.
  pub Writes-query :
      (q : D → A) (k : A → Action D B) (g : A → D → D)
      → ((a : A) → Writes (k a) (g a))
      → Writes (query q >>= k) (λ w. g (q w) w)
  unfolding ◌>>=◌
  Writes-query q k g wk = record {
    stored = λ s. (go s s.remaining).0;
    working = λ s. (go s s.remaining).1;
  }
    where
      go :
          (s : Session D) (n : Option ℕ)
          → let s1 = record s { remaining = n } in
            (((query q >>= k) s1).1.stored ≡ s.stored)
            × ((b : B)
                → ((query q >>= k) s1).0 ≡ ok b
                → ((query q >>= k) s1).1.working ≡ g (q s.working) s.working)
      go s none =
          let t : Session D = record s { remaining = none } in
          ((wk (q s.working)).stored t, (wk (q s.working)).working t)
      go s (some zero) = (refl, λ b h. absurd (cc))
      go s (some (suc n)) =
          let t : Session D = record s { remaining = some n } in
          ((wk (q s.working)).stored t, (wk (q s.working)).working t)

module _ {D A : Type 0} {w d : D} {P Q : Result A → D → Type 0} where
  pub Runs-map :
      (m : Action D A) → ((r : Result A) (d' : D) → P r d' → Q r d') → Runs w d m P → Runs w d m Q
  Runs-map m f r = record { at = λ s ew ed. f _ _ (r.at s ew ed) }
