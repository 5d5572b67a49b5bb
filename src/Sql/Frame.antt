-- ===== src/Sql/Frame.antt =====
-- Actions that leave a part of the working tables alone, and the stored tables too. One rule for
-- each way to build an action; `g` is the part.
use ticket_online.Common.{
  ℕ, zero, suc, ◌≡◌, refl, ap, ◌∙◌, Option, none, some, arith, Bool, true, false, if◌then◌else◌,
}
use ticket_online.Errors.{Error}
use ticket_online.Sql.{
  Result, ok, err, Session, Action, pure, raise, query, or_raise, on_no_rows, exec, exec_checked,
  attempt, fail_if, continue, ◌>>=◌,
}
use ticket_online.Sql.Runs.{Runs}

pub record Frame {D A B : Type 0} (g : D → B) (m : Action D A) : Type 0 where
  pub stored : (s : Session D) → (m s).1.stored ≡ s.stored
  pub part : (s : Session D) → g (m s).1.working ≡ g s.working

module _ {D A B : Type 0} {g : D → B} where
  pub Frame-pure : (a : A) → Frame g (pure a)
  unfolding pure
  Frame-pure a = record { stored = λ s. refl; part = λ s. refl }

  pub Frame-raise : (e : Error) → Frame {A = A} g (raise e)
  unfolding raise
  Frame-raise e = record { stored = λ s. refl; part = λ s. refl }

  pub Frame-query : (f : D → A) → Frame g (query f)
  unfolding query
  Frame-query f = record { stored = λ s. ground arith; part = λ s. ground arith }

  pub Frame-or_raise : (o : Option A) (e : Error) → Frame g (or_raise o e)
  unfolding or_raise
  Frame-or_raise none e = record { stored = λ s. refl; part = λ s. refl }
  Frame-or_raise (some a) e = record { stored = λ s. refl; part = λ s. refl }

  pub Frame-attempt : (m : Action D A) → Frame g m → Frame g (attempt m)
  unfolding attempt
  Frame-attempt m r = record { stored = r.stored; part = r.part }

  pub Frame-on_no_rows : (e : Error) (m : Action D A) → Frame g m → Frame g (on_no_rows e m)
  unfolding on_no_rows
  Frame-on_no_rows e m r = record { stored = r.stored; part = r.part }

  pub Frame-if :
      (b : Bool) (m n : Action D A) → Frame g m → Frame g n → Frame g (if b then m else n)
  Frame-if true m n rm rn = rm
  Frame-if false m n rm rn = rn

module _ {D B : Type 0} {g : D → B} where
  pub Frame-fail_if : (b : Bool) (e : Error) → Frame g (fail_if b e)
  unfolding fail_if
  Frame-fail_if true e = record { stored = λ s. refl; part = λ s. refl }
  Frame-fail_if false e = record { stored = λ s. refl; part = λ s. refl }

  pub Frame-exec : (f : D → D) → ((w : D) → g (f w) ≡ g w) → Frame g (exec f)
  unfolding exec
  Frame-exec f h = record { stored = λ s. ground arith; part = λ s. ground (arith, h s.working) }

  pub Frame-exec_checked :
      (e : Error) (f : D → Option D)
      → ((w w' : D) → f w ≡ some w' → g w' ≡ g w)
      → Frame g (exec_checked e f)
  unfolding exec_checked
  Frame-exec_checked e f h = record {
    stored = λ s. ground arith;
    part = λ s. go s s.remaining (f s.working) refl;
  }
    where
      go :
          (s : Session D) (n : Option ℕ) (o : Option D)
          → f s.working ≡ o
          → g (exec_checked e f (record s { remaining = n })).1.working ≡ g s.working
      go s none none eo = rw eo refl
      go s none (some w') eo = rw eo (h s.working w' eo)
      go s (some zero) o eo = refl
      go s (some (suc n)) none eo = rw eo refl
      go s (some (suc n)) (some w') eo = rw eo (h s.working w' eo)

module _ {D A C B : Type 0} {g : D → B} where
  pub Frame-bind :
      (m : Action D A) (k : A → Action D C)
      → Frame g m
      → ((a : A) → Frame g (k a))
      → Frame g (m >>= k)
  unfolding ◌>>=◌
  Frame-bind m k rm rk = record {
    stored = λ s. (go (m s).0 (m s).1 (rm.stored s) (rm.part s)).0;
    part = λ s. (go (m s).0 (m s).1 (rm.stored s) (rm.part s)).1;
  }
    where
      go :
          (x : Result A) (s' : Session D) {d : D} {b : B}
          → s'.stored ≡ d
          → g s'.working ≡ b
          → ((continue k x s').1.stored ≡ d) × (g (continue k x s').1.working ≡ b)
      go (ok a) s' es ep = ((rk a).stored s' ∙ es, (rk a).part s' ∙ ep)
      go (err e) s' es ep = (es, ep)

  -- The rest runs from tables that agree with the ones before on the part.
  pub Runs-frame :
      {w d : D} {Q : Result C → D → Type 0} (m : Action D A) (k : A → Action D C)
      → Frame g m
      → ((e : Error) → Q (err e) d)
      → ((a : A) (w' : D) → g w' ≡ g w → Runs w' d (k a) Q)
      → Runs w d (m >>= k) Q
  unfolding ◌>>=◌
  Runs-frame {w} {d} {Q} m k r fails goes = record {
    at = λ s ew ed. go (m s).0 (m s).1 (r.part s ∙ ap g ew) (r.stored s ∙ ed);
  }
    where
      go :
          (x : Result A) (s' : Session D)
          → g s'.working ≡ g w
          → s'.stored ≡ d
          → Q (continue k x s').0 (continue k x s').1.stored
      go (ok a) s' ep ed = (goes a s'.working ep).at s' refl ed
      go (err e) s' ep ed = rw ed (fails e)

pub ruleset frame_rules = (
  Frame-pure, Frame-raise, Frame-query, Frame-or_raise, Frame-on_no_rows, Frame-attempt, Frame-if,
  Frame-fail_if, Frame-bind,
)
