-- ===== src/Sql/Lasts.antt =====
-- Runs whose connection is never lost: what reads gives its answer, and `Lasts w d m Q` says that
-- `m`, begun with the working tables `w` and the stored ones `d`, ends as `Q` says.
use ticket_online.Common.{◌≡◌, refl, Option, none, some, Bool, true, false, if◌then◌else◌}
use ticket_online.Errors.{Error}
use ticket_online.Sql.{
  Result, ok, err, Session, Action, pure, query, or_raise, fail_if, begin, exec, exec_checked,
  commit, attempt, continue, ◌>>=◌,
}
use ticket_online.Sql.Reads.{from_option, ◌then_ok◌}

-- A session whose connection is never lost.
abbrev pub lasting : {D : Type 0} → D → D → Session D
lasting w d = record { stored = d; working = w; remaining = none }

pub record Answers {D A : Type 0} (m : Action D A) (g : D → Result A) : Type 0 where
  pub at : (w d : D) → m (lasting w d) ≡ (g w, lasting w d)

module _ {D A : Type 0} where
  pub Answers-pure : (a : A) → Answers {D = D} (pure a) (λ d. ok a)
  unfolding pure
  Answers-pure a = record { at = λ w d. refl }

  pub Answers-query : (f : D → A) → Answers (query f) (λ d. ok (f d))
  unfolding query
  Answers-query f = record { at = λ w d. refl }

  pub Answers-or_raise :
      (o : Option A) (e : Error) → Answers {D = D} (or_raise o e) (λ d. from_option o e)
  unfolding or_raise
  Answers-or_raise none e = record { at = λ w d. refl }
  Answers-or_raise (some a) e = record { at = λ w d. refl }

  pub Answers-if :
      (b : Bool) (m n : Action D A) (g h : D → Result A)
      → Answers m g
      → Answers n h
      → Answers (if b then m else n) (λ d. if b then g d else h d)
  Answers-if true m n g h am an = am
  Answers-if false m n g h am an = an

module _ {D : Type 0} where
  pub Answers-fail_if :
      (b : Bool) (e : Error) → Answers {D = D} (fail_if b e) (λ d. if b then err e else ok tt)
  unfolding fail_if
  Answers-fail_if true e = record { at = λ w d. refl }
  Answers-fail_if false e = record { at = λ w d. refl }

module _ {D A B : Type 0} where
  pub Answers-bind :
      (m : Action D A) (g : D → Result A) (f : A → Action D B) (h : A → D → Result B)
      → Answers m g
      → ((a : A) → Answers (f a) (h a))
      → Answers (m >>= f) (λ d. g d then_ok λ a. h a d)
  unfolding ◌>>=◌
  Answers-bind m g f h am af = record { at = λ w d. rw (am.at w d) (go w d (g w)) }
    where
      go :
          (w d : D) (r : Result A)
          → continue f r (lasting w d) ≡ (r then_ok (λ a. h a w), lasting w d)
      go w d (ok a) = (af a).at w d
      go w d (err e) = refl

pub record Lasts {D A : Type 0} (w d : D) (m : Action D A) (Q : Result A → D → Type 0)
    : Type 0 where
  pub at : Q (m (lasting w d)).0 (m (lasting w d)).1.stored

module _ {D A : Type 0} {w d : D} {Q : Result A → D → Type 0} where
  pub Lasts-pure : (a : A) → Q (ok a) d → Lasts w d (pure a) Q
  unfolding pure
  Lasts-pure a q = record { at = q }

  pub Lasts-then :
      (b : Bool) (m n : Action D A) → b ≡ true → Lasts w d m Q → Lasts w d (if b then m else n) Q
  Lasts-then true m n e r = r
  Lasts-then false m n e r = absurd (cc)

  pub Lasts-else :
      (b : Bool) (m n : Action D A) → b ≡ false → Lasts w d n Q → Lasts w d (if b then m else n) Q
  Lasts-else true m n e r = absurd (cc)
  Lasts-else false m n e r = r

module _ {D A B : Type 0} {w d : D} {Q : Result B → D → Type 0} where
  pub Lasts-reads :
      (m : Action D A) (g : D → Result A) (k : A → Action D B) (a : A)
      → Answers m g
      → g w ≡ ok a
      → Lasts w d (k a) Q
      → Lasts w d (m >>= k) Q
  unfolding ◌>>=◌
  Lasts-reads m g k a am e goes = record { at = rw (am.at w d, e) goes.at }

  pub Lasts-attempt :
      (m : Action D A) (g : D → Result A) (k : Result A → Action D B)
      → Answers m g
      → Lasts w d (k (g w)) Q
      → Lasts w d (attempt m >>= k) Q
  unfolding ◌>>=◌
  Lasts-attempt m g k am goes = record { at = rw (am.at w d) goes.at }

module _ {D B : Type 0} {w d : D} {Q : Result B → D → Type 0} where
  pub Lasts-begin : (k : Unit {0} → Action D B) → Lasts d d (k tt) Q → Lasts w d (begin >>= k) Q
  unfolding ◌>>=◌
  Lasts-begin k goes = record { at = goes.at }

  pub Lasts-commit : (k : Unit {0} → Action D B) → Lasts w w (k tt) Q → Lasts w d (commit >>= k) Q
  unfolding ◌>>=◌
  Lasts-commit k goes = record { at = goes.at }

  pub Lasts-exec :
      (f : D → D) (k : Unit {0} → Action D B) → Lasts (f w) d (k tt) Q → Lasts w d (exec f >>= k) Q
  unfolding ◌>>=◌
  Lasts-exec f k goes = record { at = goes.at }

  pub Lasts-exec_checked :
      (e : Error) (f : D → Option D) (k : Unit {0} → Action D B) (w' : D)
      → f w ≡ some w'
      → Lasts w' d (k tt) Q
      → Lasts w d (exec_checked e f >>= k) Q
  unfolding ◌>>=◌
  Lasts-exec_checked e f k w' wrote goes = record { at = rw wrote goes.at }
