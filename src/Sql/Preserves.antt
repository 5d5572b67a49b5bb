-- ===== src/Sql/Preserves.antt =====
-- Actions that keep a property of the stored tables, over several transactions.
use ticket_online.Common.{refl, sym, subst, Bool, true, false, if◌then◌else◌}
use ticket_online.Sql.{Result, ok, err, Session, Action, attempt, continue, ◌>>=◌}
use ticket_online.Sql.Keeps.{Keeps}
use ticket_online.Sql.Runs.{Runs}

pub record Preserves {D A : Type 0} (P : D → Type 0) (m : Action D A) : Type 0 where
  pub at : (s : Session D) → P s.stored → P (m s).1.stored

module _ {D A : Type 0} {P : D → Type 0} where
  pub Preserves-Keeps : (m : Action D A) → Keeps m → Preserves P m
  Preserves-Keeps m k = record { at = λ s p. subst P (sym (k.at s)) p }

  pub Preserves-attempt : (m : Action D A) → Preserves P m → Preserves P (attempt m)
  unfolding attempt
  Preserves-attempt m k = record { at = k.at }

  pub Preserves-Runs :
      (m : Action D A) → ((w d : D) → P d → Runs w d m (λ _ d'. P d')) → Preserves P m
  Preserves-Runs m r = record { at = λ s p. (r s.working s.stored p).at s refl refl }

  pub Preserves-if :
      (b : Bool) (m n : Action D A)
      → Preserves P m
      → Preserves P n
      → Preserves P (if b then m else n)
  Preserves-if true m n km kn = km
  Preserves-if false m n km kn = kn

module _ {D A B : Type 0} {P : D → Type 0} where
  pub Preserves-bind :
      (m : Action D A) (f : A → Action D B)
      → Preserves P m
      → ((a : A) → Preserves P (f a))
      → Preserves P (m >>= f)
  unfolding ◌>>=◌
  Preserves-bind m f km kf = record { at = λ s p. go (m s).0 (m s).1 (km.at s p) }
    where
      go : (r : Result A) (s : Session D) → P s.stored → P (continue f r s).1.stored
      go (ok a) s p = (kf a).at s p
      go (err e) s p = p
