-- ===== src/Sql.antt =====
-- What the repositories use of database/sql: a transaction works on a copy of the stored tables,
-- `commit` stores the copy, and a `defer tx.Rollback()` leaves the stored tables as they were.
-- The connection may be lost after any number of statements: from then on each one fails.
pub mod Keeps
pub mod Reads
pub mod Runs
pub mod Preserves
pub mod Frame
pub mod Lasts
use ticket_online.Common.{ℕ, zero, suc, Bool, Option, none, some, if◌then◌else◌}
use ticket_online.Errors.{Error, driver, no_rows}

pub data Result (A : Type 0) : Type 0 where
  ok : A → Result A
  err : Error → Result A

-- `remaining` is the number of statements before the connection is lost, `none` if it never is.
pub record Session (D : Type 0) : Type 0 where
  pub stored : D
  pub working : D
  pub remaining : Option ℕ

abbrev pub Action : Type 0 → Type 0 → Type 0
Action D A = Session D → Result A × Session D

abbrev pub replace_no_rows : {A : Type 0} → Error → Result A → Result A
replace_no_rows e (ok a) = ok a
replace_no_rows e (err no_rows) = err e
replace_no_rows e (err other) = err other

module _ {D A : Type 0} where
  unfoldable pub pure : A → Action D A
  pure a s = (ok a, s)

  unfoldable pub raise : Error → Action D A
  raise e s = (err e, s)

  abbrev with_remaining :
      Session D → (Session D → Result A × Session D) → Option ℕ → Result A × Session D
  with_remaining s f none = f s
  with_remaining s f (some zero) = (err driver, s)
  with_remaining s f (some (suc n)) = f (record s { remaining = some n })

  -- One statement on the server: it fails when the connection is lost.
  unfoldable pub statement : (Session D → Result A × Session D) → Action D A
  statement f s = with_remaining s f s.remaining

  -- A SELECT inside the transaction, and one outside it.
  unfoldable pub query : (D → A) → Action D A
  unfolding statement
  query f = statement λ s. (ok (f s.working), s)

  unfoldable pub query_stored : (D → A) → Action D A
  unfolding statement
  query_stored f = statement λ s. (ok (f s.stored), s)

  unfoldable pub or_raise : Option A → Error → Action D A
  or_raise none e s = (err e, s)
  or_raise (some a) e s = (ok a, s)

  -- One statement outside a transaction that writes, and stores at once; `A` is what it returns.
  unfoldable pub autocommit : (D → A × D) → Action D A
  unfolding statement
  autocommit f = statement λ s. (ok (f s.stored).0, record s { stored = (f s.stored).1 })

  -- `if errors.Is(err, sql.ErrNoRows) { return e }`.
  unfoldable pub on_no_rows : Error → Action D A → Action D A
  on_no_rows e m s = let (r, s') = m s in (replace_no_rows e r, s')

  -- A call whose error the caller looks at.
  unfoldable pub attempt : Action D A → Action D (Result A)
  attempt m s = let (r, s') = m s in (ok r, s')

module _ {D : Type 0} where
  -- BeginTx, an INSERT or UPDATE, Commit.
  unfoldable pub begin : Action D (Unit {0})
  unfolding statement
  begin = statement λ s. (ok tt, record s { working = s.stored })

  unfoldable pub exec : (D → D) → Action D (Unit {0})
  unfolding statement
  exec f = statement λ s. (ok tt, record s { working = f s.working })

  unfoldable pub commit : Action D (Unit {0})
  unfolding statement
  commit = statement λ s. (ok tt, record s { stored = s.working })

  -- tx.Rollback()
  unfoldable pub rollback : Action D (Unit {0})
  rollback s = (ok tt, record s { working = s.stored })

  unfoldable pub fail_if : Bool → Error → Action D (Unit {0})
  fail_if b e s = if b then (err e, s) else (ok tt, s)

module _ {D : Type 0} where
  abbrev write_checked : Error → Option D → Session D → Result (Unit {0}) × Session D
  write_checked e none s = (err e, s)
  write_checked e (some d) s = (ok tt, record s { working = d })

  -- A write that a CHECK or a key of the schema may refuse.
  unfoldable pub exec_checked : Error → (D → Option D) → Action D (Unit {0})
  unfolding statement
  exec_checked e f = statement λ s. write_checked e (f s.working) s

module _ {D A B : Type 0} where
  abbrev pub continue : (A → Action D B) → Result A → Action D B
  continue f (ok a) s = f a s
  continue f (err e) s = (err e, s)

  infixl 5 ◌>>=◌
  unfoldable pub ◌>>=◌ : Action D A → (A → Action D B) → Action D B
  unfolding pure raise query query_stored or_raise on_no_rows begin exec commit fail_if exec_checked
      attempt rollback
  ◌>>=◌ m f s = let (r, s') = m s in continue f r s'

infixl 5 ◌>>◌
abbrev pub ◌>>◌ : {D A B : Type 0} → Action D A → Action D B → Action D B
m >> k = m >>= λ _. k
