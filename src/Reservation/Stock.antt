-- ===== src/Reservation/Stock.antt =====
-- Cancel and expireOne of repository.go keep the reservation tables sound on every path, wherever the
-- connection is lost.
use mathlib.Core.Option
use ticket_online.Common.{ℕ, ◌≡◌, refl, not, Option, none, some, arith, ltb, ◌⊎◌, inl, inr}
use ticket_online.Common.Text.{Text}
use ticket_online.Sql.{Result, ok, Action}
use ticket_online.Sql.Preserves.{Preserves, Preserves-Runs}
use ticket_online.Sql.Reads.{Reads-on_no_rows, Reads-query, Reads-or_raise}
use ticket_online.Sql.Runs.{
  Runs, Runs-pure, Runs-raise, Runs-if, Runs-reads, Runs-writes, Runs-begin, Runs-commit,
  Runs-fail_if, Writes-exec,
}
use ticket_online.Schema.{
  ReservationStatus, active, expired, cancelled, converted, ReservationRow, Db,
}
use ticket_online.Reservation.Store.{ReservationRecord, set_ended, items_of}
use ticket_online.Reservation.Transactions.{
  row_of, end_as, cancel_record, cancel, expire_row, expire_one,
}
use ticket_online.Reservation.Reads.{
  Reads-for_reservation, record_in, Reads-get_record, restored, Writes-restore_items,
}
use ticket_online.Reservation.Sound.{IsSound, release-IsSound}

-- A record that was read carries the status of its row.
pub record_in-row :
    (id : Text) (d : Db) (r : ReservationRecord)
    → record_in id d ≡ ok r
    → (row : ReservationRow) × (row_of id d ≡ some row) × (row.status ≡ r.status)
unfolding record_in Option.bind
record_in-row id d r h = go (row_of id d) refl
  where
    go :
        (o : Option ReservationRow)
        → row_of id d ≡ o
        → (row : ReservationRow) × (row_of id d ≡ some row) × (row.status ≡ r.status)
    go none e = absurd (ground arith)
    go (some row) e = (row, e, ground arith)

abbrev Kept : {A : Type 0} → Result A → Db → Type 0
Kept r d = IsSound d

module _ (now : ℕ) (id : Text) (d : Db) (sound : IsSound d) where
  released :
      (status : ReservationStatus) (row : ReservationRow)
      → (status ≡ expired) ⊎ (status ≡ cancelled)
      → row_of id d ≡ some row
      → row.status ≡ active
      → IsSound (set_ended status id (restored (items_of id d) d))
  released status row ends found live =
      release-IsSound status id d row (ground arith) found (rw live) sound

  -- An active reservation ends in a sound state, from which its result follows.
  end_as-Kept :
      {A : Type 0} (status : ReservationStatus) (row : ReservationRow)
      → (status ≡ expired) ⊎ (status ≡ cancelled)
      → row_of id d ≡ some row
      → row.status ≡ active
      → (k : Action Db A) → ((e : Db) → IsSound e → Runs e e k Kept)
      → Runs d d (end_as status id k) Kept
  unfolding end_as
  end_as-Kept status row ends found live k rest =
      Runs-writes _ _ _ (Writes-restore_items id) (λ _. sound)
        λ _.
          Runs-writes _ _ _ (Writes-exec _) (λ _. sound)
            λ _. Runs-commit _ sound (rest _ (released status row ends found live))

  cancel_record-Kept :
      (status : ReservationStatus) (r : ReservationRecord) (row : ReservationRow)
      → row_of id d ≡ some row
      → row.status ≡ status
      → Runs d d (cancel_record status now id r) Kept
  unfolding cancel_record
  cancel_record-Kept expired r row found at = Runs-raise _ sound
  cancel_record-Kept converted r row found at = Runs-raise _ sound
  cancel_record-Kept cancelled r row found at = Runs-pure _ sound
  cancel_record-Kept active r row found at =
      Runs-if (not (ltb now r.expires_at)) (end_as expired id _) (end_as cancelled id _)
        (λ _. end_as-Kept expired row (inl refl) found at _ (λ _ b. Runs-raise _ b))
        (λ _. end_as-Kept cancelled row (inr refl) found at _ (λ _ b. Runs-pure _ b))

  cancel-Kept : (w : Db) → Runs w d (cancel now id) Kept
  unfolding cancel
  cancel-Kept w = Runs-begin _ sound (
      Runs-reads _ _ _ (Reads-on_no_rows _ _ _ (Reads-for_reservation id)) sound (λ _ _. sound)
        λ _ _.
          Runs-reads _ _ _ (Reads-query _) sound (λ _ _. sound)
            λ found _.
              Runs-reads _ _ _ (Reads-or_raise found _) sound (λ _ _. sound)
                λ _ _.
                  Runs-reads _ _ _ (Reads-get_record id) sound (λ _ _. sound)
                    λ r e.
                      let (row, at, status) = record_in-row id d r e in
                      cancel_record-Kept r.status r row at status)

  expire_row-Kept :
      (found : Option ReservationRow)
      → row_of id d ≡ found
      → Runs d d (expire_row now id found) Kept
  unfolding expire_row
  expire_row-Kept none e = Runs-pure _ sound
  expire_row-Kept (some row) e =
      Runs-fail_if _ _ _ (λ _. sound)
        λ live. end_as-Kept expired row (inl refl) e (ground arith) _ (λ _ b. Runs-raise _ b)

  expire_one-Kept : (w : Db) → Runs w d (expire_one now id) Kept
  unfolding expire_one
  expire_one-Kept w = Runs-begin _ sound (
      Runs-reads _ _ _ (Reads-for_reservation id) sound (λ _ _. sound)
        λ _ _.
          Runs-reads _ _ _ (Reads-query _) sound (λ _ _. sound)
            λ found e. expire_row-Kept found (cc))

pub cancel-Preserves : (now : ℕ) (id : Text) → Preserves IsSound (cancel now id)
cancel-Preserves now id = Preserves-Runs _ (λ w d sound. cancel-Kept now id d sound w)

pub expire_one-Preserves : (now : ℕ) (id : Text) → Preserves IsSound (expire_one now id)
expire_one-Preserves now id = Preserves-Runs _ (λ w d sound. expire_one-Kept now id d sound w)
