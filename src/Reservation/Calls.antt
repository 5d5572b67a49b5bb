-- ===== src/Reservation/Calls.antt =====
-- Convert, Get and the worker's batch keep the reservation tables sound on every path,
-- wherever the connection is lost.
use ticket_online.Common.{
  ℕ, ◌≡◌, refl, sym, subst, Bool, ◌&&◌, Option, some, List, [], ◌∷◌, arith, ltb, any, All, update,
  inl, inr, Bool-cases,
}
use ticket_online.Common.Text.{Text, same}
use ticket_online.Errors.{reservation_expired, reservation_not_expired}
use ticket_online.Sql.{Result, ok, err}
use ticket_online.Sql.Keeps.{Keeps, keeps_rules, Keeps-pure, Keeps-raise, Keeps-query_stored}
use ticket_online.Sql.Preserves.{
  Preserves, Preserves-Keeps, Preserves-attempt, Preserves-Runs, Preserves-bind,
}
use ticket_online.Sql.Reads.{Reads-on_no_rows}
use ticket_online.Sql.Runs.{
  Runs, Runs-pure, Runs-raise, Runs-reads, Runs-writes, Runs-begin, Runs-commit, Runs-fail_if,
  Runs-exec_checked, Writes-exec,
}
use ticket_online.Schema.{
  ReservationStatus, active, expired, cancelled, converted, ReservationRow, Event, Tier, Db,
}
use ticket_online.Reservation.Store.{ReservationRecord, is_active, get_stored}
use ticket_online.Reservation.Transactions.{
  is_reference, set_converted, convert_record, convert, after_expiry, get, batch_loop,
  count_outcome, Batch, run_batch,
}
use ticket_online.Reservation.Reads.{Reads-for_reservation, Reads-get_record, Writes-restore_items}
use ticket_online.Reservation.Keys.{update-Owned}
use ticket_online.Reservation.Ledger.{holds, Balanced-same}
use ticket_online.Reservation.Sound.{IsSound, held-same}
use ticket_online.Reservation.Stock.{expire_one-Preserves}

-- A converted reservation goes on holding its tickets.
holds-converted :
    (ref id j : Text) (rs : List ReservationRow)
    → holds
        (update
          (λ r. same r.id id && is_active r.status)
          (λ r. record r { status = converted; order_reference = some ref })
          rs)
        j
      ≡ holds rs j
unfolding holds
holds-converted ref id j [] = refl
holds-converted ref id j (r ∷ rs) = ground (arith, holds-converted ref id j rs)

All-same :
    (h h' : Text → Bool) (items : List ticket_online.Schema.ReservationItem)
    → ((j : Text) → h' j ≡ h j)
    → All (λ i. h' i.reservation_id ≡ h i.reservation_id) items
All-same h h' [] e = tt
All-same h h' (i ∷ is) e = (e i.reservation_id, All-same h h' is e)

set_converted-IsSound :
    (ref id : Text) (d d' : Db) → IsSound d → set_converted ref id d ≡ some d' → IsSound d'
unfolding set_converted
set_converted-IsSound ref id d d' sound e = elim (Bool-cases test) [
  | inl taken ↦ absurd (ground arith)
  | inr free ↦
      let this : ◌≡◌ {A = Option Db} (some next) (some d') = rw free at e in
      let same_db : next ≡ d' = cc in
      subst IsSound same_db (record {
        ledger =
            Balanced-same _ _ d.tiers
              (λ t. sym (
                held-same (holds d.reservations) (holds next.reservations) t d.reservation_items (
                  All-same _ _ d.reservation_items (λ j. holds-converted ref id j d.reservations))))
              sound.ledger;
        unique = sound.unique;
        owned = update-Owned _ _ (λ r. refl) d.reservations d.reservation_items sound.owned;
      })
]
  where
    test : Bool
    test = any (λ r. is_reference ref r.order_reference) d.reservations

    next : Db
    next = record d {
      reservations =
          update (λ r. same r.id id && is_active r.status)
            (λ r. record r { status = converted; order_reference = some ref }) d.reservations;
    }

abbrev Kept : {A : Type 0} → Result A → Db → Type 0
Kept r d = IsSound d

module _ (now : ℕ) (ref id : Text) (d : Db) (sound : IsSound d) where
  convert_record-Kept :
      (status : ReservationStatus) (r : ReservationRecord)
      → Runs d d (convert_record status now ref id r) Kept
  unfolding convert_record
  convert_record-Kept expired r = Runs-raise _ sound
  convert_record-Kept converted r = Runs-pure _ sound
  convert_record-Kept cancelled r = Runs-raise _ sound
  convert_record-Kept active r = elim (Bool-cases (ltb now r.expires_at)) [
    | inl early ↦ rw early (
        Runs-exec_checked _ _ _ sound sound
          λ d' e. Runs-commit _ sound (Runs-pure _ (set_converted-IsSound ref id d d' sound e)))
    | inr late ↦ rw late (
        Runs-writes _ _ _ (Writes-restore_items id) (λ _. sound)
          λ _. Runs-writes _ _ _ (Writes-exec _) (λ _. sound) λ _. Runs-raise _ sound)
  ]

  convert-Kept : (w : Db) → Runs w d (convert now ref id) Kept
  unfolding convert
  convert-Kept w = Runs-begin _ sound (
      Runs-reads _ _ _ (Reads-on_no_rows _ _ _ (Reads-for_reservation id)) sound (λ _ _. sound)
        λ _ _.
          Runs-fail_if _ _ _ (λ _. sound)
            λ _.
              Runs-reads _ _ _ (Reads-on_no_rows _ _ _ (Reads-get_record id)) sound (λ _ _. sound)
                λ r _. convert_record-Kept r.status r)

pub convert-Preserves : (now : ℕ) (ref id : Text) → Preserves IsSound (convert now ref id)
convert-Preserves now ref id = Preserves-Runs _ (λ w d sound. convert-Kept now ref id d sound w)

Keeps-after_expiry : (r : Result (Unit {0})) → Keeps (after_expiry r)
Keeps-after_expiry (ok _) = Keeps-pure _
Keeps-after_expiry (err reservation_not_expired) = Keeps-pure _
Keeps-after_expiry (err reservation_expired) = Keeps-pure _
Keeps-after_expiry (err _) = Keeps-raise _

pub Keeps-get_stored : (id : Text) → Keeps (get_stored id)
unfolding get_stored
Keeps-get_stored id = search keeps_rules depth 9

pub get-Preserves : (now : ℕ) (id : Text) → Preserves IsSound (get now id)
unfolding get
get-Preserves now id = Preserves-bind _ _ (Preserves-attempt _ (expire_one-Preserves now id)) λ r.
    Preserves-bind _ _ (Preserves-Keeps _ (Keeps-after_expiry r))
      λ _. Preserves-Keeps _ (search (keeps_rules, Keeps-get_stored) depth 9)

batch_loop-Preserves :
    (clock : Text → ℕ) (ids : List Text) (b : Batch) → Preserves IsSound (batch_loop clock ids b)
unfolding batch_loop
batch_loop-Preserves clock [] b = Preserves-Keeps _ (Keeps-pure b)
batch_loop-Preserves clock (id ∷ ids) b =
    Preserves-bind _ _ (Preserves-attempt _ (expire_one-Preserves (clock id) id))
      λ r. batch_loop-Preserves clock ids (count_outcome r b)

pub run_batch-Preserves : (now : ℕ) (clock : Text → ℕ) → Preserves IsSound (run_batch now clock)
unfolding run_batch
run_batch-Preserves now clock =
    Preserves-bind _ _ (Preserves-Keeps _ (Keeps-query_stored _))
      λ ids. batch_loop-Preserves clock ids _
