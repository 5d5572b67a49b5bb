-- ===== src/Reservation/Transactions.antt =====
-- backend/internal/reservation/repository.go: Cancel, expireOne, Convert and Get, and the worker's
-- batch of worker.go, over the reads and writes of Reservation/Store.antt.
use ticket_online.Common.{
  ℕ, suc, ◌++◌, Bool, false, not, ◌&&◌, ◌||◌, Option, none, some, List, [], ◌∷◌, map, select,
  select?, update, any, take, leb, ltb, ◌==◌, if◌then◌else◌,
}
use ticket_online.Common.Text.{Text, same, less}
use ticket_online.Errors.{
  Error, no_rows, duplicate_key, closed, reservation_not_found, reservation_expired,
  reservation_cancelled, reservation_not_expired, reservation_converted,
}
use ticket_online.Sql.{
  Result, ok, err, Action, pure, raise, query, query_stored, or_raise, on_no_rows, attempt, begin,
  exec, exec_checked, commit, fail_if, ◌>>=◌, ◌>>◌,
}
use ticket_online.Schema.{
  ReservationStatus, active, expired, cancelled, converted, ReservationRow, Db,
}
use ticket_online.EventState.{for_reservation, can_sell}
use ticket_online.Reservation.Store.{
  Reservation, ReservationRecord, is_active, is_expired, response, get_record, get_stored,
  restore_items, set_ended,
}

abbrev pub row_of : Text → Db → Option ReservationRow
row_of id d = select? (λ r. same r.id id) d.reservations

-- restoreItems, the UPDATE of an active reservation's status, and Commit; then the result `k`.
unfoldable pub end_as : {A : Type 0} → ReservationStatus → Text → Action Db A → Action Db A
end_as status id k = do restore_items id; exec (set_ended status id); commit; k

-- Cancel after its reads, by the record's status.
unfoldable pub cancel_record :
    ReservationStatus → ℕ → Text → ReservationRecord → Action Db Reservation
cancel_record expired now id r = raise reservation_expired
cancel_record converted now id r = raise reservation_converted
cancel_record cancelled now id r = pure (response r)
cancel_record active now id r =
    if not (ltb now r.expires_at)
    then end_as expired id (raise reservation_expired)
    else end_as cancelled id (pure (response (record r { status = cancelled })))

unfoldable pub cancel : ℕ → Text → Action Db Reservation
unfolding cancel_record
cancel now id = do
  begin
  on_no_rows reservation_not_found (for_reservation id)
  found ← query (row_of id)
  or_raise found reservation_not_found
  r ← get_record id
  cancel_record r.status now id r

unfoldable pub expire_row : ℕ → Text → Option ReservationRow → Action Db (Unit {0})
expire_row now id none = pure tt
expire_row now id (some r) = do
  fail_if (not (is_active r.status) || ltb now r.expires_at) reservation_not_expired
  end_as expired id (raise reservation_expired)

unfoldable pub expire_one : ℕ → Text → Action Db (Unit {0})
unfolding expire_row
expire_one now id = do begin; for_reservation id; found ← query (row_of id); expire_row now id found

-- UPDATE … SET status = 'CONVERTED', order_reference = ? WHERE id = ? AND status = 'ACTIVE', under
-- the unique key on the reference.
abbrev pub is_reference : Text → Option Text → Bool
is_reference ref none = false
is_reference ref (some other) = same other ref

unfoldable pub set_converted : Text → Text → Db → Option Db
set_converted ref id d =
    if any (λ r. is_reference ref r.order_reference) d.reservations
    then none
    else some (record d {
      reservations =
          update (λ r. same r.id id && is_active r.status)
            (λ r. record r { status = converted; order_reference = some ref }) d.reservations;
    })

-- UPDATE reservations SET status = 'EXPIRED' WHERE id = ?, with no test of the status.
abbrev set_expired : Text → Db → Db
set_expired id d = record d {
  reservations = update (λ r. same r.id id) (λ r. record r { status = expired }) d.reservations;
}

unfoldable pub convert_record :
    ReservationStatus → ℕ → Text → Text → ReservationRecord → Action Db Reservation
convert_record converted now ref id r = pure (response r)
convert_record cancelled now ref id r = raise reservation_cancelled
convert_record expired now ref id r = raise reservation_expired
convert_record active now ref id r =
    if not (ltb now r.expires_at)
    then (do restore_items id; exec (set_expired id); raise reservation_expired)
    else do
      exec_checked duplicate_key (set_converted ref id)
      commit
      pure (response (record r { status = converted; reference = some ref }))

unfoldable pub convert : ℕ → Text → Text → Action Db Reservation
unfolding convert_record
convert now ref id = do
  begin
  state ← on_no_rows reservation_not_found (for_reservation id)
  fail_if (not (can_sell state)) closed
  r ← on_no_rows reservation_not_found (get_record id)
  convert_record r.status now ref id r

-- Get first expires the reservation and lets its own two errors pass.
abbrev pub after_expiry : Result (Unit {0}) → Action Db (Unit {0})
after_expiry (ok _) = pure tt
after_expiry (err reservation_not_expired) = pure tt
after_expiry (err reservation_expired) = pure tt
after_expiry (err e) = raise e

unfoldable pub get : ℕ → Text → Action Db Reservation
get now id = do
  outcome ← attempt (expire_one now id)
  after_expiry outcome
  r ← on_no_rows reservation_not_found (get_stored id)
  fail_if (is_active r.status && not (ltb now r.expires_at)) reservation_expired
  fail_if (is_expired r.status) reservation_expired
  pure (response r)

-- worker.go, runBatch: ORDER BY expires_at, id LIMIT 100.
abbrev earlier : ReservationRow → ReservationRow → Bool
earlier a b = ltb a.expires_at b.expires_at || ((a.expires_at == b.expires_at) && less a.id b.id)

abbrev insert_row : ReservationRow → List ReservationRow → List ReservationRow
insert_row r [] = r ∷ []
insert_row r (q ∷ qs) = let rest = insert_row r qs in if earlier q r then q ∷ rest else r ∷ q ∷ qs

abbrev order_rows : List ReservationRow → List ReservationRow
order_rows [] = []
order_rows (r ∷ rs) = insert_row r (order_rows rs)

unfoldable pub ended_ids : ℕ → Db → List Text
ended_ids now d =
    map (λ r. r.id)
      (take 100
        (order_rows (select (λ r. is_active r.status && leb r.expires_at now) d.reservations)))

pub record Batch : Type 0 where
  pub processed : ℕ
  pub failures : List Error

abbrev pub count_outcome : Result (Unit {0}) → Batch → Batch
count_outcome (ok _) b = record b { processed = suc b.processed }
count_outcome (err reservation_expired) b = record b { processed = suc b.processed }
count_outcome (err reservation_not_expired) b = b
count_outcome (err no_rows) b = b
count_outcome (err e) b = record b { failures = b.failures ++ e ∷ [] }

-- `clock` is the time at which the loop reaches an id.
unfoldable pub batch_loop : (Text → ℕ) → List Text → Batch → Action Db Batch
batch_loop clock [] b = pure b
batch_loop clock (id ∷ ids) b =
    attempt (expire_one (clock id) id) >>= λ r. batch_loop clock ids (count_outcome r b)

unfoldable pub run_batch : ℕ → (Text → ℕ) → Action Db Batch
unfolding ended_ids batch_loop
run_batch now clock = do
  ids ← query_stored (ended_ids now)
  batch_loop clock ids (record { processed = 0; failures = [] })
