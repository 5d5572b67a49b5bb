-- ===== src/Reservation/Atomic.antt =====
-- What a failed call leaves in the tables.
use ticket_online.Common.{ℕ, ◌≡◌, Option, none, some, List, [], ◌∷◌}
use ticket_online.Common.Text.{Text}
use ticket_online.Errors.{Error, duplicate_key}
use ticket_online.Sql.{Result, ok, err, Session}
use ticket_online.Sql.Keeps.{
  Keeps, KeepsOnError, keeps_rules, atomic_rules, Keeps-pure, Keeps-raise, Keeps-bind, Keeps-exec,
  Keeps-fail_if, Keeps-query, Keeps-or_raise, Keeps-attempt, KeepsOnError-commit,
  KeepsOnError-commit_pure, KeepsOnError-if, Keeps-exec_checked, Keeps-begin, KeepsOnError-Keeps,
  KeepsOnError-bind,
}
use ticket_online.Schema.{
  active, expired, cancelled, converted, ReservationStatus, ReservationItem, Event, Tier,
  ReservationRow, Db,
}
use ticket_online.EventState.{State, read, for_reservation}
use ticket_online.Reservation.Request.{ItemRequest, Request}
use ticket_online.Reservation.Store.{ReservationRecord, get_record, restore_loop, restore_items}
use ticket_online.Reservation.Create.{
  Held, check_items, hold_items, after_insert, create_new, create_or_replay, create,
}
use ticket_online.Reservation.Transactions.{convert_record, convert}
use ticket_online.Reservation.Creating.{Keeps-get_tx, Keeps-replay_by_key}

Keeps-check_items : (tiers : List Tier) (items : List ItemRequest) → Keeps (check_items tiers items)
unfolding check_items
Keeps-check_items tiers [] = Keeps-pure _
Keeps-check_items tiers (i ∷ is) =
    Keeps-bind _ _ (Keeps-fail_if _ _)
      λ _. Keeps-bind _ _ (Keeps-fail_if _ _) (λ _. Keeps-check_items tiers is)

Keeps-hold_items :
    (id : Text) (tiers : List Tier) (items : List ItemRequest) (acc : Held)
    → Keeps (hold_items id tiers items acc)
unfolding hold_items
Keeps-hold_items id tiers [] acc = Keeps-pure _
Keeps-hold_items id tiers (i ∷ is) acc =
    Keeps-bind _ _ (Keeps-exec _)
      λ _. Keeps-bind _ _ (Keeps-exec _) (λ _. Keeps-hold_items id tiers is _)

KeepsOnError-after_insert :
    (r : Result (Unit {0})) (now : ℕ) (key hash : Text) (row : ReservationRow) (event : Event)
    (tiers : List Tier) (items : List ItemRequest)
    → KeepsOnError (after_insert r now key hash row event tiers items)
unfolding after_insert
KeepsOnError-after_insert (ok _) now key hash row event tiers items =
    search (atomic_rules, Keeps-hold_items) depth 9
KeepsOnError-after_insert (err duplicate_key) now key hash row event tiers items =
    KeepsOnError-Keeps _ (search (keeps_rules, Keeps-replay_by_key) depth 9)
KeepsOnError-after_insert (err _) now key hash row event tiers items =
    KeepsOnError-Keeps _ (Keeps-raise _)

KeepsOnError-create_new :
    (now ttl : ℕ) (new_id key hash : Text) (state : State) (request : Request)
    → KeepsOnError (create_new now ttl new_id key hash state request)
unfolding create_new
KeepsOnError-create_new now ttl new_id key hash state request =
    KeepsOnError-bind _ _ (Keeps-query _) λ found.
      KeepsOnError-bind _ _ (Keeps-or_raise found _) λ event.
        KeepsOnError-bind _ _ (Keeps-fail_if _ _) λ _.
          KeepsOnError-bind _ _ (Keeps-fail_if _ _) λ _.
            KeepsOnError-bind _ _ (Keeps-query _) λ rows.
              KeepsOnError-bind _ _ (Keeps-fail_if _ _) λ _.
                KeepsOnError-bind _ _ (Keeps-check_items _ _) λ _.
                  KeepsOnError-bind _ _ (Keeps-attempt _ (Keeps-exec_checked _ _))
                    λ r. KeepsOnError-after_insert r now key hash _ event _ _

KeepsOnError-create_or_replay :
    (existing : Option ReservationRow) (now ttl : ℕ) (new_id key hash : Text) (state : State)
    (request : Request)
    → KeepsOnError (create_or_replay existing now ttl new_id key hash state request)
unfolding create_or_replay
KeepsOnError-create_or_replay none now ttl new_id key hash state request =
    KeepsOnError-create_new now ttl new_id key hash state request
KeepsOnError-create_or_replay (some r) now ttl new_id key hash state request =
    KeepsOnError-Keeps _ (search (keeps_rules, Keeps-get_tx) depth 9)

KeepsOnError-create :
    (digest : Request → Text) (now ttl : ℕ) (new_id key : Text) (raw : Request)
    → KeepsOnError (create digest now ttl new_id key raw)
unfolding create read
KeepsOnError-create digest now ttl new_id key raw = KeepsOnError-bind _ _ Keeps-begin λ _.
    KeepsOnError-bind _ _ (search keeps_rules depth 9) λ state.
      KeepsOnError-bind _ _ (Keeps-query _)
        λ existing. KeepsOnError-create_or_replay existing now ttl new_id key _ state _

Keeps-restore_loop : (items : List ReservationItem) → Keeps (restore_loop items)
unfolding restore_loop
Keeps-restore_loop [] = Keeps-pure _
Keeps-restore_loop (i ∷ is) = Keeps-bind _ _ (Keeps-exec _) (λ _. Keeps-restore_loop is)

Keeps-restore_items : (id : Text) → Keeps (restore_items id)
unfolding restore_items
Keeps-restore_items id = Keeps-bind _ _ (Keeps-query _) (λ items. Keeps-restore_loop items)

KeepsOnError-convert_record :
    (status : ReservationStatus) (now : ℕ) (ref id : Text) (r : ReservationRecord)
    → KeepsOnError (convert_record status now ref id r)
unfolding convert_record
KeepsOnError-convert_record converted now ref id r = KeepsOnError-Keeps _ (Keeps-pure _)
KeepsOnError-convert_record cancelled now ref id r = KeepsOnError-Keeps _ (Keeps-raise _)
KeepsOnError-convert_record expired now ref id r = KeepsOnError-Keeps _ (Keeps-raise _)
KeepsOnError-convert_record active now ref id r =
    KeepsOnError-if _ _ _
      (KeepsOnError-Keeps _ (
        Keeps-bind _ _ (Keeps-restore_items id)
          (λ _. Keeps-bind _ _ (Keeps-exec _) (λ _. Keeps-raise _))))
      (KeepsOnError-bind _ _ (Keeps-exec_checked _ _)
        (λ _. KeepsOnError-commit_pure _ _ KeepsOnError-commit))

KeepsOnError-convert : (now : ℕ) (ref id : Text) → KeepsOnError (convert now ref id)
unfolding convert for_reservation read get_record
KeepsOnError-convert now ref id = KeepsOnError-bind _ _ Keeps-begin λ _.
    KeepsOnError-bind _ _ (search keeps_rules depth 12) λ state.
      KeepsOnError-bind _ _ (Keeps-fail_if _ _) λ _.
        KeepsOnError-bind _ _ (search keeps_rules depth 12)
          λ r. KeepsOnError-convert_record r.status now ref id r

-- A call of Create that returns an error has stored nothing, wherever it failed.
pub create_error-stored :
    (digest : Request → Text) (now ttl : ℕ) (new_id key : Text) (raw : Request) (s : Session Db)
    (e : Error)
    → (create digest now ttl new_id key raw s).0 ≡ err e
    → (create digest now ttl new_id key raw s).1.stored ≡ s.stored
create_error-stored digest now ttl new_id key raw s e =
    (KeepsOnError-create digest now ttl new_id key raw).at s e

-- A call of Convert that returns an error has stored nothing: also the expiry that it writes for an
-- active reservation whose time is over is rolled back.
pub convert_error-stored :
    (now : ℕ) (ref id : Text) (s : Session Db) (e : Error)
    → (convert now ref id s).0 ≡ err e
    → (convert now ref id s).1.stored ≡ s.stored
convert_error-stored now ref id s e = (KeepsOnError-convert now ref id).at s e
