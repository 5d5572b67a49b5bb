-- ===== src/Reservation/Creating.antt =====
-- Create keeps the reservation tables sound on every path, wherever the connection is lost.
use ticket_online.Common.{
  ℕ, ◌≡◌, refl, subst, Bool, false, ◌||◌, Option, none, some, List, [], ◌∷◌, ◌++◌, arith, any, All,
  inl, inr, Bool-cases,
}
use ticket_online.Common.Text.{Text, same}
use ticket_online.Sql.{Result, ok}
use ticket_online.Sql.Keeps.{Keeps, keeps_rules}
use ticket_online.Sql.Preserves.{Preserves, Preserves-Runs}
use ticket_online.Sql.Reads.{Reads-on_no_rows, Reads-query, Reads-or_raise}
use ticket_online.Sql.Runs.{
  Runs, Runs-pure, Runs-raise, Runs-Keeps, Runs-reads, Runs-writes, Runs-begin, Runs-commit,
  Runs-fail_if, Runs-rollback, Runs-attempt_exec,
}
use ticket_online.Schema.{active, ReservationRow, Event, Tier, Db}
use ticket_online.EventState.{State}
use ticket_online.Reservation.Request.{
  ItemRequest, Request, sort_items, normalize_request, validate_request,
}
use ticket_online.Reservation.Store.{get_record, get_tx}
use ticket_online.Reservation.Create.{
  replay_by_key, get_by_key, after_insert, create_new, create_or_replay, create, tier_map,
  tiers_for, insert_reservation,
}
use ticket_online.Reservation.Reads.{Reads-read}
use ticket_online.Reservation.Keys.{has_row, Member}
use ticket_online.Reservation.Valid.{Distinct, Positive, validated_items}
use ticket_online.Reservation.Holding.{
  Picked, Reads-check_items, checked-Picked, tiers_for-All, Writes-hold_items,
}
use ticket_online.Reservation.Sound.{IsSound, added-IsSound, fresh_id}
use ticket_online.Reservation.Calls.{Keeps-get_stored}

abbrev Kept : {A : Type 0} → Result A → Db → Type 0
Kept r d = IsSound d

-- Reading a record and answering with it stores nothing.
pub Keeps-get_tx : (now : ℕ) (id : Text) → Keeps (get_tx now id)
unfolding get_tx get_record
Keeps-get_tx now id = search keeps_rules depth 12

pub Keeps-replay_by_key : (now : ℕ) (key hash : Text) → Keeps (replay_by_key now key hash)
unfolding replay_by_key get_by_key
Keeps-replay_by_key now key hash = search (keeps_rules, Keeps-get_stored) depth 12

-- An inserted reservation is the last row, under a new id.
insert_reservation_lem :
    (row : ReservationRow) (d w : Db)
    → insert_reservation row d ≡ some w
    → (record d { reservations = d.reservations ++ row ∷ [] } ≡ w)
      × (has_row d.reservations row.id ≡ false)
unfolding insert_reservation
insert_reservation_lem row d w e = elim (Bool-cases test) [
  | inl taken ↦ absurd (ground arith)
  | inr free ↦
      let this : ◌≡◌ {A = Option Db} (some (record d { reservations = d.reservations ++ row ∷ [] }))
          (some w) =
        rw free at e in
      (cc, fresh_id d.reservations row free)
]
  where
    test : Bool
    test = any (λ q. same q.id row.id || same q.idempotency_key row.idempotency_key) d.reservations

module _ (now ttl : ℕ) (new_id key hash : Text) (state : State) (d : Db) (sound : IsSound d) where
  after_insert-Kept :
      (row : ReservationRow) (event : Event) (tiers : List Tier) (items : List ItemRequest)
      → row.status ≡ active
      → Distinct items
      → All (Picked d.tiers tiers) items
      → (w : Db) → insert_reservation row d ≡ some w
      → Runs w d (after_insert (ok tt) now key hash row event tiers items) Kept
  unfolding after_insert
  after_insert-Kept row event tiers items live distinct picked w e =
      let (this, fresh) = insert_reservation_lem row d w e in
      Runs-writes _ _ _ (Writes-hold_items row.id tiers items _) (λ _. sound)
        λ _. Runs-commit _ sound (
          Runs-pure _
            (rw (← this) (added-IsSound d row tiers items sound live fresh distinct picked)))

  create_new-Kept :
      (request : Request)
      → Distinct (sort_items request.items)
      → Positive (sort_items request.items)
      → Runs d d (create_new now ttl new_id key hash state request) Kept
  unfolding create_new
  create_new-Kept request distinct positive =
      Runs-reads _ _ _ (Reads-query _) sound (λ _ _. sound)
        λ found _.
          Runs-reads _ _ _ (Reads-or_raise found _) sound (λ _ _. sound)
            λ event _.
              Runs-fail_if _ _ _ (λ _. sound)
                λ _.
                  Runs-fail_if _ _ _ (λ _. sound)
                    λ _.
                      Runs-reads _ _ _ (Reads-query _) sound (λ _ _. sound)
                        λ rows is_rows.
                          Runs-fail_if _ _ _ (λ _. sound)
                            λ _.
                              Runs-reads _ _ _ (Reads-check_items _ _) sound (λ _ _. sound)
                                λ _ passed.
                                  Runs-attempt_exec _ _ _ (Runs-raise _ sound)
                                    (Runs-rollback _ (
                                      Runs-Keeps _ (Keeps-replay_by_key now key hash) (λ _. sound)))
                                    (after_insert-Kept _ event _ _ refl distinct (
                                      checked-Picked d.tiers _ _
                                        (subst (λ x. All (λ t. Member t d.tiers) (tier_map [] x))
                                          {x = tiers_for request.event_id (sort_items request.items)
                                            d}
                                          {y = rows} (cc)
                                          (tiers_for-All request.event_id (sort_items request.items)
                                            d))
                                        positive passed))

  create_or_replay-Kept :
      (existing : Option ReservationRow) (request : Request)
      → Distinct (sort_items request.items)
      → Positive (sort_items request.items)
      → Runs d d (create_or_replay existing now ttl new_id key hash state request) Kept
  unfolding create_or_replay
  create_or_replay-Kept none request distinct positive = create_new-Kept request distinct positive
  create_or_replay-Kept (some r) request distinct positive =
      Runs-fail_if _ _ _ (λ _. sound) λ _. Runs-Keeps _ (Keeps-get_tx now r.id) (λ _. sound)

pub create-Preserves :
    (digest : Request → Text) (now ttl : ℕ) (new_id key : Text) (raw : Request)
    → validate_request raw ≡ none
    → Preserves IsSound (create digest now ttl new_id key raw)
unfolding create
create-Preserves digest now ttl new_id key raw valid =
    let (distinct, positive) = validated_items raw valid in
    Preserves-Runs _ λ w d sound. Runs-begin _ sound (
      Runs-reads _ _ _ (Reads-on_no_rows _ _ _ (Reads-read _)) sound (λ _ _. sound)
        λ state _.
          Runs-reads _ _ _ (Reads-query _) sound (λ _ _. sound)
            λ existing _.
              create_or_replay-Kept now ttl new_id key _ state d sound existing
                (normalize_request raw) distinct positive)
