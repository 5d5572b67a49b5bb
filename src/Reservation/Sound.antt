-- ===== src/Reservation/Sound.antt =====
-- The invariant of the tables that reservations use, and the two changes that keep it: ending an
-- active reservation, and adding one with its items.
use ticket_online.Common.{
  ℕ, ◌+◌, ◌≡◌, refl, ap, ap₂, ◌∙◌, Bool, true, false, ◌||◌, some, List, [], ◌∷◌, ◌++◌, arith,
  select?, sum_of-append, any, All,
}
use ticket_online.Common.Text.{Text, same, same_refl}
use ticket_online.Schema.{Tier, ReservationStatus, active, ReservationRow, ReservationItem, Db}
use ticket_online.Reservation.Request.{ItemRequest}
use ticket_online.Reservation.Store.{is_active, items_of, restore_tier, end_reservation, set_ended}
use ticket_online.Reservation.Reads.{restore_all, restored}
use ticket_online.Reservation.Keys.{
  UniqueIds, update-UniqueIds, Owned, has_row, has_row-append, update-Owned, All-map,
}
use ticket_online.Reservation.Ledger.{Ledger, is_holding, holds, held, amount, release-Ledger}
use ticket_online.Reservation.Valid.{Distinct}
use ticket_online.Reservation.Holding.{
  Picked, rows_of, hold_rows, hold_rows_lem, take_rows-Balanced, take_rows-UniqueIds, rows_of-Apart,
}

-- For every tier, what is available and what reservations hold make the capacity; tier ids are
-- unique, and every item has its reservation.
pub record IsSound (d : Db) : Type 0 where
  pub ledger : Ledger d
  pub unique : UniqueIds d.tiers
  pub owned : Owned d.reservations d.reservation_items

restore_all-UniqueIds :
    (items : List ReservationItem) (ts : List Tier)
    → UniqueIds ts
    → UniqueIds (restore_all items ts)
unfolding restore_all restore_tier
restore_all-UniqueIds [] ts k = k
restore_all-UniqueIds (i ∷ is) ts k =
    restore_all-UniqueIds is _ (update-UniqueIds _ _ (λ t. refl) ts k)

pub release-IsSound :
    (status : ReservationStatus) (id : Text) (d : Db) (r : ReservationRow)
    → is_holding status ≡ false
    → select? (λ q. same q.id id) d.reservations ≡ some r
    → is_active r.status ≡ true
    → IsSound d
    → IsSound (set_ended status id (restored (items_of id d) d))
unfolding end_reservation
release-IsSound status id d r ends found live s = record {
  ledger = release-Ledger status id d r ends found live s.ledger;
  unique = restore_all-UniqueIds (items_of id d) d.tiers s.unique;
  owned = update-Owned _ _ (λ q. refl) d.reservations d.reservation_items s.owned;
}

-- A new row at the end of the reservations.
holds-append :
    (rs : List ReservationRow) (r : ReservationRow) (j : Text)
    → has_row rs j ≡ true
    → holds (rs ++ r ∷ []) j ≡ holds rs j
unfolding holds
holds-append [] r j h = absurd (cc)
holds-append (q ∷ qs) r j h = ground (arith, holds-append qs r j)

holds-append_self :
    (rs : List ReservationRow) (r : ReservationRow)
    → has_row rs r.id ≡ false
    → holds (rs ++ r ∷ []) r.id ≡ is_holding r.status
unfolding holds
holds-append_self [] r h = rw (same_refl r.id)
holds-append_self (q ∷ qs) r h = ground (arith, holds-append_self qs r)

pub held-same :
    (h h' : Text → Bool) (t : ℕ) (items : List ReservationItem)
    → All (λ i. h' i.reservation_id ≡ h i.reservation_id) items
    → held h' t items ≡ held h t items
unfolding held
held-same h h' t [] a = refl
held-same h h' t (i ∷ is) a = ground (arith, a.0, held-same h h' t is a.1)

held-rows_of :
    (h : Text → Bool) (t : ℕ) (id : Text) (tiers : List Tier) (items : List ItemRequest)
    → h id ≡ true
    → held h t (rows_of id tiers items) ≡ amount t (rows_of id tiers items)
unfolding held amount rows_of
held-rows_of h t id tiers [] on = refl
held-rows_of h t id tiers (i ∷ is) on = ground (arith, held-rows_of h t id tiers is on)

rows_of-Owned :
    (rs : List ReservationRow) (id : Text) (tiers : List Tier) (items : List ItemRequest)
    → has_row rs id ≡ true
    → Owned rs (rows_of id tiers items)
unfolding rows_of
rows_of-Owned rs id tiers [] h = tt
rows_of-Owned rs id tiers (i ∷ is) h = (h, rows_of-Owned rs id tiers is h)

All-append {ℓ} :
    (P : ReservationItem → Type ℓ) (xs ys : List ReservationItem)
    → All P xs
    → All P ys
    → All P (xs ++ ys)
All-append P [] ys a b = b
All-append P (x ∷ xs) ys a b = (a.0, All-append P xs ys a.1 b)

pub fresh_id :
    (rs : List ReservationRow) (r : ReservationRow)
    → any (λ q. same q.id r.id || same q.idempotency_key r.idempotency_key) rs ≡ false
    → has_row rs r.id ≡ false
fresh_id [] r h = refl
fresh_id (q ∷ qs) r h = ground (arith, fresh_id qs r)

module _ (d : Db) (row : ReservationRow) (tiers : List Tier) (items : List ItemRequest)
    (sound : IsSound d) (live : row.status ≡ active) (fresh : has_row d.reservations row.id ≡ false)
    (distinct : Distinct items) (picked : All (Picked d.tiers tiers) items) where
  abbrev rs' : List ReservationRow
  rs' = d.reservations ++ row ∷ []

  abbrev rows : List ReservationItem
  rows = rows_of row.id tiers items

  held_more :
      (t : ℕ)
      → held (holds rs') t (d.reservation_items ++ rows)
        ≡ held (holds d.reservations) t d.reservation_items + amount t rows
  held_more t =
      held_append
      ∙ ap₂ ◌+◌
          (held-same (holds d.reservations) (holds rs') t d.reservation_items (
            All-map _ _ d.reservation_items
              (λ i h. holds-append d.reservations row i.reservation_id h) sound.owned))
          (held-rows_of (holds rs') t row.id tiers items
            (holds-append_self d.reservations row fresh ∙ ap is_holding live))
    where
      held_append :
          held (holds rs') t (d.reservation_items ++ rows)
          ≡ held (holds rs') t d.reservation_items + held (holds rs') t rows
      held_append = unfold held in sum_of-append _ d.reservation_items rows

  pub added-IsSound : IsSound (hold_rows rows (record d { reservations = rs' }))
  added-IsSound =
      let e : Db = record d { reservations = rs' } in
      let (tiers', items', reservations') = hold_rows_lem rows e in
      let (apart, enough) = rows_of-Apart d.tiers tiers sound.unique row.id items distinct picked in
      record {
        ledger =
            rw (tiers', items', reservations')
              (take_rows-Balanced rows _ _ d.tiers held_more apart enough sound.ledger);
        unique = rw tiers' (take_rows-UniqueIds rows d.tiers sound.unique);
        owned =
            rw (items', reservations')
              (All-append _ d.reservation_items rows
                (All-map _ _ d.reservation_items
                  (λ i h. has_row-append d.reservations row i.reservation_id ∙ ground (arith, h))
                  sound.owned)
                (rows_of-Owned rs' row.id tiers items (
                  has_row-append d.reservations row row.id
                  ∙ ground (arith, fresh, same_refl row.id))));
      }
