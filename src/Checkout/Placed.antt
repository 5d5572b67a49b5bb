-- ===== src/Checkout/Placed.antt =====
-- What a checkout that succeeds has stored.
use ticket_online.Common.{
  Bool, Option, [], ap, ap₂, arith, false, none, refl, select?-found, some, sym, true, ℕ, ◌++◌, ◌+◌,
  ◌-◌, ◌<◌, ◌∙◌, ◌∷◌, ◌≡◌, ◌≤◌,
}
use ticket_online.Common.Text.{Text, same, same_iff}
use ticket_online.Sql.{Result, ok, Session, Action, ◌>>=◌}
use ticket_online.Sql.Reads.{
  Reads-query, Reads-raise, Reads-or_raise, Reads-on_no_rows, Reads-pure, found_of, ok_eq,
}
use ticket_online.Sql.Runs.{
  Runs, Runs-pure, Runs-reads, Runs-begin, Runs-commit, Runs-exec_checked, Runs-fail_if, Runs-assoc,
}
use ticket_online.Sql.Frame.{Runs-frame}
use ticket_online.Schema.{
  ReservationRow, ReservationStatus, active, expired, cancelled, converted, Order, Db,
}
use ticket_online.EventState.{State}
use ticket_online.Pricing.{Quote, max_u64}
use ticket_online.Reservation.Reads.{state_of_reservation, Reads-for_reservation}
use ticket_online.Checkout.{CheckoutRequest, CheckoutOrder, validate}
use ticket_online.Checkout.Asked.{
  Totals, reservation_row, replay, load_items, load_snapshot, check_status,
}
use ticket_online.Checkout.Create.{
  insert_order, pending_order, store_order, convert_reservation, place, place_or_replay,
  create_valid, create,
}
use ticket_online.Checkout.Frames.{
  sold, Frame-check_attendees, Frame-add_items, Frame-calculate, Frame-write_voucher,
  Frame-write_items, insert_buyer-sold,
}
use ticket_online.Checkout.Outcomes.{
  order_for, IsOrderable, converted_row, Places, kept_ok, convert_in, converted_same,
  converted_other,
}

module _ (d : Db) (now : ℕ) (hash reservation_id key : Text) where
  abbrev Outcomes : Result (CheckoutOrder × Bool) → Db → Type 0
  Outcomes = Places d now hash reservation_id key

  replay-Places :
      (row : Order) → order_for reservation_id d ≡ some row → Runs d d (replay hash row) Outcomes
  unfolding replay load_items load_snapshot
  replay-Places row found =
      Runs-fail_if _ _ _ (λ _. refl)
        λ same_hash. Runs-assoc _ _ _ (
          Runs-reads _ _ _ (Reads-query _) refl (λ _ _. refl)
            λ voucher _. Runs-assoc _ _ _ (
              Runs-reads _ _ _ (Reads-query _) refl (λ _ _. refl)
                λ items _.
                  Runs-reads _ _ _ (Reads-pure _) refl (λ _ _. refl)
                    λ o this. Runs-pure _ (
                      refl,
                      row,
                      found,
                      ground arith,
                      ap (λ x. x.id) (sym (ok_eq this)),
                      ap (λ x. x.total) (sym (ok_eq this)),
                    )))

  -- The INSERT of the order passes its CHECKs only where the sums fit.
  inserted :
      (o : Order) (w w' : Db)
      → w.orders ≡ d.orders
      → w.reservations ≡ d.reservations
      → insert_order o w ≡ some w'
      → (w'.orders ≡ d.orders ++ record o { total = o.subtotal + o.admin_fee - o.discount } ∷ [])
        × (w'.reservations ≡ d.reservations)
        × (0 < o.subtotal)
        × (o.discount ≤ o.subtotal)
        × (o.subtotal + o.admin_fee ≤ max_u64)
  unfolding insert_order
  inserted o w w' eo er e = ground arith

  convert_reservation_lem :
      (reference : Text) (row : ReservationRow) (w w' : Db)
      → reservation_row reservation_id d ≡ some row
      → row.status ≡ active
      → w.reservations ≡ d.reservations
      → convert_reservation reference row.id w ≡ some w'
      → (w'.orders ≡ w.orders)
        × (reservation_row reservation_id w' ≡ some (converted_row reference row))
        × ((j : Text) → same j reservation_id ≡ false → reservation_row j w' ≡ reservation_row j d)
  unfolding convert_reservation
  convert_reservation_lem reference row w w' found held er e =
      let this : row.id ≡ reservation_id =
        (same_iff _ _).0 (select?-found (λ r. same r.id reservation_id) d.reservations found) in
      let set : w'.reservations ≡ convert_in reference row.id w.reservations = ground arith in
      let rows : w'.reservations ≡ convert_in reference reservation_id d.reservations =
        set ∙ ap₂ (convert_in reference) this er in
      (
        ground arith,
        rw rows (converted_same reference reservation_id row d.reservations found held),
        λ j other. rw rows (converted_other reference reservation_id j d.reservations other),
      )

  module _ (row : ReservationRow) (orderable : IsOrderable d now reservation_id key row) where
    store_order-Places :
        (id reference : Text) (request : CheckoutRequest) (totals : Totals) (q : Quote) (w : Db)
        → sold w ≡ sold d
        → Runs w d (store_order id reference hash row request totals q) Outcomes
    unfolding store_order
    store_order-Places id reference request totals q w ew =
        Runs-exec_checked _ _ _ refl refl λ w1 e1.
          let (orders1, reservations1, positive, reduced, small) =
            inserted (pending_order id reference hash row totals q) w w1 (ap (λ x. x.0) ew)
              (ap (λ x. x.1) ew) e1 in
          Runs-frame _ _ (Frame-write_voucher id q.voucher) (λ _. refl)
            λ _ w2 e2.
              Runs-frame _ _ (Frame-write_items id _ _) (λ _. refl)
                λ _ w3 e3. Runs-exec_checked _ _ _ refl refl λ w4 e4.
                  let unchanged : sold w4 ≡ sold w1 = insert_buyer-sold _ _ _ _ e4 ∙ e3 ∙ e2 in
                  Runs-exec_checked _ _ _ refl refl λ w5 e5.
                    let (orders5, mine, others) =
                      convert_reservation_lem reference row w4 w5 orderable.found orderable.held
                        (ap (λ x. x.1) unchanged ∙ reservations1) e5 in
                    Runs-commit _ refl (
                      Runs-pure _ (
                        row,
                        orderable,
                        orders5 ∙ ap (λ x. x.0) unchanged ∙ orders1,
                        mine,
                        others,
                        positive,
                        reduced,
                        small,
                      ))

  check_status-held :
      (status : ReservationStatus) (expires_at : ℕ)
      (k : Unit {0} → Action Db (CheckoutOrder × Bool))
      → (status ≡ active → now < expires_at → Runs d d (k tt) Outcomes)
      → Runs d d (check_status status now expires_at >>= k) Outcomes
  unfolding check_status
  check_status-held cancelled at k goes =
      Runs-reads _ _ _ (Reads-raise _) refl (λ _ _. refl) (λ _ e. absurd (cc))
  check_status-held expired at k goes =
      Runs-reads _ _ _ (Reads-raise _) refl (λ _ _. refl) (λ _ e. absurd (cc))
  check_status-held converted at k goes =
      Runs-reads _ _ _ (Reads-raise _) refl (λ _ _. refl) (λ _ e. absurd (cc))
  check_status-held active at k goes =
      Runs-fail_if _ _ _ (λ _. refl) λ early. goes refl (ground arith)

  place-Places :
      (id reference : Text) (state : State) (row : ReservationRow) (request : CheckoutRequest)
      → reservation_row reservation_id d ≡ some row
      → same row.idempotency_key key ≡ true
      → order_for reservation_id d ≡ none
      → state_of_reservation reservation_id d ≡ ok state
      → Runs d d (place now id reference hash state row request) Outcomes
  unfolding place
  place-Places id reference state row request found owned new is_state =
      Runs-fail_if _ _ _ (λ _. refl)
        λ sale. check_status-held row.status row.expires_at _ λ held in_time.
          Runs-reads _ _ _ (Reads-query _) refl (λ _ _. refl)
            λ lines _.
              Runs-frame _ _ (Frame-check_attendees _ _) (λ _. refl)
                λ _ w1 e1.
                  Runs-frame _ _ (Frame-add_items _ _ _) (λ _. refl)
                    λ totals w2 e2.
                      Runs-fail_if _ _ _ (λ _. refl)
                        λ _.
                          Runs-fail_if _ _ _ (λ _. refl)
                            λ _.
                              Runs-frame _ _ (Frame-calculate _ _ _ _) (λ _. refl)
                                λ q w3 e3.
                                  store_order-Places row
                                    (record {
                                      found = found;
                                      owned = owned;
                                      held = held;
                                      in_time = in_time;
                                      new = new;
                                      on_sale = (state, is_state, ground arith);
                                    })
                                    id reference request totals q w3 (e3 ∙ e2 ∙ e1)

  place_or_replay-Places :
      (existing : Option Order) (id reference : Text) (state : State) (row : ReservationRow)
      (request : CheckoutRequest)
      → order_for reservation_id d ≡ existing
      → reservation_row reservation_id d ≡ some row
      → same row.idempotency_key key ≡ true
      → state_of_reservation reservation_id d ≡ ok state
      → Runs d d (place_or_replay existing now id reference hash state row request) Outcomes
  unfolding place_or_replay
  place_or_replay-Places (some o) id reference state row request ordered found owned is_state =
      replay-Places o ordered
  place_or_replay-Places none id reference state row request ordered found owned is_state =
      place-Places id reference state row request found owned ordered is_state

  create_valid-Places :
      (id reference : Text) (request : CheckoutRequest) (w : Db)
      → Runs w d (create_valid now id reference hash reservation_id key request) Outcomes
  unfolding create_valid
  create_valid-Places id reference request w = Runs-begin _ refl (
      Runs-reads _ _ _ (Reads-on_no_rows _ _ _ (Reads-for_reservation _)) refl (λ _ _. refl)
        λ state is_state.
          Runs-reads _ _ _ (Reads-query _) refl (λ _ _. refl)
            λ found is_found.
              Runs-reads _ _ _ (Reads-or_raise found _) refl (λ _ _. refl)
                λ row is_row.
                  Runs-fail_if _ _ _ (λ _. refl)
                    λ owned.
                      Runs-reads _ _ _ (Reads-query _) refl (λ _ _. refl)
                        λ existing is_existing.
                          place_or_replay-Places existing id reference state row request
                            (ok_eq is_existing) (ok_eq is_found ∙ found_of found _ is_row)
                            (ground arith) (kept_ok _ _ is_state))

-- A checkout, wherever its connection is lost: on an error nothing is stored; a request that made an
-- order before gets that order, and nothing is stored; otherwise the key is the reservation's own, it
-- is active, in time and without an order, its event sells tickets, and stored are one new order, with
-- a total that is its subtotal with the fee less the discount and that no sum wraps, and the reservation
-- as converted, under the order's reference.
pub create-Places :
    (address : Text → Option Text) (digest : Text → CheckoutRequest → Text) (now : ℕ)
    (id reference reservation_id key : Text) (raw request : CheckoutRequest) (s : Session Db)
    → validate address raw ≡ ok request
    → let after = create address digest now id reference reservation_id key raw s in
      Places s.stored now (digest reservation_id request) reservation_id key after.0 after.1.stored
unfolding create
create-Places address digest now id reference reservation_id key raw request s valid = rw valid (
    (create_valid-Places s.stored now (digest reservation_id request) reservation_id key id
        reference request s.working).at
      s refl refl)
