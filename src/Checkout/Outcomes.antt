-- ===== src/Checkout/Outcomes.antt =====
-- What a checkout (checkout.go, Create) may leave in the tables.
use ticket_online.Common.{
  Bool, Bool-cases, List, Option, [], ap, arith, false, inl, inr, none, refl, select?, some, true,
  update, ℕ, ◌&&◌, ◌++◌, ◌+◌, ◌-◌, ◌<◌, ◌∷◌, ◌≡◌, ◌≤◌,
}
use ticket_online.Common.Text.{Text, same, same_iff}
use ticket_online.Errors.{Error}
use ticket_online.Sql.{Result, ok, err, replace_no_rows}
use ticket_online.Schema.{ReservationRow, active, converted, Order, OrderStatus, Db}
use ticket_online.EventState.{State, can_sell}
use ticket_online.Pricing.{max_u64}
use ticket_online.Reservation.Reads.{state_of_reservation}
use ticket_online.Checkout.{CheckoutOrder}
use ticket_online.Checkout.Asked.{reservation_row, is_hash}
use ticket_online.Reservation.Store.{is_active}

abbrev pub order_for : Text → Db → Option Order
order_for id d = select? (λ o. same o.reservation_id id) d.orders

-- The row of a new order: the table's total is the sum of the other columns.
abbrev pub placed_row : Text → CheckoutOrder → Order
placed_row hash o = record {
  id = o.id;
  reference = o.reference;
  reservation_id = o.reservation_id;
  status = OrderStatus.pending;
  subtotal = o.subtotal;
  admin_fee = o.admin_fee;
  discount = o.discount;
  total = o.subtotal + o.admin_fee - o.discount;
  request_hash = some hash;
  expires_at = o.expires_at;
  access_deadline = none;
}

-- The reservation whose holder asks, at a time when it may become an order.
pub record IsOrderable (d : Db) (now : ℕ) (reservation_id key : Text) (row : ReservationRow)
    : Type 0 where
  pub found : reservation_row reservation_id d ≡ some row
  pub owned : same row.idempotency_key key ≡ true
  pub held : row.status ≡ active
  pub in_time : now < row.expires_at
  pub new : order_for reservation_id d ≡ none
  pub on_sale :
      (state : State) × (state_of_reservation reservation_id d ≡ ok state) × (can_sell state ≡ true)

abbrev pub converted_row : Text → ReservationRow → ReservationRow
converted_row reference r = record r { status = converted; order_reference = some reference }

-- What the call leaves: on an error nothing; for a repeated request nothing, and the order that the
-- same request made; else one new order, and its reservation converted.
abbrev pub Places : Db → ℕ → Text → Text → Text → Result (CheckoutOrder × Bool) → Db → Type 0
Places d now hash reservation_id key (err e) d' = d' ≡ d
Places d now hash reservation_id key (ok (o, true)) d' =
    (d' ≡ d)
    × (row : Order) × (order_for reservation_id d ≡ some row)
    × (is_hash row.request_hash hash ≡ true)
    × (o.id ≡ row.id)
    × (o.total ≡ row.total)
Places d now hash reservation_id key (ok (o, false)) d' =
    (row : ReservationRow) × IsOrderable d now reservation_id key row
    × (d'.orders ≡ d.orders ++ placed_row hash o ∷ [])
    × (reservation_row reservation_id d' ≡ some (converted_row o.reference row))
    × ((j : Text) → same j reservation_id ≡ false → reservation_row j d' ≡ reservation_row j d)
    × (0 < o.subtotal)
    × (o.discount ≤ o.subtotal)
    × (o.subtotal + o.admin_fee ≤ max_u64)

pub kept_ok :
    {A : Type 0} (r : Result A) {a : A} (e : Error) → replace_no_rows e r ≡ ok a → r ≡ ok a
kept_ok (ok b) e h = h
kept_ok (err x) e h = absurd (ground arith)

-- The UPDATE converts the first row of the id, and leaves the rows of other ids.
abbrev pub convert_in : Text → Text → List ReservationRow → List ReservationRow
convert_in reference id = update (λ r. same r.id id && is_active r.status) (converted_row reference)

pub converted_same :
    (reference id : Text) (row : ReservationRow) (rs : List ReservationRow)
    → select? (λ r. same r.id id) rs ≡ some row
    → row.status ≡ active
    → select? (λ r. same r.id id) (convert_in reference id rs) ≡ some (converted_row reference row)
converted_same reference id row [] found held = absurd (cc)
converted_same reference id row (r ∷ rs) found held = elim (Bool-cases (same r.id id)) [
  | inl hit ↦
      let first : some r ≡ some row = rw hit at found in
      let this : r ≡ row = cc in
      let going : is_active r.status ≡ true = rw (this, held) refl in
      rw (hit, going) (rw hit (ap (λ q. some (converted_row reference q)) this))
  | inr miss ↦ rw miss (rw miss (converted_same reference id row rs (rw miss at found) held))
]

pub converted_other :
    (reference id j : Text) (rs : List ReservationRow)
    → same j id ≡ false
    → select? (λ r. same r.id j) (convert_in reference id rs) ≡ select? (λ r. same r.id j) rs
converted_other reference id j [] other = refl
converted_other reference id j (r ∷ rs) other =
    ground (arith, converted_other reference id j rs other, same_iff r.id id, same_iff r.id j)
