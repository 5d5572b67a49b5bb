-- ===== src/Checkout/Frames.antt =====
-- What the parts of Create leave alone: reading changes nothing, and only two statements write orders
-- or reservations.
use ticket_online.Common.{ℕ, ◌≡◌, Option, none, some, List, [], ◌∷◌, arith}
use ticket_online.Common.Text.{Text}
use ticket_online.Sql.Frame.{
  Frame, frame_rules, Frame-pure, Frame-fail_if, Frame-bind, Frame-exec_checked,
}
use ticket_online.Schema.{ReservationRow, Order, Db}
use ticket_online.Pricing.{calculate, apply_voucher, read_voucher, usage, Snapshot}
use ticket_online.Checkout.{Attendees, CheckoutBuyer, CheckoutItem}
use ticket_online.Checkout.Asked.{Totals, check_attendees, add_items}
use ticket_online.Checkout.Create.{
  insert_voucher, write_voucher, insert_order_attendee, write_attendees, insert_order_item,
  write_items, insert_buyer,
}

module _ {B : Type 0} {g : Db → B} where
  pub Frame-check_attendees : (seen rest : List Attendees) → Frame g (check_attendees seen rest)
  unfolding check_attendees
  Frame-check_attendees seen [] = Frame-pure _
  Frame-check_attendees seen (a ∷ rest) =
      Frame-bind _ _ (Frame-fail_if _ _) (λ _. Frame-check_attendees _ rest)

  pub Frame-add_items :
      (people : List Attendees) (items : List CheckoutItem) (acc : Totals)
      → Frame g (add_items people items acc)
  unfolding add_items
  Frame-add_items people [] acc = Frame-pure _
  Frame-add_items people (i ∷ items) acc = Frame-bind _ _ (Frame-fail_if _ _) λ _.
      Frame-bind _ _ (Frame-fail_if _ _)
        λ _. Frame-bind _ _ (Frame-fail_if _ _) (λ _. Frame-add_items people items _)

  pub Frame-calculate :
      (event_id : Text) (subtotal : ℕ) (code : Text) (now : ℕ)
      → Frame g (calculate event_id subtotal code now)
  unfolding calculate apply_voucher read_voucher usage
  Frame-calculate event_id subtotal code now = search frame_rules depth 16

abbrev pub Sold : Type 0
Sold = List Order × List ReservationRow

-- The tables of orders and reservations.
abbrev pub sold : Db → Sold
sold d = (d.orders, d.reservations)

pub Frame-write_voucher : (id : Text) (v : Option Snapshot) → Frame sold (write_voucher id v)
unfolding write_voucher insert_voucher
Frame-write_voucher id none = Frame-pure _
Frame-write_voucher id (some v) = Frame-exec_checked _ _ λ w w' e. ground arith

Frame-write_attendees :
    (id : Text) (tier number : ℕ) (names : List Text)
    → Frame sold (write_attendees id tier number names)
unfolding write_attendees insert_order_attendee
Frame-write_attendees id tier number [] = Frame-pure _
Frame-write_attendees id tier number (n ∷ names) =
    Frame-bind _ _ (Frame-exec_checked _ _ λ w w' e. ground arith)
      (λ _. Frame-write_attendees id tier _ names)

pub Frame-write_items :
    (id : Text) (people : List Attendees) (items : List CheckoutItem)
    → Frame sold (write_items id people items)
unfolding write_items insert_order_item
Frame-write_items id people [] = Frame-pure _
Frame-write_items id people (i ∷ items) =
    Frame-bind _ _ (Frame-exec_checked _ _ λ w w' e. ground arith)
      λ _. Frame-bind _ _ (Frame-write_attendees _ _ _ _) (λ _. Frame-write_items id people items)

pub insert_buyer-sold :
    (id : Text) (b : CheckoutBuyer) (w w' : Db) → insert_buyer id b w ≡ some w' → sold w' ≡ sold w
unfolding insert_buyer
insert_buyer-sold id b w w' e = ground arith
