-- ===== src/Payment/Untouched.antt =====
-- Issuing tickets and returning stock touch neither orders nor payments.
use ticket_online.Common.{ℕ, zero, suc, ◌≡◌, refl, Option, none, some, List, [], ◌∷◌, arith}
use ticket_online.Common.Text.{Text}
use ticket_online.Sql.Frame.{
  Frame, Frame-pure, Frame-raise, Frame-query, Frame-or_raise, Frame-fail_if, Frame-bind, Frame-if,
  Frame-exec, Frame-exec_checked,
}
use ticket_online.Schema.{Attendee, Eticket, Order, OrderItem, Payment, Db}
use ticket_online.Payment.Tickets.{
  Draw, ItemSnapshot, insert_attendee, name_for, insert_ticket, issue_ticket, issue_numbers,
  issue_items, issue, load_tickets, consume_voucher, issue_and_load_tickets,
}
use ticket_online.Payment.Expiry.{return_stock, return_items}

-- Who owes and who has paid.
abbrev pub money : Db → List Order × List Payment
money d = (d.orders, d.payments)

-- An INSERT of a row of another table leaves them alone, and so does an UPDATE of stock.
insert_attendee-money :
    (a : Attendee) (w w' : Db) → insert_attendee a w ≡ some w' → money w' ≡ money w
insert_attendee-money a w w' h = ground arith

insert_ticket-money : (t : Eticket) (w w' : Db) → insert_ticket t w ≡ some w' → money w' ≡ money w
unfolding insert_ticket
insert_ticket-money t w w' h = ground arith

return_stock-money :
    (quantity id : ℕ) (w w' : Db) → return_stock quantity id w ≡ some w' → money w' ≡ money w
unfolding return_stock
return_stock-money quantity id w w' h = ground arith

Frame-name_for :
    (id buyer : Text) (count tier n : ℕ) (found : Option Text)
    → Frame money (name_for id buyer count tier n found)
unfolding name_for
Frame-name_for id buyer count tier n (some name) = Frame-pure name
Frame-name_for id buyer count tier n none =
    Frame-if _ _ _
      (Frame-bind _ _ (Frame-exec_checked _ _ (insert_attendee-money _)) (λ _. Frame-pure _))
      (Frame-raise _)

Frame-issue_ticket :
    (draw : Draw) (id buyer : Text) (count : ℕ) (item : ItemSnapshot) (n : ℕ)
    → Frame money (issue_ticket draw id buyer count item n)
unfolding issue_ticket
Frame-issue_ticket draw id buyer count item n = Frame-bind _ _ (Frame-query _) λ found.
    Frame-bind _ _ (Frame-name_for id buyer count item.tier_id n found)
      λ name. Frame-exec_checked _ _ (insert_ticket-money _)

Frame-issue_numbers :
    (draw : Draw) (id buyer : Text) (count : ℕ) (item : ItemSnapshot) (n left : ℕ)
    → Frame money (issue_numbers draw id buyer count item n left)
unfolding issue_numbers
Frame-issue_numbers draw id buyer count item n zero = Frame-pure _
Frame-issue_numbers draw id buyer count item n (suc left) =
    Frame-bind _ _ (Frame-issue_ticket draw id buyer count item n)
      λ _. Frame-issue_numbers draw id buyer count item (suc n) left

Frame-issue_items :
    (draw : Draw) (id buyer : Text) (count : ℕ) (items : List ItemSnapshot)
    → Frame money (issue_items draw id buyer count items)
unfolding issue_items
Frame-issue_items draw id buyer count [] = Frame-pure _
Frame-issue_items draw id buyer count (i ∷ is) =
    Frame-bind _ _ (Frame-issue_numbers draw id buyer count i 1 i.quantity)
      λ _. Frame-issue_items draw id buyer count is

Frame-issue : (draw : Draw) (id : Text) (expected : ℕ) → Frame money (issue draw id expected)
unfolding issue
Frame-issue draw id expected = Frame-bind _ _ (Frame-query _) λ count.
    Frame-bind _ _ (Frame-fail_if _ _) λ _. Frame-bind _ _ (Frame-query _) λ found.
      Frame-bind _ _ (Frame-or_raise found _)
        λ buyer. Frame-bind _ _ (Frame-query _) λ items. Frame-issue_items draw id buyer count items

pub Frame-issue_and_load_tickets :
    (draw : Draw) (id : Text) → Frame money (issue_and_load_tickets draw id)
unfolding issue_and_load_tickets load_tickets
Frame-issue_and_load_tickets draw id =
    Frame-bind _ _ (Frame-exec _ (λ w. unfold consume_voucher in refl)) λ _.
      Frame-bind _ _ (Frame-query _) λ expected. Frame-bind _ _ (Frame-query _) λ existing.
        Frame-bind _ _ (Frame-fail_if _ _) λ _.
          Frame-bind _ _ (Frame-if _ _ _ (Frame-issue draw id expected) (Frame-pure _))
            λ _. Frame-query _

pub Frame-return_items : (items : List OrderItem) → Frame money (return_items items)
unfolding return_items
Frame-return_items [] = Frame-pure _
Frame-return_items (i ∷ is) =
    Frame-bind _ _ (Frame-exec_checked _ _ (return_stock-money _ _)) λ _. Frame-return_items is
