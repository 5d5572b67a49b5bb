-- ===== src/Payment/Tickets.antt =====
-- backend/internal/payment/payment.go: issueAndLoadTickets and loadTickets. `draw` gives the random
-- id of the ticket of a tier and a number, and the time at which it is issued. A snapshot keeps the
-- columns that Schema has.
use mathlib.Core.Option
use ticket_online.Common.{
  ℕ, zero, suc, true, not, ◌&&◌, ◌||◌, Option, none, some, List, [], ◌∷◌, ◌++◌, length, select,
  select?, update, any, sum_of, ltb, ◌==◌, if◌then◌else◌,
}
use ticket_online.Common.Text.{Text, text, same, less, to_upper}
use ticket_online.Errors.{driver, no_rows, incomplete_tickets}
use ticket_online.Sql.{
  Action, pure, query, or_raise, exec, exec_checked, fail_if, raise, ◌>>=◌, ◌>>◌,
}
use ticket_online.Schema.{Event, Tier, OrderItem, OrderVoucher, Attendee, Eticket, Db}
use ticket_online.EventState.{event_of_order}

pub record Ticket : Type 0 where
  pub id : Text
  pub code : Text
  pub attendee_name : Text
  pub event_id : Text
  pub event_artist : Text
  pub gate : Text
  pub issued_at : ℕ

abbrev pub Draw : Type 0
Draw = ℕ → ℕ → Text × ℕ

-- UPDATE order_vouchers SET consumed = TRUE WHERE order_id = ?
unfoldable pub consume_voucher : Text → Db → Db
consume_voucher id d = record d {
  order_vouchers =
      update (λ (v : OrderVoucher). same v.order_id id) (λ v. record v { consumed = true })
        d.order_vouchers;
}

abbrev pub items_for : Text → Db → List OrderItem
items_for id d = select (λ i. same i.order_id id) d.order_items

-- ORDER BY ticket_tier_id.
abbrev place_item : OrderItem → List OrderItem → List OrderItem
place_item i [] = i ∷ []
place_item i (j ∷ js) =
    let rest = place_item i js in if ltb j.tier_id i.tier_id then j ∷ rest else i ∷ j ∷ js

abbrev order_items : List OrderItem → List OrderItem
order_items [] = []
order_items (i ∷ is) = place_item i (order_items is)

unfoldable pub sorted_items : Text → Db → List OrderItem
sorted_items id d = order_items (items_for id d)

pub record ItemSnapshot : Type 0 where
  pub tier_id : ℕ
  pub quantity : ℕ
  pub event_id : Text
  pub artist : Text
  pub gate : Text

-- The join with the event: an order without one has no rows.
abbrev event_for : Text → Db → Option Event
event_for id d = Option.bind (event_of_order id d) λ e. select? (λ v. same v.id e) d.events

-- A join of an item with its tier.
abbrev with_tier : Event → OrderItem → Option Tier → List ItemSnapshot → List ItemSnapshot
with_tier e i none rest = rest
with_tier e i (some t) rest =
    record {
      tier_id = i.tier_id;
      quantity = i.quantity;
      event_id = e.id;
      artist = e.artist;
      gate = t.gate;
    }
    ∷ rest

abbrev snapshots : Option Event → List Tier → List OrderItem → List ItemSnapshot
snapshots none tiers is = []
snapshots (some e) tiers [] = []
snapshots (some e) tiers (i ∷ is) =
    let rest = snapshots (some e) tiers is in
    with_tier e i (select? (λ t. t.id == i.tier_id) tiers) rest

unfoldable pub item_snapshots : Text → Db → List ItemSnapshot
unfolding sorted_items
item_snapshots id d = snapshots (event_for id d) d.tiers (sorted_items id d)

abbrev attendee_name : Option Attendee → Option Text
attendee_name none = none
attendee_name (some a) = some a.name

abbrev pub attendee_of : Text → ℕ → ℕ → Db → Option Text
attendee_of id tier n d =
    attendee_name
      (select? (λ a. same a.order_id id && a.tier_id == tier && a.number == n) d.attendees)

abbrev pub insert_attendee : Attendee → Db → Option Db
insert_attendee a d =
    if any (λ b. same b.order_id a.order_id && b.tier_id == a.tier_id && b.number == a.number)
      d.attendees
    then none
    else some (record d { attendees = d.attendees ++ a ∷ [] })

-- The keys of etickets: the id, and the place in the order.
unfoldable pub insert_ticket : Eticket → Db → Option Db
insert_ticket t d =
    if any
      (λ u.
        same u.id t.id
        || (same u.order_id t.order_id && u.tier_id == t.tier_id && u.number == t.number))
      d.etickets
    then none
    else some (record d { etickets = d.etickets ++ t ∷ [] })

-- The name on a ticket: the attendee's, or the buyer's where the order names no attendees.
unfoldable pub name_for : Text → Text → ℕ → ℕ → ℕ → Option Text → Action Db Text
name_for id buyer count tier n (some name) = pure name
name_for id buyer count tier n none =
    if count == 0
    then exec_checked driver
        (insert_attendee (record { order_id = id; tier_id = tier; number = n; name = buyer }))
      >> pure buyer
    else raise incomplete_tickets

unfoldable pub issue_ticket : Draw → Text → Text → ℕ → ItemSnapshot → ℕ → Action Db (Unit {0})
unfolding name_for insert_ticket
issue_ticket draw id buyer count item n = do
  found ← query (attendee_of id item.tier_id n)
  name ← name_for id buyer count item.tier_id n found
  exec_checked driver (
      insert_ticket (record {
        id = (draw item.tier_id n).0;
        order_id = id;
        tier_id = item.tier_id;
        number = n;
        attendee_name = name;
        event_id = item.event_id;
        event_artist = item.artist;
        gate = item.gate;
        issued_at = (draw item.tier_id n).1;
      }))

-- The tickets `n`, `n + 1`, … of an item, `left` in number.
unfoldable pub issue_numbers : Draw → Text → Text → ℕ → ItemSnapshot → ℕ → ℕ → Action Db (Unit {0})
unfolding issue_ticket
issue_numbers draw id buyer count item n zero = pure tt
issue_numbers draw id buyer count item n (suc left) =
    issue_ticket draw id buyer count item n >> issue_numbers draw id buyer count item (suc n) left

unfoldable pub issue_items : Draw → Text → Text → ℕ → List ItemSnapshot → Action Db (Unit {0})
unfolding issue_numbers
issue_items draw id buyer count [] = pure tt
issue_items draw id buyer count (i ∷ is) =
    issue_numbers draw id buyer count i 1 i.quantity >> issue_items draw id buyer count is

abbrev buyer_of : Text → Db → Option Text
buyer_of id d = Option.map (λ b. b.name) (select? (λ b. same b.order_id id) d.buyers)

unfoldable pub issue : Draw → Text → ℕ → Action Db (Unit {0})
unfolding issue_items item_snapshots
issue draw id expected = do
  count ← query (λ d. length (select (λ a. same a.order_id id) d.attendees))
  fail_if (not (count == 0) && not (count == expected)) incomplete_tickets
  found ← query (buyer_of id)
  buyer ← or_raise found no_rows
  items ← query (item_snapshots id)
  issue_items draw id buyer count items

abbrev pub to_ticket : Eticket → Ticket
to_ticket t = record {
  id = t.id;
  code = text "ET-" ++ to_upper t.id;
  attendee_name = t.attendee_name;
  event_id = t.event_id;
  event_artist = t.event_artist;
  gate = t.gate;
  issued_at = t.issued_at;
}

-- ORDER BY issued_at, id.
abbrev insert_issued : Eticket → List Eticket → List Eticket
insert_issued t [] = t ∷ []
insert_issued t (u ∷ us) =
    let rest = insert_issued t us in
    if ltb u.issued_at t.issued_at || (u.issued_at == t.issued_at && less u.id t.id)
    then u ∷ rest
    else t ∷ u ∷ us

abbrev order_issued : List Eticket → List Eticket
order_issued [] = []
order_issued (t ∷ ts) = insert_issued t (order_issued ts)

abbrev to_tickets : List Eticket → List Ticket
to_tickets [] = []
to_tickets (t ∷ ts) = to_ticket t ∷ to_tickets ts

unfoldable pub load_tickets : Text → Action Db (List Ticket)
load_tickets id =
    query (λ d. to_tickets (order_issued (select (λ t. same t.order_id id) d.etickets)))

unfoldable pub ordered : Text → Db → ℕ
ordered id d = sum_of (λ i. i.quantity) (items_for id d)

unfoldable pub issued : Text → Db → ℕ
issued id d = length (select (λ t. same t.order_id id) d.etickets)

unfoldable pub issue_and_load_tickets : Draw → Text → Action Db (List Ticket)
unfolding issue load_tickets consume_voucher ordered issued
issue_and_load_tickets draw id = do
  exec (consume_voucher id)
  expected ← query (ordered id)
  existing ← query (issued id)
  fail_if (not (existing == 0) && not (existing == expected)) incomplete_tickets
  if existing == 0 && ltb 0 expected then issue draw id expected else pure tt
  load_tickets id
