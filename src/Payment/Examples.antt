-- ===== src/Payment/Examples.antt =====
-- Runs of payments.
use mathlib.Core.Option
use ticket_online.Common.{
  List, Option, ℕ, Bool, true, false, map, ◌≡◌, refl, inl, none, some, [], ◌∷◌, arith,
}
use ticket_online.Common.Text.{text, same}
use ticket_online.Sql.{
  Session, ◌>>=◌, begin, commit, query, or_raise, fail_if, pure, exec, statement,
}
use ticket_online.EventState.{for_order, read, to_state, current_change, payment_blocked, can_sell}
use ticket_online.Payment.Simulate.{simulate, mark_paid, update_payment}
use ticket_online.Schema.{
  Publication, Lifecycle, Event, converted, OrderStatus, Order, Method, PaymentStatus, Payment, Db,
  empty_db,
}
use ticket_online.Payment.Status.{
  is_paid, format_amount, digits, new_status, is_gateway_success, is_gateway_failure,
}
use ticket_online.Payment.Tickets.{
  sorted_items, Draw, issue_and_load_tickets, load_tickets, consume_voucher, ordered, issued,
}
use ticket_online.Payment.Gateway.{
  payment_at, take_status, take_success, set_payment, apply_gateway_status_tx, apply_gateway_status,
}
use ticket_online.Payment.Backed.{Backed, paid_at, success_at}
use ticket_online.Payment.Settling.{simulate-Backed}
use ticket_online.Payment.History.{
  Call, simulated, reported, expired, reconciled, serve_all, serve_all-Backed,
}
use ticket_online.Payment.Expiry.{
  expire_order_locally, expire_unpaid, expire_locked_order, return_items, close_order,
}
use ticket_online.Payment.Reconcile.{Answers}
use ticket_online.Payment.Reports.{apply_gateway_status-Backed}
use ticket_online.Payment.Settled.{apply_gateway_status-unchanged}

abbrev draw : Draw
draw tier n = (tier ∷ n ∷ [], 50)

abbrev paid_order : Order
paid_order = record {
  id = text "o1";
  reference = text "TO-o1";
  reservation_id = text "r1";
  status = OrderStatus.paid;
  subtotal = 1250;
  admin_fee = 0;
  discount = 0;
  total = 1250;
  request_hash = none;
  access_deadline = none;
  expires_at = 100;
}

abbrev payment : Payment
payment = record {
  id = text "p1";
  order_id = text "o1";
  method = Method.qris;
  amount = 1250;
  status = PaymentStatus.succeeded;
  started_at = some 10;
  paid_at = some 20;
  gateway_order_id = some (text "o1-1");
  gateway_reference = none;
  redirect_url = none;
}

abbrev sold : Db
sold = record empty_db { orders = paid_order ∷ []; payments = payment ∷ [] }

abbrev at_report : Session Db
at_report = record { stored = sold; working = empty_db; remaining = some 9 }

amount_text : format_amount 1250 ≡ text "1250.00"
unfolding format_amount digits
amount_text = refl

found_payment : payment_at (text "o1-1") sold ≡ some payment
unfolding same
found_payment = refl

apply_gateway_status-unchanged_example :
    (apply_gateway_status 60 draw
      (text "o1-1")
      (text "1250.00")
      (text "expire")
      []
      at_report).1.stored
    ≡ sold
apply_gateway_status-unchanged_example =
    apply_gateway_status-unchanged 60 draw (text "o1-1") (text "1250.00") (text "expire") [] payment
      at_report found_payment (inl refl)

abbrev waiting_order : Order
waiting_order = record paid_order { status = OrderStatus.pending }

abbrev waiting_payment : Payment
waiting_payment = record payment { status = PaymentStatus.pending; paid_at = none }

abbrev concert : Event
concert = record {
  id = text "ev";
  artist = text "Artist";
  publication = Publication.published;
  lifecycle = Lifecycle.scheduled;
  change_version = 0;
  sales_paused = false;
  starts_at = some 9000;
}

-- A second order is paid, and has its payment.
abbrev waiting : Db
waiting = record empty_db {
  events = concert ∷ [];
  reservations =
      record {
        id = text "r1";
        event_id = text "ev";
        status = converted;
        idempotency_key = text "k";
        request_hash = text "h";
        expires_at = 100;
        order_reference = some (text "TO-1");
      }
      ∷ [];
  orders = waiting_order ∷ record paid_order { id = text "o2" } ∷ [];
  payments =
      waiting_payment
      ∷ record payment { id = text "p2"; order_id = text "o2"; gateway_order_id = none }
      ∷ [];
}

abbrev at_settlement : Session Db
at_settlement = record { stored = waiting; working = waiting; remaining = none }

waiting-Backed : Backed waiting
unfolding same
waiting-Backed = record {
  keys = ((refl, tt), (tt, tt));
  backed = λ id h. unfold paid_at in unfold success_at in ground arith;
}

settlement_paid :
    map
      (λ o. is_paid o.status)
      (apply_gateway_status 60 draw
        (text "o1-1")
        (text "1250.00")
        (text "settlement")
        []
        at_settlement).1.stored.orders
    ≡ true ∷ true ∷ []
unfolding apply_gateway_status apply_gateway_status_tx take_status take_success mark_paid
    issue_and_load_tickets load_tickets consume_voucher ordered issued set_payment update_payment
    new_status is_gateway_success is_gateway_failure format_amount digits for_order read to_state
    current_change payment_blocked can_sell same ◌>>=◌ begin commit query or_raise fail_if pure exec
    statement Option.bind
settlement_paid = refl

apply_gateway_status-Backed_example :
    Backed
      (apply_gateway_status 60 draw
        (text "o1-1")
        (text "1250.00")
        (text "settlement")
        []
        at_settlement).1.stored
apply_gateway_status-Backed_example =
    apply_gateway_status-Backed 60 draw (text "o1-1") (text "1250.00") (text "settlement") []
      at_settlement waiting-Backed

-- The first order has no payment yet.
abbrev unpaid_shop : Db
unpaid_shop = record waiting {
  payments = record payment { id = text "p2"; order_id = text "o2"; gateway_order_id = none } ∷ [];
}

unpaid_shop-Backed : Backed unpaid_shop
unfolding same
unpaid_shop-Backed = record {
  keys = (tt, tt);
  backed = λ id h. unfold paid_at in unfold success_at in ground arith;
}

abbrev at_payment : Session Db
at_payment = record { stored = unpaid_shop; working = unpaid_shop; remaining = none }

simulate-Backed_example :
    Backed
      (simulate 60 draw
        (text "p1")
        (text "o1")
        (text " qris")
        (text "succeeded")
        at_payment).1.stored
simulate-Backed_example =
    simulate-Backed 60 draw (text "p1") (text "o1") (text " qris") (text "succeeded") at_payment
      unpaid_shop-Backed

abbrev is_cancelled_or_expired : OrderStatus → Bool
is_cancelled_or_expired OrderStatus.cancelled = true
is_cancelled_or_expired OrderStatus.expired = true
is_cancelled_or_expired _ = false

late_order_expires :
    map
      (λ o. is_cancelled_or_expired o.status)
      (expire_order_locally 150 (text "o1") [] at_payment).1.stored.orders
    ≡ true ∷ false ∷ []
unfolding expire_order_locally expire_unpaid expire_locked_order return_items close_order
    sorted_items for_order read to_state current_change same ◌>>=◌ begin commit query or_raise pure
    exec statement Option.bind
late_order_expires = refl

-- Midtrans still has the payment open, cancels it, and confirms.
abbrev answers : Answers
answers = record {
  has_key = true;
  status =
      some (record { gross_amount = text "1250.00"; transaction = text "pending"; fraud = [] });
  cancels = true;
  status_after =
      some (record { gross_amount = text "1250.00"; transaction = text "cancel"; fraud = [] });
}

-- The order is paid at once or reconciled first; a report comes late, and a call is cut off.
abbrev calls : List (Option ℕ × Call)
calls =
    (some 4, simulated 60 draw (text "p1") (text "o1") (text " qris") (text "succeeded"))
    ∷ (none, reported 70 draw (text "o1-1") (text "1250.00") (text "settlement") [])
    ∷ (none, reconciled 150 draw answers (text "o1"))
    ∷ (none, expired 160 (text "o1") [])
    ∷ []

serve_all-Backed_example : Backed (serve_all calls waiting)
serve_all-Backed_example = serve_all-Backed calls waiting waiting-Backed
