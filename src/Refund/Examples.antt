-- ===== src/Refund/Examples.antt =====
-- Runs of refunds.
use mathlib.Core.Option
use ticket_online.Common.{map, ℕ, true, false, ◌≡◌, refl, none, some, Option, [], ◌∷◌}
use ticket_online.Common.Text.{Text, text, same, trim_space, trim_left, is_hex}
use ticket_online.Sql.{
  Result, Session, ◌>>=◌, begin, commit, query, query_stored, attempt, or_raise, fail_if, pure,
  exec, exec_checked, statement,
}
use ticket_online.EventState.{for_order, read, to_state, current_change}
use ticket_online.Schema.{
  Publication, Lifecycle, converted, admin, PaymentStatus, Method, OrderStatus, RefundStatus,
  OrderRefund, Db, empty_db,
}
use ticket_online.Refund.Provider.{ProviderStatus, Config, supports, within_refund_window}
use ticket_online.Refund.Finish.{finish, set_order_status, write_audit}
use ticket_online.Refund.Submit.{
  RefundResult, submit, check_admin, requester_of, submit_locked, submit_new, submit_manual,
  write_refund, prefetch,
}
use ticket_online.Refund.Queue.{Gateway, deliver_requested, reconcile}
use ticket_online.Refund.Manual.{ManualInput, complete_manual}
use ticket_online.Refund.Lifecycle.{Evolves}
use ticket_online.Refund.Passes.{pass_moves_on}
use ticket_online.Refund.Requests.{Asks}
use ticket_online.Refund.Submitting.{submit-Asks}
use ticket_online.Refund.Completing.{finish-ended}
use ticket_online.Refund.Confirming.{Completes, complete_manual-Completes}

abbrev refund : RefundStatus → Text → OrderRefund
refund status id = record {
  id = id;
  order_id = id;
  status = status;
  original_status = OrderStatus.paid;
  amount = 1250;
  reason = text "moved";
  requested_by = text "a1";
  refund_key = id;
  gateway_order_id = text "g1";
  transaction_id = text "t1";
  attempts = 0;
  last_error = [];
  next_attempt_at = 10;
  lease_until = none;
  claim_token = none;
  retry_deadline = some 1000;
  completed_at = none;
  manual_reference = [];
  manual_paid_at = none;
}

abbrev tables : Db
tables = record empty_db {
  order_refunds =
      refund RefundStatus.requested (text "o1") ∷ refund RefundStatus.succeeded (text "o2") ∷ [];
}

abbrev on_duty : Session Db
on_duty = record { stored = tables; working = empty_db; remaining = some 9 }

abbrev settled : ProviderStatus
settled = record {
  order_id = text "g1";
  transaction_id = text "t1";
  gross_amount = text "1250.00";
  transaction_status = text "settlement";
  payment_type = text "qris";
  settlement_time = text "10";
  refund_amount = [];
}

abbrev gateway : Gateway
gateway = record {
  status = λ g. some settled;
  status_after = λ g. some settled;
  send = λ i. none;
  message = λ e. text "error";
  fallback = text "HTTP";
}

abbrev same_text : Text → Text
same_text t = t

abbrev read_time : Text → Option ℕ
read_time t = some 10

abbrev config : Config
config = record { has_key = true; methods = λ m. true }

pass_moves_on_example :
    Evolves tables (deliver_requested gateway 100 same_text on_duty).1.stored
    × Evolves tables (reconcile gateway 100 same_text on_duty).1.stored
unfolding same
pass_moves_on_example = pass_moves_on gateway 100 same_text on_duty ((refl, tt), (tt, tt))

-- A paid order of a concert that is called off, with an administrator signed in.
abbrev order_id : Text
order_id = text "00112233445566778899aabbccddeeff"

abbrev token : Text
token = text "0123456789012345678901234567890123456789abc"

abbrev called_off : Db
called_off = record empty_db {
  events =
      record {
        id = text "e1";
        artist = text "X";
        publication = Publication.published;
        lifecycle = Lifecycle.cancelled;
        change_version = 1;
        sales_paused = true;
        starts_at = some 1000;
      }
      ∷ [];
  event_changes =
      record {
        id = text "c1";
        event_id = text "e1";
        version = 1;
        announcement = [];
        staff_id = text "a1";
        reason = text "storm";
        refund_deadline = none;
      }
      ∷ [];
  refund_rights = record { order_id = order_id; change_id = text "c1"; requested = true } ∷ [];
  reservations =
      record {
        id = text "r1";
        event_id = text "e1";
        status = converted;
        idempotency_key = text "k";
        request_hash = text "h";
        expires_at = 10;
        order_reference = some (text "TO-1");
      }
      ∷ [];
  orders =
      record {
        id = order_id;
        reference = text "TO-1";
        reservation_id = text "r1";
        status = OrderStatus.paid;
        subtotal = 1250;
        admin_fee = 0;
        discount = 0;
        total = 1250;
        request_hash = none;
        expires_at = 10;
        access_deadline = none;
      }
      ∷ [];
  payments =
      record {
        id = text "p1";
        order_id = order_id;
        method = Method.qris;
        amount = 1250;
        status = PaymentStatus.succeeded;
        started_at = some 5;
        paid_at = some 6;
        gateway_order_id = none;
        gateway_reference = none;
        redirect_url = none;
      }
      ∷ [];
  buyers =
      record {
        order_id = order_id;
        name = text "Ana";
        email = text "a@x.id";
        phone = [];
        identity = [];
      }
      ∷ [];
  staff_users =
      record {
        id = text "a1";
        name = text "Sam";
        email = text "s@x.id";
        password_hash = [];
        role = admin;
        is_active = true;
      }
      ∷ [];
  staff_sessions = record { token_hash = token; staff_id = text "a1"; expires_at = 500 } ∷ [];
}

abbrev submitted : Result RefundResult × Session Db
submitted =
    submit config same_text 100 (λ g. some settled) read_time (text "k") [] order_id [] true
      (record { stored = called_off; working = empty_db; remaining = none })

by_hand : map (λ r. r.status) submitted.1.stored.order_refunds ≡ RefundStatus.manual_required ∷ []
unfolding submit check_admin requester_of submit_locked submit_new submit_manual write_refund
    set_order_status write_audit for_order read to_state current_change is_hex same trim_space
    trim_left prefetch supports ◌>>=◌ begin commit query query_stored attempt or_raise fail_if pure
    exec exec_checked statement Option.bind
by_hand = refl

submit-Asks_example : Asks true order_id called_off submitted.0 submitted.1.stored
submit-Asks_example =
    submit-Asks config same_text 100 (λ g. some settled) read_time (text "k") [] order_id [] true
      (record { stored = called_off; working = empty_db; remaining = none })

-- The administrator transfers the money.
abbrev proof : ManualInput
proof = record { reference = text "BCA-1"; paid_at = text "10"; note = text "by transfer" }

abbrev transferred : Result RefundResult × Session Db
transferred =
    complete_manual same_text 200 read_time token order_id proof
      (record { stored = submitted.1.stored; working = empty_db; remaining = none })

complete_manual-Completes_example :
    Completes same_text 200 read_time token order_id proof submitted.1.stored transferred.0
      transferred.1.stored
complete_manual-Completes_example =
    complete_manual-Completes same_text 200 read_time token order_id proof
      (record { stored = submitted.1.stored; working = empty_db; remaining = none })

finish-ended_example : (finish 100 (text "o2") true [] on_duty).1.stored ≡ tables
unfolding same
finish-ended_example =
    finish-ended 100 (text "o2") [] true (refund RefundStatus.succeeded (text "o2")) on_duty refl
      refl

-- Seven days for QRIS, to the microsecond.
last_moment :
    (within_refund_window Method.qris 0 604800000000 ≡ true)
    × (within_refund_window Method.qris 0 604800000001 ≡ false)
    × (within_refund_window Method.virtual_account 0 0 ≡ false)
unfolding within_refund_window
last_moment = (refl, refl, refl)
