-- ===== src/Refund/Finish.antt =====
-- backend/internal/refund/refund.go, finish and finishTx: the end of a refund. `now` is the clock.
use mathlib.Core.Option
use ticket_online.Common.{
  ℕ, ◌+◌, ◌*◌, Bool, true, false, ◌&&◌, Option, none, some, List, [], ◌∷◌, ◌++◌, select?, update,
  any, ltb, ◌==◌, if◌then◌else◌, min,
}
use ticket_online.Common.Text.{Text, text, same}
use ticket_online.Errors.{no_rows}
use ticket_online.Sql.{Action, pure, query, or_raise, exec, begin, commit, ◌>>=◌, ◌>>◌}
use ticket_online.Schema.{
  OrderStatus, OrderItem, RefundStatus, OrderRefund, AuditAction, RefundAudit, RefundEmail, Db,
}
use ticket_online.EventState.{for_order}
use ticket_online.Payment.Status.{is_paid}
use ticket_online.Payment.Expiry.{order_row}
use ticket_online.Payment.Tickets.{sorted_items}
use ticket_online.Refund.Provider.{clip, day}

abbrev pub refund_row : Text → Db → Option OrderRefund
refund_row id d = select? (λ r. same r.order_id id) d.order_refunds

abbrev pub set_refund : Text → (OrderRefund → OrderRefund) → Db → Db
set_refund id f d = record d { order_refunds = update (λ r. same r.order_id id) f d.order_refunds }

unfoldable pub set_order_status : Text → OrderStatus → Db → Db
set_order_status id status d = record d {
  orders = update (λ o. same o.id id) (λ o. record o { status = status }) d.orders;
}

abbrev pub is_final : RefundStatus → Bool
is_final RefundStatus.succeeded = true
is_final RefundStatus.failed = true
is_final _ = false

-- UPDATE ticket_tiers SET available_quantity = LEAST(capacity, available_quantity + ?)
unfoldable pub give_back : OrderItem → Db → Db
give_back i d = record d {
  tiers =
      update (λ t. t.id == i.tier_id)
        (λ t. record t { available = min t.capacity (t.available + i.quantity) }) d.tiers;
}

unfoldable pub give_back_all : List OrderItem → Action Db (Unit {0})
unfolding give_back
give_back_all [] = pure tt
give_back_all (i ∷ is) = exec (give_back i) >> give_back_all is

-- An order that was paid kept its stock until now.
unfoldable pub return_seats : Text → OrderStatus → Action Db (Unit {0})
unfolding give_back_all
return_seats id original =
    if is_paid original then query (sorted_items id) >>= give_back_all else pure tt

abbrev pub succeed : ℕ → OrderRefund → OrderRefund
succeed now r = record r {
  status = RefundStatus.succeeded;
  completed_at = some now;
  last_error = [];
}

abbrev pub fail : ℕ → Text → OrderRefund → OrderRefund
fail now message r = record r {
  status = RefundStatus.failed;
  last_error = message;
  completed_at = some now;
}

unfoldable pub resolve_cases : Text → Db → Db
resolve_cases id d = record d {
  payment_cases =
      update (λ c. same c.order_id id && c.is_open) (λ c. record c { is_open = false })
        d.payment_cases;
}

abbrev later_of : ℕ → ℕ → ℕ
later_of a b = if ltb a b then b else a

abbrev extended : ℕ → Option ℕ → ℕ
extended now none = now + 90 * day
extended now (some at) = later_of at (now + 90 * day)

-- A buyer with a right to a refund may read the order for 90 days more.
unfoldable pub extend_access : ℕ → Text → Db → Db
extend_access now id d =
    if any (λ r. same r.order_id id) d.refund_rights
    then record d {
      orders =
          update (λ o. same o.id id)
            (λ o. record o { access_deadline = some (extended now o.access_deadline) }) d.orders;
    }
    else d

unfoldable pub end_refund : ℕ → Text → OrderStatus → Bool → Text → Action Db (Unit {0})
unfolding return_seats set_order_status resolve_cases extend_access clip
end_refund now id original true message =
    return_seats id original
    >> (exec (set_refund id (succeed now))
        >> (exec (set_order_status id OrderStatus.refunded)
            >> (exec (resolve_cases id) >> exec (extend_access now id))))
end_refund now id original false message =
    exec (set_refund id (fail now (clip message))) >> exec (set_order_status id original)

abbrev pub final_status : Bool → RefundStatus
final_status true = RefundStatus.succeeded
final_status false = RefundStatus.failed

abbrev final_action : Bool → AuditAction
final_action true = AuditAction.succeeded
final_action false = AuditAction.failed

abbrev final_word : Bool → Text
final_word true = text "SUCCEEDED"
final_word false = text "FAILED"

-- INSERT IGNORE: a second e-mail with the same key is dropped.
unfoldable pub queue_email : RefundEmail → Db → Db
queue_email m d =
    if any (λ n. same n.dedupe_key m.dedupe_key) d.refund_emails
    then d
    else record d { refund_emails = d.refund_emails ++ m ∷ [] }

abbrev audit_of : Text → AuditAction → Text → Option OrderRefund → List RefundAudit
audit_of staff_id action reason none = []
audit_of staff_id action reason (some r) =
    record { refund_id = r.id; staff_id = staff_id; action = action; reason = reason } ∷ []

-- INSERT INTO order_refund_audit … SELECT … FROM order_refunds WHERE order_id = ?
unfoldable pub write_audit : Text → Text → AuditAction → Text → Db → Db
write_audit id staff_id action reason d = record d {
  refund_audit = d.refund_audit ++ audit_of staff_id action reason (refund_row id d);
}

-- orders JOIN order_buyers: the reference and the address.
abbrev recipient_of : Text → Db → Option (Text × Text)
recipient_of id d =
    Option.bind (order_row id d)
      λ o. Option.map (λ b. (o.reference, b.email)) (select? (λ b. same b.order_id id) d.buyers)

unfoldable pub notify : Text → OrderRefund → Bool → Action Db (Unit {0})
unfolding queue_email write_audit
notify id r success = do
  found ← query (recipient_of id)
  who ← or_raise found no_rows
  exec (
      queue_email (record {
        dedupe_key = text "refund:" ++ id ++ text ":" ++ final_word success;
        order_id = id;
        recipient = who.1;
        status = final_status success;
        amount = r.amount;
        reason = r.reason;
        reference = who.0;
      }))
  exec (write_audit id r.requested_by (final_action success) r.reason)

unfoldable pub finish_tx : ℕ → Text → Bool → Text → Action Db (Unit {0})
unfolding end_refund notify
finish_tx now id success message = do
  found ← query (refund_row id)
  r ← or_raise found no_rows
  if is_final r.status
      then pure tt
      else (end_refund now id r.original_status success message >> notify id r success)

unfoldable pub finish : ℕ → Text → Bool → Text → Action Db (Unit {0})
unfolding finish_tx
finish now id success message = do
  begin
  for_order id
  locked ← query (order_row id)
  or_raise locked no_rows
  finish_tx now id success message
  commit
