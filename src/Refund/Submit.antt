-- ===== src/Refund/Submit.antt =====
-- backend/internal/refund/refund.go, submit: a refund is asked for by an administrator, or by the
-- right that an event change gives. `hash` is SHA-256 of a token, `now` the clock, `key` what newID
-- returns, `ask` what Midtrans answers for a gateway order, and `parse` reads a settlement time.
use mathlib.Core.Option
use ticket_online.Common.{
  ℕ, ◌+◌, ◌*◌, Bool, true, false, not, ◌&&◌, ◌||◌, Option, none, some, [], ◌∷◌, ◌++◌, length,
  select?, any, ltb, ◌==◌, if◌then◌else◌,
}
use ticket_online.Common.Text.{Text, text, same, trim_space, is_hex}
use ticket_online.Errors.{driver, provider, forbidden, refund_invalid, refund_unavailable}
use ticket_online.Sql.{
  Action, Result, ok, pure, raise, query, query_stored, or_raise, fail_if, begin, exec,
  exec_checked, commit, attempt, ◌>>=◌, ◌>>◌,
}
use ticket_online.Schema.{
  OrderStatus, Order, Payment, EventChange, RefundStatus, OrderRefund, AuditAction, Db,
}
use ticket_online.EventState.{for_order}
use ticket_online.Payment.Status.{is_paid, is_succeeded, or_empty, format_amount}
use ticket_online.Payment.Expiry.{order_row, payment_row}
use ticket_online.StaffAuth.{is_admin, authenticate, authenticate_tx}
use ticket_online.Refund.Provider.{
  ProviderStatus, Config, supports, within_refund_window, payment_type, minute, day,
}
use ticket_online.Refund.Finish.{refund_row, set_refund, set_order_status, write_audit}

pub record RefundResult : Type 0 where
  pub status : RefundStatus
  pub amount : ℕ
  pub reason : Text

-- Who asks, and why.
pub record Requester : Type 0 where
  pub id : Text
  pub reason : Text

-- The status read before the transaction: none was, one was, or the call failed.
pub data Prefetch : Type 0 where
  unread : Prefetch
  got : ProviderStatus → Prefetch
  failed_read : Prefetch

abbrev answered : Option ProviderStatus → Prefetch
answered none = failed_read
answered (some s) = got s

abbrev prefetch_paid : Config → ℕ → (Text → Option ProviderStatus) → Payment → Option ℕ → Prefetch
prefetch_paid config now ask p none = unread
prefetch_paid config now ask p (some at) =
    if not (same (or_empty p.gateway_order_id) []) && supports config p.method at now
    then answered (ask (or_empty p.gateway_order_id))
    else unread

unfoldable pub prefetch :
    Config → ℕ → (Text → Option ProviderStatus) → Result (Option Payment) → Prefetch
prefetch config now ask (ok (some p)) = prefetch_paid config now ask p p.paid_at
prefetch config now ask _ = unread

unfoldable pub check_admin : (Text → Text) → ℕ → Text → Bool → Action Db (Unit {0})
check_admin hash now token true = pure tt
check_admin hash now token false = do
  p ← authenticate hash now token
  fail_if (not (is_admin p.role)) forbidden

-- event_refund_rights JOIN event_changes, for a right that is requested.
abbrev pub change_of : Text → Db → Option EventChange
change_of id d =
    Option.bind (select? (λ r. same r.order_id id && r.requested) d.refund_rights)
      λ r. select? (λ c. same c.id r.change_id) d.event_changes

unfoldable pub requester_of : (Text → Text) → ℕ → Text → Text → Text → Bool → Action Db Requester
requester_of hash now token id reason true = do
  found ← query (change_of id)
  c ← or_raise found refund_unavailable
  pure (record { id = c.staff_id; reason = c.reason })
requester_of hash now token id reason false = do
  p ← authenticate_tx hash now token
  fail_if (not (is_admin p.role)) forbidden
  pure (record { id = p.id; reason = reason })

abbrev pub is_failed : RefundStatus → Bool
is_failed RefundStatus.failed = true
is_failed _ = false

abbrev pub reopened : OrderRefund → OrderRefund
reopened r =
    if is_failed r.status
    then record r { status = RefundStatus.manual_required; completed_at = none }
    else r

abbrev to_result : OrderRefund → RefundResult
to_result r = record { status = r.status; amount = r.amount; reason = r.reason }

-- The order has a refund: one that failed is reopened by an event change.
unfoldable pub submit_again : Text → Requester → Bool → OrderRefund → Action Db RefundResult
submit_again id who is_event r =
    if is_event && is_failed r.status
    then exec (set_refund id reopened)
      >> (exec (set_order_status id OrderStatus.refund_pending)
          >> (exec (write_audit id who.id AuditAction.manual_required who.reason)
              >> (commit
                  >> pure (record {
                    status = RefundStatus.manual_required;
                    amount = r.amount;
                    reason = r.reason;
                  }))))
    else commit >> pure (to_result r)

-- The keys of order_refunds, and its CHECK.
unfoldable pub write_refund : OrderRefund → Db → Option Db
write_refund r d =
    if r.amount == 0
      || any (λ q. same q.id r.id || same q.order_id r.order_id || same q.refund_key r.refund_key)
          d.order_refunds
    then none
    else some (record d { order_refunds = d.order_refunds ++ r ∷ [] })

abbrev pub new_refund :
    ℕ → Text → RefundStatus → Requester → Order → Payment → Text → Option ℕ → OrderRefund
new_refund now key status who o p transaction deadline = record {
  id = key;
  order_id = o.id;
  status = status;
  original_status = o.status;
  amount = p.amount;
  reason = who.reason;
  requested_by = who.id;
  refund_key = key;
  gateway_order_id = or_empty p.gateway_order_id;
  transaction_id = transaction;
  attempts = 0;
  last_error = [];
  next_attempt_at = now;
  lease_until = none;
  claim_token = none;
  retry_deadline = deadline;
  completed_at = none;
  manual_reference = [];
  manual_paid_at = none;
}

unfoldable pub submit_manual : ℕ → Text → Requester → Order → Payment → Action Db RefundResult
unfolding write_refund
submit_manual now key who o p = do
  exec_checked driver
      (write_refund (new_refund now key RefundStatus.manual_required who o p [] none))
  exec (set_order_status o.id OrderStatus.refund_pending)
  exec (write_audit o.id who.id AuditAction.manual_required who.reason)
  commit
  pure (record { status = RefundStatus.manual_required; amount = p.amount; reason = who.reason })

-- Whether a ticket of the order has been used.
abbrev pub has_checkin : Text → Db → Bool
has_checkin id d =
    any (λ t. same t.order_id id && any (λ c. same c.ticket_id t.id) d.ticket_checkins) d.etickets

unfoldable pub submit_automatic :
    ℕ → Text → Text → Requester → Bool → Order → Payment → Action Db RefundResult
unfolding write_refund
submit_automatic now key transaction who is_event o p = do
  used ← if is_event then pure false else query (has_checkin o.id)
  fail_if used refund_unavailable
  exec_checked driver (
      write_refund
        (new_refund now key RefundStatus.requested who o p transaction (some (now + 7 * day))))
  exec (write_audit o.id who.id AuditAction.requested who.reason)
  exec (set_order_status o.id OrderStatus.refund_pending)
  commit
  pure (record { status = RefundStatus.requested; amount = p.amount; reason = who.reason })

abbrev pub is_same_settlement : ProviderStatus → Payment → Bool
is_same_settlement s p =
    same s.order_id (or_empty p.gateway_order_id)
    && not (same s.transaction_id [])
    && same s.gross_amount (format_amount p.amount)
    && same s.transaction_status (text "settlement")
    && same s.payment_type (payment_type p.method)

-- Whether Midtrans can refund the payment, with its transaction there.
unfoldable pub settlement : ℕ → (Text → Option ℕ) → Payment → Prefetch → Action Db (Bool × Text)
settlement now parse p failed_read = raise provider
settlement now parse p unread = raise refund_unavailable
settlement now parse p (got s) = do
  fail_if (not (is_same_settlement s p)) refund_unavailable
  settled ← or_raise (parse s.settlement_time) refund_unavailable
  fail_if (ltb (now + minute) settled) refund_unavailable
  pure (within_refund_window p.method settled now, s.transaction_id)

abbrev pub can_automate : Config → ℕ → Payment → Option ℕ → Bool
can_automate config now p none = false
can_automate config now p (some at) =
    supports config p.method at now && not (same (or_empty p.gateway_order_id) [])

abbrev pub has_time : Option ℕ → Bool
has_time none = false
has_time (some at) = true

abbrev pub is_refundable : OrderStatus → Bool
is_refundable OrderStatus.paid = true
is_refundable OrderStatus.cancelled = true
is_refundable OrderStatus.expired = true
is_refundable _ = false

abbrev pub has_open_case : Text → Db → Bool
has_open_case id d = any (λ c. same c.order_id id && c.is_open) d.payment_cases

unfoldable pub submit_new :
    Config
    → ℕ
    → (Text → Option ℕ)
    → Text
    → Requester
    → Bool
    → Prefetch
    → Order
    → Payment
    → Action Db RefundResult
unfolding settlement submit_manual submit_automatic
submit_new config now parse key who is_event verified o p = do
  fail_if (not (is_refundable o.status)) refund_unavailable
  reconciled ← if is_paid o.status then pure true else query (has_open_case o.id)
  fail_if (not reconciled) refund_unavailable
  fail_if
      (not (is_succeeded p.status)
        || not (has_time p.paid_at)
        || p.amount == 0
        || not (p.amount == o.total))
      refund_unavailable
  automatic ←
      if can_automate config now p p.paid_at
      then settlement now parse p verified
      else pure (false, [])
  if is_event && not automatic.0
      then submit_manual now key who o p
      else (fail_if (not automatic.0) refund_unavailable
          >> submit_automatic now key automatic.1 who is_event o p)

unfoldable pub submit_locked :
    Config
    → ℕ
    → (Text → Option ℕ)
    → Text
    → Requester
    → Bool
    → Prefetch
    → Order
    → Payment
    → Option OrderRefund
    → Action Db RefundResult
unfolding submit_again submit_new
submit_locked config now parse key who is_event verified o p (some r) =
    submit_again o.id who is_event r
submit_locked config now parse key who is_event verified o p none =
    submit_new config now parse key who is_event verified o p

-- orders JOIN payments.
abbrev pub paid_order : Text → Db → Option (Order × Payment)
paid_order id d = Option.bind (order_row id d) λ o. Option.map (λ p. (o, p)) (payment_row id d)

unfoldable pub submit :
    Config
    → (Text → Text)
    → ℕ
    → (Text → Option ProviderStatus)
    → (Text → Option ℕ)
    → Text
    → Text
    → Text
    → Text
    → Bool
    → Action Db RefundResult
unfolding check_admin requester_of submit_locked
submit config hash now ask parse key token id raw_reason is_event = do
  let reason = trim_space raw_reason
  fail_if
      (not (length id == 32)
        || not (is_hex id)
        || (not is_event && (ltb (length reason) 3 || ltb 500 (length reason))))
      refund_invalid
  check_admin hash now token is_event
  before ← attempt (query_stored (payment_row id))
  begin
  who ← requester_of hash now token id reason is_event
  for_order id
  found ← query (paid_order id)
  row ← or_raise found refund_unavailable
  existing ← query (refund_row id)
  submit_locked config now parse key who is_event (prefetch config now ask before) row.0 row.1
      existing
