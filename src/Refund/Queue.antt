-- ===== src/Refund/Queue.antt =====
-- backend/internal/refund/refund.go: the worker that sends refunds and asks how they ended. `now` is
-- the clock of a pass and `tokens` what newID draws for each refund that it claims.
use ticket_online.Common.{
  ℕ, ◌+◌, ◌*◌, Bool, true, false, not, ◌&&◌, ◌||◌, Option, none, some, List, [], ◌∷◌, ◌++◌, length,
  take, map, select, update, ltb, leb, ◌==◌, if◌then◌else◌, min,
}
use ticket_online.Common.Text.{Text, text, same, less}
use ticket_online.Errors.{Error, provider, mismatch, claim_lost}
use ticket_online.Sql.{
  autocommit, Action, Result, ok, err, pure, raise, query, fail_if, begin, exec, commit, attempt,
  ◌>>=◌, ◌>>◌,
}
use ticket_online.Schema.{RefundStatus, OrderRefund, Db}
use ticket_online.Payment.Status.{format_amount}
use ticket_online.Refund.Provider.{
  ProviderStatus, QueuedRefund, RefundResponse, SendResult, accepted, rejected, uncertain, minute,
  matches_status, is_settled, nothing_refunded, read_response, clip,
}
use ticket_online.Refund.Finish.{set_refund, finish}

abbrev is_due : ℕ → OrderRefund → Bool
is_due now r = leb r.next_attempt_at now

abbrev lease_over : ℕ → OrderRefund → Bool
lease_over now r = elim r.lease_until [ none ↦ true | some until ↦ leb until now ]

abbrev pub is_unknown : RefundStatus → Bool
is_unknown RefundStatus.unknown = true
is_unknown _ = false

abbrev pub is_processing : RefundStatus → Bool
is_processing RefundStatus.processing = true
is_processing _ = false

abbrev pub is_requested : RefundStatus → Bool
is_requested RefundStatus.requested = true
is_requested _ = false

-- The two queues: refunds to send, and refunds whose end is unknown.
pub data QueueKind : Type 0 where
  to_send to_check : QueueKind

abbrev pub waits : QueueKind → ℕ → OrderRefund → Bool
waits to_check now r = is_unknown r.status && is_due now r && lease_over now r
waits to_send now r =
    (is_requested r.status && is_due now r) || (is_processing r.status && lease_over now r)

abbrev batch : QueueKind → ℕ
batch to_check = 50
batch to_send = 10

-- ORDER BY next_attempt_at, id.
abbrev pub goes_first : OrderRefund → OrderRefund → Bool
goes_first q r =
    ltb q.next_attempt_at r.next_attempt_at
    || (q.next_attempt_at == r.next_attempt_at && less q.id r.id)

abbrev pub insert_due : OrderRefund → List OrderRefund → List OrderRefund
insert_due r [] = r ∷ []
insert_due r (q ∷ qs) =
    let rest = insert_due r qs in if goes_first q r then q ∷ rest else r ∷ q ∷ qs

abbrev pub order_due : List OrderRefund → List OrderRefund
order_due [] = []
order_due (r ∷ rs) = insert_due r (order_due rs)

unfoldable pub due : QueueKind → ℕ → Db → List OrderRefund
due kind now d = take (batch kind) (order_due (select (waits kind now) d.order_refunds))

abbrev pub to_item : (Text → Text) → OrderRefund → QueuedRefund
to_item tokens r = record {
  order_id = r.order_id;
  gateway_id = r.gateway_order_id;
  transaction_id = r.transaction_id;
  refund_key = r.refund_key;
  status = r.status;
  claim_token = tokens r.id;
  amount = r.amount;
  retry_deadline = r.retry_deadline;
}

-- A refund that is being checked stays UNKNOWN, any other is PROCESSING.
abbrev pub claimed : ℕ → QueuedRefund → OrderRefund → OrderRefund
claimed now item r =
    if is_unknown item.status
    then record r {
      claim_token = some item.claim_token;
      lease_until = some (now + 3 * minute);
      next_attempt_at = now + minute;
    }
    else record r {
      status = RefundStatus.processing;
      claim_token = some item.claim_token;
      lease_until = some (now + 3 * minute);
      next_attempt_at = now + 3 * minute;
    }

unfoldable pub claim_loop : ℕ → List QueuedRefund → Action Db (Unit {0})
claim_loop now [] = pure tt
claim_loop now (i ∷ is) = exec (set_refund i.order_id (claimed now i)) >> claim_loop now is

unfoldable pub claim_refunds : QueueKind → ℕ → (Text → Text) → Action Db (List QueuedRefund)
unfolding due claim_loop
claim_refunds kind now tokens = do
  begin
  rows ← query (due kind now)
  let items = map (to_item tokens) rows
  claim_loop now items
  commit
  pure items

abbrev pub same_token : Option Text → Text → Bool
same_token none t = false
same_token (some c) t = same c t

abbrev pub holds_claim : QueuedRefund → OrderRefund → Bool
holds_claim item r =
    same r.order_id item.order_id
    && same_token r.claim_token item.claim_token
    && (is_processing r.status || is_unknown r.status)

abbrev pub released : ℕ → Text → Bool → OrderRefund → OrderRefund
released now message attempted r = record r {
  status = RefundStatus.unknown;
  claim_token = none;
  lease_until = none;
  next_attempt_at = now + 30000000;
  attempts = min 255 (r.attempts + (if attempted then 1 else 0));
  last_error = clip message;
}

-- One statement outside a transaction, whose count of rows the caller looks at.
unfoldable pub release_claim : ℕ → QueuedRefund → Text → Bool → Action Db (Unit {0})
unfolding clip
release_claim now item message attempted = do
  held ← autocommit (λ d. (
    length (select (holds_claim item) d.order_refunds),
    record d {
      order_refunds = update (holds_claim item) (released now message attempted) d.order_refunds;
    },
  ))
  fail_if (not (held == 1)) claim_lost

abbrev pub is_refunded : QueuedRefund → ProviderStatus → Bool
is_refunded item s =
    same s.transaction_status (text "refund") && same s.refund_amount (format_amount item.amount)

abbrev pub is_refund_failed : ProviderStatus → Bool
is_refund_failed s = same s.transaction_status (text "refund_failed") && nothing_refunded s

abbrev pub late_message : Text
late_message = text "Batas retry refund tujuh hari terlewati; perlu pemeriksaan admin."

abbrev pub open_message : Text
open_message = text "Refund provider masih diproses; perlu diperiksa ulang."

abbrev pub failed_message : Text
failed_message = text "Midtrans mengonfirmasi refund gagal"

unfoldable pub finish_from_provider : ℕ → QueuedRefund → ProviderStatus → Action Db Bool
unfolding finish
finish_from_provider now item s =
    if is_refunded item s
    then finish now item.order_id true [] >> pure true
    else if is_refund_failed s
    then finish now item.order_id false failed_message >> pure true
    else pure false

-- What Midtrans answers in a pass: a status before and after sending, and the answer to sending.
-- `message` is the text of an error, which is only stored.
pub record Gateway : Type 0 where
  pub status : Text → Option ProviderStatus
  pub status_after : Text → Option ProviderStatus
  pub send : QueuedRefund → Option RefundResponse
  pub message : Error → Text
  pub fallback : Text

-- A status that was read and belongs to the refund.
unfoldable pub checked_status : Option ProviderStatus → QueuedRefund → Result ProviderStatus
unfolding matches_status
checked_status none item = err provider
checked_status (some s) item = if matches_status s item then ok s else err mismatch

abbrev sent_result : Gateway → QueuedRefund → Option RefundResponse → SendResult
sent_result g item none = uncertain (g.message provider)
sent_result g item (some r) = read_response g.fallback item r

abbrev pub unchecked_message : Gateway → Text → Error → Text
unchecked_message g message e = message ++ text "; status check: " ++ g.message e

-- A rejection counts when the payment is still settled and nothing has been given back.
unfoldable pub take_rejection :
    Gateway → ℕ → QueuedRefund → Text → Result ProviderStatus → Action Db (Unit {0})
unfolding finish release_claim
take_rejection g now item message (err e) =
    release_claim now item (unchecked_message g message e) true
take_rejection g now item message (ok s) =
    if is_settled s
    then finish now item.order_id false message
    else release_claim now item message true

unfoldable pub take_result : Gateway → ℕ → QueuedRefund → SendResult → Action Db (Unit {0})
unfolding take_rejection checked_status release_claim
take_result g now item (uncertain message) = release_claim now item message true
take_result g now item (accepted message) = release_claim now item message true
take_result g now item (rejected message) =
    take_rejection g now item message (checked_status (g.status_after item.gateway_id) item)

abbrev pub too_late : ℕ → Option ℕ → Bool
too_late now none = true
too_late now (some deadline) = leb deadline now

unfoldable pub send_item : Gateway → ℕ → QueuedRefund → Action Db (Unit {0})
unfolding take_result release_claim
send_item g now item =
    if too_late now item.retry_deadline
    then release_claim now item late_message false
    else take_result g now item (sent_result g item (g.send item))

unfoldable pub resume_item :
    Gateway → ℕ → QueuedRefund → Result ProviderStatus → Action Db (Unit {0})
unfolding finish_from_provider send_item release_claim
resume_item g now item (err e) = release_claim now item (g.message e) false
resume_item g now item (ok s) = finish_from_provider now item s >>= λ finished.
    if finished
    then pure tt
    else if is_settled s
    then send_item g now item
    else release_claim now item open_message false

unfoldable pub deliver_item : Gateway → ℕ → QueuedRefund → Action Db (Unit {0})
unfolding resume_item send_item checked_status
deliver_item g now item =
    if is_processing item.status
    then resume_item g now item (checked_status (g.status item.gateway_id) item)
    else send_item g now item

abbrev also : Result (Unit {0}) → List Error → List Error
also (ok _) es = es
also (err e) es = es ++ e ∷ []

-- Each refund is worked on, whatever became of the ones before: the errors are joined.
unfoldable pub each_item :
    (QueuedRefund → Action Db (Unit {0})) → List QueuedRefund → List Error → Action Db (List Error)
each_item work [] es = pure es
each_item work (i ∷ is) es = attempt (work i) >>= λ r. each_item work is (also r es)

unfoldable pub deliver_requested : Gateway → ℕ → (Text → Text) → Action Db (List Error)
unfolding claim_refunds each_item deliver_item
deliver_requested g now tokens = do
  items ← claim_refunds to_send now tokens
  each_item (deliver_item g now) items []

unfoldable pub settle_checked :
    Gateway → ℕ → QueuedRefund → Result ProviderStatus → Action Db (Unit {0})
unfolding finish_from_provider release_claim
settle_checked g now item (err e) = release_claim now item (g.message e) false >> raise e
settle_checked g now item (ok s) = finish_from_provider now item s >>= λ finished.
    if finished then pure tt else release_claim now item [] false

unfoldable pub reconcile_item : Gateway → ℕ → QueuedRefund → Action Db (Unit {0})
unfolding settle_checked checked_status
reconcile_item g now item =
    settle_checked g now item (checked_status (g.status item.gateway_id) item)

unfoldable pub reconcile : Gateway → ℕ → (Text → Text) → Action Db (List Error)
unfolding claim_refunds each_item reconcile_item
reconcile g now tokens = do
  items ← claim_refunds to_check now tokens
  each_item (reconcile_item g now) items []
