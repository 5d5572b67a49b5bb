-- ===== src/Refund/Provider.antt =====
-- backend/internal/refund/refund.go: what Midtrans says of a payment or a refund, and how it is read.
-- The HTTP calls and the decoding of their JSON are parameters of the callers.
use ticket_online.Common.{
  ℕ, ◌+◌, ◌-◌, ◌*◌, Bool, not, ◌&&◌, ◌||◌, Option, [], ◌∷◌, ◌++◌, length, take, ltb, leb,
  if◌then◌else◌,
}
use ticket_online.Common.Text.{Text, text, same, to_lower, has_prefix}
use ticket_online.Schema.{Method, RefundStatus}
use ticket_online.Payment.Status.{format_amount}

pub record ProviderStatus : Type 0 where
  pub order_id : Text
  pub transaction_id : Text
  pub gross_amount : Text
  pub transaction_status : Text
  pub payment_type : Text
  pub settlement_time : Text
  pub refund_amount : Text

-- The configuration of the service: whether it has a key, and the methods that may be refunded.
pub record Config : Type 0 where
  pub has_key : Bool
  pub methods : Method → Bool

abbrev pub minute : ℕ
minute = 60000000

abbrev pub day : ℕ
day = 86400000000

unfoldable pub refund_window : Method → ℕ
refund_window Method.qris = 7 * day
refund_window Method.gopay = 45 * day
refund_window Method.virtual_account = 0

-- A payment of the next minute counts as made now.
unfoldable pub within_refund_window : Method → ℕ → ℕ → Bool
unfolding refund_window
within_refund_window method paid_at now =
    ltb 0 (refund_window method)
    && not (ltb (now + minute) paid_at)
    && leb (now - paid_at) (refund_window method)

unfoldable pub supports : Config → Method → ℕ → ℕ → Bool
unfolding within_refund_window
supports config method paid_at now =
    config.has_key && config.methods method && within_refund_window method paid_at now

-- strings.ToLower(method)
abbrev pub payment_type : Method → Text
payment_type Method.qris = text "qris"
payment_type Method.gopay = text "gopay"
payment_type Method.virtual_account = text "virtual_account"

-- A refund in the queue, with the token of the worker that claimed it.
pub record QueuedRefund : Type 0 where
  pub order_id : Text
  pub gateway_id : Text
  pub transaction_id : Text
  pub refund_key : Text
  pub status : RefundStatus
  pub claim_token : Text
  pub amount : ℕ
  pub retry_deadline : Option ℕ

unfoldable pub matches_status : ProviderStatus → QueuedRefund → Bool
matches_status value item =
    same value.order_id item.gateway_id
    && same value.transaction_id item.transaction_id
    && same value.gross_amount (format_amount item.amount)

-- `RefundAmount == "" || RefundAmount == "0.00"`
abbrev pub nothing_refunded : ProviderStatus → Bool
nothing_refunded p = same p.refund_amount [] || same p.refund_amount (text "0.00")

abbrev pub is_settled : ProviderStatus → Bool
is_settled p = same p.transaction_status (text "settlement") && nothing_refunded p

-- The decoded answer to a refund request.
pub record RefundResponse : Type 0 where
  pub http_status : ℕ
  pub status_code : Text
  pub status_message : Text
  pub order_id : Text
  pub transaction_id : Text
  pub refund_key : Text
  pub refund_amount : Text

pub data SendResult : Type 0 where
  accepted : Text → SendResult
  rejected : Text → SendResult
  uncertain : Text → SendResult

unfoldable pub contains : Text → Text → Bool
contains [] needle = has_prefix [] needle
contains (c ∷ s) needle = has_prefix (c ∷ s) needle || contains s needle

unfoldable pub definite_refund_rejection : Text → Text → Bool
unfolding contains
definite_refund_rejection code message =
    (same code (text "406") || same code (text "412") || same code (text "414"))
    && not (contains (to_lower message) (text "duplicate"))
    && not (contains (to_lower message) (text "already used"))
    && not (contains (to_lower message) (text "already exists"))

unfoldable pub clip : Text → Text
clip v = if ltb 512 (length v) then take 512 v else v

-- `fallback` is the message for an answer that has none.
abbrev message_of : Text → RefundResponse → Text
message_of fallback r = if same r.status_message [] then fallback else r.status_message

unfoldable pub read_response : Text → QueuedRefund → RefundResponse → SendResult
unfolding definite_refund_rejection clip
read_response fallback item r =
    if ltb r.http_status 200 || leb 300 r.http_status || not (same r.status_code (text "200"))
    then (if definite_refund_rejection r.status_code (message_of fallback r)
        then rejected (clip (message_of fallback r))
        else uncertain
            (text "Midtrans refund result is uncertain: " ++ clip (message_of fallback r)))
    else if same r.order_id item.gateway_id
        && same r.transaction_id item.transaction_id
        && same r.refund_key item.refund_key
        && same r.refund_amount (format_amount item.amount)
    then accepted (clip r.status_message)
    else uncertain (text "Midtrans refund response identity or amount did not match the request")
