-- ===== src/Payment/Status.antt =====
-- Statuses, and the words that Midtrans has for them (midtrans_status.go).
use ticket_online.Common.{
  ℕ, zero, suc, ◌+◌, ◌/◌, ◌%◌, Bool, true, false, ◌&&◌, ◌||◌, Option, none, some, [], ◌∷◌, ltb,
  if◌then◌else◌,
}
use ticket_online.Common.Text.{Text, text, same}
use ticket_online.Schema.{OrderStatus, PaymentStatus}

abbrev pub is_pending : OrderStatus → Bool
is_pending OrderStatus.pending = true
is_pending _ = false

abbrev pub is_paid : OrderStatus → Bool
is_paid OrderStatus.paid = true
is_paid _ = false

abbrev pub is_waiting : PaymentStatus → Bool
is_waiting PaymentStatus.pending = true
is_waiting _ = false

abbrev pub is_failed : PaymentStatus → Bool
is_failed PaymentStatus.failed = true
is_failed _ = false

abbrev pub is_succeeded : PaymentStatus → Bool
is_succeeded PaymentStatus.succeeded = true
is_succeeded _ = false

-- COALESCE(…, '')
abbrev pub or_empty : Option Text → Text
or_empty none = []
or_empty (some t) = t

abbrev pub or_now : Option ℕ → ℕ → Option ℕ
or_now none now = some now
or_now (some at) now = some at

unfoldable pub is_gateway_success : Text → Text → Bool
is_gateway_success status fraud =
    same status (text "settlement")
    || (same status (text "capture") && (same fraud [] || same fraud (text "accept")))

unfoldable pub is_gateway_failure : Text → Bool
is_gateway_failure status =
    same status (text "deny") || same status (text "cancel") || same status (text "expire")

unfoldable pub new_status : Text → Text → PaymentStatus
unfolding is_gateway_success is_gateway_failure
new_status status fraud =
    if is_gateway_success status fraud
    then PaymentStatus.succeeded
    else if is_gateway_failure status
    then PaymentStatus.failed
    else PaymentStatus.pending

-- The decimal digits of a number, in front of `rest`; the number itself is fuel enough.
unfoldable pub digits : ℕ → ℕ → Text → Text
digits zero n rest = (48 + n % 10) ∷ rest
digits (suc fuel) n rest =
    let more = digits fuel (n / 10) ((48 + n % 10) ∷ rest) in
    if ltb n 10 then (48 + n) ∷ rest else more

-- fmt.Sprintf("%d.00", amount)
unfoldable pub format_amount : ℕ → Text
unfolding digits
format_amount n = digits n n (text ".00")

unfoldable pub payment_amount_matches : ℕ → Text → Bool
unfolding format_amount
payment_amount_matches amount gross = same gross (format_amount amount)
