-- ===== src/Pricing.antt =====
-- backend/internal/pricing/pricing.go: vouchers, discounts and the price of an order. `TimeFormat`
-- stands for RFC 3339 parsing; times that a voucher's row keeps are read as they are stored, since
-- writing them as text and parsing them back changes nothing.
pub mod Bounds
pub mod Quota
pub mod Examples
use mathlib.Core.Option
use ticket_online.Common.{
  ℕ, ◌+◌, ◌-◌, ◌*◌, ◌/◌, ◌%◌, ◌^◌, min, Bool, true, false, not, ◌&&◌, ◌||◌, Option, none, some,
  List, [], ◌∷◌, length, select?, any, all, sum_of, leb, ltb, ◌==◌, if◌then◌else◌,
}
use ticket_online.Common.Text.{Text, text, same}
use ticket_online.Errors.{Error, no_rows, invalid, voucher_unavailable}
use ticket_online.Sql.{Action, pure, raise, query, or_raise, fail_if, on_no_rows, ◌>>=◌, ◌>>◌}
use ticket_online.Schema.{
  VoucherKind, percent, fixed, VoucherRow, OrderVoucher, Order, OrderStatus, SettingsRow, Db,
}

abbrev pub u64 : ℕ → ℕ
u64 n = n % 2 ^ 64

abbrev pub max_u64 : ℕ
max_u64 = 18446744073709551615

pub record Voucher : Type 0 where
  pub code : Text
  pub kind : Text
  pub value : ℕ
  pub starts_at : Text
  pub ends_at : Text
  pub is_active : Bool
  pub event_id : Text
  pub minimum_subtotal : ℕ
  pub quota : ℕ
  pub revision : ℕ

pub record Snapshot : Type 0 where
  pub code : Text
  pub kind : VoucherKind
  pub value : ℕ

pub record Quote : Type 0 where
  pub subtotal : ℕ
  pub admin_fee : ℕ
  pub discount : ℕ
  pub total : ℕ
  pub voucher : Option Snapshot

pub record Usage : Type 0 where
  pub held : ℕ
  pub consumed : ℕ
  pub released : ℕ

-- A parsed time: its year as written, and its instant.
pub record Moment : Type 0 where
  pub year : ℕ
  pub instant : ℕ

pub record TimeFormat : Type 0 where
  pub parse : Text → Option Moment

abbrev is_code_start : ℕ → Bool
is_code_start c = (leb 65 c && leb c 90) || (leb 48 c && leb c 57)

abbrev is_code_part : ℕ → Bool
is_code_part c = is_code_start c || c == 95 || c == 45

-- ^[A-Z0-9][A-Z0-9_-]{1,31}$
unfoldable pub valid_code : Text → Bool
valid_code [] = false
valid_code (c ∷ s) = is_code_start c && all is_code_part s && leb 1 (length s) && leb (length s) 31

abbrev pub is_percent : Text → Bool
is_percent kind = same kind (text "PERCENT")

abbrev bad_times : Option Moment → Option Moment → Bool
bad_times none b = true
bad_times (some a) none = true
bad_times (some a) (some b) = not (ltb a.instant b.instant) || ltb a.year 1970 || ltb 9999 b.year

unfoldable pub validate : TimeFormat → Voucher → Option Error
unfolding valid_code
validate f v =
    if not (valid_code v.code)
      || (not (is_percent v.kind) && not (same v.kind (text "FIXED")))
      || v.value == 0
      || ltb 1000000000 v.value
      || (is_percent v.kind && ltb 100 v.value)
      || v.quota == 0
      || ltb 1000000000 v.quota
      || ltb 1000000000000 v.minimum_subtotal
      || bad_times (f.parse v.starts_at) (f.parse v.ends_at)
      || ltb 64 (length v.event_id)
    then some invalid
    else none

unfoldable pub discount : ℕ → VoucherKind → ℕ → ℕ
discount subtotal percent value =
    u64 (u64 (subtotal / 100 * value) + u64 (subtotal % 100 * value) / 100)
discount subtotal fixed value = min subtotal value

unfoldable pub read_voucher : Text → Action Db VoucherRow
read_voucher code = do
  found ← query (λ d. select? (λ v. same v.code code) d.vouchers)
  or_raise found no_rows

abbrev is_pending : Option Order → Bool
is_pending none = false
is_pending (some o) = elim o.status [ OrderStatus.pending ↦ true | _ ↦ false ]

abbrev exists : Option Order → Bool
exists none = false
exists (some o) = true

abbrev order_of : List Order → OrderVoucher → Option Order
order_of orders v = select? (λ o. same o.id v.order_id) orders

-- SUM of a test over order_vouchers JOIN orders, for one code.
abbrev count_vouchers : (OrderVoucher → Option Order → Bool) → Text → Db → ℕ
count_vouchers p code d =
    sum_of
      (λ v.
        if same v.code code && exists (order_of d.orders v) && p v (order_of d.orders v)
        then 1
        else 0)
      d.order_vouchers

unfoldable pub usage_in : Text → Db → Usage
usage_in code d = record {
  held = count_vouchers (λ v o. not v.consumed && is_pending o) code d;
  consumed = count_vouchers (λ v o. v.consumed) code d;
  released = count_vouchers (λ v o. not v.consumed && not (is_pending o)) code d;
}

unfoldable pub usage : Text → Action Db Usage
unfolding usage_in
usage code = query (usage_in code)

abbrev pub fee_of : Option SettingsRow → Option ℕ
fee_of none = none
fee_of (some s) = some s.admin_fee

abbrev pub for_other_event : Option Text → Text → Bool
for_other_event none event_id = false
for_other_event (some id) event_id = not (same id event_id)

unfoldable pub is_usable : VoucherRow → Text → ℕ → ℕ → Bool
is_usable v event_id subtotal now = not (
    not v.is_active
    || ltb now v.starts_at
    || not (ltb now v.ends_at)
    || for_other_event v.event_id event_id
    || ltb subtotal v.minimum_subtotal)

-- The part of Calculate under `if code != ""`.
unfoldable pub apply_voucher : Text → ℕ → Text → ℕ → Action Db (ℕ × Option Snapshot)
unfolding read_voucher usage discount is_usable
apply_voucher event_id subtotal code now = do
  v ← on_no_rows voucher_unavailable (read_voucher code)
  fail_if (not (is_usable v event_id subtotal now)) voucher_unavailable
  u ← usage code
  fail_if (leb v.quota (u64 (u.held + u.consumed))) voucher_unavailable
  pure (
    discount subtotal v.kind v.value,
    some (record { code = v.code; kind = v.kind; value = v.value }),
  )

unfoldable pub calculate : Text → ℕ → Text → ℕ → Action Db Quote
unfolding apply_voucher
calculate event_id subtotal code now = do
  fee ← query (λ d. fee_of d.settings)
  admin_fee ← or_raise fee no_rows
  fail_if (ltb (max_u64 - admin_fee) subtotal) invalid
  reduced ← if same code [] then pure (0, none) else apply_voucher event_id subtotal code now
  let total = u64 (u64 (subtotal + admin_fee) + (2 ^ 64 - reduced.0))
  fail_if (total == 0) voucher_unavailable
  pure (record {
    subtotal = subtotal;
    admin_fee = admin_fee;
    discount = reduced.0;
    total = total;
    voucher = reduced.1;
  })
