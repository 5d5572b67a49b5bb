-- ===== src/Checkout.antt =====
-- backend/internal/checkout/checkout.go: what a buyer sends, and Validate. `address` is
-- mail.ParseAddress.
pub mod Asked
pub mod Create
pub mod Frames
pub mod Outcomes
pub mod Placed
pub mod OnSale
pub mod Examples
use mathlib.Core.Option
use ticket_online.Common.{
  ℕ, Bool, true, false, not, ◌&&◌, ◌||◌, Option, List, [], ◌∷◌, map, length, select, any, all, leb,
  ltb, ◌==◌, if◌then◌else◌,
}
use ticket_online.Common.Text.{Text, same, trim_space, to_lower, to_upper}
use ticket_online.Errors.{invalid_request, voucher_unavailable}
use ticket_online.Sql.{Result, ok, err}
use ticket_online.Schema.{OrderStatus}
use ticket_online.Pricing.{Snapshot, valid_code}
use ticket_online.StaffAuth.Accounts.{dot_after, is_address}

pub record CheckoutBuyer : Type 0 where
  pub name : Text
  pub email : Text
  pub phone : Text
  pub identity : Text

pub record Attendees : Type 0 where
  pub tier_id : Text
  pub names : List Text

pub record CheckoutRequest : Type 0 where
  pub buyer : CheckoutBuyer
  pub voucher_code : Text
  pub attendees : List Attendees

pub record CheckoutItem : Type 0 where
  pub tier_id : Text
  pub ticket_tier_id : ℕ
  pub name : Text
  pub quantity : ℕ
  pub unit_price : ℕ
  pub line_total : ℕ

pub record CheckoutOrder : Type 0 where
  pub id : Text
  pub reference : Text
  pub reservation_id : Text
  pub status : OrderStatus
  pub expires_at : ℕ
  pub subtotal : ℕ
  pub admin_fee : ℕ
  pub discount : ℕ
  pub total : ℕ
  pub items : List CheckoutItem
  pub voucher : Option Snapshot

unfoldable pub digits : Text → Bool
digits = all (λ c. leb 48 c && leb c 57)

-- strings.NewReplacer(" ", "", "-", ""), and strings.TrimPrefix of a plus sign.
abbrev strip_phone : Text → Text
strip_phone = select (λ c. not (c == 32 || c == 45))

abbrev trim_plus : Text → Text
trim_plus [] = []
trim_plus (c ∷ s) = if c == 43 then s else c ∷ s

abbrev bad_name : Text → Bool
bad_name name = ltb (length name) 2 || ltb 80 (length name)

abbrev bad_phone : Text → Bool
bad_phone phone = ltb (length phone) 9 || ltb 15 (length phone) || not (digits phone)

abbrev bad_identity : Text → Bool
bad_identity identity =
    not (same identity [])
    && (ltb (length identity) 12 || ltb 20 (length identity) || not (digits identity))

abbrev trim_attendees : Attendees → Attendees
trim_attendees a = record {
  tier_id = to_lower (trim_space a.tier_id);
  names = map trim_space a.names;
}

unfoldable pub trim_request : CheckoutRequest → CheckoutRequest
trim_request r = record {
  buyer = record {
    name = trim_space r.buyer.name;
    email = trim_space r.buyer.email;
    phone = strip_phone (trim_space r.buyer.phone);
    identity = trim_space r.buyer.identity;
  };
  voucher_code = to_upper (trim_space r.voucher_code);
  attendees = map trim_attendees r.attendees;
}

unfoldable pub validate : (Text → Option Text) → CheckoutRequest → Result CheckoutRequest
unfolding digits trim_request
validate address raw =
    let r = trim_request raw in
    if any (λ a. any bad_name a.names) r.attendees
      || bad_name r.buyer.name
      || ltb 254 (length r.buyer.email)
      || not (is_address address r.buyer.email)
      || not (dot_after r.buyer.email)
      || bad_phone (trim_plus r.buyer.phone)
      || bad_identity r.buyer.identity
    then err invalid_request
    else if not (same r.voucher_code []) && not (valid_code r.voucher_code)
    then err voucher_unavailable
    else ok r
