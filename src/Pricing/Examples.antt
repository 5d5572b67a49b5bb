-- ===== src/Pricing/Examples.antt =====
-- Runs of the price of an order.
use ticket_online.Common.{◌*◌, ◌/◌, ◌≤◌, ◌≡◌, true, none, some, [], ◌∷◌, arith}
use ticket_online.Common.Text.{text}
use ticket_online.Sql.{Session}
use ticket_online.Schema.{percent, VoucherRow, Db, empty_db}
use ticket_online.Pricing.{discount, calculate}
use ticket_online.Pricing.Bounds.{discount_exact, discount-le}
use ticket_online.Pricing.Quota.{Priced, calculate-Priced}

discount_exact_example : discount 18446744073709551615 percent 33 ≡ 18446744073709551615 * 33 / 100
discount_exact_example = discount_exact 18446744073709551615 33 (omega arith) (omega arith)

discount-le_example : discount 1250 percent 33 ≤ 1250
discount-le_example = discount-le 1250 percent 33 (omega arith) (λ _. omega arith)

abbrev ten_off : VoucherRow
ten_off = record {
  code = text "TEN";
  kind = percent;
  value = 10;
  starts_at = 0;
  ends_at = 1000;
  is_active = true;
  event_id = none;
  minimum_subtotal = 500;
  quota = 2;
  revision = 1;
}

-- One of the two uses is consumed.
abbrev priced : Db
priced = record empty_db {
  vouchers = ten_off ∷ [];
  settings = some (record { admin_fee = 50; revision = 1 });
  order_vouchers =
      record {
        order_id = text "o1";
        code = text "TEN";
        kind = percent;
        value = 10;
        consumed = true;
      }
      ∷ [];
}

abbrev at_checkout : Session Db
at_checkout = record { stored = priced; working = priced; remaining = none }

calculate-Priced_example :
    Priced
      (text "ev")
      1000
      (text "TEN")
      20
      priced
      (calculate (text "ev") 1000 (text "TEN") 20 at_checkout).0
calculate-Priced_example =
    calculate-Priced (text "ev") 1000 (text "TEN") 20 at_checkout (omega arith)
      (λ _. omega arith, tt) (omega arith) (λ fee e. ground arith)
