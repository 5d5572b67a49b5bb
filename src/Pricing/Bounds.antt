-- ===== src/Pricing/Bounds.antt =====
-- The discount and the price: exact, and free of wrap-around.
use ticket_online.Common.{ℕ, ◌+◌, ◌*◌, ◌/◌, ◌%◌, ◌≤◌, ◌≡◌, refl, ap, arith}
use ticket_online.Schema.{VoucherKind, percent, fixed}
use ticket_online.Pricing.{max_u64, discount}

percent_split : (q r v : ℕ) → (100 * q + r) * v / 100 ≡ q * v + r * v / 100
percent_split q r v = omega arith

percent_part_le : (q v : ℕ) → v ≤ 100 → q * v ≤ q * 100
percent_part_le q v h = grind arith

-- For a 64-bit subtotal and a percentage of at most 100, the discount is the exact share, rounded down: splitting
-- the product keeps it from wrapping.
pub discount_exact :
    (subtotal value : ℕ)
    → subtotal ≤ max_u64
    → value ≤ 100
    → discount subtotal percent value ≡ subtotal * value / 100
unfolding discount
discount_exact s v hs hv = omega (
  arith,
  percent_split (s / 100) (s % 100) v,
  percent_part_le (s / 100) v hv,
  percent_part_le (s % 100) v hv,
  ap (λ (n : ℕ). n * v) (split s),
)
  where
    split : (n : ℕ) → 100 * (n / 100) + n % 100 ≡ n
    split n = omega arith

-- A discount on a 64-bit subtotal, of at most 100 percent or of a fixed value, takes no more than the
-- subtotal.
pub discount-le :
    (subtotal : ℕ) (kind : VoucherKind) (value : ℕ)
    → subtotal ≤ max_u64
    → (kind ≡ percent → value ≤ 100)
    → discount subtotal kind value ≤ subtotal
discount-le s percent v hs hv =
    rw (discount_exact s v hs (hv refl)) (omega (arith, percent_part_le s v (hv refl)))
discount-le s fixed v hs hv = unfold discount in omega arith
