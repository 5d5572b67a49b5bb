-- ===== src/Pricing/Quota.antt =====
-- What Calculate promises of a quote: exact sums, and a voucher that is usable and has quota left.
use ticket_online.Common.{
  sum_of, min, ◌*◌, ◌/◌, ◌&&◌, ◌||◌, Bool, ℕ, ◌+◌, ◌-◌, ◌^◌, ◌≤◌, ◌<◌, ◌≡◌, refl, subst, inl, inr,
  true, false, not, Option, none, some, List, [], ◌∷◌, arith, length, select?, All, select?-All,
  leb, ltb, ◌==◌, Bool-cases, if◌then◌else◌,
}
use ticket_online.Common.Text.{Text, same, same_iff}
use ticket_online.Errors.{no_rows, voucher_unavailable}
use ticket_online.Sql.{Result, ok, err, Session, Action, replace_no_rows, fail_if, pure, ◌>>◌}
use ticket_online.Sql.Reads.{
  Reads, from_option, ◌then_ok◌, Reads-pure, Reads-query, Reads-or_raise, Reads-on_no_rows,
  Reads-fail_if, Reads-bind,
}
use ticket_online.Sql.Runs.{Runs, Runs-pure, Runs-reads, Runs-fail_if}
use ticket_online.Schema.{VoucherKind, percent, fixed, VoucherRow, OrderVoucher, Order, Db}
use ticket_online.Pricing.{
  u64, max_u64, Snapshot, Quote, Usage, discount, read_voucher, usage_in, usage, is_usable, fee_of,
  for_other_event, apply_voucher, calculate,
}
use ticket_online.Payment.Status.{is_pending}
use ticket_online.Pricing.Bounds.{discount-le, discount_exact}

abbrev pub voucher_row : Text → Db → Option VoucherRow
voucher_row code d = select? (λ v. same v.code code) d.vouchers

-- The CHECK of the table: a percentage is at most 100.
abbrev pub IsChecked : VoucherRow → Type 0
IsChecked v = v.kind ≡ percent → v.value ≤ 100

Reads-read_voucher :
    (code : Text) → Reads (read_voucher code) (λ d. from_option (voucher_row code d) no_rows)
unfolding read_voucher
Reads-read_voucher code =
    Reads-bind _ _ _ (λ o d. from_option o no_rows) (Reads-query _) (λ o. Reads-or_raise o _)

-- A voucher counts at most once.
usage_le-length :
    (code : Text) (orders : List Order) (vs : List OrderVoucher)
    → let d = record ticket_online.Schema.empty_db { orders = orders; order_vouchers = vs } in
      (usage_in code d).held + (usage_in code d).consumed ≤ length vs
unfolding usage_in
usage_le-length code orders [] = omega arith
usage_le-length code orders (v ∷ vs) = ground (arith, usage_le-length code orders vs)

usage-le-length :
    (code : Text) (w : Db)
    → (usage_in code w).held + (usage_in code w).consumed ≤ length w.order_vouchers
unfolding usage_in
usage-le-length code w = usage_le-length code w.orders w.order_vouchers

-- A use of a voucher: a consumed one, or one of an order that is still pending.
abbrev is_use : Bool → Option Order → Bool
is_use consumed none = false
is_use consumed (some o) = consumed || is_pending o.status

abbrev pub uses_in : Text → List Order → List OrderVoucher → ℕ
uses_in code orders = sum_of λ v.
    if same v.code code && is_use v.consumed (select? (λ o. same o.id v.order_id) orders)
    then 1
    else 0

usage-uses_in :
    (code : Text) (orders : List Order) (vs : List OrderVoucher)
    → let d = record ticket_online.Schema.empty_db { orders = orders; order_vouchers = vs } in
      (usage_in code d).held + (usage_in code d).consumed ≡ uses_in code orders vs
unfolding usage_in
usage-uses_in code orders [] = omega arith
usage-uses_in code orders (v ∷ vs) = ground (arith, usage-uses_in code orders vs)

usage-uses :
    (code : Text) (w : Db)
    → (usage_in code w).held + (usage_in code w).consumed ≡ uses_in code w.orders w.order_vouchers
unfolding usage_in
usage-uses code w = usage-uses_in code w.orders w.order_vouchers

-- The exact share, and the event that a voucher is bound to.
abbrev pub share : ℕ → VoucherKind → ℕ → ℕ
share subtotal percent value = subtotal * value / 100
share subtotal fixed value = min subtotal value

abbrev pub IsFor : Option Text → Text → Type 0
IsFor none event_id = Unit
IsFor (some id) event_id = id ≡ event_id

discount-share :
    (subtotal : ℕ) (kind : VoucherKind) (value : ℕ)
    → subtotal ≤ max_u64
    → (kind ≡ percent → value ≤ 100)
    → discount subtotal kind value ≡ share subtotal kind value
discount-share s percent v hs hv = discount_exact s v hs (hv refl)
discount-share s fixed v hs hv = unfold discount in refl

-- What a row must be to be used: active, in its time window, open to the event and the subtotal.
pub record IsUsable (event_id : Text) (subtotal now : ℕ) (row : VoucherRow) : Type 0 where
  pub is_on : row.is_active ≡ true
  pub begun : row.starts_at ≤ now
  pub not_over : now < row.ends_at
  pub fits_event : IsFor row.event_id event_id
  pub large_enough : row.minimum_subtotal ≤ subtotal

IsUsable-row :
    (event_id : Text) (subtotal now : ℕ) (row : VoucherRow)
    → is_usable row event_id subtotal now ≡ true
    → IsUsable event_id subtotal now row
unfolding is_usable
IsUsable-row event_id subtotal now row h = record {
  is_on = ground arith;
  begun = ground arith;
  not_over = ground arith;
  fits_event = go row.event_id (ground arith);
  large_enough = ground arith;
}
  where
    go : (o : Option Text) → for_other_event o event_id ≡ false → IsFor o event_id
    go none e = tt
    go (some id) e = (same_iff _ _).0 (ground arith)

module _ (event_id : Text) (subtotal : ℕ) (code : Text) (now : ℕ) where
  -- The quote's voucher comes from a row that is usable now and has quota left.
  abbrev pub HasQuota : Db → ℕ → Option Snapshot → Type 0
  HasQuota w reduction none = (code ≡ []) × (reduction ≡ 0)
  HasQuota w reduction (some v) =
      (row : VoucherRow) × (voucher_row code w ≡ some row)
      × IsUsable event_id subtotal now row
      × (uses_in code w.orders w.order_vouchers < row.quota)
      × (v ≡ record { code = row.code; kind = row.kind; value = row.value })
      × (reduction ≡ share subtotal row.kind row.value)

  abbrev pub Priced : Db → Result Quote → Type 0
  Priced w (err e) = Unit {0}
  Priced w (ok q) =
      (q.subtotal ≡ subtotal)
      × (q.discount ≤ subtotal)
      × (q.total + q.discount ≡ q.subtotal + q.admin_fee)
      × (0 < q.total)
      × HasQuota w q.discount q.voucher

  abbrev applied : Db → Result (ℕ × Option Snapshot)
  applied d =
      replace_no_rows voucher_unavailable (from_option (voucher_row code d) no_rows) then_ok λ v.
      (if not (is_usable v event_id subtotal now) then err voucher_unavailable else ok tt)
      then_ok λ _.
          (if leb v.quota (u64 ((usage_in code d).held + (usage_in code d).consumed))
            then err voucher_unavailable
            else ok tt)
          then_ok λ _. ok (
            discount subtotal v.kind v.value,
            some (record { code = v.code; kind = v.kind; value = v.value }),
          )

  Reads-apply_voucher : Reads (apply_voucher event_id subtotal code now) applied
  unfolding apply_voucher usage
  Reads-apply_voucher =
      Reads-bind {A = VoucherRow} _ _ _ _ (Reads-on_no_rows _ _ _ (Reads-read_voucher code)) λ v.
        Reads-bind _ _ _ _ (Reads-fail_if _ _) λ _.
          Reads-bind {A = Usage} _ _ _ _ (Reads-query _)
            λ u. Reads-bind _ _ _ _ (Reads-fail_if _ _) λ _. Reads-pure _

  abbrev reduced : VoucherRow → ℕ × Option Snapshot
  reduced v = (
    discount subtotal v.kind v.value,
    some (record { code = v.code; kind = v.kind; value = v.value }),
  )

  applied_row :
      (w : Db) (a : ℕ × Option Snapshot)
      → applied w ≡ ok a
      → (row : VoucherRow) × (voucher_row code w ≡ some row)
        × (is_usable row event_id subtotal now ≡ true)
        × (leb row.quota (u64 ((usage_in code w).held + (usage_in code w).consumed)) ≡ false)
        × (reduced row ≡ a)
  applied_row w a h = go (voucher_row code w) refl
    where
      go :
          (o : Option VoucherRow)
          → voucher_row code w ≡ o
          → (row : VoucherRow) × (voucher_row code w ≡ some row)
            × (is_usable row event_id subtotal now ≡ true)
            × (leb row.quota (u64 ((usage_in code w).held + (usage_in code w).consumed)) ≡ false)
            × (reduced row ≡ a)
      go none e = absurd (ground arith)
      go (some row) e = (row, e, ground arith, ground arith, ground arith)

  module _ (w : Db) (small : subtotal ≤ max_u64) (checked : All IsChecked w.vouchers)
      (few : length w.order_vouchers ≤ max_u64) where
    applied-HasQuota :
        (a : ℕ × Option Snapshot) → applied w ≡ ok a → (a.0 ≤ subtotal) × HasQuota w a.0 a.1
    applied-HasQuota a h =
        let (row, found, usable, left, this) = applied_row w a h in
        subst (λ (x : ℕ × Option Snapshot). (x.0 ≤ subtotal) × HasQuota w x.0 x.1) this
          (
            discount-le subtotal row.kind row.value small
                (select?-All IsChecked _ w.vouchers checked found).1,
            (
              row,
              found,
              IsUsable-row event_id subtotal now row usable,
              ground (arith, usage-le-length code w, usage-uses code w),
              refl,
              discount-share subtotal row.kind row.value small
                  (select?-All IsChecked _ w.vouchers checked found).1,
            ),
          )

    -- The sum after the reduction, which the overflow test keeps from wrapping.
    total_exact :
        (fee reduction : ℕ)
        → fee ≤ max_u64
        → ltb (max_u64 - fee) subtotal ≡ false
        → reduction ≤ subtotal
        → u64 (u64 (subtotal + fee) + (2 ^ 64 - reduction)) + reduction ≡ subtotal + fee
    total_exact fee reduction hf test hr = ground arith

    finish_priced : ℕ → ℕ × Option Snapshot → Action Db Quote
    finish_priced fee r =
        let total = u64 (u64 (subtotal + fee) + (2 ^ 64 - r.0)) in
        fail_if (total == 0) voucher_unavailable
        >> pure (record {
          subtotal = subtotal;
          admin_fee = fee;
          discount = r.0;
          total = total;
          voucher = r.1;
        })

    finish_priced-Priced :
        (fee : ℕ) (r : ℕ × Option Snapshot)
        → fee ≤ max_u64
        → ltb (max_u64 - fee) subtotal ≡ false
        → (r.0 ≤ subtotal) × HasQuota w r.0 r.1
        → (d : Db) → Runs w d (finish_priced fee r) (λ x _. Priced w x)
    unfolding finish_priced
    finish_priced-Priced fee r hf test h d =
        Runs-fail_if _ _ _ (λ _. tt)
          λ positive. Runs-pure _ (refl, h.0, total_exact fee r.0 hf test h.0, ground arith, h.1)

    unreduced :
        (r : ℕ × Option Snapshot)
        → code ≡ []
        → ◌≡◌ {A = Result (ℕ × Option Snapshot)} (ok (0, none)) (ok r)
        → (r.0 ≤ subtotal) × HasQuota w r.0 r.1
    unreduced r empty e =
        let this : ◌≡◌ {A = ℕ × Option Snapshot} (0, none) r = cc in
        subst (λ (x : ℕ × Option Snapshot). (x.0 ≤ subtotal) × HasQuota w x.0 x.1) this
          (omega arith, (empty, refl))

    calculate-Runs :
        (d : Db)
        → ((fee : ℕ) → fee_of w.settings ≡ some fee → fee ≤ max_u64)
        → Runs w d (calculate event_id subtotal code now) (λ x _. Priced w x)
    unfolding calculate finish_priced
    calculate-Runs d fees =
        Runs-reads _ _ _ (Reads-query _) tt (λ _ _. tt)
          λ found e.
            Runs-reads _ _ _ (Reads-or_raise found _) tt (λ _ _. tt)
              λ fee is_fee.
                Runs-fail_if _ _ _ (λ _. tt)
                  λ test. elim (Bool-cases (same code [])) [
                    | inl empty ↦ rw empty (
                        Runs-reads _ _ _ (Reads-pure _) tt (λ _ _. tt)
                          λ r is_r.
                            finish_priced-Priced fee r (fees fee (ground arith)) test
                              (unreduced r ((same_iff _ _).0 empty) is_r) d)
                    | inr given ↦ rw given (
                        Runs-reads _ _ _ Reads-apply_voucher tt (λ _ _. tt)
                          λ r is_r.
                            finish_priced-Priced fee r (fees fee (ground arith)) test
                              (applied-HasQuota r is_r) d)
                  ]

-- A quote adds up exactly, with no wrap-around: the total is the subtotal with the fee less the
-- discount, is positive, and the discount is at most the subtotal. With a code, the quote
-- names the code's voucher as its row is; the row is active, in its time window, open to the event and
-- the subtotal; its uses, consumed or of pending orders, are below its quota; and the discount is the
-- exact share or the capped value. The conditions: 64-bit values, percentages of
-- at most 100 in the table.
pub calculate-Priced :
    (event_id : Text) (subtotal : ℕ) (code : Text) (now : ℕ) (s : Session Db)
    → subtotal ≤ max_u64
    → All IsChecked s.working.vouchers
    → length s.working.order_vouchers ≤ max_u64
    → ((fee : ℕ) → fee_of s.working.settings ≡ some fee → fee ≤ max_u64)
    → Priced event_id subtotal code now s.working (calculate event_id subtotal code now s).0
calculate-Priced event_id subtotal code now s small checked few fees =
    (calculate-Runs event_id subtotal code now s.working small checked few s.stored fees).at s refl
      refl
