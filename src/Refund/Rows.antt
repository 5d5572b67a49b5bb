-- ===== src/Refund/Rows.antt =====
-- What UPDATE and INSERT do to the row of an order in order_refunds.
use mathlib.Core.Option
use ticket_online.Common.{
  ◌≡◌, refl, sym, ap, subst, ◌∙◌, Bool, true, false, Option, none, some, List, [], ◌∷◌, ◌++◌, arith,
  Bool-cases, select?, update, inl, inr,
}
use ticket_online.Common.Text.{Text, same, same_iff}
use ticket_online.Schema.{OrderRefund, Db}
use ticket_online.Refund.Finish.{refund_row, set_refund}
use ticket_online.Refund.Lifecycle.{Moves, Moves-refl, Goes, Goes-refl, Evolves}

abbrev pub row_in : Text → List OrderRefund → Option OrderRefund
row_in id = select? λ r. same r.order_id id

module _ (id : Text) (f : OrderRefund → OrderRefund)
    (keeps : (r : OrderRefund) → (f r).order_id ≡ r.order_id) where
  abbrev set : List OrderRefund → List OrderRefund
  set = update (λ r. same r.order_id id) f

  pub row_in-set_same : (rs : List OrderRefund) → row_in id (set rs) ≡ Option.map f (row_in id rs)
  row_in-set_same [] = refl
  row_in-set_same (r ∷ rs) = elim (Bool-cases (same r.order_id id)) [
    | inl hit ↦ rw hit (rw (keeps r, hit) refl)
    | inr miss ↦ rw miss (rw miss (row_in-set_same rs))
  ]

  pub row_in-set_other :
      (j : Text) (rs : List OrderRefund) → same j id ≡ false → row_in j (set rs) ≡ row_in j rs
  row_in-set_other j [] n = refl
  row_in-set_other j (r ∷ rs) n =
      ground
        (arith, row_in-set_other j rs n, keeps r, same_iff r.order_id id, same_iff r.order_id j)

-- A row that may move so does.
pub set-Evolves :
    (id : Text) (f : OrderRefund → OrderRefund) (d d' : Db)
    → ((r : OrderRefund) → (f r).order_id ≡ r.order_id)
    → ((r : OrderRefund) → refund_row id d ≡ some r → Moves r (f r))
    → d'.order_refunds ≡ (set_refund id f d).order_refunds
    → Evolves d d'
set-Evolves id f d d' keeps moves e = record {
  at = λ j.
      subst (λ rs. Goes (refund_row j d) (row_in j rs)) (sym e)
        (elim (Bool-cases (same j id)) [
          | inl this ↦
              subst
                (λ i. Goes (row_in i d.order_refunds) (row_in i (set_refund id f d).order_refunds))
                (sym ((same_iff j id).0 this))
                (rw (row_in-set_same id f keeps d.order_refunds) (here (refund_row id d) moves))
          | inr other ↦
              rw (row_in-set_other id f keeps j d.order_refunds other) (Goes-refl (refund_row j d))
        ]);
}
  where
    here :
        (o : Option OrderRefund)
        → ((r : OrderRefund) → o ≡ some r → Moves r (f r))
        → Goes o (Option.map f o)
    here none moves = tt
    here (some r) moves = moves r refl

-- UPDATE … WHERE p, of rows that may move so.
pub update-Goes :
    (p : OrderRefund → Bool) (f : OrderRefund → OrderRefund)
    → ((r : OrderRefund) → (f r).order_id ≡ r.order_id)
    → ((r : OrderRefund) → p r ≡ true → Moves r (f r))
    → (j : Text) (rs : List OrderRefund) → Goes (row_in j rs) (row_in j (update p f rs))
update-Goes p f keeps moves j [] = tt
update-Goes p f keeps moves j (r ∷ rs) = elim (Bool-cases (p r)) [
  | inl hit ↦ elim (Bool-cases (same r.order_id j)) [
    | inl this ↦
        let mine : same (f r).order_id j ≡ true = ap (λ o. same o j) (keeps r) ∙ this in
        rw (hit, mine, this) (moves r hit)
    | inr other ↦
        let not_mine : same (f r).order_id j ≡ false = ap (λ o. same o j) (keeps r) ∙ other in
        rw (hit, not_mine, other) (update-Goes p f keeps moves j rs)
  ]
  | inr miss ↦ elim (Bool-cases (same r.order_id j)) [
    | inl this ↦ rw (miss, this) (Moves-refl r)
    | inr other ↦ rw (miss, other) (update-Goes p f keeps moves j rs)
  ]
]

-- INSERT of a row.
pub append-Goes :
    (q : OrderRefund) (j : Text) (rs : List OrderRefund)
    → Goes (row_in j rs) (row_in j (rs ++ q ∷ []))
append-Goes q j [] = tt
append-Goes q j (r ∷ rs) = elim (Bool-cases (same r.order_id j)) [
  | inl this ↦ rw this (Moves-refl r)
  | inr other ↦ rw other (append-Goes q j rs)
]

-- The row that an UPDATE of an order's refund leaves, and those of other orders.
module _ (id : Text) (f : OrderRefund → OrderRefund)
    (keeps : (r : OrderRefund) → (f r).order_id ≡ r.order_id) (d d' : Db)
    (e : d'.order_refunds ≡ (set_refund id f d).order_refunds) where
  pub set_row_same : {r : OrderRefund} → refund_row id d ≡ some r → refund_row id d' ≡ some (f r)
  set_row_same found =
      ap (row_in id) e ∙ row_in-set_same id f keeps d.order_refunds ∙ ap (Option.map f) found

  pub set_row_other : (j : Text) → same j id ≡ false → refund_row j d' ≡ refund_row j d
  set_row_other j other = ap (row_in j) e ∙ row_in-set_other id f keeps j d.order_refunds other
