-- ===== src/Payment/Backed.antt =====
-- Every paid order has a payment that succeeded: the invariant, and what the statements of
-- backend/internal/payment do to it.
use ticket_online.Common.{
  ◌≡◌, refl, ◌∙◌, ◌⊎◌, inl, inr, Bool, true, false, ◌&&◌, Option, none, some, List, [], ◌∷◌, ◌++◌,
  arith, select?, select?-All, update, All, Bool-cases,
}
use ticket_online.Common.Text.{Text, same, same_iff, same_refl}
use ticket_online.Schema.{OrderStatus, Order, Payment, Db}
use ticket_online.Payment.Status.{is_pending, is_paid, is_succeeded}
use ticket_online.Payment.Expiry.{has_status}

abbrev pub is_paid_row : Option Order → Bool
is_paid_row none = false
is_paid_row (some o) = is_paid o.status

unfoldable pub paid_at : Text → List Order → Bool
paid_at id os = is_paid_row (select? (λ o. same o.id id) os)

unfoldable pub success_at : Text → List Payment → Bool
success_at id ps = has_status is_succeeded (select? (λ p. same p.order_id id) ps)

-- The unique key on order_id.
abbrev pub UniqueOrders : List Payment → Type 0
UniqueOrders [] = Unit {0}
UniqueOrders (p ∷ ps) = All (λ q. same q.order_id p.order_id ≡ false) ps × UniqueOrders ps

pub record BackedBy (os : List Order) (ps : List Payment) : Type 0 where
  pub keys : UniqueOrders ps
  pub backed : (id : Text) → paid_at id os ≡ true → success_at id ps ≡ true

abbrev pub Backed : Db → Type 0
Backed d = BackedBy d.orders d.payments

abbrev pub to_paid : Text → List Order → List Order
to_paid id =
    update (λ o. same o.id id && is_pending o.status) (λ o. record o { status = OrderStatus.paid })

pub paid_at-to_paid :
    (id j : Text) (os : List Order)
    → paid_at j (to_paid id os) ≡ true
    → (paid_at j os ≡ true) ⊎ (j ≡ id)
unfolding paid_at
paid_at-to_paid id j [] h = absurd (cc)
paid_at-to_paid id j (o ∷ os) h =
    ground (arith, paid_at-to_paid id j os, same_iff o.id id, same_iff o.id j)

-- Any other status than PAID.
pub paid_at-closed :
    (id j : Text) (to : OrderStatus) (os : List Order)
    → is_paid to ≡ false
    → paid_at j (update (λ o. same o.id id) (λ o. record o { status = to }) os) ≡ true
    → paid_at j os ≡ true
unfolding paid_at
paid_at-closed id j to [] n h = h
paid_at-closed id j to (o ∷ os) n h = ground (arith, paid_at-closed id j to os n)

module _ (id : Text) (f : Payment → Payment)
    (keeps : (p : Payment) → (f p).order_id ≡ p.order_id) where
  abbrev changed : List Payment → List Payment
  changed = update (λ p. same p.order_id id) f

  All-changed :
      (k : Text) (ps : List Payment)
      → All (λ q. same q.order_id k ≡ false) ps
      → All (λ q. same q.order_id k ≡ false) (changed ps)
  All-changed k [] a = tt
  All-changed k (p ∷ ps) a = elim (Bool-cases (same p.order_id id)) [
    | inl this ↦ rw this (rw (keeps p) a.0, All-changed k ps a.1)
    | inr other ↦ rw other (a.0, All-changed k ps a.1)
  ]

  changed-UniqueOrders : (ps : List Payment) → UniqueOrders ps → UniqueOrders (changed ps)
  changed-UniqueOrders [] u = tt
  changed-UniqueOrders (p ∷ ps) u = elim (Bool-cases (same p.order_id id)) [
    | inl this ↦ rw this (rw (keeps p) (All-changed p.order_id ps u.0), changed-UniqueOrders ps u.1)
    | inr other ↦ rw other (All-changed p.order_id ps u.0, changed-UniqueOrders ps u.1)
  ]

  success_at-other :
      (j : Text) (ps : List Payment)
      → same j id ≡ false
      → success_at j (changed ps) ≡ success_at j ps
  unfolding success_at
  success_at-other j [] n = refl
  success_at-other j (p ∷ ps) n =
      ground
        (arith, success_at-other j ps n, keeps p, same_iff p.order_id id, same_iff p.order_id j)

  pub success_at-this :
      (ps : List Payment) (p : Payment)
      → ((q : Payment) → is_succeeded (f q).status ≡ true)
      → select? (λ q. same q.order_id id) ps ≡ some p
      → success_at id (changed ps) ≡ true
  unfolding success_at
  success_at-this [] p good h = absurd (cc)
  success_at-this (q ∷ qs) p good h = ground (arith, success_at-this qs p good, keeps q, good q)

  -- The rows of one order change: then only that order needs a look.
  pub changed-BackedBy :
      (os os' : List Order) (ps : List Payment)
      → ((j : Text) → paid_at j os' ≡ true → (paid_at j os ≡ true) ⊎ (j ≡ id))
      → (success_at id (changed ps) ≡ true) ⊎ (paid_at id os' ≡ false)
      → BackedBy os ps
      → BackedBy os' (changed ps)
  changed-BackedBy os os' ps paid here b = record {
    keys = changed-UniqueOrders ps b.keys;
    backed = λ j h. elim (Bool-cases (same j id)) [
      | inl this ↦ elim here [
        | inl success ↦ rw ((same_iff j id).0 this) success
        | inr unpaid ↦ absurd (ground (arith, (same_iff j id).0 this))
      ]
      | inr other ↦ success_at-other j ps other ∙ elim (paid j h) [
        | inl was ↦ b.backed j was
        | inr e ↦ absurd (ground (arith, same_refl id))
      ]
    ];
  }

-- By the unique key, a payment found in any way is the one of its order.
pub key_of :
    (q : Payment → Bool) (ps : List Payment) (p : Payment)
    → UniqueOrders ps
    → select? q ps ≡ some p
    → select? (λ r. same r.order_id p.order_id) ps ≡ some p
key_of q [] p u h = absurd (cc)
key_of q (r ∷ rs) p u h = elim (Bool-cases (q r)) [
  | inl hit ↦
      let found : ◌≡◌ {A = Option Payment} (some r) (some p) = rw hit at h in
      let this : r ≡ p = cc in rw (this, same_refl p.order_id) refl
  | inr miss ↦
      let found : select? q rs ≡ some p = rw miss at h in
      let apart : same p.order_id r.order_id ≡ false =
        (select?-All (λ x. same x.order_id r.order_id ≡ false) q rs u.0 found).1 in
      let other : same r.order_id p.order_id ≡ false =
        ground (arith, same_iff r.order_id p.order_id, same_iff p.order_id r.order_id) in
      rw other (key_of q rs p u.1 found)
]

-- The joined rows of a gateway order.
pub record Joined (d : Db) (o : Order) (p : Payment) : Type 0 where
  pub payment : select? (λ q. same q.order_id o.id) d.payments ≡ some p
  pub order : paid_at o.id d.orders ≡ is_paid o.status

-- A payment that has not succeeded belongs to an order that is not paid.
pub unpaid :
    (d : Db) (o : Order) (p : Payment)
    → Backed d
    → Joined d o p
    → is_succeeded p.status ≡ false
    → paid_at o.id d.orders ≡ false
unfolding success_at
unpaid d o p b j n = elim (Bool-cases (paid_at o.id d.orders)) [
  | inl paid ↦
      let success : success_at o.id d.payments ≡ true = b.backed o.id paid in
      absurd (ground (arith, j.payment, success))
  | inr free ↦ free
]

-- Closing an order takes nothing that a paid order rests on.
pub closed-BackedBy :
    (id : Text) (to : OrderStatus) (os : List Order) (ps : List Payment)
    → is_paid to ≡ false
    → BackedBy os ps
    → BackedBy (update (λ o. same o.id id) (λ o. record o { status = to }) os) ps
closed-BackedBy id to os ps n b = record {
  keys = b.keys;
  backed = λ j h. b.backed j (paid_at-closed id j to os n h);
}

-- An order with a payment that succeeded may become paid.
pub paid-BackedBy :
    (id : Text) (os : List Order) (ps : List Payment)
    → success_at id ps ≡ true
    → BackedBy os ps
    → BackedBy (to_paid id os) ps
paid-BackedBy id os ps success b = record {
  keys = b.keys;
  backed = λ j h. elim (paid_at-to_paid id j os h) [
    | inl was ↦ b.backed j was
    | inr this ↦ rw this success
  ];
}

All-append_one :
    (k : Text) (ps : List Payment) (p : Payment)
    → All (λ q. same q.order_id k ≡ false) ps
    → same p.order_id k ≡ false
    → All (λ q. same q.order_id k ≡ false) (ps ++ p ∷ [])
All-append_one k [] p a n = (n, tt)
All-append_one k (q ∷ qs) p a n = (a.0, All-append_one k qs p a.1 n)

append-UniqueOrders :
    (ps : List Payment) (p : Payment)
    → All (λ q. same q.order_id p.order_id ≡ false) ps
    → UniqueOrders ps
    → UniqueOrders (ps ++ p ∷ [])
append-UniqueOrders [] p a u = (tt, tt)
append-UniqueOrders (q ∷ qs) p a u = (
  All-append_one q.order_id qs p u.0
      (ground (arith, same_iff q.order_id p.order_id, same_iff p.order_id q.order_id, a.0)),
  append-UniqueOrders qs p a.1 u.1,
)

success_at-append :
    (j : Text) (ps : List Payment) (p : Payment)
    → success_at j ps ≡ true
    → success_at j (ps ++ p ∷ []) ≡ true
unfolding success_at
success_at-append j [] p h = absurd (cc)
success_at-append j (q ∷ qs) p h = ground (arith, success_at-append j qs p)

success_at-last :
    (ps : List Payment) (p : Payment)
    → All (λ q. same q.order_id p.order_id ≡ false) ps
    → success_at p.order_id (ps ++ p ∷ []) ≡ is_succeeded p.status
unfolding success_at
success_at-last [] p a = rw (same_refl p.order_id) refl
success_at-last (q ∷ qs) p a = ground (arith, success_at-last qs p a.1, a.0)

-- A new payment of an order that had none.
pub append-BackedBy :
    (os : List Order) (ps : List Payment) (p : Payment)
    → All (λ q. same q.order_id p.order_id ≡ false) ps
    → BackedBy os ps
    → BackedBy os (ps ++ p ∷ []) × (success_at p.order_id (ps ++ p ∷ []) ≡ is_succeeded p.status)
append-BackedBy os ps p fresh b = (
  record {
    keys = append-UniqueOrders ps p fresh b.keys;
    backed = λ j h. success_at-append j ps p (b.backed j h);
  },
  success_at-last ps p fresh,
)
