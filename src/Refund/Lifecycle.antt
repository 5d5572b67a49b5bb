-- ===== src/Refund/Lifecycle.antt =====
-- The life of a refund (order_refunds.status in backend/internal/refund), as a step relation.
use ticket_online.Common.{◌≡◌, ◌≢◌, refl, ◌∙◌, true, false, Option, none, some, arith}
use ticket_online.Common.Text.{Text}
use ticket_online.Schema.{
  RefundStatus, requested, processing, unknown, succeeded, failed, manual_required, OrderRefund, Db,
}
use ticket_online.Refund.Finish.{is_final, refund_row}

-- A refund is claimed to be sent, its end becomes unknown, it ends, or a failed one is reopened.
pub data Step : RefundStatus → RefundStatus → Type 0 where
  claim : Step requested processing
  release : Step processing unknown
  settle : (s t : RefundStatus) → is_final s ≡ false → is_final t ≡ true → Step s t
  reopen : Step failed manual_required

pub data Reach (s : RefundStatus) : RefundStatus → Type 0 where
  here : Reach s s
  next : {t u : RefundStatus} → Reach s t → Step t u → Reach s u

pub Reach-trans : {s t u : RefundStatus} → Reach s t → Reach t u → Reach s u
Reach-trans p here = p
Reach-trans p (next q step) = next (Reach-trans p q) step

Step-succeeded : {s t : RefundStatus} → Step s t → s ≢ succeeded
Step-succeeded claim e = cc
Step-succeeded release e = cc
Step-succeeded (settle s t going final) e = absurd (ground (arith, e, going))
Step-succeeded reopen e = cc

-- Money that is given back stays given back.
pub Reach-succeeded : {s t : RefundStatus} → Reach s t → s ≡ succeeded → t ≡ succeeded
Reach-succeeded here e = e
Reach-succeeded (next q step) e = absurd (Step-succeeded step (Reach-succeeded q e))

-- What may become of a refund's row.
pub record Moves (r r' : OrderRefund) : Type 0 where
  pub order_id : r'.order_id ≡ r.order_id
  pub amount : r'.amount ≡ r.amount
  pub key : r'.refund_key ≡ r.refund_key
  pub original : r'.original_status ≡ r.original_status
  pub life : Reach r.status r'.status

pub Moves-refl : (r : OrderRefund) → Moves r r
Moves-refl r = record { order_id = refl; amount = refl; key = refl; original = refl; life = here }

pub Moves-trans : (r s t : OrderRefund) → Moves r s → Moves s t → Moves r t
Moves-trans r s t a b = record {
  order_id = b.order_id ∙ a.order_id;
  amount = b.amount ∙ a.amount;
  key = b.key ∙ a.key;
  original = b.original ∙ a.original;
  life = Reach-trans a.life b.life;
}

-- No row is lost, and a new one may come.
abbrev pub Goes : Option OrderRefund → Option OrderRefund → Type 0
Goes none r = Unit {0}
Goes (some r) none = ⊥
Goes (some r) (some s) = Moves r s

pub Goes-refl : (o : Option OrderRefund) → Goes o o
Goes-refl none = tt
Goes-refl (some r) = Moves-refl r

pub Goes-trans : (a b c : Option OrderRefund) → Goes a b → Goes b c → Goes a c
Goes-trans none b c p q = tt
Goes-trans (some r) none c p q = absurd p
Goes-trans (some r) (some s) none p q = absurd q
Goes-trans (some r) (some s) (some t) p q = Moves-trans r s t p q

-- Each order's refund only moves along its life.
pub record Evolves (d d' : Db) : Type 0 where
  pub at : (id : Text) → Goes (refund_row id d) (refund_row id d')

pub Evolves-refl : (d : Db) → Evolves d d
Evolves-refl d = record { at = λ id. Goes-refl (refund_row id d) }

pub Evolves-trans : {d e f : Db} → Evolves d e → Evolves e f → Evolves d f
Evolves-trans {d} {e} {f} p q = record {
  at = λ id. Goes-trans (refund_row id d) (refund_row id e) (refund_row id f) (p.at id) (q.at id);
}
