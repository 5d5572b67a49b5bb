-- ===== src/Refund/Claiming.antt =====
-- claimRefunds (refund.go) moves refunds along their life.
use ticket_online.Common.{
  ◌≡◌, refl, sym, ap, subst, ◌∙◌, ℕ, zero, suc, Bool, true, false, ◌||◌, Option, none, some, List,
  [], ◌∷◌, map, take, select, arith, Bool-cases, inl, inr, All,
}
use mathlib.Core.Option
use ticket_online.Common.Text.{Text, same, same_iff, same_refl}
use ticket_online.Sql.{Action, ◌>>=◌}
use ticket_online.Sql.Reads.{ok_eq, Reads-query, Reads-pure}
use ticket_online.Sql.Runs.{
  Runs, Runs-reads, Runs-writes, Runs-begin, Runs-commit, Runs-pure, Runs-assoc, Writes-exec,
}
use ticket_online.Schema.{RefundStatus, OrderRefund, Db}
use ticket_online.Refund.Provider.{QueuedRefund}
use ticket_online.Refund.Finish.{refund_row, set_refund}
use ticket_online.Refund.Queue.{
  QueueKind, to_send, to_check, goes_first, is_processing, is_requested, is_unknown, waits,
  order_due, insert_due, due, to_item, claimed, claim_loop, claim_refunds,
}
use ticket_online.Refund.Lifecycle.{
  Moves, Reach, Evolves, Evolves-refl, Evolves-trans, here, next, claim,
}
use ticket_online.Refund.Rows.{set-Evolves, row_in, row_in-set_same, row_in-set_other}

-- The unique key on order_id.
abbrev pub UniqueRefunds : List OrderRefund → Type 0
UniqueRefunds [] = Unit {0}
UniqueRefunds (r ∷ rs) = All (λ q. same q.order_id r.order_id ≡ false) rs × UniqueRefunds rs

abbrev is_claimable : RefundStatus → Bool
is_claimable s = is_requested s || is_processing s

-- A refund that is claimed to be sent may be.
abbrev MayClaim : Db → QueuedRefund → Type 0
MayClaim w item =
    is_unknown item.status ≡ false
    → (r : OrderRefund) → refund_row item.order_id w ≡ some r
    → is_claimable r.status ≡ true

claimed-order :
    (now : ℕ) (item : QueuedRefund) (r : OrderRefund) → (claimed now item r).order_id ≡ r.order_id
claimed-order now item r = ground arith

claimed-life : (s : RefundStatus) → is_claimable s ≡ true → Reach s RefundStatus.processing
claimed-life RefundStatus.requested h = next here claim
claimed-life RefundStatus.processing h = here
claimed-life RefundStatus.unknown h = absurd (cc)
claimed-life RefundStatus.succeeded h = absurd (cc)
claimed-life RefundStatus.failed h = absurd (cc)
claimed-life RefundStatus.manual_required h = absurd (cc)

claimed-Moves :
    (now : ℕ) (item : QueuedRefund) (r : OrderRefund)
    → (is_unknown item.status ≡ false → is_claimable r.status ≡ true)
    → Moves r (claimed now item r)
claimed-Moves now item r may = elim (Bool-cases (is_unknown item.status)) [
  | inl checked ↦
      rw checked
        (record { order_id = refl; amount = refl; key = refl; original = refl; life = here })
  | inr sent ↦ rw sent (record {
    order_id = refl;
    amount = refl;
    key = refl;
    original = refl;
    life = claimed-life r.status (may sent);
  })
]

-- Another claim leaves it so.
MayClaim-claimed :
    (now : ℕ) (i j : QueuedRefund) (w : Db)
    → MayClaim w i
    → MayClaim w j
    → MayClaim (set_refund i.order_id (claimed now i) w) j
MayClaim-claimed now i j w mi mj sent r found = elim (Bool-cases (same j.order_id i.order_id)) [
  | inl this ↦
      let here_too : j.order_id ≡ i.order_id = (same_iff j.order_id i.order_id).0 this in
      go (refund_row i.order_id w) refl
        (sym (row_in-set_same i.order_id (claimed now i) (claimed-order now i) w.order_refunds)
          ∙ ap (λ o. row_in o (set_refund i.order_id (claimed now i) w).order_refunds)
              (sym here_too)
          ∙ found)
        (λ q is. mj sent q (ap (λ o. refund_row o w) here_too ∙ is))
  | inr other ↦ mj sent r (
      sym (
        row_in-set_other i.order_id (claimed now i) (claimed-order now i) j.order_id w.order_refunds
          other)
      ∙ found)
]
  where
    go :
        (o : Option OrderRefund)
        → refund_row i.order_id w ≡ o
        → Option.map (claimed now i) o ≡ some r
        → ((q : OrderRefund) → refund_row i.order_id w ≡ some q → is_claimable q.status ≡ true)
        → is_claimable r.status ≡ true
    go none is e may = absurd (cc)
    go (some q) is e may =
        let this : claimed now i q ≡ r = cc in
        let can = may q is in
        subst (λ x. is_claimable x.status ≡ true) this
          (elim (Bool-cases (is_unknown i.status)) [
            | inl checked ↦ rw checked can
            | inr going ↦ rw going refl
          ])

AllMayClaim : Db → List QueuedRefund → Type 0
AllMayClaim w = All (MayClaim w)

All-claimed :
    (now : ℕ) (i : QueuedRefund) (w : Db) (is : List QueuedRefund)
    → MayClaim w i
    → All (MayClaim w) is
    → All (MayClaim (set_refund i.order_id (claimed now i) w)) is
All-claimed now i w [] mi m = tt
All-claimed now i w (j ∷ is) mi m =
    (MayClaim-claimed now i j w mi m.0, All-claimed now i w is mi m.1)

Runs-claim_loop :
    {A : Type 0} {d : Db} (now : ℕ) (is : List QueuedRefund) (w : Db) (k : Unit {0} → Action Db A)
    → All (MayClaim w) is
    → Evolves d w
    → ((w' : Db) → Evolves d w' → Runs w' d (k tt) (λ _ d'. Evolves d d'))
    → Runs w d (claim_loop now is >>= k) (λ _ d'. Evolves d d')
unfolding claim_loop
Runs-claim_loop {d = d} now [] w k m e goes =
    Runs-reads _ _ _ (Reads-pure tt) (Evolves-refl d) (λ _ _. Evolves-refl d) λ _ _. goes w e
Runs-claim_loop {d = d} now (i ∷ is) w k m e goes = Runs-assoc _ _ _ (
    Runs-writes _ _ _ (Writes-exec _) (λ _. Evolves-refl d)
      λ _.
        Runs-claim_loop now is _ k (All-claimed now i w is m.0 m.1)
          (Evolves-trans e (
            set-Evolves i.order_id (claimed now i) w _ (claimed-order now i)
              (λ r found. claimed-Moves now i r (λ sent. m.0 sent r found)) refl))
          goes)

-- What a test found holds of the sorted and cut list.
module _ (P : OrderRefund → Type 0) where
  All-select :
      (p : OrderRefund → Bool) (rs : List OrderRefund)
      → All (λ r. p r ≡ true → P r) rs
      → All P (select p rs)
  All-select p [] a = tt
  All-select p (r ∷ rs) a = elim (Bool-cases (p r)) [
    | inl hit ↦ rw hit (a.0 hit, All-select p rs a.1)
    | inr miss ↦ rw miss (All-select p rs a.1)
  ]

  All-insert : (r : OrderRefund) (rs : List OrderRefund) → P r → All P rs → All P (insert_due r rs)
  All-insert r [] p a = (p, tt)
  All-insert r (q ∷ qs) p a = elim (Bool-cases (goes_first q r)) [
    | inl first ↦ rw first (a.0, All-insert r qs p a.1)
    | inr last ↦ rw last (p, a)
  ]

  All-order : (rs : List OrderRefund) → All P rs → All P (order_due rs)
  All-order [] a = tt
  All-order (r ∷ rs) a = All-insert r (order_due rs) a.0 (All-order rs a.1)

  All-take : (n : ℕ) (rs : List OrderRefund) → All P rs → All P (take n rs)
  All-take zero rs a = tt
  All-take (suc n) [] a = tt
  All-take (suc n) (r ∷ rs) a = (a.0, All-take n rs a.1)

-- By the key, each row is the one of its order.
own_row : (rs : List OrderRefund) → UniqueRefunds rs → All (λ r. row_in r.order_id rs ≡ some r) rs
own_row [] u = tt
own_row (r ∷ rs) u = (rw (same_refl r.order_id) refl, behind rs (own_row rs u.1) u.0)
  where
    behind :
        (qs : List OrderRefund)
        → All (λ q. row_in q.order_id rs ≡ some q) qs
        → All (λ q. same q.order_id r.order_id ≡ false) qs
        → All (λ q. row_in q.order_id (r ∷ rs) ≡ some q) qs
    behind [] a n = tt
    behind (q ∷ qs) a n =
        let other : same r.order_id q.order_id ≡ false =
          ground (arith, same_iff r.order_id q.order_id, same_iff q.order_id r.order_id, n.0) in
        (rw other a.0, behind qs a.1 n.1)

waiting-claimable :
    (kind : QueueKind) (now : ℕ) (r : OrderRefund)
    → waits kind now r ≡ true
    → is_unknown r.status ≡ false
    → is_claimable r.status ≡ true
waiting-claimable to_check now r w sent = absurd (ground arith)
waiting-claimable to_send now r w sent = ground arith

due-MayClaim :
    (kind : QueueKind) (now : ℕ) (tokens : Text → Text) (d : Db)
    → UniqueRefunds d.order_refunds
    → All (λ r. MayClaim d (to_item tokens r)) (due kind now d)
unfolding due
due-MayClaim kind now tokens d u = All-take _ _ _ (
    All-order _ _ (
      All-select _ (waits kind now) d.order_refunds
        (each d.order_refunds (own_row d.order_refunds u))))
  where
    each :
        (rs : List OrderRefund)
        → All (λ r. row_in r.order_id d.order_refunds ≡ some r) rs
        → All (λ r. waits kind now r ≡ true → MayClaim d (to_item tokens r)) rs
    each [] a = tt
    each (r ∷ rs) a = (
      λ w sent q found.
          let this : r ≡ q = cc in
          subst (λ x. is_claimable x.status ≡ true) this (waiting-claimable kind now r w sent),
      each rs a.1,
    )

All-map :
    (d : Db) (tokens : Text → Text) (rs : List OrderRefund)
    → All (λ r. MayClaim d (to_item tokens r)) rs
    → All (MayClaim d) (map (to_item tokens) rs)
All-map d tokens [] a = tt
All-map d tokens (r ∷ rs) a = (a.0, All-map d tokens rs a.1)

pub Runs-claim_refunds :
    (w d : Db) (kind : QueueKind) (now : ℕ) (tokens : Text → Text)
    → UniqueRefunds d.order_refunds
    → Runs w d (claim_refunds kind now tokens) (λ _ d'. Evolves d d')
unfolding claim_refunds
Runs-claim_refunds w d kind now tokens u = Runs-begin _ (Evolves-refl d) (
    Runs-reads _ _ _ (Reads-query _) (Evolves-refl d) (λ _ _. Evolves-refl d)
      λ rows is.
        Runs-claim_loop now (map (to_item tokens) rows) d _
          (All-map d tokens rows (
            subst (All (λ r. MayClaim d (to_item tokens r))) (ok_eq is)
              (due-MayClaim kind now tokens d u)))
          (Evolves-refl d) λ w' e. Runs-commit _ (Evolves-refl d) (Runs-pure _ e))
