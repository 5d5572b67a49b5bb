-- ===== src/Refund/Finishing.antt =====
-- finish and finishTx (refund.go) move a refund along its life.
use ticket_online.Common.{
  ◌≡◌, refl, ap, subst, ◌∙◌, ℕ, Bool, true, false, Option, none, some, List, [], ◌∷◌, arith,
  if◌then◌else◌, update,
}
use ticket_online.Common.Text.{Text, same}
use ticket_online.Errors.{Error, driver, no_rows}
use ticket_online.Sql.{Action, Result, ok, err, pure, ◌>>=◌, ◌>>◌}
use ticket_online.Sql.Reads.{Reads-query, Reads-or_raise, Reads-pure, from_option}
use ticket_online.Sql.Frame.{
  Frame, Frame-pure, Frame-query, Frame-if, Frame-exec, Frame-bind, Frame-or_raise, Runs-frame,
}
use ticket_online.Sql.Runs.{
  Runs, Runs-reads, Runs-writes, Runs-begin, Runs-commit_last, Runs-assoc, Writes-exec,
}
use ticket_online.Schema.{OrderStatus, OrderItem, OrderRefund, Db}
use ticket_online.Reservation.Reads.{Reads-for_order}
use ticket_online.Refund.Provider.{clip}
use ticket_online.Refund.Finish.{
  refund_row, set_refund, is_final, succeed, fail, give_back_all, return_seats, end_refund, notify,
  set_order_status, resolve_cases, extend_access, queue_email, write_audit, finish_tx, finish,
}
use ticket_online.Refund.Lifecycle.{Moves, Evolves, Evolves-refl, here, next, settle}
use ticket_online.Refund.Rows.{set-Evolves}

abbrev pub refunds : Db → List OrderRefund
refunds d = d.order_refunds

Frame-give_back_all : (items : List OrderItem) → Frame refunds (give_back_all items)
unfolding give_back_all
Frame-give_back_all [] = Frame-pure _
Frame-give_back_all (i ∷ is) = Frame-bind _ _ (Frame-exec _ λ w. refl) λ _. Frame-give_back_all is

Frame-return_seats : (id : Text) (o : OrderStatus) → Frame refunds (return_seats id o)
unfolding return_seats
Frame-return_seats id o =
    Frame-if _ _ _ (Frame-bind _ _ (Frame-query _) Frame-give_back_all) (Frame-pure _)

extend-refunds : (now : ℕ) (id : Text) (w : Db) → refunds (extend_access now id w) ≡ refunds w
unfolding extend_access
extend-refunds now id w = ground arith

Frame-notify : (id : Text) (r : OrderRefund) (success : Bool) → Frame refunds (notify id r success)
unfolding notify
Frame-notify id r success = Frame-bind _ _ (Frame-query _) λ found.
    Frame-bind _ _ (Frame-or_raise found _) λ who.
      Frame-bind _ _ (Frame-exec _ λ w. unfold queue_email in ground arith)
        λ _. Frame-exec _ λ w. unfold write_audit in refl

-- The end of a refund: its row is set once, and the other statements leave the rows alone.
abbrev pub ended : ℕ → Bool → Text → OrderRefund → OrderRefund
ended now true message r = succeed now r
ended now false message r = fail now (clip message) r

module _ {A : Type 0} {w d : Db} {Q : Result A → Db → Type 0} where
  Runs-end_refund :
      (now : ℕ) (id message : Text) (o : OrderStatus) (success : Bool) (k : Unit {0} → Action Db A)
      → ((e : Error) → Q (err e) d)
      → ((w' : Db)
          → refunds w' ≡ refunds (set_refund id (ended now success message) w)
          → Runs w' d (k tt) Q)
      → Runs w d (end_refund now id o success message >>= k) Q
  unfolding end_refund
  Runs-end_refund now id message o true k fails goes = Runs-assoc _ _ _ (
      Runs-frame _ _ (Frame-return_seats id o) fails λ _ w1 e1. Runs-assoc _ _ _ (
        Runs-writes _ _ _ (Writes-exec _) fails λ _. Runs-assoc _ _ _ (
          Runs-frame _ _ (Frame-exec _ λ w. unfold set_order_status in refl) fails λ _ w2 e2.
            Runs-assoc _ _ _ (
              Runs-frame _ _ (Frame-exec _ λ w. unfold resolve_cases in refl) fails λ _ w3 e3.
                Runs-frame _ _ (Frame-exec _ (extend-refunds now id)) fails λ _ w4 e4. goes w4 (
                  e4
                  ∙ e3
                  ∙ e2
                  ∙ ap (update (λ r. same r.order_id id) (ended now true message)) e1)))))
  Runs-end_refund now id message o false k fails goes = Runs-assoc _ _ _ (
      Runs-writes _ _ _ (Writes-exec _) fails λ _.
        Runs-frame _ _ (Frame-exec _ λ w. unfold set_order_status in refl) fails
          λ _ w1 e1. goes w1 e1)

ended-Moves :
    (now : ℕ) (success : Bool) (message : Text) (r : OrderRefund)
    → is_final r.status ≡ false
    → Moves r (ended now success message r)
ended-Moves now true message r going = record {
  order_id = refl;
  amount = refl;
  key = refl;
  original = refl;
  life = next here (settle _ _ going refl);
}
ended-Moves now false message r going = record {
  order_id = refl;
  amount = refl;
  key = refl;
  original = refl;
  life = next here (settle _ _ going refl);
}

ended-order :
    (now : ℕ) (success : Bool) (message : Text) (r : OrderRefund)
    → (ended now success message r).order_id ≡ r.order_id
ended-order now true message r = refl
ended-order now false message r = refl

-- The end of a refund that has not ended sets its row once, whatever else it writes.
module _ {A : Type 0} {w d : Db} {Q : Result A → Db → Type 0} where
  Runs-ending :
      (now : ℕ) (id message : Text) (success : Bool) (r : OrderRefund) (k : Unit {0} → Action Db A)
      → ((e : Error) → Q (err e) d)
      → ((w' : Db)
          → refunds w' ≡ refunds (set_refund id (ended now success message) w)
          → Runs w' d (k tt) Q)
      → Runs w d
          ((end_refund now id r.original_status success message >> notify id r success) >>= k)
          Q
  Runs-ending now id message success r k fails goes = Runs-assoc _ _ _ (
      Runs-end_refund now id message r.original_status success _ fails
        λ w1 e1. Runs-frame _ _ (Frame-notify id r success) fails λ _ w2 e2. goes w2 (e2 ∙ e1))

  -- finishTx of a refund whose row is known and has not ended.
  pub Runs-finish_tx_open :
      (now : ℕ) (id message : Text) (success : Bool) (r : OrderRefund) (k : Unit {0} → Action Db A)
      → refund_row id w ≡ some r
      → is_final r.status ≡ false
      → ((e : Error) → Q (err e) d)
      → ((w' : Db)
          → refunds w' ≡ refunds (set_refund id (ended now success message) w)
          → Runs w' d (k tt) Q)
      → Runs w d (finish_tx now id success message >>= k) Q
  unfolding finish_tx
  Runs-finish_tx_open now id message success r k there going fails goes = Runs-assoc _ _ _ (
      Runs-reads _ _ _ (Reads-query _) (fails driver) (λ e _. fails e)
        λ found was. Runs-assoc _ _ _ (
          Runs-reads _ _ _ (Reads-or_raise found _) (fails driver) (λ e _. fails e)
            λ q is.
              rw (still_open found q was is) (Runs-ending now id message success q k fails goes)))
    where
      still_open :
          (found : Option OrderRefund) (q : OrderRefund)
          → ◌≡◌ {A = Result (Option OrderRefund)} (ok (refund_row id w)) (ok found)
          → from_option found no_rows ≡ ok q
          → is_final q.status ≡ false
      still_open none q was is = absurd (cc)
      still_open (some p) q was is =
          let this : r ≡ q = cc in subst (λ x. is_final x.status ≡ false) this going

-- From tables that have evolved from the stored ones, the refund of an order ends.
module _ {A : Type 0} {w d : Db} {Q : Result A → Db → Type 0} where
  pub Runs-finish_tx :
      (now : ℕ) (id message : Text) (success : Bool) (k : Unit {0} → Action Db A)
      → ((e : Error) → Q (err e) d)
      → ((w' : Db) → Evolves w w' → Runs w' d (k tt) Q)
      → Runs w d (finish_tx now id success message >>= k) Q
  unfolding finish_tx
  Runs-finish_tx now id message success k fails goes = Runs-assoc _ _ _ (
      Runs-reads _ _ _ (Reads-query _) (fails driver) (λ e _. fails e)
        λ found was. Runs-assoc _ _ _ (
          Runs-reads _ _ _ (Reads-or_raise found _) (fails driver) (λ e _. fails e)
            λ r is. go r (read found r was is) (is_final r.status) refl))
    where
      read :
          (found : Option OrderRefund) (r : OrderRefund)
          → ◌≡◌ {A = Result (Option OrderRefund)} (ok (refund_row id w)) (ok found)
          → from_option found no_rows ≡ ok r
          → refund_row id w ≡ some r
      read none r was is = absurd (cc)
      read (some q) r was is =
          let this : q ≡ r = cc in let there : refund_row id w ≡ some q = cc in there ∙ ap some this

      go :
          (r : OrderRefund)
          → refund_row id w ≡ some r
          → (b : Bool) → is_final r.status ≡ b
          → Runs w d
              ((if b
                  then pure tt
                  else (end_refund now id r.original_status success message >> notify id r success))
                >>= k)
              Q
      go r there true final =
          Runs-reads _ _ _ (Reads-pure tt) (fails driver) (λ e _. fails e)
            λ _ _. goes w (Evolves-refl w)
      go r there false going = Runs-ending now id message success r k fails λ w2 e2. goes w2 (
          set-Evolves id (ended now success message) w w2 (ended-order now success message)
            (λ q is. let this : q ≡ r = cc in ended-Moves now success message q (rw this going)) e2)

pub Runs-finish :
    (w d : Db) (now : ℕ) (id message : Text) (success : Bool)
    → Runs w d (finish now id success message) (λ _ d'. Evolves d d')
unfolding finish
Runs-finish w d now id message success = Runs-begin _ same_tables (
    Runs-reads _ _ _ (Reads-for_order id) same_tables (λ _ _. same_tables)
      λ _ _.
        Runs-reads _ _ _ (Reads-query _) same_tables (λ _ _. same_tables)
          λ found _.
            Runs-reads _ _ _ (Reads-or_raise found _) same_tables (λ _ _. same_tables)
              λ _ _.
                Runs-finish_tx now id message success _ (λ _. same_tables)
                  λ w' e. Runs-commit_last same_tables e)
  where
    same_tables : Evolves d d
    same_tables = Evolves-refl d
