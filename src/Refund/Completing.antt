-- ===== src/Refund/Completing.antt =====
-- Refunds that have ended (refund.go, finish) stay as they are.
use ticket_online.Common.{◌≡◌, refl, sym, subst, ◌∙◌, ℕ, Bool, true, Option, none, some}
use ticket_online.Common.Text.{Text}
use ticket_online.Errors.{no_rows}
use ticket_online.Sql.{Result, ok, Session}
use ticket_online.Sql.Reads.{ok_eq, Reads-query, Reads-or_raise, Reads-pure, from_option}
use ticket_online.Sql.Runs.{Runs, Runs-reads, Runs-begin, Runs-commit_last, Runs-assoc}
use ticket_online.Schema.{OrderRefund, Db}
use ticket_online.Reservation.Reads.{Reads-for_order}
use ticket_online.Refund.Finish.{refund_row, is_final, finish_tx, finish}

-- A refund that has ended is not ended again: nothing is stored, so no seat goes back twice.
pub finish-ended :
    (now : ℕ) (id message : Text) (success : Bool) (r : OrderRefund) (s : Session Db)
    → refund_row id s.stored ≡ some r
    → is_final r.status ≡ true
    → (finish now id success message s).1.stored ≡ s.stored
unfolding finish finish_tx
finish-ended now id message success r s found final =
    (inside s.working s.stored found).at s refl refl
  where
    same_row :
        (d : Db) (o : Option OrderRefund) (q : OrderRefund)
        → refund_row id d ≡ some r
        → ◌≡◌ {A = Result (Option OrderRefund)} (ok (refund_row id d)) (ok o)
        → from_option o no_rows ≡ ok q
        → is_final q.status ≡ true
    same_row d none q found is e = absurd (cc)
    same_row d (some p) q found is e =
        let first : ◌≡◌ {A = Option OrderRefund} (some r) (some p) = sym found ∙ ok_eq is in
        let this : r ≡ q = cc in subst (λ x. is_final x.status ≡ true) this final

    inside :
        (w d : Db)
        → refund_row id d ≡ some r
        → Runs w d (finish now id success message) (λ _ d'. d' ≡ d)
    inside w d found = Runs-begin _ refl (
        Runs-reads _ _ _ (Reads-for_order id) refl (λ _ _. refl)
          λ _ _.
            Runs-reads _ _ _ (Reads-query _) refl (λ _ _. refl)
              λ locked _.
                Runs-reads _ _ _ (Reads-or_raise locked _) refl (λ _ _. refl)
                  λ _ _. Runs-assoc _ _ _ (
                    Runs-reads _ _ _ (Reads-query _) refl (λ _ _. refl)
                      λ o is. Runs-assoc _ _ _ (
                        Runs-reads _ _ _ (Reads-or_raise o _) refl (λ _ _. refl)
                          λ q e. rw (same_row d o q found is e) (
                            Runs-reads _ _ _ (Reads-pure tt) refl (λ _ _. refl)
                              λ _ _. Runs-commit_last refl refl))))
