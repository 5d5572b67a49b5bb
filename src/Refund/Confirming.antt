-- ===== src/Refund/Confirming.antt =====
-- Refunds paid by hand (manual.go, CompleteManual): what a call may leave.
use ticket_online.Common.{
  ◌≡◌, refl, ap, ◌∙◌, ℕ, ◌≤◌, true, false, ◌&&◌, Option, none, some, [], arith, if◌then◌else◌,
  select?, not-false,
}
use ticket_online.Common.Text.{Text, same, same_iff, trim_space}
use ticket_online.Errors.{Error, driver}
use ticket_online.Sql.{Result, ok, err, Session, commit, pure, ◌>>◌}
use ticket_online.Sql.Reads.{ok_eq, found_of, Reads-query, Reads-or_raise}
use ticket_online.Sql.Frame.{Runs-frame}
use ticket_online.Sql.Runs.{
  Runs, Runs-if, Runs-reads, Runs-writes, Runs-begin, Runs-commit, Runs-pure, Runs-fail_if,
  Writes-exec,
}
use ticket_online.Schema.{RefundStatus, OrderRefund, Payment, Db}
use ticket_online.Reservation.Reads.{Reads-for_order}
use ticket_online.Payment.Status.{is_succeeded}
use ticket_online.StaffAuth.{Staff, is_admin}
use ticket_online.StaffAuth.Access.{principal_in, Reads-authenticate_tx}
use ticket_online.Refund.Finish.{refund_row, set_refund, is_final, succeed}
use ticket_online.Refund.Submit.{RefundResult}
use ticket_online.Refund.Manual.{
  ManualInput, with_proof, is_manual, is_same_proof, to_result, checked_manual, validate_manual,
  confirm_manual, complete_manual,
}
use ticket_online.Refund.Rows.{set_row_same, set_row_other}
use ticket_online.Refund.Finishing.{refunds, Runs-finish_tx_open}
use ticket_online.Refund.Asking.{Frame-audit}

manual_status : (s : RefundStatus) → is_manual s ≡ true → s ≡ RefundStatus.manual_required
manual_status RefundStatus.manual_required h = refl
manual_status RefundStatus.requested h = absurd (cc)
manual_status RefundStatus.processing h = absurd (cc)
manual_status RefundStatus.unknown h = absurd (cc)
manual_status RefundStatus.succeeded h = absurd (cc)
manual_status RefundStatus.failed h = absurd (cc)

same_proof_parts :
    (r : OrderRefund) (input : ManualInput) (paid : ℕ) (s : RefundStatus)
    → r.status ≡ s
    → is_same_proof r input paid ≡ true
    → (s ≡ RefundStatus.succeeded) × (r.manual_reference ≡ trim_space input.reference)
same_proof_parts r input paid RefundStatus.succeeded e h =
    (refl, (same_iff _ _).0 (ground (arith, e)))
same_proof_parts r input paid RefundStatus.requested e h = absurd (ground (arith, e))
same_proof_parts r input paid RefundStatus.processing e h = absurd (ground (arith, e))
same_proof_parts r input paid RefundStatus.unknown e h = absurd (ground (arith, e))
same_proof_parts r input paid RefundStatus.failed e h = absurd (ground (arith, e))
same_proof_parts r input paid RefundStatus.manual_required e h = absurd (ground (arith, e))

valid_time :
    (parse : Text → Option ℕ) (input : ManualInput) (now paid : ℕ)
    → validate_manual parse input now ≡ some paid
    → (parse input.paid_at ≡ some paid) × (paid ≤ now)
unfolding validate_manual
valid_time parse input now paid h = go (parse input.paid_at) h
  where
    go : (o : Option ℕ) → checked_manual input now o ≡ some paid → (o ≡ some paid) × (paid ≤ now)
    go none e = absurd (cc)
    go (some p) e = (ground arith, ground arith)

-- What completing a refund by hand leaves: on an error nothing; for a refund that the same proof has
-- completed nothing; else an administrator has given a proof, paid since the payment and not in the
-- future, for a refund that was to be paid by hand, which is now completed with that proof, and no
-- other refund has changed.
module _ (hash : Text → Text) (now : ℕ) (parse : Text → Option ℕ) (token id : Text)
    (input : ManualInput) (d : Db) where
  -- The parts of a proof that completes the refund `r`.
  pub record IsProof (r : OrderRefund) (paid : ℕ) : Type 0 where
    pub by : Staff
    pub signed : principal_in hash now token d ≡ ok by
    pub right : is_admin by.role ≡ true
    pub time : parse input.paid_at ≡ some paid
    pub past : paid ≤ now
    pub manual : r.status ≡ RefundStatus.manual_required
    pub payment : Payment
    pub succeeded :
        select? (λ p. same p.order_id id && is_succeeded p.status) d.payments ≡ some payment
    pub settled : ℕ
    pub settled_at : payment.paid_at ≡ some settled
    pub in_order : settled ≤ paid

  abbrev pub completed : ℕ → OrderRefund → OrderRefund
  completed paid r = record r {
    status = RefundStatus.succeeded;
    completed_at = some now;
    last_error = [];
    manual_reference = trim_space input.reference;
    manual_paid_at = some paid;
  }

  pub data Completes : Result RefundResult → Db → Type 0 where
    fails : (e : Error) → Completes (err e) d
    repeated :
        (r : OrderRefund) (x : RefundResult)
        → refund_row id d ≡ some r
        → r.status ≡ RefundStatus.succeeded
        → r.manual_reference ≡ trim_space input.reference
        → Completes (ok x) d
    completes :
        (r : OrderRefund) (paid : ℕ) (x : RefundResult) (d' : Db)
        → refund_row id d ≡ some r
        → IsProof r paid
        → refund_row id d' ≡ some (completed paid r)
        → ((j : Text) → same j id ≡ false → refund_row j d' ≡ refund_row j d)
        → Completes (ok x) d'

  abbrev lost : Completes (err driver) d
  lost = fails driver

  MovesOn-confirm :
      (r : OrderRefund) (p : Staff) (paid : ℕ)
      → refund_row id d ≡ some r
      → principal_in hash now token d ≡ ok p
      → is_admin p.role ≡ true
      → parse input.paid_at ≡ some paid
      → paid ≤ now
      → Runs d d (confirm_manual now id p input paid r) Completes
  unfolding confirm_manual
  MovesOn-confirm r p paid found signed right time past =
      Runs-fail_if _ _ _ (λ _. fails _)
        λ manual.
          let is_manual_row : r.status ≡ RefundStatus.manual_required =
            manual_status r.status (not-false _ manual) in
          Runs-reads _ _ _ (Reads-query _) lost (λ e _. fails e)
            λ row is_row.
              Runs-reads _ _ _ (Reads-or_raise row _) lost (λ e _. fails e)
                λ payment is_payment.
                  Runs-reads _ _ _ (Reads-or_raise payment.paid_at _) lost (λ e _. fails e)
                    λ settled is_settled.
                      Runs-fail_if _ _ _ (λ _. fails _)
                        λ early. Runs-writes _ _ _ (Writes-exec _) fails λ _.
                          Runs-frame _ _ (Frame-audit _ _ _ _) fails λ _ w1 e1.
                            Runs-finish_tx_open now id [] true (proved r) _ (proved_row w1 e1)
                              (ap is_final is_manual_row) fails
                              λ w2 e2. Runs-commit _ lost (
                                Runs-pure _ (
                                  completes r paid _ w2 found
                                    (record {
                                      by = p;
                                      signed = signed;
                                      right = right;
                                      time = time;
                                      past = past;
                                      manual = is_manual_row;
                                      payment = payment;
                                      succeeded = ok_eq is_row ∙ found_of row _ is_payment;
                                      settled = settled;
                                      settled_at = found_of payment.paid_at _ is_settled;
                                      in_order = ground arith;
                                    })
                                    (set_row_same id (succeed now) (λ _. refl) w1 w2 e2
                                      (proved_row w1 e1))
                                    (λ j other.
                                      set_row_other id (succeed now) (λ _. refl) w1 w2 e2 j other
                                      ∙ set_row_other id proved (λ _. refl) d w1 e1 j other)))
    where
      proved : OrderRefund → OrderRefund
      proved = with_proof (trim_space input.reference) paid

      proved_row :
          (w : Db)
          → refunds w ≡ refunds (set_refund id (with_proof (trim_space input.reference) paid) d)
          → refund_row id w ≡ some (with_proof (trim_space input.reference) paid r)
      proved_row w e = set_row_same id proved (λ _. refl) d w e found

  complete_manual-Runs :
      (w : Db) → Runs w d (complete_manual hash now parse token id input) Completes
  unfolding complete_manual
  complete_manual-Runs w =
      Runs-reads _ _ _ (Reads-or_raise _ _) lost (λ e _. fails e)
        λ paid valid.
          Runs-fail_if _ _ _ (λ _. fails _)
            λ _. Runs-begin _ lost (
              Runs-reads _ _ _ (Reads-authenticate_tx hash now token) lost (λ e _. fails e)
                λ p signed.
                  Runs-fail_if _ _ _ (λ _. fails _)
                    λ right.
                      Runs-reads _ _ _ (Reads-for_order id) lost (λ e _. fails e)
                        λ _ _.
                          Runs-reads _ _ _ (Reads-query _) lost (λ e _. fails e)
                            λ locked _.
                              Runs-reads _ _ _ (Reads-or_raise locked _) lost (λ e _. fails e)
                                λ _ _.
                                  Runs-reads _ _ _ (Reads-query _) lost (λ e _. fails e)
                                    λ found is_found.
                                      Runs-reads _ _ _ (Reads-or_raise found _) lost
                                        (λ e _. fails e)
                                        λ r is_r.
                                          with_row p paid r signed (not-false _ right)
                                            (valid_time parse input now paid (found_of _ _ valid))
                                            (ok_eq is_found ∙ found_of found _ is_r))
    where
      with_row :
          (p : Staff) (paid : ℕ) (r : OrderRefund)
          → principal_in hash now token d ≡ ok p
          → is_admin p.role ≡ true
          → (parse input.paid_at ≡ some paid) × (paid ≤ now)
          → refund_row id d ≡ some r
          → Runs d d
              (if is_same_proof r input paid
                then (commit >> pure (to_result r.status r))
                else confirm_manual now id p input paid r)
              Completes
      with_row p paid r signed right valid found =
          Runs-if (is_same_proof r input paid) _ _
            (λ again. Runs-commit _ lost (
              Runs-pure _ (
                repeated r _ found (same_proof_parts r input paid _ refl again).0
                  (same_proof_parts r input paid _ refl again).1)))
            (λ _. MovesOn-confirm r p paid found signed right valid.0 valid.1)

-- Completing a refund by hand, wherever the connection is lost, either fails and stores nothing, or
-- finds the refund completed with the same reference and stores nothing, or it was asked by an
-- administrator for a refund that was to be paid by hand, with a time between the settled payment
-- and now, and the refund is completed with this reference and time, and no other refund changes.
pub complete_manual-Completes :
    (hash : Text → Text) (now : ℕ) (parse : Text → Option ℕ) (token id : Text) (input : ManualInput)
    (s : Session Db)
    → Completes hash now parse token id input s.stored
        (complete_manual hash now parse token id input s).0
        (complete_manual hash now parse token id input s).1.stored
complete_manual-Completes hash now parse token id input s =
    (complete_manual-Runs hash now parse token id input s.stored s.working).at s refl refl
