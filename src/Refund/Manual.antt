-- ===== src/Refund/Manual.antt =====
-- backend/internal/refund/manual.go: a refund that staff has paid by hand. `parse` is time.Parse of
-- an RFC 3339 time, in microseconds.
use ticket_online.Common.{
  ℕ, Bool, true, false, not, [], ◌&&◌, ◌||◌, Option, none, some, length, select?, ltb, ◌==◌,
  if◌then◌else◌,
}
use ticket_online.Common.Text.{Text, same, trim_space, is_hex}
use ticket_online.Errors.{no_rows, forbidden, refund_invalid, refund_unavailable}
use ticket_online.Sql.{Action, pure, query, or_raise, fail_if, begin, exec, commit, ◌>>=◌, ◌>>◌}
use ticket_online.Schema.{RefundStatus, OrderRefund, AuditAction, Payment, Db}
use ticket_online.EventState.{for_order}
use ticket_online.Payment.Status.{is_succeeded}
use ticket_online.Payment.Expiry.{order_row}
use ticket_online.StaffAuth.{Staff, is_admin, authenticate_tx}
use ticket_online.Refund.Finish.{refund_row, set_refund, write_audit, finish_tx}
use ticket_online.Refund.Submit.{RefundResult}

pub record ManualInput : Type 0 where
  pub reference : Text
  pub paid_at : Text
  pub note : Text

abbrev bad_length : ℕ → Text → Bool
bad_length limit t = ltb (length (trim_space t)) 3 || ltb limit (length t)

abbrev pub checked_manual : ManualInput → ℕ → Option ℕ → Option ℕ
checked_manual input now none = none
checked_manual input now (some paid) =
    if ltb now paid || bad_length 160 input.reference || bad_length 500 input.note
    then none
    else some paid

unfoldable pub validate_manual : (Text → Option ℕ) → ManualInput → ℕ → Option ℕ
validate_manual parse input now = checked_manual input now (parse input.paid_at)

abbrev is_at : Option ℕ → ℕ → Bool
is_at none at = false
is_at (some t) at = t == at

abbrev pub is_same_proof : OrderRefund → ManualInput → ℕ → Bool
is_same_proof r input paid =
    elim r.status [ RefundStatus.succeeded ↦ true | _ ↦ false ]
    && same r.manual_reference (trim_space input.reference)
    && is_at r.manual_paid_at paid

abbrev pub is_manual : RefundStatus → Bool
is_manual RefundStatus.manual_required = true
is_manual _ = false

abbrev pub to_result : RefundStatus → OrderRefund → RefundResult
to_result status r = record { status = status; amount = r.amount; reason = r.reason }

-- payments WHERE order_id = ? AND status = 'SUCCEEDED'
abbrev settled_payment : Text → Db → Option Payment
settled_payment id d = select? (λ p. same p.order_id id && is_succeeded p.status) d.payments

abbrev pub with_proof : Text → ℕ → OrderRefund → OrderRefund
with_proof reference paid r = record r { manual_reference = reference; manual_paid_at = some paid }

unfoldable pub confirm_manual :
    ℕ → Text → Staff → ManualInput → ℕ → OrderRefund → Action Db RefundResult
unfolding write_audit finish_tx
confirm_manual now id p input paid r = do
  fail_if (not (is_manual r.status)) refund_unavailable
  found ← query (settled_payment id)
  payment ← or_raise found no_rows
  settled ← or_raise payment.paid_at refund_invalid
  fail_if (ltb paid settled) refund_invalid
  exec (set_refund id (with_proof (trim_space input.reference) paid))
  exec (write_audit id p.id AuditAction.manual_confirmed input.note)
  finish_tx now id true []
  commit
  pure (to_result RefundStatus.succeeded r)

unfoldable pub complete_manual :
    (Text → Text) → ℕ → (Text → Option ℕ) → Text → Text → ManualInput → Action Db RefundResult
unfolding validate_manual confirm_manual
complete_manual hash now parse token id input = do
  paid ← or_raise (validate_manual parse input now) refund_invalid
  fail_if (not (is_hex id) || not (length id == 32)) refund_invalid
  begin
  p ← authenticate_tx hash now token
  fail_if (not (is_admin p.role)) forbidden
  for_order id
  locked ← query (order_row id)
  or_raise locked no_rows
  found ← query (refund_row id)
  r ← or_raise found refund_unavailable
  if is_same_proof r input paid
      then (commit >> pure (to_result r.status r))
      else confirm_manual now id p input paid r
