-- ===== src/Refund/Asking.antt =====
-- What a request for a refund reads (refund.go, submit), and what leaves the refunds alone.
use ticket_online.Common.{refl, ℕ, Bool, true, false, not, Option, if◌then◌else◌, ltb, ◌+◌}
use ticket_online.Common.Text.{Text}
use ticket_online.Errors.{provider, refund_unavailable, forbidden}
use ticket_online.Sql.{Result, ok, err, exec}
use ticket_online.Sql.Keeps.{
  Keeps, Keeps-pure, Keeps-bind, Keeps-fail_if, Keeps-query_stored, Keeps-or_raise,
}
use ticket_online.Sql.Reads.{
  Reads, Reads-query, Reads-or_raise, Reads-pure, Reads-raise, Reads-fail_if, Reads-bind,
  from_option, ◌then_ok◌,
}
use ticket_online.Sql.Frame.{Frame, Frame-exec}
use ticket_online.Schema.{AuditAction, Payment, Db}
use ticket_online.StaffAuth.{is_admin, authenticate}
use ticket_online.StaffAuth.Access.{principal_in, Reads-authenticate_tx}
use ticket_online.Refund.Provider.{within_refund_window, minute}
use ticket_online.Refund.Finish.{write_audit}
use ticket_online.Refund.Submit.{
  Prefetch, unread, got, failed_read, Requester, check_admin, requester_of, settlement,
  is_same_settlement, change_of,
}
use ticket_online.Refund.Finishing.{refunds}

pub Frame-audit :
    (id staff_id : Text) (action : AuditAction) (reason : Text)
    → Frame refunds (exec (write_audit id staff_id action reason))
Frame-audit id staff_id action reason = Frame-exec _ λ w. unfold write_audit in refl

pub settlement_in : ℕ → (Text → Option ℕ) → Payment → Prefetch → Db → Result (Bool × Text)
settlement_in now parse p failed_read d = err provider
settlement_in now parse p unread d = err refund_unavailable
settlement_in now parse p (got s) d =
    (if not (is_same_settlement s p) then err refund_unavailable else ok tt) then_ok λ _.
    from_option (parse s.settlement_time) refund_unavailable then_ok λ settled.
    (if ltb (now + minute) settled then err refund_unavailable else ok tt) then_ok λ _.
    ok (within_refund_window p.method settled now, s.transaction_id)

pub Reads-settlement :
    (now : ℕ) (parse : Text → Option ℕ) (p : Payment) (verified : Prefetch)
    → Reads (settlement now parse p verified) (settlement_in now parse p verified)
unfolding settlement settlement_in
Reads-settlement now parse p failed_read = Reads-raise _
Reads-settlement now parse p unread = Reads-raise _
Reads-settlement now parse p (got s) = Reads-bind _ _ _ _ (Reads-fail_if _ _) λ _.
    Reads-bind _ _ _ _ (Reads-or_raise _ _)
      λ settled. Reads-bind _ _ _ _ (Reads-fail_if _ _) λ _. Reads-pure _

pub requester_in : (Text → Text) → ℕ → Text → Text → Text → Bool → Db → Result Requester
requester_in hash now token id reason true d = ok (change_of id d) then_ok λ found.
    from_option found refund_unavailable then_ok λ c.
    ok (record { id = c.staff_id; reason = c.reason })
requester_in hash now token id reason false d = principal_in hash now token d then_ok λ p.
    (if not (is_admin p.role) then err forbidden else ok tt) then_ok λ _.
    ok (record { id = p.id; reason = reason })

pub Reads-requester :
    (hash : Text → Text) (now : ℕ) (token id reason : Text) (is_event : Bool)
    → Reads
        (requester_of hash now token id reason is_event)
        (requester_in hash now token id reason is_event)
unfolding requester_of requester_in
Reads-requester hash now token id reason true =
    Reads-bind _ _ _ _ (Reads-query _)
      λ found. Reads-bind _ _ _ _ (Reads-or_raise found _) λ c. Reads-pure _
Reads-requester hash now token id reason false =
    Reads-bind _ _ _ _ (Reads-authenticate_tx hash now token)
      λ p. Reads-bind _ _ _ _ (Reads-fail_if _ _) λ _. Reads-pure _

pub Keeps-check_admin :
    (hash : Text → Text) (now : ℕ) (token : Text) (is_event : Bool)
    → Keeps (check_admin hash now token is_event)
unfolding check_admin authenticate
Keeps-check_admin hash now token true = Keeps-pure _
Keeps-check_admin hash now token false =
    Keeps-bind _ _
      (Keeps-bind _ _ (Keeps-fail_if _ _) λ _.
        Keeps-bind _ _ (Keeps-query_stored _)
          λ found. Keeps-bind _ _ (Keeps-or_raise found _) λ _. Keeps-pure _)
      λ p. Keeps-fail_if _ _
