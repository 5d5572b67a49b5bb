-- ===== src/StaffAuth/Access.antt =====
-- What an authenticated principal is (staffauth/service.go, AuthenticateTx).
use ticket_online.Common.{ℕ, not, ◌&&◌, length, select?, ◌==◌, if◌then◌else◌}
use ticket_online.Common.Text.{Text, same}
use ticket_online.Errors.{unauthorized, forbidden}
use ticket_online.Sql.{Result, ok, err}
use ticket_online.Sql.Reads.{
  Reads, Reads-query, Reads-pure, Reads-or_raise, Reads-fail_if, Reads-bind, Reads-if, from_option,
  ◌then_ok◌,
}
use ticket_online.Schema.{Db}
use ticket_online.StaffAuth.{
  Staff, is_live, signed_in, to_staff, authenticate_tx, is_admin, is_staff, is_assigned,
  authorize_ticket_status_tx,
}

abbrev pub principal_in : (Text → Text) → ℕ → Text → Db → Result Staff
principal_in hash now token d =
    (if not (length token == 43) then err unauthorized else ok tt) then_ok λ _.
    ok (signed_in hash now token d) then_ok λ found. from_option found unauthorized then_ok λ user.
    ok (select? (λ s. is_live hash now token s && same s.staff_id user.id) d.staff_sessions)
    then_ok λ session. from_option session unauthorized then_ok λ _. ok (to_staff user)

pub Reads-authenticate_tx :
    (hash : Text → Text) (now : ℕ) (token : Text)
    → Reads (authenticate_tx hash now token) (principal_in hash now token)
unfolding authenticate_tx
Reads-authenticate_tx hash now token = Reads-bind _ _ _ _ (Reads-fail_if _ _) λ _.
    Reads-bind _ _ _ _ (Reads-query _) λ found. Reads-bind _ _ _ _ (Reads-or_raise found _) λ user.
      Reads-bind _ _ _ _ (Reads-query _)
        λ session. Reads-bind _ _ _ _ (Reads-or_raise session _) λ _. Reads-pure _

-- AuthorizeTicketStatusTx: administrators, and staff with the event and gate.
abbrev pub may_read : Staff → Text → Text → Db → Result (Unit {0})
may_read principal event_id gate d =
    if is_admin principal.role
    then ok tt
    else (if not (is_staff principal.role) then err forbidden else ok tt) then_ok λ _.
        ok (is_assigned principal.id event_id gate d) then_ok λ valid.
        if not valid then err forbidden else ok tt

pub Reads-authorize :
    (principal : Staff) (event_id gate : Text)
    → Reads (authorize_ticket_status_tx principal event_id gate) (may_read principal event_id gate)
unfolding authorize_ticket_status_tx
Reads-authorize principal event_id gate = Reads-if _ _ _ _ _ (Reads-pure tt) (
    Reads-bind _ _ _ _ (Reads-fail_if _ _)
      λ _. Reads-bind _ _ _ _ (Reads-query _) λ valid. Reads-fail_if _ _)
