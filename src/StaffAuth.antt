-- ===== src/StaffAuth.antt =====
-- backend/internal/staffauth/service.go: who a session token stands for, and what that staff may do.
-- `hash` is SHA-256 of a token and `now` the clock; row locks change no result and are left out.
pub mod Access
pub mod Accounts
pub mod Limiter
pub mod Windows
pub mod Lockout
pub mod Revoked
pub mod Examples
use ticket_online.Common.{
  ℕ, Bool, true, false, not, ◌&&◌, Option, none, some, List, [], ◌∷◌, length, select?, select, any,
  update, ltb, ◌==◌, ◌||◌, if◌then◌else◌, map,
}
use ticket_online.Common.Text.{Text, same, same_folded, less}
use ticket_online.Errors.{no_rows, unauthorized, forbidden}
use ticket_online.Sql.{
  autocommit, Action, pure, raise, query, query_stored, or_raise, on_no_rows, fail_if, begin, exec,
  commit, ◌>>=◌, ◌>>◌,
}
use ticket_online.Schema.{Role, staff, admin, StaffUser, StaffSession, StaffAssignment, Db}

pub record Assignment : Type 0 where
  pub event_id : Text
  pub gate : Text

pub record Staff : Type 0 where
  pub id : Text
  pub name : Text
  pub email : Text
  pub role : Role
  pub is_active : Bool
  pub assignments : List Assignment

abbrev pub is_admin : Role → Bool
is_admin admin = true
is_admin staff = false

abbrev pub is_staff : Role → Bool
is_staff admin = false
is_staff staff = true

-- The columns that the queries scan.
abbrev pub to_staff : StaffUser → Staff
to_staff u = record {
  id = u.id;
  name = u.name;
  email = u.email;
  role = u.role;
  is_active = u.is_active;
  assignments = [];
}

abbrev pub is_live : (Text → Text) → ℕ → Text → StaffSession → Bool
is_live hash now token s = same s.token_hash (hash token) && ltb now s.expires_at

-- staff_users WHERE id = ? AND active = TRUE
abbrev pub active_user : Text → List StaffUser → Option StaffUser
active_user id = select? λ u. same u.id id && u.is_active

abbrev user_of_session : List StaffUser → Option StaffSession → Option StaffUser
user_of_session users none = none
user_of_session users (some s) = active_user s.staff_id users

-- The active user of the token's unexpired session. The token's hash is the key of a session.
unfoldable pub signed_in : (Text → Text) → ℕ → Text → Db → Option StaffUser
signed_in hash now token d =
    user_of_session d.staff_users (select? (is_live hash now token) d.staff_sessions)

unfoldable pub authenticate : (Text → Text) → ℕ → Text → Action Db Staff
unfolding signed_in
authenticate hash now token = do
  fail_if (not (length token == 43)) unauthorized
  found ← query_stored (signed_in hash now token)
  user ← or_raise found unauthorized
  pure (to_staff user)

unfoldable pub authenticate_tx : (Text → Text) → ℕ → Text → Action Db Staff
unfolding signed_in
authenticate_tx hash now token = do
  fail_if (not (length token == 43)) unauthorized
  found ← query (signed_in hash now token)
  user ← or_raise found unauthorized
  session ←
      query
        (λ d. select? (λ s. is_live hash now token s && same s.staff_id user.id) d.staff_sessions)
  or_raise session unauthorized
  pure (to_staff user)

-- SELECT EXISTS(SELECT 1 FROM staff_assignments WHERE staff_id = ? AND event_id = ? AND gate = ?)
unfoldable pub is_assigned : Text → Text → Text → Db → Bool
is_assigned id event_id gate d =
    any (λ a. same a.staff_id id && same_folded a.event_id event_id && same_folded a.gate gate)
      d.staff_assignments

unfoldable pub authorize_gate_tx : (Text → Text) → ℕ → Text → Text → Text → Action Db Staff
unfolding authenticate_tx is_assigned
authorize_gate_tx hash now token event_id gate = do
  principal ← authenticate_tx hash now token
  fail_if (not (is_staff principal.role)) forbidden
  valid ← query (is_assigned principal.id event_id gate)
  fail_if (not valid) forbidden
  pure principal

unfoldable pub authorize_ticket_status_tx : Staff → Text → Text → Action Db (Unit {0})
unfolding is_assigned
authorize_ticket_status_tx principal event_id gate =
    if is_admin principal.role
    then pure tt
    else fail_if (not (is_staff principal.role)) forbidden
      >> (query (is_assigned principal.id event_id gate) >>= λ valid. fail_if (not valid) forbidden)

unfoldable pub authorize_gate : Staff → Text → Text → Action Db (Unit {0})
unfolding is_assigned
authorize_gate principal event_id gate = do
  fail_if (not (is_staff principal.role)) forbidden
  valid ← query_stored (is_assigned principal.id event_id gate)
  fail_if (not valid) forbidden

unfoldable pub logout : (Text → Text) → Text → Action Db (Unit {0})
logout hash token = do
  fail_if (same token []) unauthorized
  autocommit (λ d. (
    tt,
    record d {
      staff_sessions = select (λ s. not (same s.token_hash (hash token))) d.staff_sessions;
    },
  ))

-- ORDER BY event_id, gate.
abbrev insert_assignment : Assignment → List Assignment → List Assignment
insert_assignment a [] = a ∷ []
insert_assignment a (b ∷ bs) =
    let rest = insert_assignment a bs in
    if less b.event_id a.event_id || (same b.event_id a.event_id && less b.gate a.gate)
    then b ∷ rest
    else a ∷ b ∷ bs

abbrev order_assignments : List Assignment → List Assignment
order_assignments [] = []
order_assignments (a ∷ rest) = insert_assignment a (order_assignments rest)

abbrev to_assignment : StaffAssignment → Assignment
to_assignment a = record { event_id = a.event_id; gate = a.gate }

unfoldable pub assignments_of : Text → Db → List Assignment
assignments_of id d =
    order_assignments (map to_assignment (select (λ a. same a.staff_id id) d.staff_assignments))

unfoldable pub current : Staff → Action Db Staff
unfolding assignments_of
current principal = do
  found ← query_stored (assignments_of principal.id)
  pure (record principal { assignments = found })
