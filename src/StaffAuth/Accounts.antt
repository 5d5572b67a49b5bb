-- ===== src/StaffAuth/Accounts.antt =====
-- backend/internal/staffauth/service.go: the accounts that administrators keep. `now` is the clock,
-- `id` and `hashed` what newID and hashPassword return, and `address` is mail.ParseAddress.
use mathlib.Core.Option
use ticket_online.Common.{
  Bool, true, false, not, ◌&&◌, ◌||◌, Option, none, some, List, [], ◌∷◌, ◌++◌, map, length, select?,
  select, any, update, ltb, ◌==◌, if◌then◌else◌,
}
use ticket_online.Common.Text.{Text, same, same_folded, trim_space, to_lower}
use ticket_online.Errors.{
  driver, invalid_input, not_found, forbidden, duplicate_email, admin_exists,
}
use ticket_online.Sql.{
  Action, pure, query, or_raise, fail_if, begin, exec, exec_checked, commit, ◌>>=◌, ◌>>◌,
}
use ticket_online.Schema.{Role, staff, admin, StaffUser, StaffAssignment, Db}
use ticket_online.StaffAuth.{Assignment, Staff, is_staff, is_admin}

unfoldable pub normalize_email : Text → Text
normalize_email email = to_lower (trim_space email)

abbrev bad_name : Text → Bool
bad_name name = ltb (length name) 2 || ltb 80 (length name)

-- strings.Contains(strings.SplitN(email, "@", 2)[1], "."), of an address with an at sign.
abbrev pub dot_after : Text → Bool
dot_after [] = false
dot_after (c ∷ s) = if c == 64 then any (λ b. b == 46) s else dot_after s

abbrev pub is_address : (Text → Option Text) → Text → Bool
is_address address email = elim (address email) [ none ↦ false | some a ↦ same a email ]

unfoldable pub validate_identity : (Text → Option Text) → Text → Text → Option (Text × Text)
unfolding normalize_email
validate_identity address raw_name raw_email =
    let name = trim_space raw_name in
    let email = normalize_email raw_email in
    if bad_name name
      || ltb 254 (length email)
      || not (is_address address email)
      || not (dot_after email)
    then none
    else some (name, email)

unfoldable pub is_valid_password : Text → Bool
is_valid_password password = not (ltb (length password) 12 || ltb 128 (length password))

unfoldable pub normalize_assignments : List Assignment → List Assignment
normalize_assignments =
    map λ a. record { event_id = trim_space a.event_id; gate = trim_space a.gate }

abbrev same_assignment : Assignment → Assignment → Bool
same_assignment a b = same a.event_id b.event_id && same a.gate b.gate

abbrev has_gate : Assignment → Db → Bool
has_gate a d = any (λ t. same_folded t.event_id a.event_id && same_folded t.gate a.gate) d.tiers

abbrev bad_assignment : Assignment → List Assignment → Bool
bad_assignment a seen =
    same a.event_id []
    || same a.gate []
    || ltb 64 (length a.event_id)
    || ltb 100 (length a.gate)
    || any (same_assignment a) seen

-- `seen` holds the assignments before.
unfoldable pub validate_assignments : List Assignment → List Assignment → Action Db (Unit {0})
validate_assignments seen [] = pure tt
validate_assignments seen (raw ∷ rest) =
    let a : Assignment = record {
      event_id = trim_space raw.event_id;
      gate = trim_space raw.gate;
    } in
    fail_if (bad_assignment a seen) invalid_input
    >> (query (has_gate a) >>= λ exists.
        fail_if (not exists) invalid_input >> validate_assignments (a ∷ seen) rest)

abbrev pub drop_assignments : Text → Db → Db
drop_assignments id d = record d {
  staff_assignments = select (λ a. not (same a.staff_id id)) d.staff_assignments;
}

-- The primary key of staff_assignments.
unfoldable pub write_assignment : StaffAssignment → Db → Option Db
write_assignment a d =
    if any
      (λ b.
        same b.staff_id a.staff_id
        && same_folded b.event_id a.event_id
        && same_folded b.gate a.gate)
      d.staff_assignments
    then none
    else some (record d { staff_assignments = d.staff_assignments ++ a ∷ [] })

unfoldable pub insert_assignments : Text → List Assignment → Action Db (Unit {0})
unfolding write_assignment
insert_assignments id [] = pure tt
insert_assignments id (a ∷ rest) =
    exec_checked driver (
      write_assignment
        (record { staff_id = id; event_id = trim_space a.event_id; gate = trim_space a.gate }))
    >> insert_assignments id rest

unfoldable pub replace_rows : Text → List Assignment → Action Db (Unit {0})
unfolding insert_assignments
replace_rows id assignments = exec (drop_assignments id) >> insert_assignments id assignments

-- The keys of staff_users: the id and the e-mail address.
unfoldable pub write_user : StaffUser → Db → Option Db
write_user u d =
    if any (λ v. same v.id u.id || same v.email u.email) d.staff_users
    then none
    else some (record d { staff_users = d.staff_users ++ u ∷ [] })

abbrev pub new_user : Text → Text × Text → Text → Role → StaffUser
new_user id who hashed role = record {
  id = id;
  name = who.0;
  email = who.1;
  password_hash = hashed;
  role = role;
  is_active = true;
}

unfoldable pub create_staff :
    (Text → Option Text) → Text → Text → Text → Text → Text → List Assignment → Action Db Staff
unfolding replace_rows write_user
create_staff address id hashed name email password assignments = do
  who ← or_raise (validate_identity address name email) invalid_input
  fail_if (not (is_valid_password password)) invalid_input
  let assigned = normalize_assignments assignments
  begin
  validate_assignments [] assigned
  exec_checked duplicate_email (write_user (new_user id who hashed staff))
  replace_rows id assigned
  commit
  pure (record {
    id = id;
    name = who.0;
    email = who.1;
    role = staff;
    is_active = true;
    assignments = assigned;
  })

abbrev pub role_of : Text → Db → Option Role
role_of id d = Option.map (λ u. u.role) (select? (λ u. same u.id id) d.staff_users)

-- The account that an administrator edits: it exists, and is not an administrator's.
unfoldable pub lock_staff : Text → Action Db (Unit {0})
lock_staff id = do
  found ← query (role_of id)
  role ← or_raise found not_found
  fail_if (not (is_staff role)) forbidden

abbrev pub set_user : Text → (StaffUser → StaffUser) → Db → Db
set_user id f d = record d { staff_users = update (λ u. same u.id id) f d.staff_users }

abbrev pub revoke : Text → Db → Db
revoke id d = record d { staff_sessions = select (λ s. not (same s.staff_id id)) d.staff_sessions }

unfoldable pub rename : Text → Option Text → Action Db (Unit {0})
rename id none = pure tt
rename id (some name) = exec (set_user id (λ u. record u { name = name }))

unfoldable pub set_active : Text → Option Bool → Action Db (Unit {0})
set_active id none = pure tt
set_active id (some true) = exec (set_user id (λ u. record u { is_active = true }))
set_active id (some false) =
    exec (set_user id (λ u. record u { is_active = false })) >> exec (revoke id)

abbrev has_none : {A : Type 0} → Option A → Bool
has_none none = true
has_none (some a) = false

abbrev bad_rename : Option Text → Bool
bad_rename none = false
bad_rename (some name) = bad_name name

unfoldable pub update_staff : Text → Option Text → Option Bool → Action Db (Unit {0})
unfolding lock_staff rename set_active
update_staff id raw_name is_active = do
  let name = Option.map trim_space raw_name
  fail_if ((has_none name && has_none is_active) || bad_rename name) invalid_input
  begin
  lock_staff id
  rename id name
  set_active id is_active
  commit

unfoldable pub replace_assignments : Text → Option (List Assignment) → Action Db (Unit {0})
unfolding lock_staff validate_assignments replace_rows
replace_assignments id given = do
  assignments ← or_raise given invalid_input
  let assigned = normalize_assignments assignments
  begin
  lock_staff id
  validate_assignments [] assigned
  replace_rows id assigned
  commit

unfoldable pub reset_password : Text → Text → Text → Action Db (Unit {0})
unfolding lock_staff
reset_password id hashed password = do
  fail_if (not (is_valid_password password)) invalid_input
  begin
  lock_staff id
  exec (set_user id (λ u. record u { password_hash = hashed }))
  exec (revoke id)
  commit

-- One connection holds a lock of its own, and its INSERT is stored at once. `acquired` is what
-- GET_LOCK answers.
unfoldable pub bootstrap_admin :
    (Text → Option Text) → Text → Text → Bool → Text → Text → Text → Action Db (Unit {0})
unfolding write_user
bootstrap_admin address id hashed acquired name email password = do
  who ← or_raise (validate_identity address name email) invalid_input
  fail_if (not (is_valid_password password)) invalid_input
  fail_if (not acquired) driver
  begin
  taken ← query (λ d. any (λ u. is_admin u.role) d.staff_users)
  fail_if taken admin_exists
  exec_checked duplicate_email (write_user (new_user id who hashed admin))
  commit
