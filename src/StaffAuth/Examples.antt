-- ===== src/StaffAuth/Examples.antt =====
-- Runs of staff accounts and of the login limiter.
use ticket_online.Common.{
  true, false, ◌≢◌, refl, none, some, Option, ℕ, List, [], ◌∷◌, ◌≤◌, arith, length, inl,
}
use ticket_online.Common.Text.{Text, text, same}
use ticket_online.Sql.{
  Session, ◌>>=◌, begin, commit, query, or_raise, fail_if, pure, exec, statement,
}
use ticket_online.Schema.{staff, StaffUser, Db, empty_db}
use ticket_online.StaffAuth.{authenticate_tx, signed_in, to_staff}
use ticket_online.StaffAuth.Accounts.{update_staff, lock_staff, rename, set_active}
use ticket_online.StaffAuth.Lockout.{allowed, failed, succeeded, after_all, after_all-le}
use ticket_online.StaffAuth.Revoked.{deactivated_or_reset_shut_out}

abbrev hash : Text → Text
hash t = t

abbrev host : Text → Option Text
host t = none

abbrev email : Text
email = text "sam@x.id"

after_all-le_example :
    length (
      after_all host
        (allowed (text "1.2.3.4") email 1 ∷ failed (text "1.2.3.4") email 2 ∷ succeeded email ∷ [])
        [])
    ≤ 10000
after_all-le_example =
    after_all-le host
      (allowed (text "1.2.3.4") email 1 ∷ failed (text "1.2.3.4") email 2 ∷ succeeded email ∷ []) []
      (omega arith)

-- Failures a minute apart, the last from another peer.
abbrev failures : List (Text × ℕ)
failures =
    (text "1.2.3.4", 60000000)
    ∷ (text "1.2.3.4", 120000000)
    ∷ (text "1.2.3.4", 180000000)
    ∷ (text "1.2.3.4", 240000000)
    ∷ (text "5.6.7.8", 300000000)
    ∷ []

abbrev token : Text
token = text "0123456789012345678901234567890123456789abc"

abbrev member : Text → StaffUser
member id = record {
  id = id;
  name = text "Sam";
  email = email;
  password_hash = [];
  role = staff;
  is_active = true;
}

abbrev office : Session Db
office = record {
  stored = record empty_db {
    staff_users = member (text "s1") ∷ member (text "s2") ∷ [];
    staff_sessions =
        record { token_hash = text "t"; staff_id = text "s1"; expires_at = 500 }
        ∷ record { token_hash = token; staff_id = text "s2"; expires_at = 500 }
        ∷ [];
  };
  working = empty_db;
  remaining = none;
}

abbrev later : Session Db
later = record {
  stored = empty_db;
  working = (update_staff (text "s1") none (some false) office).1.stored;
  remaining = none;
}

-- The other member stays signed in.
deactivated_or_reset_shut_out_example : (to_staff (member (text "s2"))).id ≢ text "s1"
unfolding update_staff authenticate_tx signed_in same ◌>>=◌ begin commit query or_raise fail_if pure
    exec statement lock_staff rename set_active
deactivated_or_reset_shut_out_example =
    deactivated_or_reset_shut_out hash 100 token (text "s1") [] [] none office later
      (to_staff (member (text "s2"))) (inl (refl, refl)) refl
