-- ===== src/StaffAuth/Limiter.antt =====
-- backend/internal/staffauth/service.go, loginLimiter: how often a peer may try to log in. Each
-- method holds the mutex from its first use of the windows to its end. `host` is net.SplitHostPort.
use ticket_online.Common.{
  ℕ, ◌+◌, ◌*◌, Bool, true, false, not, ◌&&◌, ◌||◌, Option, none, some, List, [], ◌∷◌, ◌++◌, length,
  select, any, ltb, leb, if◌then◌else◌,
}
use ticket_online.Common.Text.{Text, text, same}
use ticket_online.Errors.{Error, rate_limited, credentials}
use ticket_online.StaffAuth.Accounts.{normalize_email}

-- The zero `until` is `none`.
pub record LimitWindow : Type 0 where
  pub count : ℕ
  pub until : Option ℕ

abbrev pub Limiter : Type 0
Limiter = List (Text × LimitWindow)

abbrev pub minute : ℕ
minute = 60000000

-- now.Before(until)
abbrev pub is_before : ℕ → Option ℕ → Bool
is_before now none = false
is_before now (some until) = ltb now until

abbrev pub zero_window : LimitWindow
zero_window = record { count = 0; until = none }

unfoldable pub window_at : Text → Limiter → LimitWindow
window_at key [] = zero_window
window_at key ((k, w) ∷ l) = if same k key then w else window_at key l

unfoldable pub has_window : Text → Limiter → Bool
has_window key l = any (λ e. same e.0 key) l

unfoldable pub put_window : Text → LimitWindow → Limiter → Limiter
put_window key w [] = (key, w) ∷ []
put_window key w ((k, v) ∷ l) =
    let rest = put_window key w l in if same k key then (k, w) ∷ l else (k, v) ∷ rest

unfoldable pub prune : ℕ → Limiter → Limiter
prune now = select λ e. is_before now e.1.until

abbrev or_remote : Text → Option Text → Text
or_remote remote none = remote
or_remote remote (some h) = h

unfoldable pub source_ip : (Text → Option Text) → Text → Text
source_ip host remote = or_remote remote (host remote)

abbrev pub peer_of : (Text → Option Text) → Text → Text
peer_of host remote =
    if same (source_ip host remote) [] then text "unknown" else source_ip host remote

abbrev pub ip_key : Text → Text
ip_key peer = text "ip:" ++ peer

abbrev pub email_key : Text → Text
email_key email = text "email:" ++ email

abbrev pub is_full : ℕ → ℕ → LimitWindow → Bool
is_full limit now w = is_before now w.until && leb limit w.count

-- `if !now.Before(w.until) { w = limitWindow{until: now.Add(d)} }`
abbrev pub renewed : ℕ → ℕ → LimitWindow → LimitWindow
renewed d now w = if is_before now w.until then w else record { count = 0; until = some (now + d) }

abbrev pub counted : LimitWindow → LimitWindow
counted w = record w { count = w.count + 1 }

abbrev is_zero : Option ℕ → Bool
is_zero none = true
is_zero (some t) = false

abbrev pub allow_peer : Text → Text → ℕ → Limiter → Bool × Limiter
allow_peer ip email now l =
    if is_full 30 now (window_at ip l)
      || is_full 5 now (window_at email l)
      || (leb 10000 (length l) && is_zero (window_at ip l).until)
    then (false, l)
    else (true, put_window ip (counted (renewed minute now (window_at ip l))) l)

unfoldable pub allow : (Text → Option Text) → Text → Text → ℕ → Limiter → Bool × Limiter
unfolding prune source_ip
allow host remote email now l =
    allow_peer (ip_key (peer_of host remote)) (email_key email) now (prune now l)

-- The window that a failure counts in: the address's, or the peer's if there is none.
abbrev pub failure_key : (Text → Option Text) → Text → Text → Text
failure_key host remote email =
    let key = email_key (normalize_email email) in
    if same email [] then key ++ text "@" ++ peer_of host remote else key

abbrev pub fail_window : Text → ℕ → Error → Limiter → Error × Limiter
fail_window key now result l =
    if not (has_window key l) && leb 10000 (length l)
    then (rate_limited, l)
    else let w = counted (renewed (15 * minute) now (window_at key l)) in
      (if leb 5 w.count then rate_limited else result, put_window key w l)

unfoldable pub failure : (Text → Option Text) → Text → Text → ℕ → Error → Limiter → Error × Limiter
unfolding prune source_ip
failure host remote email now result l =
    fail_window (failure_key host remote email) now result (prune now l)

unfoldable pub success : Text → Limiter → Limiter
success email = select λ e. not (same e.0 (email_key (normalize_email email)))

-- The limiter's part of Login for an address that does not sign in: whether Allow lets it through to
-- the password, and the windows after Failure has counted it.
unfoldable pub failed_login : (Text → Option Text) → Text → Text → ℕ → Limiter → Bool × Limiter
unfolding allow failure
failed_login host remote raw_email now l =
    let email = normalize_email raw_email in
    let (through, l1) = allow host remote email now l in
    if through then (true, (failure host remote email now credentials l1).1) else (false, l1)
