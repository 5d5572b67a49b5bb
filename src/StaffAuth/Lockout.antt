-- ===== src/StaffAuth/Lockout.antt =====
-- What the login limiter (staffauth/service.go) promises over sequences of its calls.
use ticket_online.Common.{
  if◌then◌else◌, ℕ, ◌+◌, ◌*◌, ◌≤◌, ◌<◌, ◌≡◌, false, not, Option, some, List, [], ◌∷◌, length, arith,
  Bool-cases, inl, inr,
}
use ticket_online.Common.Text.{Text, same}
use ticket_online.Errors.{Error, credentials}
use ticket_online.StaffAuth.Accounts.{normalize_email}
use ticket_online.StaffAuth.Limiter.{
  LimitWindow, Limiter, minute, is_before, window_at, has_window, prune, email_key, allow,
  allow_peer, failure, failed_login, fail_window, success, counted, renewed,
}
use ticket_online.StaffAuth.Windows.{window_at-missing, length-put, length-select}

pub data Use : Type 0 where
  allowed : Text → Text → ℕ → Use
  failed : Text → Text → ℕ → Use
  succeeded : Text → Use

unfoldable pub after : (Text → Option Text) → Use → Limiter → Limiter
unfolding allow failure success
after host (allowed remote email now) l = (allow host remote email now l).1
after host (failed remote email now) l = (failure host remote email now credentials l).1
after host (succeeded email) l = success email l

unfoldable pub after_all : (Text → Option Text) → List Use → Limiter → Limiter
unfolding after
after_all host [] l = l
after_all host (u ∷ us) l = after_all host us (after host u l)

allow_peer-le :
    (ip email : Text) (now : ℕ) (l : Limiter)
    → length l ≤ 10000
    → length (allow_peer ip email now l).1 ≤ 10000
allow_peer-le ip email now l h =
    let put = length-put ip (counted (renewed minute now (window_at ip l))) l in
    elim (Bool-cases (has_window ip l)) [
      | inl known ↦ ground (arith, put)
      | inr fresh ↦ ground (arith, put, window_at-missing ip l fresh)
    ]

fail_window-le :
    (key : Text) (now : ℕ) (e : Error) (l : Limiter)
    → length l ≤ 10000
    → length (fail_window key now e l).1 ≤ 10000
fail_window-le key now e l h =
    ground (arith, length-put key (counted (renewed (15 * minute) now (window_at key l))) l)

-- The limiter never holds more than 10000 windows, whatever calls it gets.
pub after_all-le :
    (host : Text → Option Text) (us : List Use) (l : Limiter)
    → length l ≤ 10000
    → length (after_all host us l) ≤ 10000
unfolding after_all prune
after_all-le host [] l h = h
after_all-le host (allowed remote email now ∷ us) l h = after_all-le host us _ (
    allow_peer-le _ _ now (prune now l)
      (omega (arith, length-select (λ (e : Text × LimitWindow). is_before now e.1.until) l)))
after_all-le host (failed remote email now ∷ us) l h = after_all-le host us _ (
    fail_window-le _ now _ (prune now l)
      (omega (arith, length-select (λ (e : Text × LimitWindow). is_before now e.1.until) l)))
after_all-le host (succeeded email ∷ us) l h = after_all-le host us _ (
    unfold success in
    omega (
      arith,
      length-select (λ (e : Text × LimitWindow). not (same e.0 (email_key (normalize_email email))))
          l,
    ))

-- How many of an address's failing logins, each from a peer at a time, are let through.
unfoldable pub tries : (Text → Option Text) → Text → List (Text × ℕ) → Limiter → ℕ
unfolding failed_login
tries host email [] l = 0
tries host email ((remote, now) ∷ fs) l =
    let (through, l1) = failed_login host remote email now l in
    (if through then 1 else 0) + tries host email fs l1

abbrev pub AllBefore : ℕ → List (Text × ℕ) → Type 0
AllBefore until [] = Unit {0}
AllBefore until ((remote, now) ∷ fs) = (now < until) × AllBefore until fs

abbrev failing : ℕ → ℕ → LimitWindow
failing n until = record { count = n; until = some until }

module _ (host : Text → Option Text) (email : Text) (spelled : normalize_email email ≡ email)
    (given : same email [] ≡ false) where
  abbrev key : Text
  key = email_key email
