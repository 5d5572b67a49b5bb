-- ===== src/StaffAuth/Windows.antt =====
-- Windows of the login limiter as a map (staffauth/service.go, loginLimiter).
use ticket_online.Common.{
  ℕ, suc, ◌≤◌, ◌≡◌, refl, Bool, true, false, List, [], ◌∷◌, length, select, arith, Bool-cases,
  if◌then◌else◌, inl, inr,
}
use ticket_online.Common.Text.{Text, same, same_iff, same_refl}
use ticket_online.StaffAuth.Limiter.{
  LimitWindow, Limiter, is_before, zero_window, window_at, has_window, put_window, prune,
}

pub window_at-put_same :
    (k : Text) (w : LimitWindow) (l : Limiter) → window_at k (put_window k w l) ≡ w
unfolding window_at put_window
window_at-put_same k w [] = rw (same_refl k) refl
window_at-put_same k w ((j, v) ∷ l) = elim (Bool-cases (same j k)) [
  | inl hit ↦ rw hit (rw hit refl)
  | inr miss ↦ rw miss (rw miss (window_at-put_same k w l))
]

pub window_at-put_other :
    (i k : Text) (w : LimitWindow) (l : Limiter)
    → same k i ≡ false
    → window_at i (put_window k w l) ≡ window_at i l
unfolding window_at put_window
window_at-put_other i k w [] n = rw n refl
window_at-put_other i k w ((j, v) ∷ l) n = elim (Bool-cases (same j k)) [
  | inl hit ↦ let other : same j i ≡ false = ground (arith, same_iff j k) in rw hit (rw other refl)
  | inr miss ↦ rw miss (ground (arith, window_at-put_other i k w l n))
]

pub window_at-prune :
    (k : Text) (now : ℕ) (l : Limiter)
    → is_before now (window_at k l).until ≡ true
    → window_at k (prune now l) ≡ window_at k l
unfolding window_at prune
window_at-prune k now [] h = refl
window_at-prune k now ((j, v) ∷ l) h = elim (Bool-cases (same j k)) [
  | inl hit ↦ let live : is_before now v.until ≡ true = rw hit at h in rw (live, hit) refl
  | inr miss ↦
      let rest : window_at k (select (λ e. is_before now e.1.until) l) ≡ window_at k l =
        window_at-prune k now l (rw miss at h) in
      elim (Bool-cases (is_before now v.until)) [
        | inl live ↦ rw live (rw miss rest)
        | inr dead ↦ rw (dead, miss) rest
      ]
]

pub window_at-missing :
    (k : Text) (l : Limiter) → has_window k l ≡ false → window_at k l ≡ zero_window
unfolding window_at has_window
window_at-missing k [] h = refl
window_at-missing k ((j, v) ∷ l) h = ground (arith, window_at-missing k l)

pub length-put :
    (k : Text) (w : LimitWindow) (l : Limiter)
    → length (put_window k w l) ≡ (if has_window k l then length l else suc (length l))
unfolding put_window has_window
length-put k w [] = refl
length-put k w ((j, v) ∷ l) = ground (arith, length-put k w l)

pub length-select {ℓ} : {A : Type ℓ} (p : A → Bool) (xs : List A) → length (select p xs) ≤ length xs
length-select p [] = omega arith
length-select p (x ∷ xs) = ground (arith, length-select p xs)

pub has_window-prune :
    (k : Text) (now : ℕ) (l : Limiter) → has_window k l ≡ false → has_window k (prune now l) ≡ false
unfolding has_window prune
has_window-prune k now [] h = refl
has_window-prune k now ((j, v) ∷ l) h = ground (arith, has_window-prune k now l)

pub has_window-put_other :
    (i k : Text) (w : LimitWindow) (l : Limiter)
    → same k i ≡ false
    → has_window i (put_window k w l) ≡ has_window i l
unfolding has_window put_window
has_window-put_other i k w [] n = rw n refl
has_window-put_other i k w ((j, v) ∷ l) n = elim (Bool-cases (same j k)) [
  | inl hit ↦ let other : same j i ≡ false = ground (arith, same_iff j k) in rw hit (rw other refl)
  | inr miss ↦ rw miss (ground (arith, has_window-put_other i k w l n))
]
