-- ===== src/Operations/Window.antt =====
-- The sliding window of server failures.
use ticket_online.Common.{
  ℕ, ◌+◌, ◌≤◌, ◌≡◌, refl, inl, inr, ◌&&◌, List, [], ◌∷◌, ◌++◌, length, arith, leb, ltb,
  if◌then◌else◌, Bool-cases, All,
}
use ticket_online.Operations.{Tracker, new_tracker, window, drop_old, request, snapshot}

-- A request's status and time.
abbrev pub Served : Type 0
Served = ℕ × ℕ

unfoldable pub serve : List Served → Tracker → Tracker
serve [] t = t
serve ((status, at) ∷ rs) t = serve rs (request status at t)

-- Times do not fall, from `from` on and up to `now`.
abbrev pub InOrder : ℕ → List Served → ℕ → Type 0
InOrder from [] now = from ≤ now
InOrder from ((status, at) ∷ rs) now = (from ≤ at) × InOrder at rs now

-- The failures of a history that are at most five minutes old at `now`.
unfoldable pub recent : ℕ → List Served → ℕ
recent now [] = 0
recent now ((status, at) ∷ rs) =
    (if leb 500 status && leb now (at + window) then 1 else 0) + recent now rs

abbrev Sorted : List ℕ → Type 0
Sorted [] = Unit {0}
Sorted (f ∷ fs) = All (λ g. f ≤ g) fs × Sorted fs

-- The failures of a log that a cutoff keeps.
kept : ℕ → List ℕ → ℕ
kept now [] = 0
kept now (f ∷ fs) = (if leb now (f + window) then 1 else 0) + kept now fs

kept_whole :
    (now f : ℕ) (fs : List ℕ) → now ≤ f + window → All (λ g. f ≤ g) fs → kept now fs ≡ length fs
unfolding kept
kept_whole now f [] h a = refl
kept_whole now f (g ∷ gs) h a = ground (arith, kept_whole now f gs h a.1)

-- On a sorted log the loop keeps exactly what is recent.
length-drop_old : (now : ℕ) (fs : List ℕ) → Sorted fs → length (drop_old now fs) ≡ kept now fs
unfolding drop_old kept
length-drop_old now [] s = refl
length-drop_old now (f ∷ fs) s = ground (arith, length-drop_old now fs s.1, kept_whole now f fs)

All-drop_old {ℓ} : (P : ℕ → Type ℓ) (now : ℕ) (fs : List ℕ) → All P fs → All P (drop_old now fs)
unfolding drop_old
All-drop_old P now [] a = tt
All-drop_old P now (f ∷ fs) a = elim (Bool-cases (ltb (f + window) now)) [
  | inl old ↦ rw old (All-drop_old P now fs a.1)
  | inr new ↦ rw new a
]

drop_old-Sorted : (now : ℕ) (fs : List ℕ) → Sorted fs → Sorted (drop_old now fs)
unfolding drop_old
drop_old-Sorted now [] s = tt
drop_old-Sorted now (f ∷ fs) s = elim (Bool-cases (ltb (f + window) now)) [
  | inl old ↦ rw old (drop_old-Sorted now fs s.1)
  | inr new ↦ rw new s
]

-- A later cutoff sees in the shortened log what it sees in the whole one.
kept-drop_old :
    (now later : ℕ) (fs : List ℕ) → now ≤ later → kept later (drop_old now fs) ≡ kept later fs
unfolding drop_old kept
kept-drop_old now later [] h = refl
kept-drop_old now later (f ∷ fs) h = ground (arith, kept-drop_old now later fs h)

kept-append : (now : ℕ) (fs gs : List ℕ) → kept now (fs ++ gs) ≡ kept now fs + kept now gs
unfolding kept
kept-append now [] gs = omega arith
kept-append now (f ∷ fs) gs = omega (arith, kept-append now fs gs)

All-append {ℓ} : (P : ℕ → Type ℓ) (fs : List ℕ) (g : ℕ) → All P fs → P g → All P (fs ++ g ∷ [])
All-append P [] g a p = (p, tt)
All-append P (f ∷ fs) g a p = (a.0, All-append P fs g a.1 p)

append-Sorted : (fs : List ℕ) (g : ℕ) → Sorted fs → All (λ f. f ≤ g) fs → Sorted (fs ++ g ∷ [])
append-Sorted [] g s a = (tt, tt)
append-Sorted (f ∷ fs) g s a = (All-append _ fs g s.0 a.0, append-Sorted fs g s.1 a.1)

All-le : (m n : ℕ) (fs : List ℕ) → m ≤ n → All (λ f. f ≤ m) fs → All (λ f. f ≤ n) fs
All-le m n [] h a = tt
All-le m n (f ∷ fs) h a = (omega (arith, a.0), All-le m n fs h a.1)

le_of_InOrder : (from : ℕ) (rs : List Served) (now : ℕ) → InOrder from rs now → from ≤ now
le_of_InOrder from [] now o = o
le_of_InOrder from ((status, at) ∷ rs) now o = omega (arith, o.0, le_of_InOrder at rs now o.1)

request_step :
    (from status at now : ℕ) (t : Tracker)
    → from ≤ at
    → at ≤ now
    → Sorted t.server_failures
    → All (λ f. f ≤ from) t.server_failures
    → (Sorted (request status at t).server_failures)
      × All (λ f. f ≤ at) (request status at t).server_failures
      × (kept now (request status at t).server_failures
          ≡ kept now t.server_failures + (if leb 500 status && leb now (at + window) then 1 else 0))
unfolding request
request_step from status at now t h k s a =
    let old = t.server_failures in
    let later = All-le from at old h a in
    elim (Bool-cases (ltb status 500)) [
      | inl fine ↦ rw fine (s, later, ground arith)
      | inr failed ↦ rw failed (
        drop_old-Sorted at _ (append-Sorted old at s later),
        All-drop_old _ at _ (All-append _ old at later (omega arith)),
        unfold kept in
            ground (arith, kept-drop_old at now (old ++ at ∷ []) k, kept-append now old (at ∷ [])),
      )
    ]

serve-kept :
    (from : ℕ) (rs : List Served) (now : ℕ) (t : Tracker)
    → InOrder from rs now
    → Sorted t.server_failures
    → All (λ f. f ≤ from) t.server_failures
    → (Sorted (serve rs t).server_failures)
      × (kept now (serve rs t).server_failures ≡ kept now t.server_failures + recent now rs)
unfolding serve recent
serve-kept from [] now t o s a = (s, omega arith)
serve-kept from ((status, at) ∷ rs) now t o s a =
    let (s', a', e) = request_step from status at now t o.0 (le_of_InOrder at rs now o.1) s a in
    let (sorted, e') = serve-kept at rs now (request status at t) o.1 s' a' in
    (sorted, omega (arith, e, e'))

-- Requests in the order of their times, then a snapshot: it counts exactly the responses with a
-- status of 500 or more of the last five minutes.
pub snapshot-recent :
    (launched now : ℕ) (rs : List Served)
    → InOrder launched rs now
    → (snapshot now (serve rs (new_tracker launched))).failures ≡ recent now rs
unfolding snapshot new_tracker kept
snapshot-recent launched now rs o =
    let (s, e) = serve-kept launched rs now (new_tracker launched) o tt tt in
    omega (arith, length-drop_old now (serve rs (new_tracker launched)).server_failures s, e)
