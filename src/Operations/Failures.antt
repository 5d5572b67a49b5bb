-- ===== src/Operations/Failures.antt =====
-- Consecutive failures of a worker, and when the workers' alerts are silent.
use ticket_online.Common.{
  ℕ, suc, ◌≡◌, refl, ap, ◌∙◌, inl, inr, Bool, true, false, List, [], ◌∷◌, arith, if◌then◌else◌,
  Bool-cases,
}
use ticket_online.Common.Text.{Text, same, same_iff}
use ticket_online.Operations.{
  Worker, Tracker, new_tracker, begin, register, finish, begin_worker, register_worker,
  finish_worker, change, worker_at, put_worker,
}

-- A call of the tracker about one worker: `finishes at failed`.
pub data Call : Type 0 where
  registers begins : ℕ → Call
  finishes : ℕ → Bool → Call

unfoldable pub step : Text → Call → Tracker → Tracker
step name (registers at) t = register name at t
step name (begins at) t = begin name at t
step name (finishes at failed) t = finish name at failed t

unfoldable pub run : List (Text × Call) → Tracker → Tracker
unfolding step
run [] t = t
run ((name, c) ∷ cs) t = run cs (step name c t)

abbrev after_call : ℕ → Call → ℕ
after_call n (finishes at true) = suc n
after_call n (finishes at false) = 0
after_call n _ = n

-- The failed batches of one worker since its last successful one, with `n` before the history.
unfoldable pub streak : Text → ℕ → List (Text × Call) → ℕ
streak name n [] = n
streak name n ((other, c) ∷ cs) = streak name (if same other name then after_call n c else n) cs

worker_at-put_worker :
    (name other : Text) (v : Worker) (ws : List (Text × Worker))
    → worker_at name (put_worker other v ws) ≡ (if same other name then v else worker_at name ws)
unfolding worker_at put_worker
worker_at-put_worker name other v [] = refl
worker_at-put_worker name other v ((n, w) ∷ ws) = ground (
  arith,
  same_iff other name,
  same_iff n other,
  same_iff n name,
  worker_at-put_worker name other v ws,
)

abbrev failures_of : Text → Tracker → ℕ
failures_of name t = (worker_at name t.workers).consecutive_failures

-- Changing a worker changes its own counter only.
failures_of-change :
    (name other : Text) (f : Worker → Worker) (g : ℕ → ℕ) (t : Tracker)
    → ((w : Worker) → (f w).consecutive_failures ≡ g w.consecutive_failures)
    → failures_of name (change other f t)
      ≡ (if same other name then g (failures_of name t) else failures_of name t)
unfolding change
failures_of-change name other f g t e =
    ap (λ (w : Worker). w.consecutive_failures)
      (worker_at-put_worker name other (f (worker_at other t.workers)) t.workers)
    ∙ elim (Bool-cases (same other name)) [
      | inl this ↦ rw (this, (same_iff _ _).0 this) (e (worker_at name t.workers))
      | inr apart ↦ rw apart
    ]

failures_of-step :
    (name other : Text) (c : Call) (t : Tracker)
    → failures_of name (step other c t)
      ≡ (if same other name then after_call (failures_of name t) c else failures_of name t)
unfolding step begin register finish begin_worker register_worker finish_worker
failures_of-step name other (registers at) t =
    failures_of-change name other (register_worker other at) (λ n. n) t (λ w. refl)
failures_of-step name other (begins at) t =
    failures_of-change name other (begin_worker other at) (λ n. n) t (λ w. refl)
failures_of-step name other (finishes at true) t =
    failures_of-change name other (finish_worker other at true) suc t (λ w. refl)
failures_of-step name other (finishes at false) t =
    failures_of-change name other (finish_worker other at false) (λ n. 0) t (λ w. refl)

run-streak :
    (name : Text) (cs : List (Text × Call)) (t : Tracker)
    → failures_of name (run cs t) ≡ streak name (failures_of name t) cs
unfolding run streak
run-streak name [] t = refl
run-streak name ((other, c) ∷ cs) t =
    run-streak name cs (step other c t)
    ∙ ap (λ n. streak name n cs) (failures_of-step name other c t)

-- After any calls on a new tracker, a worker's counter is the number of its failed batches since its
-- last successful one; calls about other workers leave it alone.
pub consecutive_failures-streak :
    (launched : ℕ) (name : Text) (cs : List (Text × Call))
    → (worker_at name (run cs (new_tracker launched)).workers).consecutive_failures
      ≡ streak name 0 cs
unfolding new_tracker worker_at
consecutive_failures-streak launched name cs = run-streak name cs (new_tracker launched)
