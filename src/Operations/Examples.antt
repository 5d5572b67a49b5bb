-- ===== src/Operations/Examples.antt =====
-- Runs of the tracker.
use ticket_online.Common.{◌≡◌, refl, true, false, List, [], ◌∷◌, arith}
use ticket_online.Common.Text.{Text, text, same}
use ticket_online.Operations.{new_tracker, worker_at, snapshot}
use ticket_online.Operations.Window.{Served, serve, recent, snapshot-recent}
use ticket_online.Operations.Failures.{
  Call, begins, finishes, run, streak, consecutive_failures-streak,
}

-- A failure at 1 s, a success, a failure at 250 s.
abbrev served : List Served
served = (500, 1000000) ∷ (200, 2000000) ∷ (503, 250000000) ∷ []

snapshot-recent_example :
    (snapshot 302000000 (serve served (new_tracker 0))).failures ≡ recent 302000000 served
snapshot-recent_example =
    snapshot-recent 0 302000000 served (omega arith, (omega arith, (omega arith, omega arith)))

one_recent : recent 302000000 served ≡ 1
unfolding recent
one_recent = refl

abbrev batches : List (Text × Call)
batches =
    (text "email", finishes 1 true)
    ∷ (text "email", finishes 2 false)
    ∷ (text "email", begins 3)
    ∷ (text "email", finishes 4 true)
    ∷ (text "refund", finishes 5 true)
    ∷ (text "email", finishes 6 true)
    ∷ []

consecutive_failures-streak_example :
    (worker_at (text "email") (run batches (new_tracker 0)).workers).consecutive_failures
    ≡ streak (text "email") 0 batches
consecutive_failures-streak_example = consecutive_failures-streak 0 (text "email") batches

two_failed : streak (text "email") 0 batches ≡ 2
unfolding streak same
two_failed = refl
