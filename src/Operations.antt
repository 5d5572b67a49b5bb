-- ===== src/Operations.antt =====
-- backend/internal/operations/operations.go: the tracker of server failures and workers, and the
-- alerts of Collect. Each method of the tracker holds its mutex from its first line to its last, so
-- calls are functions of the state. A worker's zero `launchedAt` is `none`.
pub mod Window
pub mod Failures
pub mod Examples
use ticket_online.Common.{
  ℕ, zero, suc, ◌+◌, Bool, true, false, not, ◌&&◌, ◌||◌, Option, none, some, List, [], ◌∷◌, ◌++◌,
  map, length, leb, ltb, ◌==◌, if◌then◌else◌,
}
use ticket_online.Common.Text.{Text, same, less}

pub record Worker : Type 0 where
  pub name : Text
  pub running : Bool
  pub started_at : Option ℕ
  pub last_finished_at : Option ℕ
  pub last_success_at : Option ℕ
  pub last_failure_at : Option ℕ
  pub consecutive_failures : ℕ
  pub launched_at : Option ℕ

pub record Tracker : Type 0 where
  pub launched_at : ℕ
  pub server_failures : List ℕ
  pub workers : List (Text × Worker)

unfoldable pub new_tracker : ℕ → Tracker
new_tracker now = record { launched_at = now; server_failures = []; workers = [] }

abbrev pub minute : ℕ
minute = 60000000

abbrev pub window : ℕ
window = 300000000

-- The loop over `first`: failures before the cutoff `at - 5 minutes` go, up to the first that stays.
unfoldable pub drop_old : ℕ → List ℕ → List ℕ
drop_old at [] = []
drop_old at (f ∷ fs) = let rest = drop_old at fs in if ltb (f + window) at then rest else f ∷ fs

unfoldable pub request : ℕ → ℕ → Tracker → Tracker
unfolding drop_old
request status at t =
    if ltb status 500
    then t
    else record t { server_failures = drop_old at (t.server_failures ++ at ∷ []) }

-- Reading a missing key gives the zero state.
abbrev pub zero_worker : Worker
zero_worker = record {
  name = [];
  running = false;
  started_at = none;
  last_finished_at = none;
  last_success_at = none;
  last_failure_at = none;
  consecutive_failures = 0;
  launched_at = none;
}

unfoldable pub worker_at : Text → List (Text × Worker) → Worker
worker_at name [] = zero_worker
worker_at name ((n, w) ∷ ws) = if same n name then w else worker_at name ws

unfoldable pub put_worker : Text → Worker → List (Text × Worker) → List (Text × Worker)
put_worker name v [] = (name, v) ∷ []
put_worker name v ((n, w) ∷ ws) =
    if same n name then (name, v) ∷ ws else (n, w) ∷ put_worker name v ws

abbrev or_at : Option ℕ → ℕ → Option ℕ
or_at none at = some at
or_at (some t) at = some t

unfoldable pub begin_worker : Text → ℕ → Worker → Worker
begin_worker name at w = record w {
  name = name;
  running = true;
  started_at = some at;
  launched_at = or_at w.launched_at at;
}

unfoldable pub register_worker : Text → ℕ → Worker → Worker
register_worker name at w = record w { name = name; launched_at = or_at w.launched_at at }

unfoldable pub finish_worker : Text → ℕ → Bool → Worker → Worker
finish_worker name at failed w =
    let v : Worker = record w {
      name = name;
      running = false;
      last_finished_at = some at;
      started_at = none;
      launched_at = or_at w.launched_at at;
    } in
    if failed
    then record v { consecutive_failures = suc w.consecutive_failures; last_failure_at = some at }
    else record v { consecutive_failures = 0; last_success_at = some at }

-- Each of the three reads the worker's state, changes it, and writes it back.
unfoldable pub change : Text → (Worker → Worker) → Tracker → Tracker
unfolding worker_at put_worker
change name f t = record t { workers = put_worker name (f (worker_at name t.workers)) t.workers }

unfoldable pub begin : Text → ℕ → Tracker → Tracker
unfolding begin_worker change
begin name at t = change name (begin_worker name at) t

unfoldable pub register : Text → ℕ → Tracker → Tracker
unfolding register_worker change
register name at t = change name (register_worker name at) t

unfoldable pub finish : Text → ℕ → Bool → Tracker → Tracker
unfolding finish_worker change
finish name at failed t = change name (finish_worker name at failed) t

abbrev insert_worker : Worker → List Worker → List Worker
insert_worker w [] = w ∷ []
insert_worker w (v ∷ vs) =
    let rest = insert_worker w vs in if less v.name w.name then v ∷ rest else w ∷ v ∷ vs

unfoldable pub sorted_workers : List (Text × Worker) → List Worker
sorted_workers [] = []
sorted_workers ((n, w) ∷ ws) = insert_worker w (sorted_workers ws)

pub record Snapshot : Type 0 where
  pub failures : ℕ
  pub workers : List Worker
  pub tracker : Tracker

unfoldable pub snapshot : ℕ → Tracker → Snapshot
unfolding drop_old sorted_workers
snapshot now t =
    let kept = drop_old now t.server_failures in
    record {
      failures = length kept;
      workers = sorted_workers t.workers;
      tracker = record t { server_failures = kept };
    }

pub data Alert : Type 0 where
  api_errors failed_email old_email open_payment_cases open_refunds : Alert
  repeated_failure stuck_batch no_success : Text → Alert

-- The numbers that Collect reads from the tables.
pub record Counts : Type 0 where
  pub failed_email_jobs : ℕ
  pub oldest_pending_email_seconds : ℕ
  pub open_payment_cases : ℕ
  pub open_refunds : ℕ

abbrev pub started_before : ℕ → Option ℕ → Bool
started_before now none = false
started_before now (some at) = ltb (at + window) now

abbrev pub not_since : ℕ → Option ℕ → Bool
not_since now none = true
not_since now (some at) = ltb (at + window) now

abbrev when : Bool → Alert → List Alert
when b a = if b then a ∷ [] else []

unfoldable pub worker_alerts : ℕ → Worker → List Alert
worker_alerts now w =
    when (leb 3 w.consecutive_failures) (repeated_failure w.name)
    ++ (if w.running && started_before now w.started_at
        then stuck_batch w.name ∷ []
        else when (not w.running && not_since now w.launched_at && not_since now w.last_success_at)
            (no_success w.name))

unfoldable pub all_worker_alerts : ℕ → List Worker → List Alert
unfolding worker_alerts
all_worker_alerts now [] = []
all_worker_alerts now (w ∷ ws) = worker_alerts now w ++ all_worker_alerts now ws

-- The alerts of Collect, in its order.
unfoldable pub alerts : ℕ → ℕ → Counts → List Worker → List Alert
unfolding all_worker_alerts
alerts now api_failures c workers =
    when (leb 5 api_failures) api_errors
    ++ (when (ltb 0 c.failed_email_jobs) failed_email
        ++ (when (leb 300 c.oldest_pending_email_seconds) old_email
            ++ (when (ltb 0 c.open_payment_cases) open_payment_cases
                ++ (when (ltb 0 c.open_refunds) open_refunds ++ all_worker_alerts now workers))))
