-- ===== src/Reservation/History.antt =====
-- The calls of backend/internal/reservation, by handler.go and worker.go, in any order.
use ticket_online.Common.{
  ℕ, ◌≡◌, refl, List, [], ◌∷◌, Option, none, some, ltb, ◌||◌, length, if◌then◌else◌,
}
use ticket_online.Common.Text.{Text, trim_space}
use ticket_online.Errors.{Error, invalid_request}
use ticket_online.Sql.{Action, Session, raise}
use ticket_online.Sql.Keeps.{Keeps-raise}
use ticket_online.Sql.Preserves.{Preserves, Preserves-Keeps, Preserves-if}
use ticket_online.Schema.{Db}
use ticket_online.Reservation.Request.{Request, validate_request, normalize_request}
use ticket_online.Reservation.Store.{Reservation}
use ticket_online.Reservation.Create.{create}
use ticket_online.Reservation.Transactions.{cancel, convert, get, run_batch}
use ticket_online.Reservation.Sound.{IsSound}
use ticket_online.Reservation.Stock.{cancel-Preserves}
use ticket_online.Reservation.Calls.{convert-Preserves, get-Preserves, run_batch-Preserves}
use ticket_online.Reservation.Creating.{create-Preserves}

abbrev create_valid :
    Option Error → (Request → Text) → ℕ → ℕ → Text → Text → Request → Action Db Reservation
create_valid (some e) digest now ttl new_id key request = raise e
create_valid none digest now ttl new_id key request = create digest now ttl new_id key request

-- The handler's Create, on a body that decodes: it checks the key, then the normal form of the
-- request, and creates from the normal form.
unfoldable pub submit : (Request → Text) → ℕ → ℕ → Text → Text → Request → Action Db Reservation
submit digest now ttl new_id header raw =
    let key = trim_space header in
    let request = normalize_request raw in
    if ltb (length key) 16 || ltb 100 (length key)
    then raise invalid_request
    else create_valid (validate_request request) digest now ttl new_id key request

-- A call with the time at which it runs and what it reads from outside.
pub data Call : Type 0 where
  created : (now : ℕ) → (new_id header : Text) → Request → Call
  cancelled : (now : ℕ) → (id : Text) → Call
  converted : (now : ℕ) → (reference id : Text) → Call
  shown : (now : ℕ) → (id : Text) → Call
  swept : (now : ℕ) → (clock : Text → ℕ) → Call

-- The tables after a call, which loses its connection after `remaining` statements.
unfoldable pub serve : (Request → Text) → ℕ → Option ℕ → Call → Db → Db
serve digest ttl remaining call d = (go call).stored
  where
    s : Session Db
    s = record { stored = d; working = d; remaining = remaining }

    go : Call → Session Db
    go (created now new_id header raw) = (submit digest now ttl new_id header raw s).1
    go (cancelled now id) = (cancel now id s).1
    go (converted now reference id) = (convert now reference id s).1
    go (shown now id) = (get now id s).1
    go (swept now clock) = (run_batch now clock s).1

unfoldable pub serve_all : (Request → Text) → ℕ → List (Option ℕ × Call) → Db → Db
unfolding serve
serve_all digest ttl [] d = d
serve_all digest ttl (c ∷ cs) d = serve_all digest ttl cs (serve digest ttl c.0 c.1 d)

submit-Preserves :
    (digest : Request → Text) (now ttl : ℕ) (new_id header : Text) (raw : Request)
    → Preserves IsSound (submit digest now ttl new_id header raw)
unfolding submit
submit-Preserves digest now ttl new_id header raw =
    Preserves-if _ _ _ (Preserves-Keeps _ (Keeps-raise _)) (valid (validate_request request) refl)
  where
    request : Request
    request = normalize_request raw

    valid :
        (r : Option Error)
        → validate_request request ≡ r
        → Preserves IsSound (create_valid r digest now ttl new_id (trim_space header) request)
    valid none h = create-Preserves digest now ttl new_id (trim_space header) request h
    valid (some e) h = Preserves-Keeps _ (Keeps-raise e)

serve-IsSound :
    (digest : Request → Text) (ttl : ℕ) (remaining : Option ℕ) (call : Call) (d : Db)
    → IsSound d
    → IsSound (serve digest ttl remaining call d)
unfolding serve
serve-IsSound digest ttl m (created now new_id header raw) d sound =
    (submit-Preserves digest now ttl new_id header raw).at _ sound
serve-IsSound digest ttl m (cancelled now id) d sound = (cancel-Preserves now id).at _ sound
serve-IsSound digest ttl m (converted now reference id) d sound =
    (convert-Preserves now reference id).at _ sound
serve-IsSound digest ttl m (shown now id) d sound = (get-Preserves now id).at _ sound
serve-IsSound digest ttl m (swept now clock) d sound = (run_batch-Preserves now clock).at _ sound

-- Whatever reservation calls follow one another, and wherever each one loses its connection, the
-- tables stay sound: for every tier, what is available and what active and converted reservations
-- hold make its capacity.
pub serve_all-IsSound :
    (digest : Request → Text) (ttl : ℕ) (calls : List (Option ℕ × Call)) (d : Db)
    → IsSound d
    → IsSound (serve_all digest ttl calls d)
unfolding serve_all
serve_all-IsSound digest ttl [] d sound = sound
serve_all-IsSound digest ttl (c ∷ cs) d sound =
    serve_all-IsSound digest ttl cs _ (serve-IsSound digest ttl c.0 c.1 d sound)
