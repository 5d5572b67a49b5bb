-- ===== src/Checkin/Steps.antt =====
-- CheckIn (checkin.go) step by step: each part serves as Admission says.
use mathlib.Core.Option
use ticket_online.Common.{
  ℕ, ◌≡◌, refl, Bool, true, false, not, ◌||◌, Option, none, some, arith, not-false, or_false,
  if◌then◌else◌, subst, sym,
}
use ticket_online.Common.Text.{Text, same, same_iff}
use ticket_online.Errors.{driver, forbidden}
use ticket_online.Sql.{Action, Result, ok, err}
use ticket_online.Sql.Reads.{ok_eq, Reads-query, ◌then_ok◌}
use ticket_online.Sql.Runs.{
  Runs, Runs-pure, Runs-raise, Runs-if, Runs-reads, Runs-begin, Runs-commit, Runs-exec_checked,
  Runs-fail_if, Runs-attempt_reads,
}
use ticket_online.Schema.{Role, OrderStatus, Outcome, Eticket, Db}
use ticket_online.EventState.{State, can_check_in}
use ticket_online.Payment.Status.{is_paid}
use ticket_online.Payment.Tickets.{to_ticket}
use ticket_online.Reservation.Reads.{state_of_order, Reads-for_order}
use ticket_online.StaffAuth.{Staff, is_staff, is_admin, is_assigned}
use ticket_online.StaffAuth.Access.{principal_in, Reads-authenticate_tx, may_read, Reads-authorize}
use ticket_online.Checkin.{
  Request, Answer, normalize, ticket_id_of, ticket_row, order_of_ticket, order_event, is_held,
  checked_in_at, attempt_row, write_attempt, write_checkin, finish_attempt, admit, check_snapshot,
  check_order, check_ticket, check_authorized, check_normalized, check_in,
}
use ticket_online.Checkin.Admission.{
  outcome_of, with_attempt, with_checkin, Admission, checkin_of, attempt_of, Serves, fails, refuses,
  admits,
}

module _ (hash : Text → Text) (now : ℕ) (token : Text) (submitted : Request) (d : Db) where
  abbrev Ends : Action Db Answer → Type 0
  Ends m = Runs d d m (Serves hash now token submitted d)

  lost : Serves hash now token submitted d (err driver) d
  lost = fails driver

  -- An attempt is logged and the answer given.
  Ends-finish :
      (principal : Staff) (request : Request) (outcome : Outcome) (at : Option ℕ) (answer : Answer)
      → outcome_of answer ≡ some outcome
      → Ends (finish_attempt now principal request outcome at answer)
  unfolding finish_attempt
  Ends-finish principal request outcome at answer fits =
      Runs-exec_checked _ _ _ lost lost λ w' wrote.
        let row = attempt_row now principal request outcome none at in
        let written : w' ≡ with_attempt row d = unfold write_attempt in ground arith in
        rw written (
          Runs-commit _ lost (
            Runs-pure _
              (refuses row answer (unfold attempt_row in fits) (unfold attempt_row in refl))))

  Ends-admit :
      (a : Admission hash now token submitted d)
      → Ends (
          admit now a.principal a.request
            (ticket_id_of a.request.code)
            a.event_id
            (to_ticket a.row)
            none)
  unfolding admit
  Ends-admit a = Runs-exec_checked _ _ _ lost lost λ w1 wrote.
      let written : w1 ≡ with_checkin (checkin_of hash now token submitted d a) d =
        unfold write_checkin in ground arith in
      rw written (
        Runs-exec_checked _ _ _ lost lost λ w2 logged.
          let both : w2
              ≡ with_attempt (attempt_of hash now token submitted d a)
                  (with_checkin (checkin_of hash now token submitted d a) d) =
            unfold write_attempt attempt_row in ground arith in
          rw both (Runs-commit _ lost (Runs-pure _ (admits a))))

  module _ (principal : Staff) (request : Request)
      (signed : principal_in hash now token d ≡ ok principal)
      (staff : is_staff principal.role ≡ true)
      (normalized : normalize submitted ≡ some request) where
    abbrev id : Text
    id = ticket_id_of request.code

    module _ (assigned : is_assigned principal.id request.event_id request.gate d ≡ true)
        (order_id : Text) (target : order_of_ticket id d ≡ some order_id) (state : State)
        (current : state_of_order order_id d ≡ ok state) where
      same_order : (row : Eticket) → ticket_row id d ≡ some row → order_id ≡ row.order_id
      same_order row found =
          let this : Option.map (λ (t : Eticket). t.order_id) (some row) ≡ some order_id =
            subst
              (λ (o : Option Eticket). Option.map (λ (t : Eticket). t.order_id) o ≡ some order_id)
              found target in
          cc

      module _ (status : OrderStatus) (event_id : Text)
          (order : order_event order_id d ≡ some (status, event_id)) (paid : is_paid status ≡ true)
          (event : event_id ≡ request.event_id) (not_held : is_held order_id d ≡ false)
          (is_open : can_check_in state now ≡ true) where
        Ends-used :
            (row : Eticket) (used : Option ℕ)
            → ticket_row id d ≡ some row
            → row.event_id ≡ event_id
            → row.gate ≡ request.gate
            → checked_in_at id d ≡ used
            → Ends (admit now principal request id event_id (to_ticket row) used)
        Ends-used row (some at) found place gate used =
            unfold admit in Ends-finish principal request _ _ _ refl
        Ends-used row none found place gate used = Ends-admit (record {
          principal = principal;
          request = request;
          row = row;
          status = status;
          event_id = event_id;
          state = state;
          signed = signed;
          staff = staff;
          normalized = normalized;
          assigned = assigned;
          ticket = found;
          order =
              subst (λ o. order_event o d ≡ some (status, event_id)) (same_order row found) order;
          paid = paid;
          event = (event, place);
          not_held = subst (λ o. is_held o d ≡ false) (same_order row found) not_held;
          current = subst (λ o. state_of_order o d ≡ ok state) (same_order row found) current;
          is_open = is_open;
          gate = gate;
          unused = used;
        })

        Ends-snapshot :
            (found : Option Eticket)
            → ticket_row id d ≡ found
            → Ends (check_snapshot now principal request id event_id found)
        unfolding check_snapshot
        Ends-snapshot none e = Ends-finish principal request _ _ _ refl
        Ends-snapshot (some row) e =
            Runs-if (not (same row.id id) || not (same row.event_id event_id)) _ _
              (λ _. Ends-finish principal request _ _ _ refl)
              λ place.
                Runs-if (not (same row.gate request.gate)) _ _
                  (λ _. Ends-finish principal request _ _ _ refl)
                  λ gate.
                    Runs-reads _ _ _ (Reads-query _) lost (λ e _. fails e)
                      λ used was.
                        Ends-used row used e ((same_iff _ _).0 (not-false _ (or_false _ _ place).1))
                          ((same_iff _ _).0 (not-false _ gate)) (ok_eq was)

      Ends-order :
          (found : Option (OrderStatus × Text))
          → order_event order_id d ≡ found
          → Ends (check_order now principal request id order_id state found)
      unfolding check_order
      Ends-order none e = Ends-finish principal request _ _ _ refl
      Ends-order (some (status, event_id)) e =
          Runs-if (not (is_paid status)) _ _ (λ _. Ends-finish principal request _ _ _ refl)
            λ paid.
              Runs-if (not (same event_id request.event_id)) _ _
                (λ _. Ends-finish principal request _ _ _ refl)
                λ event.
                  Runs-reads _ _ _ (Reads-query _) lost (λ e _. fails e)
                    λ held was.
                      Runs-if (held || not (can_check_in state now)) _ _
                        (λ _. Ends-finish principal request _ _ _ refl)
                        λ is_open.
                          Runs-reads _ _ _ (Reads-query _) lost (λ e _. fails e)
                            λ found row.
                              Ends-snapshot status event_id e (not-false _ paid)
                                ((same_iff _ _).0 (not-false _ event))
                                (subst (λ b. b ≡ false) (sym (ok_eq was)) (or_false _ _ is_open).0)
                                (not-false _ (or_false _ _ is_open).1) found (ok_eq row)

    is_assigned_to :
        may_read principal request.event_id request.gate d ≡ ok tt
        → is_assigned principal.id request.event_id request.gate d ≡ true
    is_assigned_to h =
        go principal.role (is_assigned principal.id request.event_id request.gate d) staff h
      where
        go :
            (r : Role) (b : Bool)
            → is_staff r ≡ true
            → (if is_admin r
                then ok tt
                else (if not (is_staff r) then err forbidden else ok tt) then_ok λ _.
                    ok b then_ok λ valid. if not valid then err forbidden else ok tt)
              ≡ ok tt
            → b ≡ true
        go Role.admin b s h = absurd (cc)
        go Role.staff true s h = refl
        go Role.staff false s h = absurd (cc)

    Ends-authorized :
        (r : Result (Unit {0}))
        → may_read principal request.event_id request.gate d ≡ r
        → Ends (check_authorized now principal request r)
    unfolding check_authorized check_ticket
    Ends-authorized (err forbidden) e = Ends-finish principal request _ _ _ refl
    Ends-authorized (err other) e = Runs-raise _ (fails _)
    Ends-authorized (ok _) e =
        Runs-reads _ _ _ (Reads-query _) lost (λ e _. fails e)
          λ target found. Ends-target target (cc)
      where
        Ends-target :
            (target : Option Text)
            → order_of_ticket id d ≡ target
            → Ends (check_ticket now principal request id target)
        Ends-target none h = Ends-finish principal request _ _ _ refl
        Ends-target (some order_id) h =
            Runs-reads _ _ _ (Reads-for_order order_id) lost (λ e _. fails e)
              λ state current.
                Runs-reads _ _ _ (Reads-query _) lost (λ e _. fails e)
                  λ order is_order.
                    Ends-order (is_assigned_to e) order_id h state current order (cc)

  Ends-normalized :
      (principal : Staff)
      → principal_in hash now token d ≡ ok principal
      → is_staff principal.role ≡ true
      → (request : Option Request) → normalize submitted ≡ request
      → Ends (check_normalized now principal submitted request)
  unfolding check_normalized
  Ends-normalized principal signed staff none e = Ends-finish principal submitted _ _ _ refl
  Ends-normalized principal signed staff (some request) e =
      Runs-attempt_reads _ _ _ (Reads-authorize principal request.event_id request.gate)
        (unfold check_authorized in Runs-raise _ (fails _))
        (Ends-authorized principal request signed staff e _ refl)

  pub Runs-check_in :
      (w : Db) → Runs w d (check_in hash now token submitted) (Serves hash now token submitted d)
  unfolding check_in
  Runs-check_in w = Runs-begin _ lost (
      Runs-reads _ _ _ (Reads-authenticate_tx hash now token) lost (λ e _. fails e)
        λ principal signed.
          Runs-fail_if _ _ _ (λ _. fails _)
            λ staff. Ends-normalized principal signed (not-false _ staff) _ refl)
