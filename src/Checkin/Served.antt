-- ===== src/Checkin/Served.antt =====
-- A ticket that may be admitted is (checkin.go, CheckIn).
use mathlib.Core.Option
use ticket_online.Common.{
  ℕ, ◌≡◌, refl, sym, ap, ◌∙◌, Bool, true, false, not, ◌||◌, none, some, List, [], ◌∷◌, any, arith,
  Bool-cases, if◌then◌else◌, inl, inr, select?, select?-found,
}
use ticket_online.Common.Text.{Text, same, same_refl}
use ticket_online.Errors.{no_rows, forbidden}
use ticket_online.Sql.{Result, ok, err}
use ticket_online.Sql.Reads.{from_option, ◌then_ok◌}
use ticket_online.Sql.Lasts.{
  lasting, Answers, Answers-pure, Answers-query, Answers-or_raise, Answers-if, Answers-fail_if,
  Answers-bind, Lasts, Lasts-pure, Lasts-else, Lasts-reads, Lasts-attempt, Lasts-begin,
  Lasts-commit, Lasts-exec_checked,
}
use ticket_online.Schema.{Role, TicketCheckin, CheckinAttempt, Db}
use ticket_online.EventState.{read, for_order, event_of_order, can_check_in}
use ticket_online.Payment.Status.{is_paid}
use ticket_online.Payment.Tickets.{to_ticket}
use ticket_online.Reservation.Reads.{read_result, state_of_order}
use ticket_online.StaffAuth.{Staff, is_staff, is_admin, authenticate_tx, authorize_ticket_status_tx}
use ticket_online.StaffAuth.Access.{principal_in, may_read}
use ticket_online.Checkin.{
  Request, Answer, admitted, ticket_id_of, same_option, attempt_row, write_attempt, write_checkin,
  admit, check_snapshot, check_order, check_ticket, check_authorized, check_normalized, check_in,
  order_of_ticket,
}
use ticket_online.Checkin.Admission.{Admission, with_attempt, with_checkin, checkin_of, attempt_of}
use ticket_online.Checkin.Log.{LoggedIn, no_checkin, admissions_of, admits_it}

Answers-authenticate_tx :
    (hash : Text → Text) (now : ℕ) (token : Text)
    → Answers (authenticate_tx hash now token) (principal_in hash now token)
unfolding authenticate_tx
Answers-authenticate_tx hash now token = Answers-bind _ _ _ _ (Answers-fail_if _ _) λ _.
    Answers-bind _ _ _ _ (Answers-query _) λ found.
      Answers-bind _ _ _ _ (Answers-or_raise found _) λ user.
        Answers-bind _ _ _ _ (Answers-query _)
          λ session. Answers-bind _ _ _ _ (Answers-or_raise session _) λ _. Answers-pure _

Answers-authorize :
    (principal : Staff) (event_id gate : Text)
    → Answers
        (authorize_ticket_status_tx principal event_id gate)
        (may_read principal event_id gate)
unfolding authorize_ticket_status_tx
Answers-authorize principal event_id gate = Answers-if _ _ _ _ _ (Answers-pure tt) (
    Answers-bind _ _ _ _ (Answers-fail_if _ _)
      λ _. Answers-bind _ _ _ _ (Answers-query _) λ valid. Answers-fail_if _ _)

Answers-read : (id : Text) → Answers (read id) (read_result id)
unfolding read read_result
Answers-read id =
    Answers-bind _ _ _ (λ o d. from_option o no_rows) (Answers-query _) (λ o. Answers-or_raise o _)

Answers-for_order : (id : Text) → Answers (for_order id) (state_of_order id)
unfolding for_order state_of_order
Answers-for_order id =
    Answers-bind _ _ _ (λ o d. from_option o no_rows then_ok λ event. read_result event d)
      (Answers-query (event_of_order id))
      (λ o.
        Answers-bind _ _ _ (λ event d. read_result event d) (Answers-or_raise o no_rows)
          Answers-read)

not_used :
    (id : Text) (cs : List TicketCheckin)
    → Option.map (λ c. c.checked_in_at) (select? (λ c. same c.ticket_id id) cs) ≡ none
    → any (λ c. same c.ticket_id id) cs ≡ false
not_used id [] h = refl
not_used id (c ∷ cs) h = elim (Bool-cases (same c.ticket_id id)) [
  | inl hit ↦ absurd (ground arith)
  | inr miss ↦ rw miss (not_used id cs (rw miss at h))
]

not_logged :
    (id : Text) (as' : List CheckinAttempt)
    → admissions_of id as' ≡ 0
    → any (λ a. same_option a.checked_in_ticket_id (some id)) as' ≡ false
unfolding admissions_of
not_logged id [] h = refl
not_logged id (a ∷ as') h = elim (Bool-cases (same_option a.checked_in_ticket_id (some id))) [
  | inl hit ↦ let one : admits_it id a ≡ 1 = rw hit refl in absurd (omega (arith, one, h))
  | inr miss ↦
      let no_one : admits_it id a ≡ 0 = rw miss refl in
      rw miss (not_logged id as' (omega (arith, no_one, h)))
]

module _ (hash : Text → Text) (now : ℕ) (token : Text) (submitted : Request) (d : Db)
    (l : LoggedIn d) (a : Admission hash now token submitted d) where
  abbrev id : Text
  id = ticket_id_of a.request.code

  -- The answer and the tables of an admission: the check-in and its attempt are there, and no more.
  abbrev pub Admits : Result Answer → Db → Type 0
  Admits r d' =
      (r ≡ ok (admitted (to_ticket a.row) now))
      × (d'
          ≡ with_attempt (attempt_of hash now token submitted d a)
              (with_checkin (checkin_of hash now token submitted d a) d))

  free : any (λ (c : TicketCheckin). same c.ticket_id id) d.ticket_checkins ≡ false
  free = not_used id d.ticket_checkins a.unused

  unlogged :
      any (λ (x : CheckinAttempt). same_option x.checked_in_ticket_id (some id)) d.checkin_attempts
      ≡ false
  unlogged =
      not_logged id d.checkin_attempts (sym (l.agree id) ∙ no_checkin id d.ticket_checkins a.unused)

  Lasts-admit :
      Lasts d d (admit now a.principal a.request id a.event_id (to_ticket a.row) none) Admits
  unfolding admit
  Lasts-admit =
      Lasts-exec_checked _ _ _ (with_checkin (checkin_of hash now token submitted d a) d)
        (unfold write_checkin in rw free refl)
        (Lasts-exec_checked _ _ _
          (with_attempt (attempt_of hash now token submitted d a)
            (with_checkin (checkin_of hash now token submitted d a) d))
          (unfold write_attempt attempt_row in rw unlogged refl)
          (Lasts-commit _ (Lasts-pure _ (refl, refl))))

  Lasts-snapshot :
      Lasts d d (check_snapshot now a.principal a.request id a.event_id (some a.row)) Admits
  unfolding check_snapshot
  Lasts-snapshot =
      Lasts-else (not (same a.row.id id) || not (same a.row.event_id a.event_id)) _ _
        (rw (select?-found _ d.etickets a.ticket, a.event.1, same_refl a.event_id) refl)
        (Lasts-else (not (same a.row.gate a.request.gate)) _ _
          (rw (a.gate, same_refl a.request.gate) refl)
          (Lasts-reads _ _ _ _ (Answers-query _) (ap ok a.unused) Lasts-admit))

  Lasts-order :
      Lasts d d
        (check_order now a.principal a.request id a.row.order_id a.state
          (some (a.status, a.event_id)))
        Admits
  unfolding check_order
  Lasts-order = Lasts-else (not (is_paid a.status)) _ _ (rw a.paid refl) (
      Lasts-else (not (same a.event_id a.request.event_id)) _ _
        (rw (a.event.0, same_refl a.request.event_id) refl)
        (Lasts-reads _ _ _ _ (Answers-query _) (ap ok a.not_held) (
          Lasts-else (not (can_check_in a.state now)) _ _ (rw a.is_open refl)
            (Lasts-reads _ _ _ _ (Answers-query _) (ap ok a.ticket) Lasts-snapshot))))

  target : order_of_ticket id d ≡ some a.row.order_id
  target = ap (Option.map (λ t. t.order_id)) a.ticket

  may :
      (r : Role) (b : Bool)
      → is_staff r ≡ true
      → b ≡ true
      → (if is_admin r
          then ok tt
          else (if not (is_staff r) then err forbidden else ok tt) then_ok λ _.
              ok b then_ok λ valid. if not valid then err forbidden else ok tt)
        ≡ ok tt
  may Role.admin b s h = absurd (cc)
  may Role.staff true s h = refl
  may Role.staff false s h = absurd (cc)

  Lasts-normalized : Lasts d d (check_normalized now a.principal submitted (some a.request)) Admits
  unfolding check_normalized check_authorized check_ticket
  Lasts-normalized =
      Lasts-attempt _ _ _ (Answers-authorize a.principal a.request.event_id a.request.gate) (
        rw (may a.principal.role _ a.staff a.assigned) (
          Lasts-reads _ _ _ _ (Answers-query _) (ap ok target) (
            Lasts-reads _ _ _ _ (Answers-for_order a.row.order_id) a.current
              (Lasts-reads _ _ _ _ (Answers-query _) (ap ok a.order) Lasts-order))))

  -- Where the log agrees with the check-ins, a ticket that may be admitted is answered so, if the
  -- connection lasts, and stored are its check-in, by this staff member at this gate and time, and
  -- the attempt that names it.
  pub check_in-Admits :
      (w : Db)
      → Admits
          (check_in hash now token submitted (lasting w d)).0
          (check_in hash now token submitted (lasting w d)).1.stored
  unfolding check_in
  check_in-Admits w = (all w).at
    where
      all : (w : Db) → Lasts w d (check_in hash now token submitted) Admits
      all w = Lasts-begin _ (
          Lasts-reads _ _ _ _ (Answers-authenticate_tx hash now token) a.signed (
            Lasts-reads _ _ _ _ (Answers-fail_if _ _) (rw a.staff refl)
              (rw a.normalized Lasts-normalized)))
