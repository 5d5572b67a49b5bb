-- ===== src/Checkin/Log.antt =====
-- Sequences of check-ins (checkin.go): a ticket is admitted once, and the log says so.
use ticket_online.Common.{
  ℕ, ◌≤◌, ◌≡◌, refl, subst, Bool, true, false, Option, none, some, List, [], ◌∷◌, ◌++◌, arith,
  Bool-cases, select?, sum_of, sum_of-append, inl, inr,
}
use mathlib.Core.Option
use ticket_online.Common.Text.{Text, same, same_iff}
use ticket_online.Sql.{Result, Session}
use ticket_online.Schema.{TicketCheckin, CheckinAttempt, Db}
use ticket_online.Checkin.{Request, Answer, check_in, same_option}
use ticket_online.Checkin.Admission.{Serves, fails, refuses, admits}
use ticket_online.Checkin.Steps.{Runs-check_in}

-- Each call of CheckIn, wherever its connection is lost, either fails and stores nothing, or answers
-- with a refusal and stores one attempt with the refusal's outcome and no check-in, or answers that
-- it admits a paid, unused ticket of the right event and gate, for a staff member assigned to it and
-- an event that admits visitors, and stores its check-in with its attempt.
pub check_in-Serves :
    (hash : Text → Text) (now : ℕ) (token : Text) (submitted : Request) (s : Session Db)
    → Serves hash now token submitted s.stored
        (check_in hash now token submitted s).0
        (check_in hash now token submitted s).1.stored
check_in-Serves hash now token submitted s =
    (Runs-check_in hash now token submitted s.stored s.working).at s refl refl

abbrev pub one_if : Bool → ℕ
one_if true = 1
one_if false = 0

abbrev pub is_of : Text → TicketCheckin → ℕ
is_of id c = one_if (same c.ticket_id id)

abbrev pub admits_it : Text → CheckinAttempt → ℕ
admits_it id a = one_if (same_option a.checked_in_ticket_id (some id))

unfoldable pub checkins_of : Text → List TicketCheckin → ℕ
checkins_of id = sum_of (is_of id)

unfoldable pub admissions_of : Text → List CheckinAttempt → ℕ
admissions_of id = sum_of (admits_it id)

-- Each ticket has one check-in at most, and as many logged admissions.
pub record Logged (cs : List TicketCheckin) (as' : List CheckinAttempt) : Type 0 where
  pub once : (id : Text) → checkins_of id cs ≤ 1
  pub agree : (id : Text) → checkins_of id cs ≡ admissions_of id as'

pub no_checkin :
    (id : Text) (cs : List TicketCheckin)
    → Option.map (λ c. c.checked_in_at) (select? (λ c. same c.ticket_id id) cs) ≡ none
    → checkins_of id cs ≡ 0
unfolding checkins_of
no_checkin id [] h = refl
no_checkin id (c ∷ cs) h = elim (Bool-cases (same c.ticket_id id)) [
  | inl hit ↦ absurd (ground arith)
  | inr miss ↦ rw miss (omega (arith, no_checkin id cs (rw miss at h)))
]

refuse-Logged :
    (cs : List TicketCheckin) (as' : List CheckinAttempt) (a : CheckinAttempt)
    → a.checked_in_ticket_id ≡ none
    → Logged cs as'
    → Logged cs (as' ++ a ∷ [])
unfolding admissions_of
refuse-Logged cs as' a n l = record {
  once = l.once;
  agree = λ id.
      let nothing : admits_it id a ≡ 0 = rw n refl in
      omega (arith, sum_of-append (admits_it id) as' (a ∷ []), nothing, l.agree id);
}

admit-Logged :
    (cs : List TicketCheckin) (as' : List CheckinAttempt) (c : TicketCheckin) (a : CheckinAttempt)
    → a.checked_in_ticket_id ≡ some c.ticket_id
    → checkins_of c.ticket_id cs ≡ 0
    → Logged cs as'
    → Logged (cs ++ c ∷ []) (as' ++ a ∷ [])
unfolding checkins_of admissions_of
admit-Logged cs as' c a n free l = record {
  once = λ id. elim (Bool-cases (same c.ticket_id id)) [
    | inl this ↦
        let none_yet : sum_of (is_of id) cs ≡ 0 =
          subst (λ t. sum_of (is_of t) cs ≡ 0) ((same_iff c.ticket_id id).0 this) free in
        let one : is_of id c ≡ 1 = rw this refl in
        omega (arith, sum_of-append (is_of id) cs (c ∷ []), none_yet, one)
    | inr other ↦
        let no_more : is_of id c ≡ 0 = rw other refl in
        omega (arith, sum_of-append (is_of id) cs (c ∷ []), no_more, l.once id)
  ];
  agree = λ id.
      let as_many : admits_it id a ≡ is_of id c = rw n refl in
      omega (
        arith,
        sum_of-append (is_of id) cs (c ∷ []),
        sum_of-append (admits_it id) as' (a ∷ []),
        as_many,
        l.agree id,
      );
}

abbrev pub LoggedIn : Db → Type 0
LoggedIn d = Logged d.ticket_checkins d.checkin_attempts

Serves-Logged :
    {hash : Text → Text} {now : ℕ} {token : Text} {submitted : Request} {d d' : Db}
    {r : Result Answer}
    → Serves hash now token submitted d r d'
    → LoggedIn d
    → LoggedIn d'
Serves-Logged (fails e) l = l
Serves-Logged (refuses a answer fits none_in) l = refuse-Logged _ _ a none_in l
Serves-Logged (admits a) l = admit-Logged _ _ _ _ refl (no_checkin _ _ a.unused) l

pub record Call : Type 0 where
  pub now : ℕ
  pub token : Text
  pub request : Request
  pub remaining : Option ℕ

-- One call on a session of its own.
unfoldable pub serve : (Text → Text) → Call → Db → Db
serve hash c d =
    (check_in hash c.now c.token c.request
      (record { stored = d; working = d; remaining = c.remaining })).1.stored

unfoldable pub serve_all : (Text → Text) → List Call → Db → Db
unfolding serve
serve_all hash [] d = d
serve_all hash (c ∷ cs) d = serve_all hash cs (serve hash c d)

-- Any sequence of calls of CheckIn, each losing its connection at any statement, keeps that a ticket
-- has one check-in at most, and as many logged admissions as check-ins.
pub serve_all-Logged :
    (hash : Text → Text) (cs : List Call) (d : Db) → LoggedIn d → LoggedIn (serve_all hash cs d)
unfolding serve_all
serve_all-Logged hash [] d l = l
serve_all-Logged hash (c ∷ cs) d l =
    serve_all-Logged hash cs _ (Serves-Logged (check_in-Serves hash c.now c.token c.request _) l)
