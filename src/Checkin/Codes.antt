-- ===== src/Checkin/Codes.antt =====
-- A ticket's code and its id (checkin.go, NormalizeTicketCode; payment.go, issueAndLoadTickets).
use ticket_online.Common.{
  ℕ, ◌≡◌, refl, ap, Bool, true, ◌&&◌, ◌||◌, some, [], ◌∷◌, length, all, leb, arith, and_true, suc,
}
use ticket_online.Common.Text.{
  Text, trim_space, to_upper, to_lower, is_hex, has_prefix, is_hex_digit, upper,
}
use ticket_online.Schema.{Eticket}
use ticket_online.Payment.Tickets.{to_ticket}
use ticket_online.Checkin.{normalize_ticket_code, ticket_id_of}

-- A byte that newID writes: 0-9 or a-f.
abbrev pub is_id_digit : ℕ → Bool
is_id_digit c = (leb 48 c && leb c 57) || (leb 97 c && leb c 102)

lower_upper : (id : Text) → all is_id_digit id ≡ true → to_lower (to_upper id) ≡ id
unfolding to_lower to_upper
lower_upper [] h = refl
lower_upper (c ∷ id) h = ground (arith, lower_upper id)

upper_upper : (s : Text) → to_upper (to_upper s) ≡ to_upper s
unfolding to_upper
upper_upper [] = refl
upper_upper (c ∷ s) = ground (arith, upper_upper s)

digit_upper : (c : ℕ) → is_id_digit c ≡ true → is_hex_digit (upper c) ≡ true
digit_upper c h = ground arith

is_hex_upper :
    (id : Text) → is_hex id ≡ true → all is_id_digit id ≡ true → is_hex (to_upper id) ≡ true
unfolding is_hex to_upper
is_hex_upper [] e h = refl
is_hex_upper (a ∷ []) e h = absurd (cc)
is_hex_upper (a ∷ b ∷ id) e h =
    let both = and_true (is_id_digit a) _ h in
    let rest = and_true (is_id_digit b) _ both.1 in
    let tail = and_true _ (is_hex id) e in
    rw (digit_upper a both.0, digit_upper b rest.0) (is_hex_upper id tail.1 rest.1)

length-to_upper : (s : Text) → length (to_upper s) ≡ length s
unfolding to_upper
length-to_upper [] = refl
length-to_upper (c ∷ s) = ap suc (length-to_upper s)

-- A ticket whose id has 32 of the bytes that newID writes comes back from its code, however a
-- scanner spells the code's letters and the spaces around it.
pub normalize_ticket_code-roundtrip :
    (t : Eticket) (scanned : Text)
    → length t.id ≡ 32
    → is_hex t.id ≡ true
    → all is_id_digit t.id ≡ true
    → to_upper (trim_space scanned) ≡ (to_ticket t).code
    → (normalize_ticket_code scanned ≡ some (to_ticket t).code)
      × (ticket_id_of (to_ticket t).code ≡ t.id)
unfolding normalize_ticket_code has_prefix
normalize_ticket_code-roundtrip t scanned size hex digits spelled = (
  rw (spelled, length-to_upper t.id, size, is_hex_upper t.id hex digits) refl,
  lower_upper t.id digits,
)
