-- ===== src/Reservation/Valid.antt =====
-- What a validated request is like after it is brought to normal form and sorted.
use ticket_online.Common.{
  ◌<◌, ◌≡◌, inl, inr, true, false, none, List, [], ◌∷◌, map, arith, any, All, Bool-cases,
}
use ticket_online.Common.Text.{Text, same, same_iff, less, trim_space}
use ticket_online.Reservation.Request.{
  ItemRequest, Request, normalize_item, normalize_request, valid_items, validate_request,
  insert_item, sort_items,
}

-- Different tiers, and no empty quantity.
abbrev pub Distinct : List ItemRequest → Type 0
Distinct [] = Unit {0}
Distinct (i ∷ is) = All (λ j. same j.tier_id i.tier_id ≡ false) is × Distinct is

abbrev pub Positive : List ItemRequest → Type 0
Positive = All λ i. 0 < i.quantity

abbrev Unseen : List Text → List ItemRequest → Type 0
Unseen seen = All λ i. any (same i.tier_id) seen ≡ false

Unseen-apart :
    (id : Text) (seen : List Text) (is : List ItemRequest)
    → Unseen (id ∷ seen) is
    → All (λ j. same j.tier_id id ≡ false) is × Unseen seen is
Unseen-apart id seen [] u = (tt, tt)
Unseen-apart id seen (i ∷ is) u =
    let (apart, rest) = Unseen-apart id seen is u.1 in ((ground arith, apart), (ground arith, rest))

valid_items-Distinct :
    (seen : List Text) (is : List ItemRequest)
    → valid_items seen is ≡ true
    → Unseen seen (map normalize_item is)
      × Distinct (map normalize_item is)
      × Positive (map normalize_item is)
unfolding valid_items
valid_items-Distinct seen [] h = (tt, tt, tt)
valid_items-Distinct seen (i ∷ is) h =
    let id = trim_space i.tier_id in
    let (unseen, distinct, positive) = valid_items-Distinct (id ∷ seen) is (ground arith) in
    let (apart, rest) = Unseen-apart id seen (map normalize_item is) unseen in
    ((ground arith, rest), (apart, distinct), (ground arith, positive))

All-insert_item {ℓ} :
    (P : ItemRequest → Type ℓ) (i : ItemRequest) (is : List ItemRequest)
    → P i
    → All P is
    → All P (insert_item i is)
unfolding insert_item
All-insert_item P i [] p a = (p, tt)
All-insert_item P i (j ∷ js) p a = elim (Bool-cases (less j.tier_id i.tier_id)) [
  | inl before ↦ rw before (a.0, All-insert_item P i js p a.1)
  | inr after ↦ rw after (p, a)
]

All-sort_items {ℓ} :
    (P : ItemRequest → Type ℓ) (is : List ItemRequest) → All P is → All P (sort_items is)
unfolding sort_items
All-sort_items P [] a = tt
All-sort_items P (i ∷ is) a = All-insert_item P i (sort_items is) a.0 (All-sort_items P is a.1)

insert_item-Distinct :
    (i : ItemRequest) (is : List ItemRequest)
    → All (λ j. same j.tier_id i.tier_id ≡ false) is
    → Distinct is
    → Distinct (insert_item i is)
unfolding insert_item
insert_item-Distinct i [] a d = (tt, tt)
insert_item-Distinct i (j ∷ js) a d = elim (Bool-cases (less j.tier_id i.tier_id)) [
  | inl before ↦ rw before (
    All-insert_item _ i js
        (ground (arith, same_iff i.tier_id j.tier_id, same_iff j.tier_id i.tier_id, a.0)) d.0,
    insert_item-Distinct i js a.1 d.1,
  )
  | inr after ↦ rw after (a, d)
]

sort_items-Distinct : (is : List ItemRequest) → Distinct is → Distinct (sort_items is)
unfolding sort_items
sort_items-Distinct [] d = tt
sort_items-Distinct (i ∷ is) d =
    insert_item-Distinct i (sort_items is) (All-sort_items _ is d.0) (sort_items-Distinct is d.1)

-- The items that Create works on.
abbrev pub work_items : Request → List ItemRequest
work_items raw = sort_items (normalize_request raw).items

pub validated_items :
    (raw : Request)
    → validate_request raw ≡ none
    → Distinct (work_items raw) × Positive (work_items raw)
unfolding validate_request normalize_request
validated_items raw h =
    let (_, distinct, positive) = valid_items-Distinct [] raw.items (ground arith) in
    (sort_items-Distinct _ distinct, All-sort_items _ _ positive)
