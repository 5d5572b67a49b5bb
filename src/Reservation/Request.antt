-- ===== src/Reservation/Request.antt =====
-- backend/internal/reservation/service.go: validation, normal form and hash of a request. SHA-256 of
-- the JSON text is the parameter `digest`, a function of the canonical request.
use ticket_online.Common.{
  ℕ, Bool, true, false, ◌||◌, Option, none, some, List, [], ◌∷◌, map, length, any, ltb, ◌==◌,
  if◌then◌else◌,
}
use ticket_online.Common.Text.{Text, same, less, trim_space}
use ticket_online.Errors.{Error, invalid_request}

pub record ItemRequest : Type 0 where
  pub tier_id : Text
  pub quantity : ℕ

pub record Request : Type 0 where
  pub event_id : Text
  pub items : List ItemRequest

-- uint64(^uint32(0))
abbrev pub max_u32 : ℕ
max_u32 = 4294967295

-- The loop over the items: `seen` is the set of tier ids so far.
unfoldable pub valid_items : List Text → List ItemRequest → Bool
valid_items seen [] = true
valid_items seen (item ∷ items) =
    let id = trim_space item.tier_id in
    let rest = valid_items (id ∷ seen) items in
    if same id [] || item.quantity == 0 || ltb max_u32 item.quantity
    then false
    else if any (same id) seen
    then false
    else rest

unfoldable pub validate_request : Request → Option Error
unfolding valid_items
validate_request r =
    if same (trim_space r.event_id) [] || length r.items == 0 || ltb 10 (length r.items)
    then some invalid_request
    else if valid_items [] r.items
    then none
    else some invalid_request

abbrev pub normalize_item : ItemRequest → ItemRequest
normalize_item i = record { tier_id = trim_space i.tier_id; quantity = i.quantity }

unfoldable pub normalize_request : Request → Request
normalize_request r = record {
  event_id = trim_space r.event_id;
  items = map normalize_item r.items;
}

-- sort.Slice by tier id.
unfoldable pub insert_item : ItemRequest → List ItemRequest → List ItemRequest
insert_item i [] = i ∷ []
insert_item i (j ∷ js) =
    let rest = insert_item i js in if less j.tier_id i.tier_id then j ∷ rest else i ∷ j ∷ js

unfoldable pub sort_items : List ItemRequest → List ItemRequest
unfolding insert_item
sort_items [] = []
sort_items (i ∷ is) = insert_item i (sort_items is)

unfoldable pub request_hash : (Request → Text) → Request → Text
unfolding sort_items
request_hash digest r =
    digest
      (record { event_id = trim_space r.event_id; items = sort_items (map normalize_item r.items) })
