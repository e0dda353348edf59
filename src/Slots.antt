-- ===== src/Slots.antt =====
-- A house, or what is on a player, slot by slot: `furniture_slots`, `furniture_stored`, `free_slot` and
-- `put_in` of src/game.cpp. An empty text is an empty slot, which is stored as "[]".
pub mod Put
use norelecbot.Base.{
  List, Option, [], count_if, find_index, grow_to, if◌then◌else◌, length, ltb, none, not, set, some,
  suc, take, value_or, zero, ℕ, ◌&&◌, ◌++◌, ◌-◌, ◌∷◌,
}
use norelecbot.Text.{Text, find, is_empty, starts_with}
use norelecbot.Text.Emoji.{emoji_split}

abbrev pub empty_slot : Text
empty_slot = b'[' ∷ b']' ∷ []

abbrev pub carried_limit : ℕ
carried_limit = 5

-- How many bytes stand before the next empty slot, or the end.
piece_end : Text → ℕ
unfolding find starts_with
piece_end s = value_or (find s empty_slot) (length s)

piece_slots : Text → List Text
piece_slots piece = value_or (emoji_split piece) (piece ∷ [])

slots_from : ℕ → Text → List Text
unfolding piece_end piece_slots
slots_from skip [] = []
slots_from (suc k) (c ∷ s) = slots_from k s
slots_from zero (c ∷ s) =
    let hole = starts_with (c ∷ s) empty_slot in
    let width = if hole then 2 else piece_end (c ∷ s) in
    let rest = slots_from (width - 1) s in
    if hole then [] ∷ rest else piece_slots (take width (c ∷ s)) ++ rest

unfoldable pub furniture_slots : Text → List Text
unfolding slots_from
furniture_slots stored = slots_from 0 stored

unfoldable pub drop_empty_back : List Text → List Text
drop_empty_back [] = []
drop_empty_back (slot ∷ slots) =
    let rest = drop_empty_back slots in if is_empty rest && is_empty slot then [] else slot ∷ rest

unfoldable pub join_slots : List Text → Text
join_slots [] = []
join_slots (slot ∷ slots) = (if is_empty slot then empty_slot else slot) ++ join_slots slots

unfoldable pub furniture_stored : List Text → Text
unfolding join_slots drop_empty_back
furniture_stored slots = join_slots (drop_empty_back slots)

-- `resize` to reach the slot if need be, and the write.
unfoldable pub write_slot : List Text → ℕ → Text → List Text
write_slot slots i emoji = set (grow_to slots (suc i) []) i emoji

unfoldable pub first_empty : List Text → ℕ
unfolding find_index
first_empty slots = find_index is_empty slots

unfoldable pub free_slot : List Text → ℕ → Option ℕ
unfolding first_empty
free_slot slots limit = if ltb (first_empty slots) limit then some (first_empty slots) else none

-- Nothing when there is no empty slot: the source returns false and leaves the slots alone.
unfoldable pub put_in : List Text → Text → ℕ → Option (List Text)
unfolding free_slot write_slot
put_in slots emoji limit = elim (free_slot slots limit) [
  | none ↦ none
  | some i ↦ some (write_slot slots i emoji)
]

-- How many slots hold something.
unfoldable pub filled : List Text → ℕ
unfolding count_if
filled slots = count_if (λ slot. not (is_empty slot)) slots
