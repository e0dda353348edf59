-- ===== src/SortOut.antt =====
-- `equipment_sort_out` of src/game.cpp: once only, what works on a player moves from his house to him.
pub mod Once
use norelecbot.Base.{
  List, Option, [], if◌then◌else◌, none, not, some, suc, true, ℕ, ◌==◌, ◌||◌, ◌∷◌,
}
use norelecbot.Gear.{gear_of, hang, hang_gear, is_child}
use norelecbot.Power.{works_on_him}
use norelecbot.Session.{Game, backup, get_state, modify, pure, ◌>>=◌, ◌>>◌}
use norelecbot.Slots.{carried_limit, free_slot, furniture_slots, write_slot}
use norelecbot.State.{ConquisterState, Holder}
use norelecbot.Table.{Authors}
use norelecbot.Text.{Text, is_empty, text_eq, utf8}

-- One house: what stays, what he has on him then, and from which slot to which each emoji went. The
-- loop ends where nothing more goes on him.
unfoldable pub sort_house :
    ConquisterState → Text → ℕ → List Text → List Text → List Text × List Text × List (ℕ × ℕ)
sort_house state player i [] gear = ([], gear, [])
sort_house state player i (slot ∷ house) gear =
    let passed = sort_house state player (suc i) house gear in
    if is_empty slot || (not (works_on_him slot) || is_child state player i)
    then (slot ∷ passed.0, passed.1, passed.2)
    else elim (free_slot gear carried_limit) [
      | none ↦ (slot ∷ house, gear, [])
      | some to ↦
          let moved = sort_house state player (suc i) house (write_slot gear to slot) in
          ([] ∷ moved.0, moved.1, (i, to) ∷ moved.2)
    ]

-- `moved.find(slot)`
moved_to : ℕ → List (ℕ × ℕ) → Option ℕ
moved_to slot [] = none
moved_to slot ((from, to) ∷ moved) =
    let rest = moved_to slot moved in if from == slot then some to else rest

-- A later slot moves to a later one, so that the order stays that of the slots.
moved_lobsters : List (ℕ × ℕ) → List (ℕ × Text) → List (ℕ × Text)
unfolding moved_to
moved_lobsters moved [] = []
moved_lobsters moved ((slot, emoji) ∷ lobsters) =
    let rest = moved_lobsters moved lobsters in
    elim (moved_to slot moved) [ none ↦ rest | some to ↦ (to, emoji) ∷ rest ]

holder_sorted : Text → List (ℕ × ℕ) → Option Holder → Option Holder
unfolding moved_lobsters
holder_sorted player moved none = none
holder_sorted player moved (some hold) =
    if text_eq hold.username player
    then some (record hold { lobsters = moved_lobsters moved hold.lobsters })
    else some hold

sort_player : Text → List Text → ConquisterState → ConquisterState
unfolding sort_house holder_sorted
sort_player player slots state =
    let (house, gear, moved) = sort_house state player 0 slots (gear_of state player) in
    let hung = hang_gear (hang state player house) player gear in
    if is_empty moved
    then state
    else record hung { current = holder_sorted player moved hung.current }

sort_all : Authors → ConquisterState → ConquisterState
unfolding sort_player
sort_all [] state = state
sort_all ((player, stored) ∷ houses) state =
    sort_all houses (sort_player player (furniture_slots stored) state)

-- "before-equipment"
equipment_tag : Text
unfolding utf8
equipment_tag = utf8 "before-equipment"

unfoldable pub equipment_sort_out : Game (Unit {0})
unfolding sort_all equipment_tag
equipment_sort_out = do
  state ← get_state
  (if state.split then pure tt else (do
    backup equipment_tag
    modify (λ st. record (sort_all st.furniture st) { split = true })))
