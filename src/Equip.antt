-- ===== src/Equip.antt =====
-- What goes on a player and back: `gear_take` and `gear_store` of src/game.cpp.
use norelecbot.Base.{Option, [], get_or, if◌then◌else◌, is_some, none, not, set, some, ℕ}
use norelecbot.Base.Int.{ℤ}
use norelecbot.Gear.{
  gear_of, gear_slot_holding, hang, hang_gear, names_child, put_in_house, shown_gear, slot_holding,
  slots_of, stored_in,
}
use norelecbot.Hold.{Departure, go_home}
use norelecbot.Place.{at_home}
use norelecbot.Slots.{carried_limit, free_slot, write_slot}
use norelecbot.State.{ConquisterState}
use norelecbot.Text.{Text, is_empty}
use norelecbot.Zodiac.{Sky}

pub data GearStatus : Type 0 where
  taken swapped stored not_home not_owned already_on child full : GearStatus
  swap_missing not_on house_full : GearStatus

pub record GearResult : Type 0 where
  pub status : GearStatus
  pub shown : Text
  pub house : Text
  pub swapped : Text
  pub departure : Departure

abbrev pub fresh_gear : Departure → GearResult
fresh_gear departure = record {
  status = GearStatus.taken;
  shown = [];
  house = [];
  swapped = [];
  departure = departure;
}

-- Why an emoji that he named cannot be taken from the house.
not_held : ConquisterState → Text → Text → GearStatus
not_held state player emoji =
    if names_child state player emoji
    then GearStatus.child
    else if is_some (gear_slot_holding state player emoji)
    then GearStatus.already_on
    else GearStatus.not_owned

-- From a slot of the house to one on him; what was there takes its place.
unfoldable pub exchange :
    Text → ℕ → ℕ → Text → GearResult → ConquisterState → GearResult × ConquisterState
exchange player i j back outcome state =
    let house = slots_of state player in
    let gear = gear_of state player in
    let state' =
      hang_gear (hang state player (set house i back)) player
        (write_slot gear j (get_or house i [])) in
    (
      record outcome {
        swapped = back;
        status = if is_empty back then GearStatus.taken else GearStatus.swapped;
        shown = shown_gear state' player;
        house = stored_in state'.furniture player;
      },
      state',
    )

take_from : Text → Text → ℕ → GearResult → ConquisterState → GearResult × ConquisterState
take_from player swap i outcome state =
    let gear = gear_of state player in
    if not (is_empty swap)
    then elim (gear_slot_holding state player swap) [
      | none ↦ (record outcome { status = GearStatus.swap_missing }, state)
      | some j ↦ exchange player i j (get_or gear j []) outcome state
    ]
    else elim (free_slot gear carried_limit) [
      | none ↦ (record outcome { status = GearStatus.full; shown = shown_gear state player }, state)
      | some j ↦ exchange player i j [] outcome state
    ]

take_at_home : Text → Text → Text → GearResult → ConquisterState → GearResult × ConquisterState
unfolding not_held take_from
take_at_home player emoji swap outcome state =
    if not (at_home state player)
    then (record outcome { status = GearStatus.not_home }, state)
    else elim (slot_holding state player emoji) [
      | none ↦ (record outcome { status = not_held state player emoji }, state)
      | some i ↦ take_from player swap i outcome state
    ]

unfoldable pub gear_take :
    Text → Text → Text → ℤ → Sky → ConquisterState → Option (GearResult × ConquisterState)
unfolding take_at_home
gear_take player emoji swap now sky state = elim (go_home state player now sky) [
  | none ↦ none
  | some (departure, state') ↦ some (take_at_home player emoji swap (fresh_gear departure) state')
]

store_from : Text → ℕ → ℕ → GearResult → ConquisterState → GearResult × ConquisterState
store_from player limit i outcome state =
    let gear = gear_of state player in
    elim (put_in_house state player (get_or gear i []) limit) [
      | none ↦ (record outcome { status = GearStatus.house_full }, state)
      | some housed ↦
          let state' = hang_gear housed player (set gear i []) in
          (
            record outcome {
              status = GearStatus.stored;
              shown = shown_gear state' player;
              house = stored_in state'.furniture player;
            },
            state',
          )
    ]

store_at_home : Text → Text → ℕ → GearResult → ConquisterState → GearResult × ConquisterState
unfolding store_from
store_at_home player emoji limit outcome state =
    if not (at_home state player)
    then (record outcome { status = GearStatus.not_home }, state)
    else elim (gear_slot_holding state player emoji) [
      | none ↦ (record outcome { status = GearStatus.not_on }, state)
      | some i ↦ store_from player limit i outcome state
    ]

unfoldable pub gear_store :
    Text → Text → ℕ → ℤ → Sky → ConquisterState → Option (GearResult × ConquisterState)
unfolding store_at_home
gear_store player emoji limit now sky state = elim (go_home state player now sky) [
  | none ↦ none
  | some (departure, state') ↦ some (store_at_home player emoji limit (fresh_gear departure) state')
]
