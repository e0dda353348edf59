-- ===== src/Furniture.antt =====
-- Buying and arranging: `inflated`, `furniture_move`, `furniture_buy` and `furniture_all` of
-- src/game.cpp. A move and a purchase go home first, which may throw.
use norelecbot.Base.{
  Bool, List, Option, [], count_if, false, get_or, grow_to, if◌then◌else◌, inl, inr, leb, length,
  ltb, map, none, not, set, some, suc, true, zero, ℕ, ◌&&◌, ◌+◌, ◌∷◌, ◌⊎◌,
}
use norelecbot.Base.Int.{
  eqb_ℤ, int64_max, leb_ℤ, ltb_ℤ, max_ℤ, negsuc, pos, ℤ, ◌*ℤ◌, ◌+ℤ◌, ◌-ℤ◌, ◌/ℤ◌,
}
use norelecbot.Gear.{gear_of, hang, hang_gear, is_child, shown_gear, slots_of, stored_in, to_size}
use norelecbot.Hold.{Departure, go_home, no_departure}
use norelecbot.Place.{at_home}
use norelecbot.Power.{without_variation, works_on_him}
use norelecbot.Slots.{carried_limit, free_slot, furniture_slots, furniture_stored, write_slot}
use norelecbot.State.{Child, ConquisterState}
use norelecbot.Table.{Authors, contains, counter, insert}
use norelecbot.Text.{Text, is_empty, text_eq}
use norelecbot.Zodiac.{Sky}

-- One copy more: nothing once the price would not fit.
unfoldable pub inflated_from : ℤ → ℤ → ℕ → ℤ
inflated_from factor price zero = price
inflated_from factor price (suc copies) =
    let rest = inflated_from factor (price *ℤ factor /ℤ pos 100) copies in
    if ltb_ℤ (int64_max /ℤ factor) price then int64_max else rest

unfoldable pub inflated : ℤ → ℕ → ℤ → ℤ
unfolding inflated_from max_ℤ
inflated cost copies inflation =
    if leb_ℤ cost (pos 0)
    then pos 0
    else inflated_from (pos 100 +ℤ max_ℤ inflation (pos 0)) cost copies

pub data FurnitureMoveStatus : Type 0 where
  moved swapped empty_slot_there invalid_position same_position not_home : FurnitureMoveStatus

pub record FurnitureMoveResult : Type 0 where
  pub status : FurnitureMoveStatus
  pub shown : Text
  pub moved : Text
  pub swapped : Text
  pub departure : Departure

-- A slot from 1 up to the limit.
unfoldable pub valid_slot : ℕ → ℤ → Bool
valid_slot room (pos zero) = false
valid_slot room (pos (suc n)) = leb (suc n) room
valid_slot room (negsuc n) = false

unfoldable pub move_child : Text → ℕ → ℕ → Child → Child
move_child username source target c =
    if not (text_eq c.owner username)
    then c
    else if eqb_ℤ c.slot (pos source)
    then record c { slot = pos target }
    else if eqb_ℤ c.slot (pos target)
    then record c { slot = pos source }
    else c

unfoldable pub swap_slots : List Text → ℕ → ℕ → List Text
swap_slots slots i j = set (set slots i (get_or slots j [])) j (get_or slots i [])

move_slots :
    Text
    → ℕ
    → ℕ
    → List Text
    → FurnitureMoveResult
    → ConquisterState
    → FurnitureMoveResult × ConquisterState
move_slots username source target slots outcome state =
    let room = grow_to slots (suc target) [] in
    let swapped = get_or room target [] in
    let slots' = swap_slots room source target in
    (
      record outcome {
        moved = get_or room source [];
        swapped = swapped;
        status =
            if is_empty swapped then FurnitureMoveStatus.moved else FurnitureMoveStatus.swapped;
        shown = furniture_stored slots';
      },
      hang (record state { children = map (move_child username source target) state.children })
          username slots',
    )

move_at_home :
    Text
    → ℤ
    → ℤ
    → List Text
    → FurnitureMoveResult
    → ConquisterState
    → FurnitureMoveResult × ConquisterState
unfolding move_slots
move_at_home username from to slots outcome state =
    let source = to_size (from -ℤ pos 1) in
    let target = to_size (to -ℤ pos 1) in
    if not (at_home state username)
    then (record outcome { status = FurnitureMoveStatus.not_home }, state)
    else if is_empty (get_or slots source [])
    then (record outcome { status = FurnitureMoveStatus.empty_slot_there }, state)
    else move_slots username source target slots outcome state

unfoldable pub furniture_move :
    Text → ℤ → ℤ → ℕ → ℤ → Sky → ConquisterState → Option (FurnitureMoveResult × ConquisterState)
unfolding move_at_home
furniture_move username from to limit now sky state =
    let slots = slots_of state username in
    let outcome : FurnitureMoveResult = record {
      status = FurnitureMoveStatus.moved;
      shown = furniture_stored slots;
      moved = [];
      swapped = [];
      departure = no_departure;
    } in
    if not (valid_slot limit from && valid_slot limit to)
    then some (record outcome { status = FurnitureMoveStatus.invalid_position }, state)
    else if eqb_ℤ from to
    then some (record outcome { status = FurnitureMoveStatus.same_position }, state)
    else elim (go_home state username now sky) [
      | none ↦ none
      | some (departure, state') ↦
          some
            (move_at_home username from to slots (record outcome { departure = departure }) state')
    ]

pub data FurnitureStatus : Type 0 where
  bought full invalid_position already_there insufficient_score not_home child_there :
      FurnitureStatus

pub record FurnitureResult : Type 0 where
  pub status : FurnitureStatus
  pub available_score : ℤ
  pub shown : Text
  pub house : Text
  pub with_him : Bool
  pub position : ℕ
  pub replaced : Text
  pub copies : ℕ
  pub charged : ℤ
  pub departure : Departure

-- Where it goes: the slot and whether that is on him, or why it goes nowhere.
unfoldable pub buy_place : Text → ℤ → ℕ → List Text → List Text → (ℕ × Bool) ⊎ FurnitureStatus
unfolding valid_slot
buy_place emoji position limit slots gear =
    if eqb_ℤ position (pos 0)
    then (let on_him = if works_on_him emoji then free_slot gear carried_limit else none in
        elim on_him [
          | some i ↦ inl (i, true)
          | none ↦ elim (free_slot slots limit) [
            | some i ↦ inl (i, false)
            | none ↦ inr FurnitureStatus.full
          ]
        ])
    else if valid_slot limit position
    then inl (to_size (position -ℤ pos 1), false)
    else inr FurnitureStatus.invalid_position

-- How many of that emoji are in the houses, on the players and on the road.
unfoldable pub copies_in : Text → Authors → ℕ
unfolding count_if
copies_in wanted [] = 0
copies_in wanted ((player, stored) ∷ m) =
    count_if (λ s. not (is_empty s) && text_eq (without_variation s) wanted)
      (furniture_slots stored)
    + copies_in wanted m

unfoldable pub copies_of : ConquisterState → Text → ℕ
unfolding count_if copies_in
copies_of state wanted =
    copies_in wanted state.furniture
    + copies_in wanted state.equipped
    + count_if (λ r. not (is_empty r.gift_emoji) && text_eq (without_variation r.gift_emoji) wanted)
        state.raids

buy_paid :
    Text → Text → ℕ → Bool → FurnitureResult → ConquisterState → FurnitureResult × ConquisterState
buy_paid username emoji i with_him outcome state =
    let place = if with_him then gear_of state username else slots_of state username in
    let left = outcome.available_score -ℤ outcome.charged in
    let paid = record state { scores = insert username left state.scores } in
    let slots = write_slot place i emoji in
    let state' = if with_him then hang_gear paid username slots else hang paid username slots in
    (
      record outcome {
        status = FurnitureStatus.bought;
        replaced = get_or place i [];
        available_score = left;
        shown = shown_gear state' username;
        house = stored_in state'.furniture username;
      },
      state',
    )

buy_priced :
    Text
    → Text
    → ℤ
    → ℤ
    → ℕ
    → Bool
    → FurnitureResult
    → ConquisterState
    → FurnitureResult × ConquisterState
unfolding buy_paid
buy_priced username emoji cost inflation i with_him outcome state =
    let copies = copies_of state (without_variation emoji) in
    let charged = inflated cost copies inflation in
    let priced = record outcome { copies = copies; charged = charged } in
    if ltb_ℤ priced.available_score charged
    then (record priced { status = FurnitureStatus.insufficient_score }, state)
    else buy_paid username emoji i with_him priced state

buy_at :
    Text
    → Text
    → ℤ
    → ℤ
    → FurnitureResult
    → ConquisterState
    → (ℕ × Bool) ⊎ FurnitureStatus
    → FurnitureResult × ConquisterState
unfolding buy_priced
buy_at username emoji cost inflation outcome state (inr why) =
    (record outcome { status = why }, state)
buy_at username emoji cost inflation outcome state (inl (i, with_him)) =
    let there = get_or (slots_of state username) i [] in
    let placed = record outcome { with_him = with_him; position = if with_him then 0 else suc i } in
    if not with_him && is_child state username i
    then (record placed { status = FurnitureStatus.child_there; replaced = there }, state)
    else if not with_him
        && (ltb i (length (slots_of state username))
            && text_eq (without_variation there) (without_variation emoji))
    then (record placed { status = FurnitureStatus.already_there; replaced = there }, state)
    else buy_priced username emoji cost inflation i with_him placed state

buy_at_home :
    Text → Text → ℤ → ℤ → ℕ → ℤ → Departure → ConquisterState → FurnitureResult × ConquisterState
unfolding buy_at
buy_at_home username emoji position cost limit inflation departure state =
    let outcome : FurnitureResult = record {
      status = FurnitureStatus.bought;
      available_score = counter state.scores username;
      shown = [];
      house = [];
      with_him = false;
      position = 0;
      replaced = [];
      copies = 0;
      charged = pos 0;
      departure = departure;
    } in
    let slots = slots_of state username in
    let gear = gear_of state username in
    if not (at_home state username)
    then (record outcome { status = FurnitureStatus.not_home }, state)
    else buy_at username emoji cost inflation
        (record outcome { shown = shown_gear state username; house = furniture_stored slots }) state
        (buy_place emoji position limit slots gear)

unfoldable pub furniture_buy :
    Text
    → Text
    → ℤ
    → ℤ
    → ℕ
    → ℤ
    → Sky
    → ℤ
    → ConquisterState
    → Option (FurnitureResult × ConquisterState)
unfolding buy_at_home
furniture_buy username emoji position cost limit now sky inflation state =
    elim (go_home state username now sky) [
      | none ↦ none
      | some (departure, state') ↦
          some (buy_at_home username emoji position cost limit inflation departure state')
    ]

-- What everybody has on him, the holder's as it shows.
unfoldable pub furniture_all : ConquisterState → Authors
furniture_all state = elim state.current [
  | none ↦ state.equipped
  | some hold ↦
      if contains hold.username state.equipped
      then insert hold.username (shown_gear state hold.username) state.equipped
      else state.equipped
]
