-- ===== src/Gear.antt =====
-- What a player has in his house and on him: `stored_in` to `welcome` of src/game.cpp.
use norelecbot.Base.{
  Bool, List, Option, [], any_of, false, find_if, find_index, get_or, if◌then◌else◌, is_some,
  length, ltb, none, not, set, some, suc, true, value_or, ℕ, ◌&&◌, ◌-◌, ◌==◌, ◌||◌, ◌∷◌,
}
use norelecbot.Base.Int.{eqb_ℤ, leb_ℤ, ltb_ℤ, negsuc, pos, ℤ, ◌+ℤ◌}
use norelecbot.Place.{is_home, whereabouts}
use norelecbot.Power.{Power, balloon, count_power, is_lobster, same_emoji, works_on_him}
use norelecbot.Slots.{carried_limit, free_slot, furniture_slots, furniture_stored, put_in}
use norelecbot.State.{Child, ConquisterState, Holder}
use norelecbot.Table.{Authors, Counters, Table, contains, counter, erase, insert, lookup}
use norelecbot.Text.{Text, is_empty, text_eq}

unfoldable pub stored_in : Authors → Text → Text
stored_in place player = value_or (lookup player place) []

unfoldable pub slots_of : ConquisterState → Text → List Text
slots_of state player = furniture_slots (stored_in state.furniture player)

unfoldable pub gear_of : ConquisterState → Text → List Text
gear_of state player = furniture_slots (stored_in state.equipped player)

-- The emoji that the holder's lobsters became, written over the lobsters that are still there.
unfoldable pub show_lobsters : List (ℕ × Text) → List Text → List Text
show_lobsters [] slots = slots
show_lobsters ((slot, emoji) ∷ lobsters) slots = show_lobsters lobsters (
    if ltb slot (length slots) && is_lobster (get_or slots slot [])
    then set slots slot emoji
    else slots)

shown_by : Option Holder → ConquisterState → Text → Text
unfolding show_lobsters
shown_by none state player = stored_in state.equipped player
shown_by (some hold) state player =
    if not (text_eq hold.username player) || is_empty hold.lobsters
    then stored_in state.equipped player
    else furniture_stored (show_lobsters hold.lobsters (gear_of state player))

-- `shown_gear`, and `worn`, which is the same.
unfoldable pub shown_gear : ConquisterState → Text → Text
unfolding shown_by
shown_gear state player = shown_by state.current state player

unfoldable pub carried_copies : ConquisterState → Text → Power → ℤ
carried_copies state player p = count_power (furniture_slots (shown_gear state player)) p

unfoldable pub house_copies : ConquisterState → Text → Power → ℤ
house_copies state player p = count_power (slots_of state player) p

unfoldable pub is_smeared : ConquisterState → Text → ℤ → Bool
is_smeared state player now = ltb_ℤ now (counter state.smeared player)

unfoldable pub is_pugliese : ConquisterState → Text → Bool
is_pugliese state player = contains player state.pugliesi

unfoldable pub smear : ConquisterState → Text → ℤ → ℤ → ConquisterState
smear state player now seconds =
    if ltb_ℤ (pos 0) seconds
    then record state { smeared = insert player (now +ℤ seconds) state.smeared }
    else state

-- The keys whose instant has come, and their removal one by one.
unfoldable pub expired : ℤ → Counters → List Text
expired now [] = []
expired now ((player, until) ∷ m) =
    if leb_ℤ until now then player ∷ expired now m else expired now m

unfoldable pub erase_all {ℓ} : {V : Type ℓ} → List Text → Table V → Table V
erase_all [] m = m
erase_all (k ∷ ks) m = erase_all ks (erase k m)

unfoldable pub wash : ConquisterState → ℤ → ConquisterState
wash state now = record state {
  smeared = erase_all (expired now state.smeared) state.smeared;
  frozen = erase_all (expired now state.frozen) state.frozen;
}

-- For every lobster of the claimer, what the kicked holder has in that slot, the slots from `slot` on.
lobsters_from : ℕ → List Text → List Text → List (ℕ × Text)
lobsters_from slot [] theirs = []
lobsters_from slot (m ∷ mine) [] = []
lobsters_from slot (m ∷ mine) (t ∷ theirs) =
    let rest = lobsters_from (suc slot) mine theirs in
    if is_lobster m && (not (is_empty t) && not (is_lobster t)) then (slot, t) ∷ rest else rest

unfoldable pub lobsters_copying : ConquisterState → Text → Text → List (ℕ × Text)
unfolding lobsters_from
lobsters_copying state claimer kicked =
    lobsters_from 0 (gear_of state claimer) (gear_of state kicked)

-- Writes a place back; a player left with nothing there loses his entry.
unfoldable pub hang_in : Authors → Text → List Text → Authors
hang_in place player slots =
    let stored = furniture_stored slots in
    if is_empty stored then erase player place else insert player stored place

unfoldable pub hang : ConquisterState → Text → List Text → ConquisterState
hang state player slots = record state { furniture = hang_in state.furniture player slots }

unfoldable pub hang_gear : ConquisterState → Text → List Text → ConquisterState
hang_gear state player slots = record state { equipped = hang_in state.equipped player slots }

-- Nothing when there is no room: the source returns false and leaves the state alone.
unfoldable pub put_on : ConquisterState → Text → Text → Option ConquisterState
put_on state player emoji = elim (put_in (gear_of state player) emoji carried_limit) [
  | none ↦ none
  | some slots ↦ some (hang_gear state player slots)
]

unfoldable pub put_in_house : ConquisterState → Text → Text → ℕ → Option ConquisterState
put_in_house state player emoji limit = elim (put_in (slots_of state player) emoji limit) [
  | none ↦ none
  | some slots ↦ some (hang state player slots)
]

in_house : ConquisterState → Text → Text → ℕ → Option (Bool × ConquisterState)
in_house state player emoji limit = elim (put_in_house state player emoji limit) [
  | none ↦ none
  | some state' ↦ some (false, state')
]

-- Whether it went on him, with the new state; nothing when there was no room anywhere.
unfoldable pub receive : ConquisterState → Text → Text → ℕ → Option (Bool × ConquisterState)
unfolding in_house
receive state player emoji limit =
    if works_on_him emoji && is_home (whereabouts state player)
    then elim (put_on state player emoji) [
      | none ↦ in_house state player emoji limit
      | some state' ↦ some (true, state')
    ]
    else in_house state player emoji limit

unfoldable pub can_receive : ConquisterState → Text → Text → ℕ → Bool
can_receive state player emoji limit =
    is_some (free_slot (slots_of state player) limit)
    || (works_on_him emoji
        && (is_home (whereabouts state player)
            && is_some (free_slot (gear_of state player) carried_limit)))

-- `static_cast<std::size_t>` of a slot on file: a negative one is far beyond every house.
abbrev pub to_size : ℤ → ℕ
to_size (pos n) = n
to_size (negsuc n) = 18446744073709551616 - suc n

unfoldable pub is_child : ConquisterState → Text → ℕ → Bool
unfolding any_of
is_child state player slot =
    any_of (λ c. text_eq c.owner player && eqb_ℤ c.slot (pos slot)) state.children

-- Whether a child on file is this player's and looks like that.
unfoldable pub looks_like : List Text → Text → Text → Child → Bool
looks_like slots player emoji c =
    text_eq c.owner player
    && (ltb (to_size c.slot) (length slots) && same_emoji (get_or slots (to_size c.slot) []) emoji)

unfoldable pub names_child : ConquisterState → Text → Text → Bool
unfolding any_of looks_like
names_child state player emoji =
    any_of (looks_like (slots_of state player) player emoji) state.children

-- `erase` of the first element that passes.
unfoldable pub erase_first {ℓ} : {A : Type ℓ} → (A → Bool) → List A → List A
erase_first p [] = []
erase_first p (x ∷ xs) = if p x then xs else x ∷ erase_first p xs

unfoldable pub burn_child : ConquisterState → Text → Text → ConquisterState
unfolding find_if looks_like erase_first
burn_child state player emoji =
    let slots = slots_of state player in
    elim (find_if (looks_like slots player emoji) state.children) [
      | none ↦ state
      | some kid ↦
          hang
            (record state { children = erase_first (looks_like slots player emoji) state.children })
            player (set slots (to_size kid.slot) [])
    ]

-- The first slot, from `slot` on, that holds such an emoji and is not a child of his.
holding_from : ConquisterState → Text → Text → ℕ → List Text → Option ℕ
holding_from state player emoji slot [] = none
holding_from state player emoji slot (s ∷ slots) =
    let rest = holding_from state player emoji (suc slot) slots in
    if not (is_empty s) && (same_emoji s emoji && not (is_child state player slot))
    then some slot
    else rest

unfoldable pub slot_holding : ConquisterState → Text → Text → Option ℕ
unfolding holding_from
slot_holding state player emoji = holding_from state player emoji 0 (slots_of state player)

found_below : ℕ → ℕ → Option ℕ
found_below n i = if ltb i n then some i else none

unfoldable pub gear_slot_holding : ConquisterState → Text → Text → Option ℕ
unfolding find_index found_below
gear_slot_holding state player emoji =
    let slots = gear_of state player in
    found_below (length slots) (find_index (λ s. not (is_empty s) && same_emoji s emoji) slots)

-- Takes the first copy, on him before the house; nothing when he has none that he can part with.
unfoldable pub take_emoji : ConquisterState → Text → Text → Option ConquisterState
take_emoji state player emoji = elim (gear_slot_holding state player emoji) [
  | some i ↦ some (hang_gear state player (set (gear_of state player) i []))
  | none ↦ elim (slot_holding state player emoji) [
    | none ↦ none
    | some i ↦ some (hang state player (set (slots_of state player) i []))
  ]
]

unfoldable pub has_balloon : ConquisterState → Text → Bool
has_balloon state player =
    ltb_ℤ (pos 0) (count_power (slots_of state player) balloon)
    || ltb_ℤ (pos 0) (count_power (gear_of state player) balloon)

-- On him if there is room, else in the house; the state as it was when there is none.
unfoldable pub hang_balloon : ConquisterState → Text → ℕ → ConquisterState
hang_balloon state player limit =
    if limit == 0 then state else elim (put_on state player balloon.emoji) [
      | some state' ↦ state'
      | none ↦ value_or (put_in_house state player balloon.emoji limit) state
    ]

unfoldable pub welcome : ConquisterState → Text → ℕ → ConquisterState
welcome state player limit =
    if not (eqb_ℤ (counter state.welcomed player) (pos 0))
    then state
    else let told = record state { welcomed = insert player (pos 1) state.welcomed } in
      if has_balloon told player then told else hang_balloon told player limit
