-- ===== src/Raid/Due.antt =====
-- `lay_eggs` and `raid_due` of src/game.cpp: what the keeper of the raids settles at every round.
use norelecbot.Base.{
  Bool, List, Option, [], erase_if, get_elem?, if◌then◌else◌, length, none, not, some, suc,
  value_or, zero, ℕ, ◌&&◌, ◌++◌, ◌||◌, ◌∷◌,
}
use norelecbot.Base.Int.{leb_ℤ, ltb_ℤ, pos, ℤ, ◌*ℤ◌, ◌+ℤ◌, ◌-ℤ◌, ◌/ℤ◌}
use norelecbot.Event.{EventKind, RaidEvent, fresh_event, on_telegram}
use norelecbot.Family.{births, grow}
use norelecbot.Gear.{house_copies, is_pugliese, is_smeared, put_in_house, put_on, shown_gear, wash}
use norelecbot.Place.{display_name}
use norelecbot.Power.{hen}
use norelecbot.Raid.Arrive.{arrive}
use norelecbot.Rules.{RaidRules}
use norelecbot.Session.{
  Game, get_state, gets, modify, notify, pure, told_back, told_robbed, when, ◌>>=◌, ◌>>◌,
}
use norelecbot.State.{ConquisterState, Raid}
use norelecbot.Table.{Authors, Counters, counter, insert}
use norelecbot.Text.{Text, is_empty}

-- What the hens of each house laid, read before anything is paid.
unfoldable pub eggs_laid : ConquisterState → ℤ → Authors → List (Text × ℤ)
eggs_laid state each [] = []
eggs_laid state each ((player, hung) ∷ m) =
    let hens = house_copies state player hen in
    let rest = eggs_laid state each m in
    if ltb_ℤ (pos 0) hens then (player, hens *ℤ each) ∷ rest else rest

unfoldable pub pay_all : List (Text × ℤ) → Counters → Counters
pay_all [] scores = scores
pay_all ((player, palle) ∷ laid) scores =
    pay_all laid (insert player (counter scores player +ℤ palle) scores)

-- Whole minutes only: the rest waits for the next round.
unfoldable pub lay_eggs : RaidRules → ℤ → ConquisterState → ConquisterState
unfolding eggs_laid pay_all
lay_eggs rules now state =
    let minutes = (now -ℤ state.eggs_at) /ℤ pos 60 in
    if leb_ℤ rules.hen_per_minute (pos 0)
    then state
    else if leb_ℤ state.eggs_at (pos 0) || ltb_ℤ now state.eggs_at
    then record state { eggs_at = now }
    else if leb_ℤ minutes (pos 0)
    then state
    else record state {
      eggs_at = state.eggs_at +ℤ minutes *ℤ pos 60;
      scores =
          pay_all (eggs_laid state (rules.hen_per_minute *ℤ minutes) state.furniture) state.scores;
    }

-- The palle that the raider brings home.
unfoldable pub pay_home : Raid → ConquisterState → ConquisterState
pay_home r state =
    let brought = r.loot +ℤ r.gift in
    if ltb_ℤ (pos 0) brought
    then record state {
      scores = insert r.raider (counter state.scores r.raider +ℤ brought) state.scores;
    }
    else state

-- The emoji that he still carries goes on him, or else into the house, whatever its limit.
unfoldable pub unpack : Raid → ConquisterState → ConquisterState
unpack r state =
    if is_empty r.gift_emoji then state else elim (put_on state r.raider r.gift_emoji) [
      | some state' ↦ state'
      | none ↦ value_or (put_in_house state r.raider r.gift_emoji 18446744073709551615) state
    ]

unfoldable pub bring_home : Raid → ConquisterState → ConquisterState
unfolding pay_home unpack
bring_home r state = unpack r (pay_home r state)

home_event : Raid → ℤ → ConquisterState → RaidEvent
home_event r now state = record fresh_event {
  kind = EventKind.returned;
  raider = display_name state r.raider;
  target = display_name state r.target;
  loot = r.loot;
  gift = r.gift;
  gift_emoji = r.gift_emoji;
  raider_emoji = shown_gear state r.raider;
  target_emoji = shown_gear state r.target;
  raider_smeared = is_smeared state r.raider now;
  target_smeared = is_smeared state r.target now;
  raider_pugliese = is_pugliese state r.raider;
  target_pugliese = is_pugliese state r.target;
  raider_on_telegram = on_telegram state r.raider;
}

unfoldable pub come_back : Raid → ℤ → Game (List RaidEvent)
unfolding home_event
come_back r now = do
  notify (told_back r.raider now)
  when (ltb_ℤ (pos 0) r.loot) (notify (told_robbed r.target r.raider now))
  modify (bring_home r)
  state ← get_state
  pure (home_event r now state ∷ [])

abbrev pub is_over : ℤ → Raid → Bool
is_over now r = r.arrived && leb_ℤ r.back now

abbrev pub is_due : ℤ → Raid → Bool
is_due now r = not r.arrived && leb_ℤ r.arrive now

unfoldable pub arrive_due : ℕ → RaidRules → ℕ → ℤ → Option Raid → Game (List RaidEvent)
arrive_due fuel rules i now none = pure []
arrive_due fuel rules i now (some r) =
    if is_due now r then (do event ← arrive fuel rules i r now; pure (event ∷ [])) else pure []

unfoldable pub back_due : ℤ → Option Raid → Game (List RaidEvent)
unfolding come_back
back_due now none = pure []
back_due now (some r) = if is_over now r then come_back r now else pure []

-- The ride at one index: its arrival, and then its homecoming.
unfoldable pub settle_at : ℕ → RaidRules → ℕ → ℤ → Game (List RaidEvent)
unfolding arrive_due back_due
settle_at fuel rules i now = do
  r ← gets (λ st. get_elem? st.raids i)
  arrived ← arrive_due fuel rules i now r
  r' ← gets (λ st. get_elem? st.raids i)
  returned ← back_due now r'
  pure (arrived ++ returned)

unfoldable pub settle_from : ℕ → RaidRules → ℤ → ℕ → ℕ → Game (List RaidEvent)
settle_from fuel rules now i zero = pure []
settle_from fuel rules now i (suc left) = do
  here ← settle_at fuel rules i now
  rest ← settle_from fuel rules now (suc i) left
  pure (here ++ rest)

-- What grows, what is born, and then every ride there was at the beginning.
pub settle_rides : ℕ → RaidRules → ℤ → Game (List RaidEvent)
unfolding settle_from
settle_rides fuel rules now = do
  modify (λ st. lay_eggs rules now (wash st now))
  grown ← grow rules now
  born_now ← births rules now
  riding ← gets (λ st. length st.raids)
  settled ← settle_from fuel rules now 0 riding
  pure (grown ++ born_now ++ settled)

-- The rides that are over are off the list.
unfoldable pub clear_over : ℤ → List RaidEvent → Game (List RaidEvent)
unfolding erase_if
clear_over now events = do
  modify (λ st. record st { raids = erase_if (is_over now) st.raids })
  pure events

unfoldable pub raid_due : ℕ → RaidRules → ℤ → Game (List RaidEvent)
unfolding settle_rides clear_over
raid_due fuel rules now = do events ← settle_rides fuel rules now; clear_over now events
