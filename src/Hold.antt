-- ===== src/Hold.antt =====
-- What a hold of @TheConquister37 is worth and who is paid: `hold_value`, `settle_hold`, `leave_place`,
-- `go_home` and `lose_bolts` of src/game.cpp. Nothing (`none`) is the `StorageError` on overflow.
pub mod Pay
use norelecbot.Base.{Bool, Option, false, if◌then◌else◌, none, not, some, true, ◌&&◌, ◌||◌}
use norelecbot.Base.Int.{int64_max, leb_ℤ, ltb_ℤ, max_ℤ, pos, ℤ, ◌%ℤ◌, ◌*ℤ◌, ◌+ℤ◌, ◌-ℤ◌, ◌/ℤ◌}
use norelecbot.Gear.{carried_copies}
use norelecbot.Place.{display_name, is_conquister, whereabouts}
use norelecbot.Power.{bolt}
use norelecbot.State.{ConquisterState, Holder}
use norelecbot.Table.{counter, insert}
use norelecbot.Text.{Text}
use norelecbot.Zodiac.{Sky, day_percent}

pub record Settlement : Type 0 where
  pub earned : ℤ
  pub lightning : ℤ
  pub zodiac_percent : ℤ

pub record Departure : Type 0 where
  pub left : Bool
  pub earned : ℤ
  pub lightning : ℤ
  pub zodiac_percent : ℤ

abbrev pub no_settlement : Settlement
no_settlement = record { earned = pos 0; lightning = pos 0; zodiac_percent = pos 100 }

abbrev pub no_departure : Departure
no_departure = record { left = false; earned = pos 0; lightning = pos 0; zodiac_percent = pos 100 }

-- The seconds since the hold was last counted.
unfoldable pub held_seconds : Holder → ℤ → ℤ
unfolding max_ℤ
held_seconds hold now =
    let from = max_ℤ hold.since hold.counted_from in if ltb_ℤ from now then now -ℤ from else pos 0

-- Times the lightning, unless the product would not fit.
unfoldable pub with_lightning : ℤ → ℤ → Option (ℤ × ℤ)
with_lightning percent seconds =
    if ltb_ℤ (pos 100) percent
    then if ltb_ℤ (int64_max /ℤ percent) seconds
      then none
      else some (percent, seconds *ℤ percent /ℤ pos 100)
    else some (pos 0, seconds)

-- A percentage of an amount, split so that the product stays small.
unfoldable pub percent_of : ℤ → ℤ → ℤ
percent_of earned percent = earned /ℤ pos 100 *ℤ percent +ℤ earned %ℤ pos 100 *ℤ percent /ℤ pos 100

unfoldable pub hold_value : ConquisterState → Holder → ℤ → Sky → Option Settlement
hold_value state hold now sky =
    elim (with_lightning hold.lightning_percent (held_seconds hold now)) [
      | none ↦ none
      | some (lightning, earned) ↦
          let percent = day_percent (display_name state hold.username) now sky in
          some (record {
            earned = percent_of earned percent;
            lightning = lightning;
            zodiac_percent = percent;
          })
    ]

pay_hold : ConquisterState → Holder → Settlement → Option (Settlement × ConquisterState)
pay_hold state hold value =
    let earned = value.earned +ℤ hold.banked in
    let score = counter state.scores hold.username in
    if ltb_ℤ (pos 0) score && ltb_ℤ (int64_max -ℤ score) earned
    then none
    else some (
      record value { earned = earned },
      record state { scores = insert hold.username (score +ℤ earned) state.scores },
    )

unfoldable pub settle_hold :
    ConquisterState → Holder → ℤ → Sky → Option (Settlement × ConquisterState)
unfolding pay_hold
settle_hold state hold now sky = elim (hold_value state hold now sky) [
  | none ↦ none
  | some value ↦ pay_hold state hold value
]

-- The holder leaves, paid for his hold; with nobody there nothing happens.
unfoldable pub leave_place : ConquisterState → ℤ → Sky → Option (Settlement × ConquisterState)
leave_place state now sky = elim state.current [
  | none ↦ some (no_settlement, state)
  | some hold ↦ settle_hold (record state { current = none }) hold now sky
]

unfoldable pub go_home : ConquisterState → Text → ℤ → Sky → Option (Departure × ConquisterState)
go_home state player now sky =
    if not (is_conquister (whereabouts state player))
    then some (no_departure, state)
    else elim (leave_place state now sky) [
      | none ↦ none
      | some (s, state') ↦ some (
        record {
          left = true;
          earned = s.earned;
          lightning = s.lightning;
          zodiac_percent = s.zodiac_percent;
        },
        state',
      )
    ]

-- The hold with the lightning that is left, what it made so far put aside.
unfoldable pub fewer_bolts : Holder → ℤ → ℤ → ℤ → Holder
unfolding max_ℤ
fewer_bolts hold left made now =
    let share = (hold.lightning_percent -ℤ pos 100) /ℤ hold.bolts in
    record hold {
      banked = hold.banked +ℤ made;
      counted_from = max_ℤ now hold.since;
      bolts = left;
      lightning_percent = if ltb_ℤ (pos 0) left then pos 100 +ℤ left *ℤ share else pos 0;
    }

lose_held : ConquisterState → Holder → ℤ → Sky → Option ConquisterState
lose_held state hold now sky =
    let left = carried_copies state hold.username bolt in
    if leb_ℤ hold.bolts (pos 0) || leb_ℤ hold.bolts left
    then some state
    else elim (hold_value state hold now sky) [
      | none ↦ none
      | some value ↦ some (record state { current = some (fewer_bolts hold left value.earned now) })
    ]

unfoldable pub lose_bolts : ConquisterState → ℤ → Sky → Option ConquisterState
unfolding lose_held
lose_bolts state now sky = elim state.current [
  | none ↦ some state
  | some hold ↦ lose_held state hold now sky
]
