-- ===== src/Keeper.antt =====
-- src/raids.cpp: the rounds of the keeper beside raid_due: what a raid event is called in the pulse, the
-- golden hour, and the daily round of the sentinel. The thread, the clock and the chats are left out.
pub mod Once
use norelecbot.Base.{Bool, List, Option, [], if◌then◌else◌, none, not, some, ◌&&◌, ◌||◌, ◌∷◌}
use norelecbot.Base.Int.{eqb_ℤ, ltb_ℤ, pos, ℤ, ◌%ℤ◌, ◌+ℤ◌}
use norelecbot.Config.{AppConfig}
use norelecbot.Event.{EventKind, RaidEvent}
use norelecbot.Pulse.{event}
use norelecbot.Sentinel.{Sentinel, block, set_reported_day}
use norelecbot.Sentinel.Judge.{scripts}
use norelecbot.Text.{Text, is_empty, utf8}
use norelecbot.Zodiac.{Zone}

abbrev pub block_seconds : ℤ
block_seconds = pos 86400

unfoldable pub event_name : RaidEvent → Text
unfolding utf8
event_name event = elim event.kind [
  | EventKind.stolen ↦ if ltb_ℤ (pos 0) event.loot then utf8 "robbed" else utf8 "held_off"
  | EventKind.delivered ↦ utf8 "delivered"
  | EventKind.returned ↦ utf8 "returned"
  | EventKind.born ↦ utf8 "born"
  | EventKind.gone ↦ utf8 "gone"
]

-- The days on which the golden hour was told as it began and as it ended.
pub record Golden : Type 0 where
  pub began : ℤ
  pub ended : ℤ

-- What the chats are told: until what hour the raids rob twice as much, or when they will again.
pub data GoldenNews : Type 0 where
  golden_until : ℤ → GoldenNews
  golden_again_at : ℤ → GoldenNews

unfoldable pub golden_round : AppConfig → Zone → ℤ → Golden → Golden × Option GoldenNews
golden_round config zone now told =
    let today = zone.local_day now in
    let over = (config.golden_hour +ℤ pos 1) %ℤ pos 24 in
    if ltb_ℤ config.golden_hour (pos 0)
    then (told, none)
    else if eqb_ℤ (zone.local_hour now) config.golden_hour && not (eqb_ℤ told.began today)
    then (record told { began = today }, some (GoldenNews.golden_until over))
    else if eqb_ℤ (zone.local_hour now) over
        && (eqb_ℤ told.began today && not (eqb_ℤ told.ended today))
    then (record told { ended = today }, some (GoldenNews.golden_again_at config.golden_hour))
    else (told, none)

unfoldable pub is_round_due : AppConfig → Zone → ℤ → Sentinel → Bool
is_round_due config zone now s = not (
    is_empty config.owner_ids
    || (is_empty config.bot_token
        || (not (eqb_ℤ (zone.local_hour now) config.sentinel_hour)
            || eqb_ℤ s.reported_day (zone.local_day now))))

unfoldable pub block_each : List Text → ℤ → Sentinel → Sentinel
unfolding block
block_each [] until s = s
block_each (key ∷ keys) until s = block_each keys until (block key until s)

-- What the round does to the sentinel; the report goes to the owners, and the file is written.
unfoldable pub sentinel_round : AppConfig → Zone → ℤ → Sentinel → Sentinel
unfolding is_round_due set_reported_day block_each
sentinel_round config zone now s =
    let today = set_reported_day (zone.local_day now) s in
    if is_round_due config zone now s
    then block_each (scripts zone today now) (now +ℤ block_seconds) today
    else s
