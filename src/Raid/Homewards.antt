-- ===== src/Raid/Homewards.antt =====
-- The way home: that part of `raid_start` in src/game.cpp.
use norelecbot.Base.{List, Option, [], if◌then◌else◌, none, some, true, ◌∷◌}
use norelecbot.Base.Int.{ltb_ℤ, max_ℤ, pos, ℤ, ◌+ℤ◌, ◌-ℤ◌}
use norelecbot.Hold.{Settlement, leave_place}
use norelecbot.Place.{is_conquister, raid_of, whereabouts}
use norelecbot.Raid.Request.{RaidResult, RaidStatus, fresh_raid}
use norelecbot.State.{ConquisterState, Raid}
use norelecbot.Text.{Text, text_eq}
use norelecbot.Zodiac.{Sky}

-- The road that is left when he turns round: as much as he has walked.
unfoldable pub road_left : Raid → ℤ → ℤ
unfolding max_ℤ
road_left r now =
    let leg = r.back -ℤ r.arrive in
    if ltb_ℤ now r.arrive
    then max_ℤ (now -ℤ (r.arrive -ℤ leg)) (pos 0)
    else max_ℤ (r.back -ℤ now) (pos 0)

-- The first ride of his, changed in place.
unfoldable pub change_ride : Text → (Raid → Raid) → List Raid → List Raid
change_ride player f [] = []
change_ride player f (r ∷ raids) =
    if text_eq r.raider player then f r ∷ raids else r ∷ change_ride player f raids

unfoldable pub turn_back : ℤ → Raid → Raid
unfolding road_left
turn_back now r = record r { arrived = true; back = now +ℤ road_left r now }

unfoldable pub left_with : Settlement → RaidResult
left_with s = record fresh_raid {
  status = RaidStatus.left_place;
  earned = s.earned;
  lightning = s.lightning;
  zodiac_percent = s.zodiac_percent;
}

unfoldable pub leave_homewards : Sky → ℤ → ConquisterState → Option (RaidResult × ConquisterState)
unfolding left_with
leave_homewards sky now state = elim (leave_place state now sky) [
  | none ↦ none
  | some (s, state') ↦ some (left_with s, state')
]

-- Naming oneself is the way home.
unfoldable pub go_homewards :
    Text → Sky → ℤ → ConquisterState → Option (RaidResult × ConquisterState)
unfolding leave_homewards
go_homewards username sky now state = elim (raid_of state username) [
  | some r ↦ some (
    record fresh_raid { status = RaidStatus.coming_home; seconds = road_left r now },
    record state { raids = change_ride username (turn_back now) state.raids },
  )
  | none ↦
      if is_conquister (whereabouts state username)
      then leave_homewards sky now state
      else some (record fresh_raid { status = RaidStatus.home_already }, state)
]
