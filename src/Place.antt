-- ===== src/Place.antt =====
-- Where a player is: `Whereabouts` of src/game.hpp, and `whereabouts`, `at_home`, `on_the_road`,
-- `raid_of`, `frozen_for` and `display_name` of src/game.cpp.
use norelecbot.Base.{
  Bool, List, Option, any_of, false, find_if, if◌then◌else◌, none, some, true, value_or,
}
use norelecbot.Base.Int.{max_ℤ, pos, ℤ, ◌-ℤ◌}
use norelecbot.State.{ConquisterState, Holder, Raid}
use norelecbot.Table.{counter, lookup}
use norelecbot.Text.{Text, equals_ignore_case, text_eq}

pub data Whereabouts : Type 0 where
  home conquister road : Whereabouts

abbrev pub is_home : Whereabouts → Bool
is_home Whereabouts.home = true
is_home _ = false

abbrev pub is_conquister : Whereabouts → Bool
is_conquister Whereabouts.conquister = true
is_conquister _ = false

abbrev pub is_road : Whereabouts → Bool
is_road Whereabouts.road = true
is_road _ = false

abbrev pub same_place : Whereabouts → Whereabouts → Bool
same_place Whereabouts.home w = is_home w
same_place Whereabouts.conquister w = is_conquister w
same_place Whereabouts.road w = is_road w

unfoldable pub holds_place : Option Holder → Text → Bool
holds_place none player = false
holds_place (some hold) player = equals_ignore_case hold.username player

-- The first ride of his, if he is on one.
unfoldable pub ride_of : List Raid → Text → Option Raid
unfolding find_if
ride_of raids player = find_if (λ r. text_eq r.raider player) raids

unfoldable pub raid_of : ConquisterState → Text → Option Raid
raid_of state player = ride_of state.raids player

unfoldable pub whereabouts : ConquisterState → Text → Whereabouts
whereabouts state player =
    if holds_place state.current player
    then Whereabouts.conquister
    else if any_of (λ r. text_eq r.raider player) state.raids
    then Whereabouts.road
    else Whereabouts.home

unfoldable pub at_home : ConquisterState → Text → Bool
at_home state player = is_home (whereabouts state player)

unfoldable pub on_the_road : ConquisterState → Text → Bool
on_the_road state player = is_road (whereabouts state player)

-- Seconds until a player hit by ice thaws.
unfoldable pub frozen_for : ConquisterState → Text → ℤ → ℤ
unfolding max_ℤ
frozen_for state player now = max_ℤ (counter state.frozen player -ℤ now) (pos 0)

unfoldable pub display_name : ConquisterState → Text → Text
display_name state key = value_or (lookup key state.display_names) key
