-- ===== src/Examples/Players.antt =====
-- The theorems on rides, players and accounts, at small inputs.
use mathlib.Core.List.{Perm}
use norelecbot.Base.{[], arith, if◌then◌else◌, map, not, refl, set, take, ◌+◌, ◌==◌, ◌∷◌, ◌≡◌}
use norelecbot.Base.Int.{eqb_ℤ, pos, ◌+ℤ◌, ◌-ℤ◌}
use norelecbot.Examples.{anna, annas_ride, bruno, game, playing}
use norelecbot.Identity.{platform_key}
use norelecbot.Irc.{parse_params}
use norelecbot.Irc.Fuel.{Params, parse_params_reads}
use norelecbot.Link.{account_of, player_link}
use norelecbot.Link.Both.{Linked, player_link-Linked}
use norelecbot.Power.{rocket}
use norelecbot.Raid.Deliver.{deliver_palle}
use norelecbot.Raid.Moved.{wealth-deliver_palle, wealth-take_loot}
use norelecbot.Raid.Rob.{take_loot}
use norelecbot.Raid.Wealth.{wealth}
use norelecbot.Ranking.{conquister_leaderboard}
use norelecbot.Ranking.Order.{Descends, conquister_leaderboard-Descends, ranked_as}
use norelecbot.Session.{ok}
use norelecbot.Session.Ensures.{Ensures}
use norelecbot.SortOut.{equipment_sort_out, sort_house}
use norelecbot.SortOut.Once.{Emptied, copies, equipment_sort_out_once, sort_house_keeps}
use norelecbot.State.{ConquisterState, Raid}
use norelecbot.Table.{Counters, counter, lookup}
use norelecbot.Text.{Text, lower_name, text_eq, to_lower, utf8}
use norelecbot.Text.Number.{digits, to_string}

abbrev bringing : Raid
bringing = record annas_ride { gift = pos 4 }

abbrev on_the_road_now : ConquisterState
unfolding game
on_the_road_now = record game { raids = bringing ∷ [] }

wealth-deliver_palle_example :
    (counter (deliver_palle 0 bringing on_the_road_now).scores bruno
      ≡ counter on_the_road_now.scores bruno +ℤ (if text_eq bruno bruno then pos 4 else pos 0))
    × ((deliver_palle 0 bringing on_the_road_now).raids
        ≡ set on_the_road_now.raids 0 (record bringing { gift = pos 0 }))
    × (wealth (deliver_palle 0 bringing on_the_road_now) ≡ wealth on_the_road_now)
unfolding on_the_road_now
wealth-deliver_palle_example =
    wealth-deliver_palle 0 bringing on_the_road_now bruno refl (omega arith)

abbrev empty_handed : Raid
empty_handed = record annas_ride { loot = pos 0 }

abbrev arriving : ConquisterState
unfolding game
arriving = record game { raids = empty_handed ∷ [] }

wealth-take_loot_example :
    let his = counter arriving.scores bruno in
    (counter (take_loot 0 bruno his (pos 5) arriving).scores bruno
      ≡ his -ℤ (if text_eq bruno bruno then pos 5 else pos 0))
    × ((take_loot 0 bruno his (pos 5) arriving).raids
        ≡ set arriving.raids 0 (record empty_handed { loot = pos 5 }))
    × (wealth (take_loot 0 bruno his (pos 5) arriving) ≡ wealth arriving)
unfolding arriving
wealth-take_loot_example =
    wealth-take_loot 0 empty_handed (pos 5) arriving bruno refl refl (omega arith)

parse_params_reads_example : Params (32 ∷ 97 ∷ 98 ∷ []) (parse_params 4 (32 ∷ 97 ∷ 98 ∷ []))
parse_params_reads_example = parse_params_reads 4 (32 ∷ 97 ∷ 98 ∷ []) (omega arith)

conquister_leaderboard-Descends_example :
    let entries = (conquister_leaderboard game 1).entries in
    (ranked : Counters) × Perm ranked game.scores
    × Descends ranked
    × (map ranked_as entries ≡ (if 1 == 0 then ranked else take 1 ranked))
conquister_leaderboard-Descends_example = conquister_leaderboard-Descends game 1

equipment_sort_out_once_example :
    Ensures (λ r s'. equipment_sort_out s' ≡ ok r s') (equipment_sort_out playing)
equipment_sort_out_once_example = equipment_sort_out_once playing

-- A rocket in the house, and nothing on him.
sort_house_keeps_example :
    let (house, gear', moved) = sort_house game anna 0 (rocket.emoji ∷ anna ∷ []) [] in
    (copies rocket.emoji house + copies rocket.emoji gear'
      ≡ copies rocket.emoji (rocket.emoji ∷ anna ∷ []) + copies rocket.emoji [])
    × Emptied (rocket.emoji ∷ anna ∷ []) house
unfolding rocket
sort_house_keeps_example =
    sort_house_keeps game anna 0 (rocket.emoji ∷ anna ∷ []) [] rocket.emoji refl

abbrev tg_seven : Text
tg_seven = b't' ∷ b'g' ∷ b':' ∷ b'7' ∷ []

abbrev irc_anna : Text
irc_anna = b'i' ∷ b'r' ∷ b'c' ∷ b':' ∷ b'a' ∷ b'n' ∷ []

-- Anna asked from IRC to be Bruno of Telegram, and now he asks to be her.
abbrev asked : ConquisterState
unfolding game
asked = record game {
  accounts = (tg_seven, bruno) ∷ (irc_anna, anna) ∷ [];
  irc_nicks = (anna, anna) ∷ [];
  link_requests = (irc_anna, tg_seven) ∷ [];
}

player_link-Linked_example :
    Linked
      (platform_key (pos 7) bruno [])
      (account_of (not (eqb_ℤ (pos 7) (pos 0))) anna asked.accounts)
      asked
      (player_link (pos 7) bruno anna [] asked)
unfolding asked lookup text_eq lower_name to_lower platform_key utf8 to_string digits
player_link-Linked_example = player_link-Linked (pos 7) bruno anna [] anna bruno asked refl refl
