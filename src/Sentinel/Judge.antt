-- ===== src/Sentinel/Judge.antt =====
-- `judge` and `Sentinel::scripts` of src/sentinel.cpp: every account with enough play scored, and those
-- that surely play by themselves. What `judge` gathers to compare two accounts (Traits) is left out.
pub mod Sure
use norelecbot.Base.{
  Bool, List, Option, [], any_of, erase_if, false, if◌then◌else◌, leb, length, ltb, map, none, not,
  some, true, ℕ, ◌&&◌, ◌++◌, ◌+◌, ◌||◌, ◌∷◌,
}
use norelecbot.Base.Int.{eqb_ℤ, ltb_ℤ, pos, ℤ, ◌-ℤ◌}
use norelecbot.Sentinel.{Act, Sentinel, Speaker, Watched, recent_of, remembered_seconds}
use norelecbot.Sentinel.Signs.{Finding, script_signs, total_points}
use norelecbot.Sentinel.Timing.{sort_times}
use norelecbot.Table.{Table}
use norelecbot.Text.{Text, is_empty, starts_with, text_eq, utf8}
use norelecbot.Zodiac.{Zone}

-- `Judged`, and the two lists of `Judgement`.
pub record Judged : Type 0 where
  pub player : Text
  pub points : ℕ
  pub found : List Finding

pub record Judgement : Type 0 where
  pub judged : List Judged
  pub normal : List Text

-- Whether the bot hears plain words on Telegram, and on IRC.
unfoldable pub hears_words : Bool → ℤ → Table Speaker → Bool
unfolding any_of starts_with utf8
hears_words telegram oldest identities =
    any_of
      (λ e.
        not (is_empty (erase_if (λ at. ltb_ℤ at oldest) e.1.chats))
        && (if starts_with e.0 (utf8 "tg:") then telegram else not telegram))
      identities

-- The identities that play this player.
unfoldable pub identities_of : Text → Table Speaker → Table Speaker
unfolding erase_if
identities_of key identities = erase_if (λ e. not (text_eq e.1.player key)) identities

-- Their commands and plain words since then, and whether words count for one of them.
unfoldable pub commands_of : ℤ → Table Speaker → List ℤ
unfolding erase_if
commands_of oldest [] = []
commands_of oldest (e ∷ m) = erase_if (λ at. ltb_ℤ at oldest) e.1.commands ++ commands_of oldest m

unfoldable pub chats_of : ℤ → Table Speaker → ℕ
unfolding erase_if
chats_of oldest [] = 0
chats_of oldest (e ∷ m) = length (erase_if (λ at. ltb_ℤ at oldest) e.1.chats) + chats_of oldest m

unfoldable pub words_count : Bool → Bool → Table Speaker → Bool
unfolding any_of starts_with utf8
words_count telegram irc mine =
    any_of (λ e. if starts_with e.0 (utf8 "tg:") then telegram else irc) mine

-- What the week has shown of a player.
unfoldable pub signs_of : Zone → Sentinel → ℤ → Text → Watched → List Finding
unfolding recent_of hears_words identities_of commands_of chats_of words_count sort_times
    script_signs
signs_of zone s now key p =
    let oldest = now -ℤ remembered_seconds in
    let mine = identities_of key s.identities in
    let commands = commands_of oldest mine in
    let counts =
      words_count (hears_words true oldest s.identities) (hears_words false oldest s.identities)
        mine in
    script_signs zone (recent_of oldest p) (length commands) (chats_of oldest mine) counts
      (sort_times commands)

unfoldable pub recent_acts : ℤ → Watched → List Act
unfolding recent_of
recent_acts now p = (recent_of (now -ℤ remembered_seconds) p).acts

-- Nothing with fewer than twenty acts in the week.
unfoldable pub judge_found : ℕ → Text → List Finding → Option Judged
unfolding total_points
judge_found acts key found =
    if ltb acts 20
    then none
    else some (record { player = key; points = total_points found; found = found })

unfoldable pub judge_player : Zone → Sentinel → ℤ → Text → Watched → Option Judged
unfolding recent_acts signs_of judge_found
judge_player zone s now key p =
    judge_found (length (recent_acts now p)) key (signs_of zone s now key p)

-- `std::ranges::sort(judged, std::greater{}, &Judged::points)`. Those with the same points may come in
-- any order; here they keep their own.
unfoldable pub rank_judged : Judged → List Judged → List Judged
rank_judged one [] = one ∷ []
rank_judged one (other ∷ ranked) =
    let later = rank_judged one ranked in
    if leb other.points one.points then one ∷ other ∷ ranked else other ∷ later

-- From thirty-five points on he is told of; else he is told as normal.
unfoldable pub add_judged : Option Judged → Judgement → Judgement
unfolding rank_judged
add_judged none rest = rest
add_judged (some one) rest =
    if leb 35 one.points
    then record rest { judged = rank_judged one rest.judged }
    else record rest { normal = one.player ∷ rest.normal }

unfoldable pub judge_all : Zone → Sentinel → ℤ → Table Watched → Judgement
unfolding judge_player add_judged
judge_all zone s now [] = record { judged = []; normal = [] }
judge_all zone s now ((key, p) ∷ m) =
    add_judged (judge_player zone s now key p) (judge_all zone s now m)

unfoldable pub judge : Zone → Sentinel → ℤ → Judgement
unfolding judge_all
judge zone s now = judge_all zone s now s.players

-- Nobody before the sentinel has watched a whole day.
unfoldable pub scripts : Zone → Sentinel → ℤ → List Text
unfolding judge erase_if
scripts zone s now =
    if eqb_ℤ s.started (pos 0) || ltb_ℤ (now -ℤ s.started) (pos 86400)
    then []
    else map (λ one. one.player) (erase_if (λ one. ltb one.points 60) (judge zone s now).judged)
