-- ===== src/Ranking.antt =====
-- Who is where in the ranking: `ranks_before`, `conquister_leaderboard`, `conquister_user`,
-- `returning_in`, `names_player`, `debug_set` and `debug_on` of src/game.cpp.
pub mod Order
use norelecbot.Base.{
  Bool, List, Option, [], count_if, false, if◌then◌else◌, is_some, ltb, map, none, not, some, suc,
  take, true, value_or, ℕ, ◌&&◌, ◌==◌, ◌∷◌,
}
use norelecbot.Base.Int.{eqb_ℤ, ltb_ℤ, max_ℤ, pos, ℤ, ◌-ℤ◌}
use norelecbot.Identity.{RaidTargetKind, player_by_name}
use norelecbot.Place.{display_name, raid_of}
use norelecbot.State.{ConquisterState, Holder}
use norelecbot.Table.{Counters, counter, erase, find_ignore_case, insert}
use norelecbot.Text.{Text, is_empty, text_eq}

-- `<` on `std::string`: the bytes, one after the other.
unfoldable pub text_less : Text → Text → Bool
text_less a [] = false
text_less [] (y ∷ b) = true
text_less (x ∷ a) (y ∷ b) = let rest = text_less a b in if x == y then rest else ltb x y

-- Higher score first, then the name.
unfoldable pub ranks_before : Text × ℤ → Text × ℤ → Bool
unfolding text_less
ranks_before first second =
    if eqb_ℤ first.1 second.1 then text_less first.0 second.0 else ltb_ℤ second.1 first.1

-- `std::ranges::sort` by `ranks_before`. No two entries of a table have one name, so that there is one
-- order only, whatever way it is found.
unfoldable pub rank_in : Text × ℤ → Counters → Counters
unfolding ranks_before
rank_in entry [] = entry ∷ []
rank_in entry (other ∷ ranked) =
    let later = rank_in entry ranked in
    if ranks_before entry other then entry ∷ other ∷ ranked else other ∷ later

unfoldable pub sort_scores : Counters → Counters
unfolding rank_in
sort_scores [] = []
sort_scores (entry ∷ scores) = rank_in entry (sort_scores scores)

pub record LeaderboardEntry : Type 0 where
  pub username : Text
  pub player_key : Text
  pub score : ℤ
  pub quotes_added : ℤ

pub record Leaderboard : Type 0 where
  pub entries : List LeaderboardEntry
  pub current : Option Holder
  pub current_key : Text

ranked_entry : ConquisterState → Text × ℤ → LeaderboardEntry
ranked_entry state entry = record {
  username = display_name state entry.0;
  player_key = entry.0;
  score = entry.1;
  quotes_added = counter state.quotes_added entry.0;
}

holder_shown : ConquisterState → Option Holder → Option Holder × Text
holder_shown state none = (none, [])
holder_shown state (some hold) =
    if is_empty hold.username
    then (none, [])
    else (some (record hold { username = display_name state hold.username }), hold.username)

-- A limit of none shows everybody.
unfoldable pub conquister_leaderboard : ConquisterState → ℕ → Leaderboard
unfolding sort_scores ranked_entry holder_shown
conquister_leaderboard state limit =
    let ranked = sort_scores state.scores in
    let shown = if limit == 0 then ranked else take limit ranked in
    let (current, current_key) = holder_shown state state.current in
    record {
      entries = map (ranked_entry state) shown;
      current = current;
      current_key = current_key;
    }

-- How many stand before an entry.
unfoldable pub ahead_of : Text × ℤ → Counters → ℕ
unfolding count_if ranks_before
ahead_of entry scores = count_if (λ other. ranks_before other entry) scores

pub record ConquisterUser : Type 0 where
  pub username : Text
  pub score : ℤ
  pub rank : ℕ
  pub quotes_added : ℤ
  pub in_conquister : Bool
  pub since : ℤ

-- Since when he is inside.
inside_since : Option Holder → Text → Option ℤ
inside_since none key = none
inside_since (some hold) key =
    if not (is_empty hold.username) && text_eq hold.username key then some hold.since else none

known_user : ConquisterState → Text → Option ConquisterUser
unfolding ahead_of inside_since
known_user state key =
    let score = find_ignore_case state.scores key in
    let added = find_ignore_case state.quotes_added key in
    let inside = inside_since state.current key in
    if not (is_some inside) && (not (is_some score) && not (is_some added))
    then none
    else some (record {
      username = display_name state key;
      score = elim score [ none ↦ pos 0 | some entry ↦ entry.1 ];
      rank = elim score [ none ↦ 0 | some entry ↦ suc (ahead_of entry state.scores) ];
      quotes_added = elim added [ none ↦ pos 0 | some entry ↦ entry.1 ];
      in_conquister = is_some inside;
      since = value_or inside (pos 0);
    })

unfoldable pub conquister_user : ConquisterState → Text → RaidTargetKind → Option ConquisterUser
unfolding known_user
conquister_user state username platform = elim (player_by_name state username platform) [
  | none ↦ none
  | some key ↦ known_user state key
]

unfoldable pub returning_in : ConquisterState → Text → ℤ → Option ℤ
unfolding max_ℤ
returning_in state player now = elim (raid_of state player) [
  | none ↦ none
  | some trip ↦ if trip.arrived then some (max_ℤ (trip.back -ℤ now) (pos 0)) else none
]

unfoldable pub names_player : ConquisterState → Text → Text → RaidTargetKind → Bool
names_player state player name platform = elim (player_by_name state name platform) [
  | none ↦ false
  | some key ↦ text_eq key player
]

unfoldable pub debug_set : Text → Bool → ConquisterState → ConquisterState
debug_set username wanted state = record state {
  debugging =
      if wanted then insert username (pos 1) state.debugging else erase username state.debugging;
}

unfoldable pub debug_on : ConquisterState → Text → Bool
debug_on state username = not (eqb_ℤ (counter state.debugging username) (pos 0))
