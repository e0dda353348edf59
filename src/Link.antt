-- ===== src/Link.antt =====
-- `player_link` of src/game.cpp: two accounts become one player when each asked for the other.
pub mod Both
use norelecbot.Base.{
  Bool, List, Option, [], any_of, erase_if, false, if◌then◌else◌, none, not, some, ◌&&◌, ◌++◌, ◌||◌,
  ◌∷◌,
}
use norelecbot.Base.Int.{eqb_ℤ, ltb_ℤ, pos, ℤ}
use norelecbot.Gear.{gear_of, slots_of}
use norelecbot.Identity.{platform_key}
use norelecbot.Place.{display_name}
use norelecbot.Power.{balloon, is_power}
use norelecbot.State.{ConquisterState, Holder}
use norelecbot.Table.{Authors, Counters, contains, counter, erase, insert, lookup}
use norelecbot.Text.{Text, is_empty, lower_name, starts_with, text_eq, utf8}

pub data LinkStatus : Type 0 where
  pending linked unknown_account conflict self already_linked : LinkStatus

platform_prefix : Bool → Text
unfolding utf8
platform_prefix on_irc = if on_irc then utf8 "irc:" else utf8 "tg:"

-- The first account of that player on that platform; an empty text when there is none.
unfoldable pub account_of : Bool → Text → Authors → Text
unfolding platform_prefix starts_with
account_of on_irc owner [] = []
account_of on_irc owner ((account, key) ∷ accounts) =
    let rest = account_of on_irc owner accounts in
    if text_eq key owner && starts_with account (platform_prefix on_irc) then account else rest

-- Another account than his own, on that platform, with that player.
taken_by_other : Bool → Text → Text → Authors → Bool
unfolding any_of platform_prefix starts_with
taken_by_other on_irc owner account accounts =
    any_of
      (λ e.
        text_eq e.1 owner
        && (not (text_eq e.0 account) && starts_with e.0 (platform_prefix on_irc)))
      accounts

holds_by_key : Option Holder → Text → Bool
holds_by_key none key = false
holds_by_key (some hold) key = text_eq hold.username key

only_the_welcome : List Text → Bool
only_the_welcome [] = false
only_the_welcome (emoji ∷ []) = is_power emoji balloon
only_the_welcome (emoji ∷ other ∷ owned) = false

-- What is worth keeping.
unfoldable pub has_assets : ConquisterState → Text → Bool
unfolding any_of erase_if holds_by_key only_the_welcome
has_assets state key =
    let owned = erase_if is_empty (slots_of state key ++ gear_of state key) in
    ltb_ℤ (pos 0) (counter state.scores key)
    || (ltb_ℤ (pos 0) (counter state.quotes_added key)
        || (holds_by_key state.current key
            || ((not (is_empty owned) && not (only_the_welcome owned))
                || (any_of (λ r. text_eq r.raider key || text_eq r.target key) state.raids
                    || any_of (λ e. text_eq e.1 key) state.quote_authors))))

-- Every entry of the one is the other's now.
unfoldable pub rename_all : Text → Text → Authors → Authors
rename_all secondary primary [] = []
rename_all secondary primary ((k, key) ∷ m) =
    (k, if text_eq key secondary then primary else key) ∷ rename_all secondary primary m

telegram_shown : ConquisterState → Text → Text → Text
telegram_shown state primary secondary =
    if not (eqb_ℤ (counter state.telegram_ids primary) (pos 0))
    then display_name state primary
    else if not (eqb_ℤ (counter state.telegram_ids secondary) (pos 0))
    then display_name state secondary
    else []

moved_id : Text → Text → Counters → Counters
moved_id primary secondary ids = elim (lookup secondary ids) [
  | none ↦ ids
  | some id ↦ erase secondary (insert primary id ids)
]

moved_nick : Text → Text → Counters → Counters
moved_nick primary secondary names =
    if contains secondary names then insert primary (pos 1) (erase secondary names) else names

-- The one merged in goes off the file, and his accounts and names are the other's.
unfoldable pub merge : Text → Text → ConquisterState → ConquisterState
unfolding rename_all telegram_shown moved_id moved_nick
merge primary secondary state =
    let shown = telegram_shown state primary secondary in
    let names = erase secondary state.display_names in
    record state {
      accounts = rename_all secondary primary state.accounts;
      scores = erase secondary state.scores;
      quotes_added = erase secondary state.quotes_added;
      balloons = erase secondary state.balloons;
      cooldowns = erase secondary state.cooldowns;
      ids = erase secondary state.ids;
      debugging = erase secondary state.debugging;
      welcomed = erase secondary state.welcomed;
      smeared = erase secondary state.smeared;
      frozen = erase secondary state.frozen;
      furniture = erase secondary state.furniture;
      equipped = erase secondary state.equipped;
      telegram_names = rename_all secondary primary state.telegram_names;
      irc_nicks = rename_all secondary primary state.irc_nicks;
      telegram_ids = moved_id primary secondary state.telegram_ids;
      irc_names = moved_nick primary secondary state.irc_names;
      display_names = if is_empty shown then names else insert primary shown names;
    }

-- Both asked: who stays, unless both have something to lose.
unfoldable pub link_keys :
    Text → Text → Text → Text → ConquisterState → LinkStatus × ConquisterState
unfolding merge has_assets
link_keys mine theirs mine_key other_key state =
    let keeps_other = has_assets state other_key in
    let primary = if keeps_other then other_key else mine_key in
    let secondary = if text_eq primary mine_key then other_key else mine_key in
    let merged = merge primary secondary state in
    if has_assets state mine_key && keeps_other then (LinkStatus.conflict, state) else (
      LinkStatus.linked,
      record merged { link_requests = erase theirs (erase mine merged.link_requests) },
    )

link_reciprocal : Bool → Text → Text → Text → Text → ConquisterState → LinkStatus × ConquisterState
unfolding link_keys taken_by_other
link_reciprocal other_on_irc mine theirs mine_key other_key state =
    if taken_by_other other_on_irc mine_key mine state.accounts
      || taken_by_other (not other_on_irc) other_key theirs state.accounts
    then (LinkStatus.already_linked, state)
    else link_keys mine theirs mine_key other_key state

asked_back : Option Text → Text → Bool
asked_back none mine = false
asked_back (some account) mine = text_eq account mine

link_accounts : Bool → Text → Text → Text → Text → ConquisterState → LinkStatus × ConquisterState
unfolding link_reciprocal asked_back
link_accounts other_on_irc mine theirs mine_key other_key state =
    if text_eq mine_key other_key
    then (LinkStatus.self, state)
    else if asked_back (lookup theirs state.link_requests) mine
    then link_reciprocal other_on_irc mine theirs mine_key other_key state
    else (
      LinkStatus.pending,
      record state { link_requests = insert mine theirs state.link_requests },
    )

found_account : Bool → Text → Text → ConquisterState → Option (LinkStatus × ConquisterState)
unfolding link_accounts
found_account other_on_irc mine theirs state = elim (lookup mine state.accounts) [
  | none ↦ none
  | some mine_key ↦ elim (lookup theirs state.accounts) [
    | none ↦ none
    | some other_key ↦ some (link_accounts other_on_irc mine theirs mine_key other_key state)
  ]
]

-- Nothing is the exception of `at`, when his own account was never bound.
unfoldable pub player_link :
    ℤ → Text → Text → Text → ConquisterState → Option (LinkStatus × ConquisterState)
unfolding found_account account_of
player_link user_id username other_name account_name state =
    let other_on_irc = not (eqb_ℤ user_id (pos 0)) in
    let names = if other_on_irc then state.irc_nicks else state.telegram_names in
    elim (lookup (lower_name other_name) names) [
      | none ↦ some (LinkStatus.unknown_account, state)
      | some owner ↦
          let theirs = account_of other_on_irc owner state.accounts in
          if is_empty theirs
          then some (LinkStatus.unknown_account, state)
          else found_account other_on_irc (platform_key user_id username account_name) theirs state
    ]
