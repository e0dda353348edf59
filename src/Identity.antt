-- ===== src/Identity.antt =====
-- Who a message is from and who a name means: `player_id` to `known_players` of src/game.cpp.
pub mod Fresh
use norelecbot.Base.{
  Bool, List, Option, [], any_of, false, if◌then◌else◌, is_some, none, not, some, suc, true, zero,
  ℕ, ◌&&◌, ◌++◌, ◌||◌, ◌∷◌,
}
use norelecbot.Base.Int.{eqb_ℤ, pos, ℤ}
use norelecbot.Gear.{welcome}
use norelecbot.Session.{Game, gets, modify, no_new_id, pure, random_index, throw, ◌>>=◌, ◌>>◌}
use norelecbot.State.{ConquisterState, Holder}
use norelecbot.Table.{Counters, Table, contains, counter, find_ignore_case, insert, lookup}
use norelecbot.Text.{Text, equals_ignore_case, is_empty, lower_name, text_eq, utf8}
use norelecbot.Text.Number.{to_string}

-- `position::ids`: as many as there are points on the plane.
abbrev pub id_count : ℕ
id_count = 10000000000

unfoldable pub remember_telegram : ConquisterState → Text → ℤ → ConquisterState
remember_telegram state username user_id =
    if not (eqb_ℤ user_id (pos 0)) && not (eqb_ℤ (counter state.telegram_ids username) user_id)
    then record state { telegram_ids = insert username user_id state.telegram_ids }
    else state

unfoldable pub remember_irc : ConquisterState → Text → ConquisterState
remember_irc state username =
    if is_some (find_ignore_case state.irc_names username)
    then state
    else record state { irc_names = insert username (pos 1) state.irc_names }

unfoldable pub remember_platform : ConquisterState → Text → ℤ → ConquisterState
remember_platform state username user_id =
    if eqb_ℤ user_id (pos 0)
    then remember_irc state username
    else remember_telegram state username user_id

unfoldable pub platform_key : ℤ → Text → Text → Text
unfolding utf8
platform_key user_id username account_name =
    if not (eqb_ℤ user_id (pos 0))
    then utf8 "tg:" ++ to_string user_id
    else utf8 "irc:" ++ lower_name (if is_empty account_name then username else account_name)

-- Draws until an identity is new, `fuel` times at most.
unfoldable pub draw_id : ℕ → Counters → Game ℤ
unfolding any_of
draw_id zero ids = throw no_new_id
draw_id (suc fuel) ids = do
  drawn ← random_index id_count
  elim (any_of (λ e. eqb_ℤ e.1 (pos drawn)) ids) [
    | true ↦ draw_id fuel ids
    | false ↦ pure (pos drawn)
  ]

-- The identity is written down.
unfoldable pub give_id : Text → ℤ → Game ℤ
give_id username drawn = do
  modify (λ st. record st { ids = insert username drawn st.ids })
  pure drawn

-- The loop has no bound in the source: `fuel` counts the draws that it may take.
unfoldable pub player_id : ℕ → Text → Game ℤ
unfolding draw_id give_id
player_id fuel username = do
  ids ← gets (λ st. st.ids)
  elim (lookup username ids) [ some id ↦ pure id | none ↦ draw_id fuel ids >>= give_id username ]

held_by : Option Holder → Text → (Holder → Bool) → Bool
held_by none key test = false
held_by (some hold) key test = equals_ignore_case hold.username key && test hold

unfoldable pub ambiguous_legacy : ConquisterState → Text → Bool
unfolding held_by
ambiguous_legacy state key =
    if contains key state.display_names
    then false
    else (is_some (find_ignore_case state.telegram_ids key)
        || held_by state.current key (λ h. not (eqb_ℤ h.user_id (pos 0))))
      && (is_some (find_ignore_case state.irc_names key)
          || held_by state.current key (λ h. eqb_ℤ h.user_id (pos 0)))

-- The key on file in the first table that has it, then the holder's.
first_known : List Counters → Text → Option Text
first_known [] k = none
first_known (m ∷ ms) k = elim (find_ignore_case m k) [
  | some (j, v) ↦ some j
  | none ↦ first_known ms k
]

unfoldable pub known_player : ConquisterState → Text → Option Text
unfolding first_known
known_player state k =
    elim (first_known
      (state.scores ∷ state.quotes_added ∷ state.ids ∷ state.balloons ∷ state.cooldowns ∷ []) k) [
        | some j ↦ some j
        | none ↦ elim state.current [
          | none ↦ none
          | some hold ↦ if equals_ignore_case hold.username k then some hold.username else none
        ]
      ]

holds_on_irc : Option Holder → Text → Bool
holds_on_irc none key = false
holds_on_irc (some hold) key = eqb_ℤ hold.user_id (pos 0) && text_eq hold.username key

-- The one name on file with that Telegram id: `none` when two names have it.
telegram_owner : Counters → ℤ → Option Text → Option (Option Text)
telegram_owner [] user_id candidate = some candidate
telegram_owner ((k, id) ∷ m) user_id candidate =
    let other : Bool = elim candidate [ none ↦ false | some c ↦ not (text_eq c k) ] in
    let hit = eqb_ℤ id user_id in
    let rest = telegram_owner m user_id (if hit then some k else candidate) in
    if hit && other then none else rest

legacy_candidate : ConquisterState → ℤ → Text → Option Text
unfolding telegram_owner holds_on_irc
legacy_candidate state user_id username =
    if not (eqb_ℤ user_id (pos 0))
    then elim (telegram_owner state.telegram_ids user_id none) [
      | none ↦ none
      | some (some c) ↦ some c
      | some none ↦ elim state.current [
        | none ↦ none
        | some hold ↦ if eqb_ℤ hold.user_id user_id then some hold.username else none
      ]
    ]
    else elim (known_player state username) [
      | none ↦ none
      | some k ↦
          if not (is_some (find_ignore_case state.telegram_ids k))
            && (is_some (find_ignore_case state.irc_names k) || holds_on_irc state.current k)
          then some k
          else none
    ]

-- A historical name, for the account that it certainly belonged to.
unfoldable pub legacy_owner : ConquisterState → ℤ → Text → Text → Option Text
unfolding legacy_candidate any_of
legacy_owner state user_id username account_name = elim (legacy_candidate state user_id username) [
  | none ↦ none
  | some c ↦
      if ambiguous_legacy state c
        || any_of
            (λ e. text_eq e.1 c && not (text_eq e.0 (platform_key user_id username account_name)))
            state.accounts
      then none
      else some c
]

pub data RaidTargetKind : Type 0 where
  any telegram irc : RaidTargetKind

legacy_by_name : ConquisterState → Text → Bool → Option Text
unfolding holds_on_irc
legacy_by_name state k by_telegram = elim (known_player state k) [
  | none ↦ none
  | some l ↦
      if contains l state.display_names || ambiguous_legacy state l
      then none
      else let seen = is_some (find_ignore_case state.telegram_ids l) in
        if by_telegram
        then (if seen then some l else none)
        else if not seen
            && (is_some (find_ignore_case state.irc_names l) || holds_on_irc state.current l)
        then some l
        else none
]

or_else {ℓ} : {A : Type ℓ} → Option A → Option A → Option A
or_else none b = b
or_else (some a) b = some a

unfoldable pub player_by_name : ConquisterState → Text → RaidTargetKind → Option Text
unfolding legacy_by_name or_else
player_by_name state k RaidTargetKind.telegram =
    or_else (lookup (lower_name k) state.telegram_names) (legacy_by_name state k true)
player_by_name state k RaidTargetKind.irc =
    or_else (lookup (lower_name k) state.irc_nicks) (legacy_by_name state k false)
player_by_name state k RaidTargetKind.any =
    or_else (lookup (lower_name k) state.telegram_names)
      (or_else (lookup (lower_name k) state.irc_nicks) (known_player state k))

-- Everybody the game has anything on file about, each once.
add_player : Text → List Text → List Text
unfolding any_of
add_player player players =
    if any_of (λ p. text_eq p player) players then players else players ++ player ∷ []

add_keys {ℓ} : {V : Type ℓ} → Table V → List Text → List Text
unfolding add_player
add_keys [] players = players
add_keys ((k, v) ∷ m) players = add_keys m (add_player k players)

holder_first : Option Holder → List Text
holder_first none = []
holder_first (some hold) = if is_empty hold.username then [] else hold.username ∷ []

unfoldable pub known_players : ConquisterState → List Text
unfolding add_keys holder_first
known_players state = add_keys state.display_names (
    add_keys state.equipped (
      add_keys state.furniture (
        add_keys state.irc_names (
          add_keys state.telegram_ids (
            add_keys state.balloons
              (add_keys state.ids (add_keys state.scores (holder_first state.current))))))))

welcome_all : List Text → ℕ → ConquisterState → ConquisterState
welcome_all [] limit state = state
welcome_all (p ∷ players) limit state = welcome_all players limit (welcome state p limit)

unfoldable pub balloons_hand_out : ConquisterState → ℕ → ConquisterState
unfolding welcome_all
balloons_hand_out state limit = welcome_all (known_players state) limit state
