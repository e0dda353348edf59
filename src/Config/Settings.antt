-- ===== src/Config/Settings.antt =====
-- The table `settings` of src/config.cpp, and how it is applied.
use norelecbot.Base.{
  Bool, List, Option, String, [], drop, find_index, get_or, if◌then◌else◌, length, ltb, none, not,
  some, suc, take, true, ℕ, ◌&&◌, ◌++◌, ◌-◌, ◌==◌, ◌||◌, ◌∷◌,
}
use norelecbot.Base.Int.{negsuc, pos}
use norelecbot.Config.{AppConfig, fresh_config}
use norelecbot.Config.Fields.{is_on, set_ids, set_number, set_signs, split_names, text_or}
use norelecbot.Text.{Text, is_empty, text_eq, trim, utf8}

pub record Setting : Type 0 where
  pub name : Text
  pub apply : AppConfig → Text → Option AppConfig

setting : String → (AppConfig → Text → Option AppConfig) → Setting
unfolding utf8
setting name apply = record { name = utf8 name; apply = apply }

unfoldable pub settings : List Setting
unfolding setting utf8 set_number set_ids set_signs text_or is_on split_names
settings =
    setting "NORELECBOT_TELEGRAM_TOKEN"
      (λ c value. some (record c { bot_token = text_or value [] }))
    ∷ setting "NORELECBOT_CONQUISTER_ENABLED"
        (λ c value. some (record c { conquister_enabled = not (is_empty value) && is_on value }))
    ∷ setting "NORELECBOT_OWNER_ID" (λ c value. set_ids (λ ids. record c { owner_ids = ids }) value)
    ∷ setting "NORELECBOT_ADMIN_ID" (λ c value. set_ids (λ ids. record c { admin_ids = ids }) value)
    ∷ setting "NORELECBOT_QUOTE_COST" (λ c value.
      set_number (λ n. record c { quote_cost = n }) value (pos 1000) (pos 0) (pos 2147483647))
    ∷ setting "NORELECBOT_QUOTE_BANNED"
        (λ c value. some (record c { quote_banned = split_names value }))
    ∷ setting "NORELECBOT_FURNITURE_COST" (λ c value.
      set_number (λ n. record c { furniture_cost = n }) value (pos 10000) (pos 0) (pos 2147483647))
    ∷ setting "NORELECBOT_FURNITURE_INFLATION" (λ c value.
      set_number (λ n. record c { furniture_inflation = n }) value (pos 50) (pos 0) (pos 1000))
    ∷ setting "NORELECBOT_FURNITURE_LIMIT" (λ c value.
      set_number (λ n. record c { furniture_limit = n }) value (pos 10) (pos 1) (pos 2147483647))
    ∷ setting "NORELECBOT_LOOT_DIVISOR" (λ c value.
      set_number (λ n. record c { loot_divisor = n }) value (pos 50) (pos 1) (pos 2147483647))
    ∷ setting "NORELECBOT_COOLDOWN_SECONDS" (λ c value.
      set_number (λ n. record c { cooldown_seconds = n }) value (pos 300) (pos 0) (pos 2147483647))
    ∷ setting "NORELECBOT_TRAVEL_DIVISOR" (λ c value.
      set_number (λ n. record c { travel_divisor = n }) value (pos 350) (pos 1) (pos 2147483647))
    ∷ setting "NORELECBOT_ZODIAC_SIGNS"
        (λ c value. set_signs (λ signs. record c { zodiac_signs = signs }) value)
    ∷ setting "NORELECBOT_LIGHTNING_PERCENT" (λ c value.
      set_number (λ n. record c { lightning_percent = n }) value (pos 10) (pos 0) (pos 1000))
    ∷ setting "NORELECBOT_SMEARED_SECONDS" (λ c value.
      set_number (λ n. record c { smeared_seconds = n }) value (pos 86400) (pos 0) (pos 2147483647))
    ∷ setting "NORELECBOT_ROCKET_PERCENT" (λ c value.
      set_number (λ n. record c { rocket_percent = n }) value (pos 10) (pos 0) (pos 1000))
    ∷ setting "NORELECBOT_PLEADING_PERCENT" (λ c value.
      set_number (λ n. record c { pleading_percent = n }) value (pos 10) (pos 0) (pos 100))
    ∷ setting "NORELECBOT_BOMB_DUD_PERCENT" (λ c value.
      set_number (λ n. record c { bomb_dud_percent = n }) value (pos 10) (pos 0) (pos 100))
    ∷ setting "NORELECBOT_NUKE_COST" (λ c value.
      set_number (λ n. record c { nuke_cost = n }) value (pos 1000000) (pos 0) (pos 2147483647))
    ∷ setting "NORELECBOT_DOG_PERCENT"
        (λ c value. set_number (λ n. record c { dog_percent = n }) value (pos 10) (pos 0) (pos 100))
    ∷ setting "NORELECBOT_BALLOON_COST" (λ c value.
      set_number (λ n. record c { balloon_cost = n }) value (pos 1000) (pos 0) (pos 2147483647))
    ∷ setting "NORELECBOT_NEWCOMERS"
        (λ c value. some (record c { newcomers = is_empty value || is_on value }))
    ∷ setting "NORELECBOT_STARTER_BALLOON"
        (λ c value. some (record c { starter_balloon = is_empty value || is_on value }))
    ∷ setting "NORELECBOT_MAILBOX_PERCENT" (λ c value.
      set_number (λ n. record c { mailbox_percent = n }) value (pos 10) (pos 0) (pos 100))
    ∷ setting "NORELECBOT_NINJA_PERCENT" (λ c value.
      set_number (λ n. record c { ninja_percent = n }) value (pos 10) (pos 0) (pos 100))
    ∷ setting "NORELECBOT_ALARM_PERCENT" (λ c value.
      set_number (λ n. record c { alarm_percent = n }) value (pos 10) (pos 0) (pos 100))
    ∷ setting "NORELECBOT_PIRATE_PERCENT" (λ c value.
      set_number (λ n. record c { pirate_percent = n }) value (pos 10) (pos 0) (pos 100))
    ∷ setting "NORELECBOT_PREGNANCY_SECONDS" (λ c value.
      set_number (λ n. record c { pregnancy_seconds = n }) value (pos 32400) (pos 0)
        (pos 2147483647))
    ∷ setting "NORELECBOT_CHILD_STAGE_SECONDS" (λ c value.
      set_number (λ n. record c { child_stage_seconds = n }) value (pos 86400) (pos 1)
        (pos 2147483647))
    ∷ setting "NORELECBOT_HEN_PER_MINUTE" (λ c value.
      set_number (λ n. record c { hen_per_minute = n }) value (pos 1) (pos 0) (pos 2147483647))
    ∷ setting "NORELECBOT_MATING_PERCENT" (λ c value.
      set_number (λ n. record c { mating_percent = n }) value (pos 50) (pos 0) (pos 100))
    ∷ setting "NORELECBOT_DINO_PERCENT" (λ c value.
      set_number (λ n. record c { dino_percent = n }) value (pos 10) (pos 0) (pos 100))
    ∷ setting "NORELECBOT_SALT_PERCENT" (λ c value.
      set_number (λ n. record c { salt_percent = n }) value (pos 10) (pos 0) (pos 1000))
    ∷ setting "NORELECBOT_FROZEN_SECONDS" (λ c value.
      set_number (λ n. record c { frozen_seconds = n }) value (pos 1800) (pos 0) (pos 2147483647))
    ∷ setting "NORELECBOT_FIRE_PERCENT" (λ c value.
      set_number (λ n. record c { fire_percent = n }) value (pos 10) (pos 0) (pos 100))
    ∷ setting "NORELECBOT_HOURGLASS_PERCENT" (λ c value.
      set_number (λ n. record c { hourglass_percent = n }) value (pos 10) (pos 0) (pos 100))
    ∷ setting "NORELECBOT_CONQUISTER_CHAT_ID" (λ c value.
      set_number (λ n. record c { conquister_chat_id = n }) value (pos 0)
        (negsuc 9223372036854775807) (pos 9223372036854775807))
    ∷ setting "NORELECBOT_API_HOST"
        (λ c value. some (record c { api_host = text_or value (utf8 "0.0.0.0") }))
    ∷ setting "NORELECBOT_API_PORT" (λ c value.
      set_number (λ n. record c { api_port = n }) value (pos 8000) (pos 1) (pos 65535))
    ∷ setting "NORELECBOT_CONQUISTER_FILE"
        (λ c value. some (record c { conquister_path = text_or value (utf8 "conquister.json") }))
    ∷ setting "NORELECBOT_IRC_ENABLED"
        (λ c value. some (record c { irc_enabled = not (is_empty value) && is_on value }))
    ∷ setting "NORELECBOT_IRC_SERVER" (λ c value. some (record c { irc_server = text_or value [] }))
    ∷ setting "NORELECBOT_IRC_PORT" (λ c value.
      set_number (λ n. record c { irc_port = n }) value (pos 6697) (pos 1) (pos 65535))
    ∷ setting "NORELECBOT_IRC_NICK"
        (λ c value. some (record c { irc_nick = text_or value (utf8 "NorelecBot") }))
    ∷ setting "NORELECBOT_IRC_NICKSERV_PASSWORD"
        (λ c value. some (record c { irc_nickserv_password = text_or value [] }))
    ∷ setting "NORELECBOT_IRC_CHANNEL"
        (λ c value. some (record c { irc_channel = text_or value [] }))
    ∷ setting "NORELECBOT_IRC_NO_FORWARD_PREFIX"
        (λ c value. some (record c { irc_no_forward_prefix = text_or value [] }))
    ∷ setting "NORELECBOT_IRC_OWNER"
        (λ c value. some (record c { irc_owner_nick = text_or value [] }))
    ∷ setting "NORELECBOT_IRC_ADMIN"
        (λ c value. some (record c { irc_admin_nicks = split_names value }))
    ∷ setting "NORELECBOT_QUOTES_FILE"
        (λ c value. some (record c { quotes_path = text_or value (utf8 "quotes.json") }))
    ∷ setting "NORELECBOT_NEWS_FILE" (λ c value. some (record c { news_path = text_or value [] }))
    ∷ setting "NORELECBOT_SENTINEL_FILE"
        (λ c value. some (record c { sentinel_path = text_or value (utf8 "sentinel.json") }))
    ∷ setting "NORELECBOT_PULSE_FILE"
        (λ c value. some (record c { pulse_path = text_or value (utf8 "pulse.json") }))
    ∷ setting "NORELECBOT_GOLDEN_HOUR" (λ c value.
      set_number (λ n. record c { golden_hour = n }) value (pos 21) (negsuc 0) (pos 23))
    ∷ setting "NORELECBOT_SENTINEL_HOUR"
        (λ c value. set_number (λ n. record c { sentinel_hour = n }) value (pos 9) (pos 0) (pos 23))
    ∷ []

-- `apply_setting`: a name that is no setting is passed over.
unfoldable pub apply_in : List Setting → AppConfig → Text → Text → Option AppConfig
apply_in [] c name value = some c
apply_in (s ∷ ss) c name value =
    if text_eq name s.name then s.apply c value else apply_in ss c name value

unfoldable pub is_equals_sign : ℕ → Bool
is_equals_sign c = c == b'='

-- A value in quotes, single or double, is without them.
unfoldable pub unquote : Text → Text
unquote [] = []
unquote (c ∷ s) =
    let end = get_or (c ∷ s) (length s) 0 in
    if ltb 0 (length s) && ((c == 34 || c == 39) && end == c) then take (length s - 1) s else c ∷ s

starts_comment : Text → Bool
starts_comment [] = true
starts_comment (c ∷ s) = c == b'#'

-- One line of the .env file: nothing is read from a comment, or without an equals sign or a name.
unfoldable pub apply_line : AppConfig → Text → Option AppConfig
unfolding is_equals_sign unquote starts_comment trim
apply_line c line =
    let entry = trim line in
    let equals = find_index is_equals_sign entry in
    let name = trim (take equals entry) in
    let value = unquote (trim (drop (suc equals) entry)) in
    if starts_comment entry || equals == length entry
    then some c
    else if is_empty name
    then some c
    else apply_in settings c name value

-- `apply_dotenv`
unfoldable pub apply_lines : AppConfig → List Text → Option AppConfig
unfolding apply_line
apply_lines c [] = some c
apply_lines c (line ∷ lines) = elim (apply_line c line) [
  | none ↦ none
  | some c' ↦ apply_lines c' lines
]

-- `apply_environment`: every setting that `getenv` knows, in order.
unfoldable pub apply_environment :
    (Text → Option Text) → List Setting → AppConfig → Option AppConfig
apply_environment getenv [] c = some c
apply_environment getenv (s ∷ ss) c = elim (getenv s.name) [
  | none ↦ apply_environment getenv ss c
  | some value ↦ elim (s.apply c value) [ none ↦ none | some c' ↦ apply_environment getenv ss c' ]
]

-- `parent_path() / name` of `std::filesystem`: what is before the last run of slashes, or the root, and
-- the name behind it.
last_slash : Text → Option ℕ
last_slash [] = none
last_slash (c ∷ s) = elim (last_slash s) [
  | some i ↦ some (suc i)
  | none ↦ if c == b'/' then some 0 else none
]

drop_slashes : Text → Text
drop_slashes [] = []
drop_slashes (c ∷ s) =
    let rest = drop_slashes s in if is_empty rest && c == b'/' then [] else c ∷ rest

unfoldable pub beside : Text → Text → Text
unfolding last_slash drop_slashes
beside path name = elim (last_slash path) [
  | none ↦ name
  | some i ↦
      let parent = drop_slashes (take i path) in
      if is_empty parent then b'/' ∷ name else parent ++ b'/' ∷ name
]

unfoldable pub beside_the_game : AppConfig → AppConfig
unfolding beside utf8
beside_the_game c =
    let sentinel =
      if text_eq c.sentinel_path (utf8 "sentinel.json")
      then beside c.conquister_path (utf8 "sentinel.json")
      else c.sentinel_path in
    let pulse =
      if text_eq c.pulse_path (utf8 "pulse.json")
      then beside c.conquister_path (utf8 "pulse.json")
      else c.pulse_path in
    record c { sentinel_path = sentinel; pulse_path = pulse }

-- `load_config`: the lines of the file, when it can be read, and the environment on top.
unfoldable pub load_config : (Text → Option Text) → Option (List Text) → Option AppConfig
unfolding fresh_config apply_lines apply_environment settings beside_the_game
load_config getenv none = none
load_config getenv (some lines) = elim (apply_lines fresh_config lines) [
  | none ↦ none
  | some c ↦ elim (apply_environment getenv settings c) [
    | none ↦ none
    | some c' ↦ some (beside_the_game c')
  ]
]
