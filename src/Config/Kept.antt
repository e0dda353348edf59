-- ===== src/Config/Kept.antt =====
-- A configuration that was loaded.
use norelecbot.Base.{
  All, Bool-cases, List, Option, Option-cases, [], arith, drop, find_index, inl, inr, none, not,
  refl, some, subst, suc, take, ◌&&◌, ◌||◌, ◌∷◌, ◌≡◌,
}
use norelecbot.Base.Int.{negsuc, pos}
use norelecbot.Config.{AppConfig, fresh_config}
use norelecbot.Config.Bounds.{
  IsBounded, KeepsBounds, number_keeps, numbers, other_keeps, set_ids_keeps, set_signs_keeps,
}
use norelecbot.Config.Fields.{is_on, split_names, text_or}
use norelecbot.Config.Settings.{
  Setting, apply_environment, apply_in, apply_line, apply_lines, beside_the_game, is_equals_sign,
  load_config, settings, unquote,
}
use norelecbot.Text.{Text, is_empty, text_eq, trim, utf8}

-- One proof behind the other.
infixr 5 ◌▹◌
abbrev ◌▹◌ : {A B : Type 0} → A → B → A × B
a ▹ b = (a, b)

-- Each setting of the table, in its order.
settings-KeepsBounds : All (λ s. KeepsBounds s.apply) settings
unfolding settings numbers
settings-KeepsBounds =
    other_keeps (λ c value. record c { bot_token = text_or value [] }) (λ c value. refl)
    ▹ other_keeps (λ c value. record c { conquister_enabled = not (is_empty value) && is_on value })
        (λ c value. refl)
    ▹ set_ids_keeps (λ c ids. record c { owner_ids = ids }) (λ c ids. refl)
    ▹ set_ids_keeps (λ c ids. record c { admin_ids = ids }) (λ c ids. refl)
    ▹ number_keeps 0 (λ c n. record c { quote_cost = n }) (pos 1000) (pos 0) (pos 2147483647)
        (λ c n. refl)
    ▹ other_keeps (λ c value. record c { quote_banned = split_names value }) (λ c value. refl)
    ▹ number_keeps 1 (λ c n. record c { furniture_cost = n }) (pos 10000) (pos 0) (pos 2147483647)
        (λ c n. refl)
    ▹ number_keeps 2 (λ c n. record c { furniture_inflation = n }) (pos 50) (pos 0) (pos 1000)
        (λ c n. refl)
    ▹ number_keeps 3 (λ c n. record c { furniture_limit = n }) (pos 10) (pos 1) (pos 2147483647)
        (λ c n. refl)
    ▹ number_keeps 4 (λ c n. record c { loot_divisor = n }) (pos 50) (pos 1) (pos 2147483647)
        (λ c n. refl)
    ▹ number_keeps 5 (λ c n. record c { cooldown_seconds = n }) (pos 300) (pos 0) (pos 2147483647)
        (λ c n. refl)
    ▹ number_keeps 6 (λ c n. record c { travel_divisor = n }) (pos 350) (pos 1) (pos 2147483647)
        (λ c n. refl)
    ▹ set_signs_keeps (λ c signs. record c { zodiac_signs = signs }) (λ c signs. refl)
    ▹ number_keeps 7 (λ c n. record c { lightning_percent = n }) (pos 10) (pos 0) (pos 1000)
        (λ c n. refl)
    ▹ number_keeps 8 (λ c n. record c { smeared_seconds = n }) (pos 86400) (pos 0) (pos 2147483647)
        (λ c n. refl)
    ▹ number_keeps 9 (λ c n. record c { rocket_percent = n }) (pos 10) (pos 0) (pos 1000)
        (λ c n. refl)
    ▹ number_keeps 10 (λ c n. record c { pleading_percent = n }) (pos 10) (pos 0) (pos 100)
        (λ c n. refl)
    ▹ number_keeps 11 (λ c n. record c { bomb_dud_percent = n }) (pos 10) (pos 0) (pos 100)
        (λ c n. refl)
    ▹ number_keeps 12 (λ c n. record c { nuke_cost = n }) (pos 1000000) (pos 0) (pos 2147483647)
        (λ c n. refl)
    ▹ number_keeps 13 (λ c n. record c { dog_percent = n }) (pos 10) (pos 0) (pos 100) (λ c n. refl)
    ▹ number_keeps 14 (λ c n. record c { balloon_cost = n }) (pos 1000) (pos 0) (pos 2147483647)
        (λ c n. refl)
    ▹ other_keeps (λ c value. record c { newcomers = is_empty value || is_on value })
        (λ c value. refl)
    ▹ other_keeps (λ c value. record c { starter_balloon = is_empty value || is_on value })
        (λ c value. refl)
    ▹ number_keeps 15 (λ c n. record c { mailbox_percent = n }) (pos 10) (pos 0) (pos 100)
        (λ c n. refl)
    ▹ number_keeps 16 (λ c n. record c { ninja_percent = n }) (pos 10) (pos 0) (pos 100)
        (λ c n. refl)
    ▹ number_keeps 17 (λ c n. record c { alarm_percent = n }) (pos 10) (pos 0) (pos 100)
        (λ c n. refl)
    ▹ number_keeps 18 (λ c n. record c { pirate_percent = n }) (pos 10) (pos 0) (pos 100)
        (λ c n. refl)
    ▹ number_keeps 19 (λ c n. record c { pregnancy_seconds = n }) (pos 32400) (pos 0)
        (pos 2147483647) (λ c n. refl)
    ▹ number_keeps 20 (λ c n. record c { child_stage_seconds = n }) (pos 86400) (pos 1)
        (pos 2147483647) (λ c n. refl)
    ▹ number_keeps 21 (λ c n. record c { hen_per_minute = n }) (pos 1) (pos 0) (pos 2147483647)
        (λ c n. refl)
    ▹ number_keeps 22 (λ c n. record c { mating_percent = n }) (pos 50) (pos 0) (pos 100)
        (λ c n. refl)
    ▹ number_keeps 23 (λ c n. record c { dino_percent = n }) (pos 10) (pos 0) (pos 100)
        (λ c n. refl)
    ▹ number_keeps 24 (λ c n. record c { salt_percent = n }) (pos 10) (pos 0) (pos 1000)
        (λ c n. refl)
    ▹ number_keeps 25 (λ c n. record c { frozen_seconds = n }) (pos 1800) (pos 0) (pos 2147483647)
        (λ c n. refl)
    ▹ number_keeps 26 (λ c n. record c { fire_percent = n }) (pos 10) (pos 0) (pos 100)
        (λ c n. refl)
    ▹ number_keeps 27 (λ c n. record c { hourglass_percent = n }) (pos 10) (pos 0) (pos 100)
        (λ c n. refl)
    ▹ number_keeps 28 (λ c n. record c { conquister_chat_id = n }) (pos 0)
        (negsuc 9223372036854775807) (pos 9223372036854775807) (λ c n. refl)
    ▹ other_keeps (λ c value. record c { api_host = text_or value (utf8 "0.0.0.0") })
        (λ c value. refl)
    ▹ number_keeps 29 (λ c n. record c { api_port = n }) (pos 8000) (pos 1) (pos 65535)
        (λ c n. refl)
    ▹ other_keeps (λ c value. record c { conquister_path = text_or value (utf8 "conquister.json") })
        (λ c value. refl)
    ▹ other_keeps (λ c value. record c { irc_enabled = not (is_empty value) && is_on value })
        (λ c value. refl)
    ▹ other_keeps (λ c value. record c { irc_server = text_or value [] }) (λ c value. refl)
    ▹ number_keeps 30 (λ c n. record c { irc_port = n }) (pos 6697) (pos 1) (pos 65535)
        (λ c n. refl)
    ▹ other_keeps (λ c value. record c { irc_nick = text_or value (utf8 "NorelecBot") })
        (λ c value. refl)
    ▹ other_keeps (λ c value. record c { irc_nickserv_password = text_or value [] })
        (λ c value. refl)
    ▹ other_keeps (λ c value. record c { irc_channel = text_or value [] }) (λ c value. refl)
    ▹ other_keeps (λ c value. record c { irc_no_forward_prefix = text_or value [] })
        (λ c value. refl)
    ▹ other_keeps (λ c value. record c { irc_owner_nick = text_or value [] }) (λ c value. refl)
    ▹ other_keeps (λ c value. record c { irc_admin_nicks = split_names value }) (λ c value. refl)
    ▹ other_keeps (λ c value. record c { quotes_path = text_or value (utf8 "quotes.json") })
        (λ c value. refl)
    ▹ other_keeps (λ c value. record c { news_path = text_or value [] }) (λ c value. refl)
    ▹ other_keeps (λ c value. record c { sentinel_path = text_or value (utf8 "sentinel.json") })
        (λ c value. refl)
    ▹ other_keeps (λ c value. record c { pulse_path = text_or value (utf8 "pulse.json") })
        (λ c value. refl)
    ▹ number_keeps 31 (λ c n. record c { golden_hour = n }) (pos 21) (negsuc 0) (pos 23)
        (λ c n. refl)
    ▹ number_keeps 32 (λ c n. record c { sentinel_hour = n }) (pos 9) (pos 0) (pos 23) (λ c n. refl)
    ▹ tt

apply_in-IsBounded :
    (ss : List Setting) (c after : AppConfig) (name value : Text)
    → All (λ s. KeepsBounds s.apply) ss
    → IsBounded c
    → apply_in ss c name value ≡ some after
    → IsBounded after
unfolding apply_in KeepsBounds
apply_in-IsBounded [] c after name value keeps h e = subst IsBounded (ground arith) h
apply_in-IsBounded (s ∷ ss) c after name value (keep, keeps) h e =
    elim (Bool-cases (text_eq name s.name)) [
      | inl it ↦ keep c after value h (ground arith)
      | inr other ↦ apply_in-IsBounded ss c after name value keeps h (ground arith)
    ]

apply_line-IsBounded :
    (c after : AppConfig) (line : Text)
    → IsBounded c
    → apply_line c line ≡ some after
    → IsBounded after
unfolding apply_line
apply_line-IsBounded c after line h e = ground (
  arith,
  apply_in-IsBounded settings c after
      (trim (take (find_index is_equals_sign (trim line)) (trim line)))
      (unquote (trim (drop (suc (find_index is_equals_sign (trim line))) (trim line))))
      settings-KeepsBounds h,
)

apply_lines-IsBounded :
    (lines : List Text) (c after : AppConfig)
    → IsBounded c
    → apply_lines c lines ≡ some after
    → IsBounded after
unfolding apply_lines
apply_lines-IsBounded [] c after h e = subst IsBounded (ground arith) h
apply_lines-IsBounded (line ∷ lines) c after h e = elim (Option-cases (apply_line c line)) [
  | inl refused ↦ absurd (ground arith)
  | inr (c', applied) ↦
      apply_lines-IsBounded lines c' after (apply_line-IsBounded c c' line h applied) (ground arith)
]

apply_environment-IsBounded :
    (getenv : Text → Option Text) (ss : List Setting) (c after : AppConfig)
    → All (λ s. KeepsBounds s.apply) ss
    → IsBounded c
    → apply_environment getenv ss c ≡ some after
    → IsBounded after
unfolding apply_environment KeepsBounds
apply_environment-IsBounded getenv [] c after keeps h e = subst IsBounded (ground arith) h
apply_environment-IsBounded getenv (s ∷ ss) c after (keep, keeps) h e =
    elim (Option-cases (getenv s.name)) [
      | inl unset ↦ apply_environment-IsBounded getenv ss c after keeps h (ground arith)
      | inr (value, given) ↦ elim (Option-cases (s.apply c value)) [
        | inl refused ↦ absurd (ground arith)
        | inr (c', applied) ↦
            apply_environment-IsBounded getenv ss c' after keeps (keep c c' value h applied)
              (ground arith)
      ]
    ]

fresh_config-IsBounded : IsBounded fresh_config
unfolding IsBounded numbers fresh_config
fresh_config-IsBounded = ground arith

beside_the_game-IsBounded : (c : AppConfig) → IsBounded c → IsBounded (beside_the_game c)
unfolding IsBounded numbers beside_the_game
beside_the_game-IsBounded c h = h

-- Every number of a configuration that was loaded, from any file and any environment, is between the
-- bounds of its setting.
pub load_config-IsBounded :
    (getenv : Text → Option Text) (file : Option (List Text)) (c : AppConfig)
    → load_config getenv file ≡ some c
    → IsBounded c
unfolding load_config
load_config-IsBounded getenv none c e = absurd (ground arith)
load_config-IsBounded getenv (some lines) c e =
    elim (Option-cases (apply_lines fresh_config lines)) [
      | inl refused ↦ absurd (ground arith)
      | inr (read, applied) ↦ elim (Option-cases (apply_environment getenv settings read)) [
        | inl refused ↦ absurd (ground arith)
        | inr (last, done) ↦
            let same : beside_the_game last ≡ c = ground arith in
            subst IsBounded same (
              beside_the_game-IsBounded last (
                apply_environment-IsBounded getenv settings read last settings-KeepsBounds
                  (apply_lines-IsBounded lines fresh_config read fresh_config-IsBounded applied)
                  done))
      ]
    ]
