-- ===== src/Config/Bounds.antt =====
-- What a configuration that was loaded keeps to.
use norelecbot.Base.{
  All, List, Option, Option-cases, [], arith, if◌then◌else◌, inl, inr, set, some, suc, zero, ℕ, ◌∷◌,
  ◌≡◌,
}
use norelecbot.Base.Int.{negsuc, pos, ℤ, ◌≤ℤ◌}
use norelecbot.Config.{AppConfig}
use norelecbot.Config.Fields.{parse_ids, parse_signs, set_ids, set_number, set_signs, split_names}
use norelecbot.Text.{Text, is_empty}
use norelecbot.Text.Number.{parse_int64}
use norelecbot.Zodiac.{Override}

-- Every number of the configuration, with the least and the most it may be.
unfoldable pub numbers : AppConfig → List (ℤ × ℤ × ℤ)
numbers c =
    (c.quote_cost, pos 0, pos 2147483647)
    ∷ (c.furniture_cost, pos 0, pos 2147483647)
    ∷ (c.furniture_inflation, pos 0, pos 1000)
    ∷ (c.furniture_limit, pos 1, pos 2147483647)
    ∷ (c.loot_divisor, pos 1, pos 2147483647)
    ∷ (c.cooldown_seconds, pos 0, pos 2147483647)
    ∷ (c.travel_divisor, pos 1, pos 2147483647)
    ∷ (c.lightning_percent, pos 0, pos 1000)
    ∷ (c.smeared_seconds, pos 0, pos 2147483647)
    ∷ (c.rocket_percent, pos 0, pos 1000)
    ∷ (c.pleading_percent, pos 0, pos 100)
    ∷ (c.bomb_dud_percent, pos 0, pos 100)
    ∷ (c.nuke_cost, pos 0, pos 2147483647)
    ∷ (c.dog_percent, pos 0, pos 100)
    ∷ (c.balloon_cost, pos 0, pos 2147483647)
    ∷ (c.mailbox_percent, pos 0, pos 100)
    ∷ (c.ninja_percent, pos 0, pos 100)
    ∷ (c.alarm_percent, pos 0, pos 100)
    ∷ (c.pirate_percent, pos 0, pos 100)
    ∷ (c.pregnancy_seconds, pos 0, pos 2147483647)
    ∷ (c.child_stage_seconds, pos 1, pos 2147483647)
    ∷ (c.hen_per_minute, pos 0, pos 2147483647)
    ∷ (c.mating_percent, pos 0, pos 100)
    ∷ (c.dino_percent, pos 0, pos 100)
    ∷ (c.salt_percent, pos 0, pos 1000)
    ∷ (c.frozen_seconds, pos 0, pos 2147483647)
    ∷ (c.fire_percent, pos 0, pos 100)
    ∷ (c.hourglass_percent, pos 0, pos 100)
    ∷ (c.conquister_chat_id, negsuc 9223372036854775807, pos 9223372036854775807)
    ∷ (c.api_port, pos 1, pos 65535)
    ∷ (c.irc_port, pos 1, pos 65535)
    ∷ (c.golden_hour, negsuc 0, pos 23)
    ∷ (c.sentinel_hour, pos 0, pos 23)
    ∷ []

abbrev pub Within : ℤ × ℤ × ℤ → Type 0
Within (n, least, most) = (least ≤ℤ n) × (n ≤ℤ most)

unfoldable pub IsBounded : AppConfig → Type 0
IsBounded c = All Within (numbers c)

All-set :
    (xs : List (ℤ × ℤ × ℤ)) (i : ℕ) (x : ℤ × ℤ × ℤ)
    → All Within xs
    → Within x
    → All Within (set xs i x)
All-set [] i x h w = tt
All-set (y ∷ xs) zero x (v, h) w = (w, h)
All-set (y ∷ xs) (suc i) x (v, h) w = (v, All-set xs i x h w)

-- A setting that is applied keeps every number within its bounds.
unfoldable pub KeepsBounds : (AppConfig → Text → Option AppConfig) → Type 0
KeepsBounds apply =
    (c after : AppConfig) (value : Text)
    → IsBounded c
    → apply c value ≡ some after
    → IsBounded after

-- A number that was set is between its bounds, and it is what the setting put.
set_number-Within :
    (set_to : ℤ → AppConfig) (value : Text) (fallback least most : ℤ) (after : AppConfig)
    → set_number set_to value fallback least most ≡ some after
    → (n : ℤ) × Within (n, least, most) × (after ≡ set_to n)
unfolding set_number
set_number-Within set_to value fallback least most after e =
    elim (Option-cases (if is_empty value then some fallback else parse_int64 value)) [
      | inl unread ↦ absurd (ground arith)
      | inr (n, read) ↦ (n, ground arith, ground arith)
    ]

pub number_keeps :
    (i : ℕ) (set_to : AppConfig → ℤ → AppConfig) (fallback least most : ℤ)
    → ((c : AppConfig) (n : ℤ) → numbers (set_to c n) ≡ set (numbers c) i (n, least, most))
    → KeepsBounds (λ c value. set_number (set_to c) value fallback least most)
unfolding KeepsBounds IsBounded
number_keeps i set_to fallback least most sets c after value h e =
    let (n, within, same) = set_number-Within (set_to c) value fallback least most after e in
    rw (same, sets c n) (All-set (numbers c) i (n, least, most) h within)

pub other_keeps :
    (change : AppConfig → Text → AppConfig)
    → ((c : AppConfig) (value : Text) → numbers (change c value) ≡ numbers c)
    → KeepsBounds (λ c value. some (change c value))
unfolding KeepsBounds IsBounded
other_keeps change same c after value h e =
    let changed : change c value ≡ after = ground arith in rw (← changed, same c value) h

pub set_ids_keeps :
    (set_to : AppConfig → List ℤ → AppConfig)
    → ((c : AppConfig) (ids : List ℤ) → numbers (set_to c ids) ≡ numbers c)
    → KeepsBounds (λ c value. set_ids (set_to c) value)
unfolding KeepsBounds IsBounded set_ids
set_ids_keeps set_to same c after value h e = elim (Option-cases (parse_ids (split_names value))) [
  | inl unread ↦ absurd (ground arith)
  | inr (ids, read) ↦
      let changed : set_to c ids ≡ after = ground arith in rw (← changed, same c ids) h
]

pub set_signs_keeps :
    (set_to : AppConfig → List Override → AppConfig)
    → ((c : AppConfig) (chosen : List Override) → numbers (set_to c chosen) ≡ numbers c)
    → KeepsBounds (λ c value. set_signs (set_to c) value)
unfolding KeepsBounds IsBounded set_signs
set_signs_keeps set_to same c after value h e =
    elim (Option-cases (parse_signs (split_names value))) [
      | inl unread ↦ absurd (ground arith)
      | inr (chosen, read) ↦
          let changed : set_to c chosen ≡ after = ground arith in rw (← changed, same c chosen) h
    ]
