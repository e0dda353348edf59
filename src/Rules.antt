-- ===== src/Rules.antt =====
-- `RaidRules` of src/game.hpp.
use norelecbot.Base.{[], ℕ}
use norelecbot.Base.Int.{negsuc, pos, ℤ, ◌%ℤ◌, ◌/ℤ◌}
use norelecbot.Zodiac.{Sky, Zone}

pub record RaidRules : Type 0 where
  pub loot_divisor : ℤ
  pub travel_divisor : ℤ
  pub signs : Sky
  pub furniture_limit : ℕ
  pub smeared_seconds : ℤ
  pub rocket_percent : ℤ
  pub pleading_percent : ℤ
  pub bomb_dud_percent : ℤ
  pub dog_percent : ℤ
  pub mailbox_percent : ℤ
  pub ninja_percent : ℤ
  pub alarm_percent : ℤ
  pub pirate_percent : ℤ
  pub pregnancy_seconds : ℤ
  pub child_stage_seconds : ℤ
  pub hen_per_minute : ℤ
  pub mating_percent : ℤ
  pub dino_percent : ℤ
  pub salt_percent : ℤ
  pub frozen_seconds : ℤ
  pub fire_percent : ℤ
  pub golden_hour : ℤ

-- Greenwich, for want of another clock.
abbrev pub utc : Zone
utc = record {
  local_day = λ now. now /ℤ pos 86400;
  local_hour = λ now. now %ℤ pos 86400 /ℤ pos 3600;
}

abbrev pub utc_sky : Sky
utc_sky = record { overrides = []; zone = utc }

-- `RaidRules{}`
abbrev pub default_rules : RaidRules
default_rules = record {
  loot_divisor = pos 50;
  travel_divisor = pos 1000;
  signs = utc_sky;
  furniture_limit = 10;
  smeared_seconds = pos 86400;
  rocket_percent = pos 0;
  pleading_percent = pos 0;
  bomb_dud_percent = pos 0;
  dog_percent = pos 0;
  mailbox_percent = pos 0;
  ninja_percent = pos 0;
  alarm_percent = pos 0;
  pirate_percent = pos 0;
  pregnancy_seconds = pos 32400;
  child_stage_seconds = pos 86400;
  hen_per_minute = pos 0;
  mating_percent = pos 0;
  dino_percent = pos 0;
  salt_percent = pos 0;
  frozen_seconds = pos 300;
  fire_percent = pos 0;
  golden_hour = negsuc 0;
}
