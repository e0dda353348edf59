-- ===== src/Config.antt =====
-- src/config.hpp and src/config.cpp: the settings of the bot, from the lines of the .env file and then
-- from the environment. Reading the file and the environment is a parameter.
pub mod Fields
pub mod Settings
pub mod Bounds
pub mod Kept
use norelecbot.Base.{Bool, List, [], false, true}
use norelecbot.Base.Int.{pos, ℤ}
use norelecbot.Text.{Text, utf8}
use norelecbot.Zodiac.{Override}

pub record AppConfig : Type 0 where
  pub bot_token : Text
  pub conquister_enabled : Bool
  pub owner_ids : List ℤ
  pub admin_ids : List ℤ
  pub quote_cost : ℤ
  pub quote_banned : List Text
  pub furniture_cost : ℤ
  pub furniture_limit : ℤ
  pub furniture_inflation : ℤ
  pub loot_divisor : ℤ
  pub cooldown_seconds : ℤ
  pub travel_divisor : ℤ
  pub lightning_percent : ℤ
  pub smeared_seconds : ℤ
  pub rocket_percent : ℤ
  pub pleading_percent : ℤ
  pub bomb_dud_percent : ℤ
  pub nuke_cost : ℤ
  pub dog_percent : ℤ
  pub balloon_cost : ℤ
  pub mailbox_percent : ℤ
  pub ninja_percent : ℤ
  pub alarm_percent : ℤ
  pub pirate_percent : ℤ
  pub pregnancy_seconds : ℤ
  pub child_stage_seconds : ℤ
  pub hen_per_minute : ℤ
  pub mating_percent : ℤ
  pub dino_percent : ℤ
  pub salt_percent : ℤ
  pub frozen_seconds : ℤ
  pub fire_percent : ℤ
  pub hourglass_percent : ℤ
  pub starter_balloon : Bool
  pub newcomers : Bool
  pub zodiac_signs : List Override
  pub conquister_chat_id : ℤ
  pub api_host : Text
  pub api_port : ℤ
  pub conquister_path : Text
  pub quotes_path : Text
  pub news_path : Text
  pub sentinel_path : Text
  pub sentinel_hour : ℤ
  pub pulse_path : Text
  pub golden_hour : ℤ
  pub irc_enabled : Bool
  pub irc_server : Text
  pub irc_port : ℤ
  pub irc_nick : Text
  pub irc_nickserv_password : Text
  pub irc_channel : Text
  pub irc_no_forward_prefix : Text
  pub irc_owner_nick : Text
  pub irc_admin_nicks : List Text

-- `AppConfig{}`
unfoldable pub fresh_config : AppConfig
unfolding utf8
fresh_config = record {
  bot_token = [];
  conquister_enabled = false;
  owner_ids = [];
  admin_ids = [];
  quote_cost = pos 1000;
  quote_banned = [];
  furniture_cost = pos 10000;
  furniture_limit = pos 10;
  furniture_inflation = pos 50;
  loot_divisor = pos 50;
  cooldown_seconds = pos 300;
  travel_divisor = pos 350;
  lightning_percent = pos 10;
  smeared_seconds = pos 86400;
  rocket_percent = pos 10;
  pleading_percent = pos 10;
  bomb_dud_percent = pos 10;
  nuke_cost = pos 1000000;
  dog_percent = pos 10;
  balloon_cost = pos 1000;
  mailbox_percent = pos 10;
  ninja_percent = pos 10;
  alarm_percent = pos 10;
  pirate_percent = pos 10;
  pregnancy_seconds = pos 32400;
  child_stage_seconds = pos 86400;
  hen_per_minute = pos 1;
  mating_percent = pos 50;
  dino_percent = pos 10;
  salt_percent = pos 10;
  frozen_seconds = pos 1800;
  fire_percent = pos 10;
  hourglass_percent = pos 10;
  starter_balloon = true;
  newcomers = true;
  zodiac_signs = [];
  conquister_chat_id = pos 0;
  api_host = utf8 "0.0.0.0";
  api_port = pos 8000;
  conquister_path = utf8 "conquister.json";
  quotes_path = utf8 "quotes.json";
  news_path = [];
  sentinel_path = utf8 "sentinel.json";
  sentinel_hour = pos 9;
  pulse_path = utf8 "pulse.json";
  golden_hour = pos 21;
  irc_enabled = false;
  irc_server = [];
  irc_port = pos 6697;
  irc_nick = utf8 "NorelecBot";
  irc_nickserv_password = [];
  irc_channel = [];
  irc_no_forward_prefix = [];
  irc_owner_nick = [];
  irc_admin_nicks = [];
}
