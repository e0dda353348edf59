-- ===== src/Raid/Request.antt =====
-- `RaidStatus` and `RaidResult` of src/game.hpp, and what a ride is asked for with.
use norelecbot.Base.{Bool, []}
use norelecbot.Base.Int.{pos, ℤ}
use norelecbot.Identity.{RaidTargetKind}
use norelecbot.Text.{Text}

pub data RaidStatus : Type 0 where
  started already_travelling holding_place unknown_target : RaidStatus
  left_place coming_home home_already insufficient_score : RaidStatus
  invalid_amount no_such_emoji no_room hands_full frozen protected_target : RaidStatus

pub record RaidResult : Type 0 where
  pub status : RaidStatus
  pub target : Text
  pub seconds : ℤ
  pub earned : ℤ
  pub lightning : ℤ
  pub zodiac_percent : ℤ
  pub score : ℤ

abbrev pub fresh_raid : RaidResult
fresh_raid = record {
  status = RaidStatus.started;
  target = [];
  seconds = pos 0;
  earned = pos 0;
  lightning = pos 0;
  zodiac_percent = pos 100;
  score = pos 0;
}

-- What a call of `raid_start` is given besides who calls and when.
pub record Trip : Type 0 where
  pub target : Text
  pub target_kind : RaidTargetKind
  pub gift : ℤ
  pub gift_emoji : Text
  pub intact : Bool
