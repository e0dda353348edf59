-- ===== src/Claim/Result.antt =====
-- `ClaimStatus`, `ClaimResult` and `ClaimRules` of src/game.hpp, and what a power is worth.
use norelecbot.Base.{Bool, List, [], false}
use norelecbot.Base.Int.{max_ℤ, min_ℤ, pos, ℤ, ◌*ℤ◌}
use norelecbot.Text.{Text}
use norelecbot.Zodiac.{Sky}

pub data ClaimStatus : Type 0 where
  taken already_held defended cooldown travelling frozen : ClaimStatus

pub record ClaimResult : Type 0 where
  pub status : ClaimStatus
  pub previous_username : Text
  pub previous_key : Text
  pub previous_user_id : ℤ
  pub earned : ℤ
  pub balloon_popped : Bool
  pub sneaked : Bool
  pub first_entry : Bool
  pub entered_lightning : ℤ
  pub lobsters_became : List Text
  pub carried_before : Text
  pub next_chance : ℤ
  pub penalty_seconds : ℤ
  pub travel_seconds : ℤ
  pub lightning : ℤ
  pub zodiac_percent : ℤ

pub record ClaimRules : Type 0 where
  pub cooldown_seconds : ℤ
  pub signs : Sky
  pub lightning : ℤ
  pub ninja : ℤ
  pub hourglass : ℤ

-- `ClaimResult{}`
abbrev pub fresh_claim : ClaimResult
fresh_claim = record {
  status = ClaimStatus.taken;
  previous_username = [];
  previous_key = [];
  previous_user_id = pos 0;
  earned = pos 0;
  balloon_popped = false;
  sneaked = false;
  first_entry = false;
  entered_lightning = pos 0;
  lobsters_became = [];
  carried_before = [];
  next_chance = pos 0;
  penalty_seconds = pos 0;
  travel_seconds = pos 0;
  lightning = pos 0;
  zodiac_percent = pos 100;
}

abbrev pub newcomer_seconds : ℤ
newcomer_seconds = pos 86400

-- So many copies of a power, each worth a percentage, all of it at most.
unfoldable pub power_percent : ℤ → ℤ → ℤ
unfolding min_ℤ max_ℤ
power_percent copies each = min_ℤ (pos 100) (copies *ℤ max_ℤ each (pos 0))
