-- ===== src/Raid.antt =====
-- `raid_start` of src/game.cpp: setting off, or going home.
pub mod Arrive
pub mod Change
pub mod Deliver
pub mod Depart
pub mod Due
pub mod Homewards
pub mod Ledger
pub mod Loot
pub mod Moved
pub mod Over
pub mod Rob
pub mod Request
pub mod Wealth
use norelecbot.Base.{Bool, if◌then◌else◌, none, not, some, true, ℕ, ◌&&◌}
use norelecbot.Base.Int.{eqb_ℤ, pos, ℤ}
use norelecbot.Identity.{RaidTargetKind, player_by_name, remember_platform}
use norelecbot.Place.{display_name}
use norelecbot.Raid.Depart.{depart}
use norelecbot.Raid.Homewards.{go_homewards}
use norelecbot.Raid.Request.{RaidResult, RaidStatus, Trip, fresh_raid}
use norelecbot.Rules.{RaidRules}
use norelecbot.Session.{Game, attempt, get_state, modify, pure, score_overflow, ◌>>=◌, ◌>>◌}
use norelecbot.State.{ConquisterState}
use norelecbot.Text.{Text, equals_ignore_case}

own_platform : RaidTargetKind → ℤ → Bool
own_platform RaidTargetKind.any user_id = true
own_platform RaidTargetKind.telegram user_id = not (eqb_ℤ user_id (pos 0))
own_platform RaidTargetKind.irc user_id = eqb_ℤ user_id (pos 0)

-- Whether he names himself.
unfoldable pub is_homewards : ConquisterState → ℤ → Text → Trip → Bool
unfolding own_platform
is_homewards state user_id username t =
    own_platform t.target_kind user_id && equals_ignore_case (display_name state username) t.target

unfoldable pub raid_start : ℕ → RaidRules → ℤ → Text → Trip → ℤ → Game RaidResult
unfolding depart
raid_start fuel rules user_id username t now = do
  modify (λ st. remember_platform st username user_id)
  state ← get_state
  (if is_homewards state user_id username t
      then attempt score_overflow (go_homewards username rules.signs now)
      else elim (player_by_name state t.target t.target_kind) [
        | none ↦ pure (record fresh_raid { status = RaidStatus.unknown_target })
        | some known ↦ depart fuel rules username known t now
      ])
