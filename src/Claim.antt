-- ===== src/Claim.antt =====
-- `conquister_claim` of src/game.cpp: who enters @TheConquister37, who is held off and what it costs.
pub mod Contest
pub mod Effect
pub mod Needs
pub mod Result
pub mod Whole
use norelecbot.Base.{Option, if◌then◌else◌, none, some}
use norelecbot.Base.Int.{ltb_ℤ, max_ℤ, pos, ℤ, ◌-ℤ◌}
use norelecbot.Claim.Contest.{claim_contest, claim_enter}
use norelecbot.Claim.Result.{ClaimResult, ClaimRules, ClaimStatus, fresh_claim}
use norelecbot.Identity.{remember_platform}
use norelecbot.Place.{frozen_for, is_conquister, raid_of, whereabouts}
use norelecbot.Position.{travel_seconds}
use norelecbot.Session.{Game, gets, modify, notify, pure, told_claim, update, ◌>>=◌, ◌>>◌}
use norelecbot.State.{ConquisterState, Holder}
use norelecbot.Table.{erase, lookup}
use norelecbot.Text.{Text, is_empty}

-- The place once nothing keeps him from it.
pub claim_place : ClaimRules → ℤ → Text → ℤ → Option Holder → Game ClaimResult
claim_place rules user_id username now none =
    update (claim_enter rules user_id username now fresh_claim)
claim_place rules user_id username now (some hold) =
    if is_empty hold.username
    then update (claim_enter rules user_id username now fresh_claim)
    else claim_contest rules user_id username now hold

-- What refuses the claim before the place is looked at, with the state: an expired penalty is gone.
unfoldable pub claim_refused : Text → ℤ → ConquisterState → Option ClaimResult × ConquisterState
unfolding max_ℤ
claim_refused username now state = elim (raid_of state username) [
  | some ride ↦ (
    some (record fresh_claim {
      status = ClaimStatus.travelling;
      travel_seconds = max_ℤ (ride.back -ℤ now) (pos 0);
    }),
    state,
  )
  | none ↦ claim_cooled (lookup username state.cooldowns)
]
  where
    claim_inside : ConquisterState → Option ClaimResult × ConquisterState
    claim_inside st =
        if is_conquister (whereabouts st username)
        then (some (record fresh_claim { status = ClaimStatus.already_held }), st)
        else if ltb_ℤ (pos 0) (frozen_for st username now)
        then (
          some (record fresh_claim {
            status = ClaimStatus.frozen;
            penalty_seconds = frozen_for st username now;
          }),
          st,
        )
        else (none, st)

    claim_cooled : Option ℤ → Option ClaimResult × ConquisterState
    claim_cooled none = claim_inside state
    claim_cooled (some until) =
        if ltb_ℤ now until
        then (
          some (record fresh_claim {
            status = ClaimStatus.cooldown;
            penalty_seconds = until -ℤ now;
          }),
          state,
        )
        else claim_inside (record state { cooldowns = erase username state.cooldowns })

-- Refused, or on to the place.
pub claim_admitted : ClaimRules → ℤ → Text → ℤ → Option ClaimResult → Game ClaimResult
claim_admitted rules user_id username now (some outcome) = pure outcome
claim_admitted rules user_id username now none = do
  current ← gets (λ st. st.current)
  claim_place rules user_id username now current

pub claim_transaction : ClaimRules → ℤ → Text → ℤ → Game ClaimResult
unfolding claim_place claim_admitted
claim_transaction rules user_id username now = do
  modify (λ st. remember_platform st username user_id)
  refused ← update (claim_refused username now)
  claim_admitted rules user_id username now refused

-- The whole call: the sentinel hears of it once the transaction is through.
unfoldable pub conquister_claim : ClaimRules → ℤ → Text → ℤ → Game ClaimResult
unfolding claim_transaction
conquister_claim rules user_id username now = do
  outcome ← claim_transaction rules user_id username now
  notify (told_claim username now)
  pure outcome
