-- ===== src/Claim/Contest.antt =====
-- Who enters, past whoever is inside: that part of `conquister_claim` in src/game.cpp.
use norelecbot.Balloon.{
  BalloonRoll, balloon_attempt, balloon_pop_chance, balloon_there, held, none_there, popped,
}
use norelecbot.Base.{
  Bool, List, Option, [], false, if◌then◌else◌, none, not, some, true, ℕ, ◌&&◌, ◌||◌, ◌∷◌,
}
use norelecbot.Base.Int.{eqb_ℤ, ltb_ℤ, pos, ℤ, ◌*ℤ◌, ◌+ℤ◌, ◌-ℤ◌, ◌/ℤ◌}
use norelecbot.Claim.Result.{
  ClaimResult, ClaimRules, ClaimStatus, fresh_claim, newcomer_seconds, power_percent,
}
use norelecbot.Gear.{carried_copies, lobsters_copying, shown_gear}
use norelecbot.Hold.{settle_hold}
use norelecbot.Identity.{ambiguous_legacy}
use norelecbot.Place.{Whereabouts, display_name}
use norelecbot.Power.{bolt, hourglass, ninja}
use norelecbot.Session.{Game, attempt, get_state, pure, random_index, score_overflow, update, ◌>>=◌}
use norelecbot.State.{ConquisterState, Holder}
use norelecbot.Table.{contains, counter, erase, insert, lookup}
use norelecbot.Text.{Text, is_empty}

-- A newcomer who never entered yet.
unfoldable pub is_first_entry : ConquisterState → Text → ℤ → Bool
is_first_entry state username now = elim (lookup username state.joined) [
  | none ↦ false
  | some came ↦
      ltb_ℤ (now -ℤ came) newcomer_seconds && eqb_ℤ (counter state.entered username) (pos 0)
]

-- The draw of a stealthy claimer, made only where there is a balloon to slip past.
unfoldable pub claim_sneaks : ClaimRules → Text → Text → ℤ → Bool → Game Bool
claim_sneaks rules username holder now first_entry = do
  state ← get_state
  (let stealth = power_percent (carried_copies state username ninja) rules.ninja in
      if not first_entry
        && (ltb_ℤ (pos 0) stealth && balloon_there state holder Whereabouts.conquister now)
      then (do roll ← random_index 100; pure (ltb_ℤ (pos roll) stealth))
      else pure false)

-- The penalty of an attempt that a balloon held off.
unfoldable pub claim_penalty : ClaimRules → ConquisterState → Text → ℤ
claim_penalty rules state username =
    let spared = power_percent (carried_copies state username hourglass) rules.hourglass in
    rules.cooldown_seconds *ℤ (pos 100 -ℤ spared) /ℤ pos 100

-- Held off: the penalty is written, and the chance of the next attempt told.
unfoldable pub claim_defended :
    ClaimRules → Text → Text → ℤ → ClaimResult → ConquisterState → ClaimResult × ConquisterState
claim_defended rules username holder now outcome state =
    let wait = claim_penalty rules state username in
    let punished = ltb_ℤ (pos 0) wait in
    let state' =
      if punished
      then record state { cooldowns = insert username (now +ℤ wait) state.cooldowns }
      else state in
    (
      record outcome {
        status = ClaimStatus.defended;
        penalty_seconds = if punished then wait else outcome.penalty_seconds;
        previous_username = display_name state' holder;
        previous_key = holder;
        next_chance = balloon_pop_chance state' holder;
      },
      state',
    )

-- Kicked out, his balloon is fresh again, unless it was not even touched.
unfoldable pub fresh_balloon : ClaimResult → Text → ConquisterState → ConquisterState
fresh_balloon outcome holder state =
    if not outcome.sneaked && not outcome.first_entry
    then record state { balloons = erase holder state.balloons }
    else state

-- The kicked holder is paid.
unfoldable pub claim_kick :
    ClaimRules → Holder → ℤ → ClaimResult → ConquisterState → Option (ClaimResult × ConquisterState)
claim_kick rules hold now outcome state =
    let state' = fresh_balloon outcome hold.username state in
    elim (settle_hold state' hold now rules.signs) [
      | none ↦ none
      | some (settled, state'') ↦ some (
        record outcome {
          previous_username = display_name state' hold.username;
          previous_key = hold.username;
          earned = settled.earned;
          lightning = settled.lightning;
          zodiac_percent = settled.zodiac_percent;
        },
        state'',
      )
    ]

unfoldable pub lobster_emoji : List (ℕ × Text) → List Text
lobster_emoji [] = []
lobster_emoji ((slot, e) ∷ lobsters) = e ∷ lobster_emoji lobsters

-- He enters, with the lightning that he has on him by then.
unfoldable pub claim_enter :
    ClaimRules → ℤ → Text → ℤ → ClaimResult → ConquisterState → ClaimResult × ConquisterState
claim_enter rules user_id username now outcome state =
    let lobsters =
      if is_empty outcome.previous_key
      then []
      else lobsters_copying state username outcome.previous_key in
    let hold : Holder = record {
      user_id = user_id;
      username = username;
      since = now;
      lightning_percent = pos 0;
      bolts = pos 0;
      banked = pos 0;
      counted_from = pos 0;
      lobsters = lobsters;
    } in
    let seen =
      if contains username state.joined
      then record state { entered = insert username (pos 1) state.entered }
      else state in
    let inside = record seen { current = some hold } in
    let bolts = carried_copies inside username bolt in
    let entered_lightning =
      if ltb_ℤ (pos 0) bolts && ltb_ℤ (pos 0) rules.lightning
      then pos 100 +ℤ bolts *ℤ rules.lightning
      else pos 0 in
    (
      record outcome {
        lobsters_became = lobster_emoji lobsters;
        carried_before = shown_gear state username;
        entered_lightning = entered_lightning;
      },
      record inside {
        current = some (record hold {
          lightning_percent = entered_lightning;
          bolts = if ltb_ℤ (pos 0) entered_lightning then bolts else pos 0;
        });
      },
    )

unfoldable pub claim_past : ClaimRules → ℤ → Text → Holder → ℤ → ClaimResult → Game ClaimResult
claim_past rules user_id username hold now outcome = do
  kicked ← attempt score_overflow (claim_kick rules hold now outcome)
  update (claim_enter rules user_id username now kicked)

unfoldable pub claim_rolled :
    ClaimRules → ℤ → Text → Holder → ℤ → ClaimResult → BalloonRoll → Game ClaimResult
unfolding claim_past
claim_rolled rules user_id username hold now outcome held =
    update (claim_defended rules username hold.username now outcome)
claim_rolled rules user_id username hold now outcome popped =
    claim_past rules user_id username hold now (record outcome { balloon_popped = true })
claim_rolled rules user_id username hold now outcome none_there =
    claim_past rules user_id username hold now outcome

-- What is known of the attempt before the balloon is met.
unfoldable pub contest_outcome : ConquisterState → Holder → Bool → Bool → ClaimResult
contest_outcome state hold first_entry sneaked =
    let known = counter state.telegram_ids hold.username in
    record fresh_claim {
      previous_user_id =
          if not (ambiguous_legacy state hold.username) && not (eqb_ℤ known (pos 0))
          then known
          else hold.user_id;
      first_entry = first_entry;
      sneaked = sneaked;
    }

-- The holder's balloon, unless it is slipped past or does not count.
unfoldable pub contest_roll : Bool → Text → ℤ → Game BalloonRoll
contest_roll past holder now =
    if past then pure none_there else balloon_attempt holder Whereabouts.conquister now

unfoldable pub claim_rolls :
    ClaimRules → ℤ → Text → Holder → ℤ → ConquisterState → Bool → Bool → Game ClaimResult
claim_rolls rules user_id username hold now state first_entry sneaked = do
  roll ← contest_roll (sneaked || first_entry) hold.username now
  claim_rolled rules user_id username hold now (contest_outcome state hold first_entry sneaked) roll

-- Somebody is inside: the claimer slips past him, is held off, or kicks him out.
unfoldable pub claim_contest : ClaimRules → ℤ → Text → ℤ → Holder → Game ClaimResult
unfolding claim_sneaks claim_rolls claim_rolled
claim_contest rules user_id username now hold = do
  state ← get_state
  let first_entry = is_first_entry state username now
  sneaked ← claim_sneaks rules username hold.username now first_entry
  claim_rolls rules user_id username hold now state first_entry sneaked
