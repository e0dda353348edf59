-- ===== src/Claim/Whole.antt =====
-- The effect of a whole claim, put together from that of its steps.
use norelecbot.Balloon.{BalloonRoll, held, none_there, popped}
use norelecbot.Base.{
  Bool, Bool-cases, Option, ap, arith, false, inl, inr, none, not, refl, some, sym, true, ◌||◌, ◌∙◌,
  ◌≡◌, ◌≢◌,
}
use norelecbot.Base.Int.{ℤ}
use norelecbot.Claim.{
  claim_admitted, claim_place, claim_refused, claim_transaction, conquister_claim,
}
use norelecbot.Claim.Contest.{
  claim_contest, claim_enter, claim_kick, claim_past, claim_rolled, claim_rolls, claim_sneaks,
  contest_outcome, contest_roll, is_first_entry,
}
use norelecbot.Claim.Effect.{
  Effect, Keeps, Keeps-trans, Kicked, balloon_attempt-Keeps, claim_defended_lem, claim_enter_lem,
  claim_kick-Kicked, claim_refused-Keeps, claim_sneaks-Keeps, held_by_somebody,
  remember_platform-Keeps,
}
use norelecbot.Claim.Result.{ClaimResult, ClaimRules, ClaimStatus, fresh_claim}
use norelecbot.Identity.{remember_platform}
use norelecbot.Place.{Whereabouts}
use norelecbot.Session.{
  Session, attempt, notify, pure, score_overflow, told_claim, update, ◌>>=◌, ◌>>◌,
}
use norelecbot.Session.Ensures.{Ensures, Ensures-bind}
use norelecbot.State.{ConquisterState, Holder}
use norelecbot.Text.{Text, is_empty}

roll-Keeps :
    (past : Bool) (player : Text) (now : ℤ) (s : Session)
    → Ensures (λ r s'. Keeps s.state s'.state) (contest_roll past player now s)
unfolding contest_roll
roll-Keeps true player now s = (refl, refl, refl)
roll-Keeps false player now s = balloon_attempt-Keeps player Whereabouts.conquister now s

module _ (rules : ClaimRules) (user_id : ℤ) (username : Text) (now : ℤ) (st : ConquisterState) where
  abbrev After : ClaimResult → Session → Type 0
  After r s = Effect username now st r s.state

  -- An empty place is simply entered.
  enter_empty :
      (st' : ConquisterState)
      → Keeps st st'
      → held_by_somebody st.current ≡ false
      → let (r, st'') = claim_enter rules user_id username now fresh_claim st' in
        Effect username now st r st''
  enter_empty st' k free =
      let (raids, scores, status, _, _, inside) =
        claim_enter_lem rules user_id username now fresh_claim st' in
      (raids ∙ k.2, inr (status, inside, inl (free, scores ∙ k.1)))

  module _ (hold : Holder) (holds : st.current ≡ some hold)
      (named : is_empty hold.username ≡ false) where
    past_kick :
        (outcome : ClaimResult) (s : Session) (o : Option (ClaimResult × ConquisterState))
        → Keeps st s.state
        → outcome.status ≡ ClaimStatus.taken
        → Kicked outcome hold now s.state o
        → Ensures After (
            (attempt score_overflow (λ x. o) >>= λ kicked.
            update (claim_enter rules user_id username now kicked))
              s)
    past_kick outcome s none k t h = tt
    past_kick outcome s (some (r, st')) k t (raids, status, key, earned, scores) =
        let (raids', scores', status', key', earned', inside) =
          claim_enter_lem rules user_id username now r st' in
        (
          raids' ∙ raids ∙ k.2,
          inr (
            status' ∙ status ∙ t,
            inside,
            inr (
                rw holds (
                  named,
                  key' ∙ key,
                  earned' ∙ earned,
                  ground (arith, k.1, scores, scores', earned'),
                )),
          ),
        )

    past-After :
        (outcome : ClaimResult) (s : Session)
        → Keeps st s.state
        → outcome.status ≡ ClaimStatus.taken
        → Ensures After (claim_past rules user_id username hold now outcome s)
    unfolding claim_past
    past-After outcome s k t =
        past_kick outcome s (claim_kick rules hold now outcome s.state) k t
          (claim_kick-Kicked rules hold now outcome s.state)

    rolled-After :
        (outcome : ClaimResult) (roll : BalloonRoll) (s : Session)
        → Keeps st s.state
        → outcome.status ≡ ClaimStatus.taken
        → Ensures After (claim_rolled rules user_id username hold now outcome roll s)
    unfolding claim_rolled
    rolled-After outcome none_there s k t = past-After outcome s k t
    rolled-After outcome popped s k t = past-After (record outcome { balloon_popped = true }) s k t
    rolled-After outcome held s k t =
        let (kept, status) = claim_defended_lem rules username hold.username now outcome s.state in
        (kept.2 ∙ k.2, inl (status, kept.0 ∙ k.0, kept.1 ∙ k.1))

    rolls-After :
        (state : ConquisterState) (first sneaked : Bool) (s : Session)
        → Keeps st s.state
        → Ensures After (claim_rolls rules user_id username hold now state first sneaked s)
    unfolding claim_rolls contest_roll contest_outcome
    rolls-After state first sneaked s k =
        Ensures-bind After (λ r s'. Keeps s.state s'.state)
          (contest_roll (sneaked || first) hold.username now)
          (λ roll.
            claim_rolled rules user_id username hold now (contest_outcome state hold first sneaked)
              roll)
          s (roll-Keeps (sneaked || first) hold.username now s)
          λ roll s' k'.
            rolled-After (contest_outcome state hold first sneaked) roll s'
              (Keeps-trans st s.state s'.state k k') refl

    -- The contest: the draws change nothing that counts, and what comes of them is one of the three.
    contest-After :
        (s : Session)
        → Keeps st s.state
        → Ensures After (claim_contest rules user_id username now hold s)
    unfolding claim_contest
    contest-After s k =
        let first = is_first_entry s.state username now in
        Ensures-bind After (λ r s'. Keeps s.state s'.state)
          (claim_sneaks rules username hold.username now first)
          (λ sneaked. claim_rolls rules user_id username hold now s.state first sneaked) s
          (claim_sneaks-Keeps rules username hold.username now first s)
          λ sneaked s' k'.
            rolls-After s.state first sneaked s' (Keeps-trans st s.state s'.state k k')

  place-After :
      (current : Option Holder) (s : Session)
      → st.current ≡ current
      → Keeps st s.state
      → Ensures After (claim_place rules user_id username now current s)
  unfolding claim_place
  place-After none s e k = enter_empty s.state k (ap held_by_somebody e)
  place-After (some hold) s e k = elim (Bool-cases (is_empty hold.username)) [
    | inl vacant ↦ rw vacant (enter_empty s.state k (ap held_by_somebody e ∙ ap not vacant))
    | inr named ↦ rw named (contest-After hold e named s k)
  ]

  admitted-After :
      (refused : Option ClaimResult) (s : Session)
      → Keeps st s.state
      → ((o : ClaimResult) → refused ≡ some o → o.status ≢ ClaimStatus.taken)
      → Ensures After (claim_admitted rules user_id username now refused s)
  unfolding claim_admitted
  admitted-After none s k n = place-After s.state.current s (sym k.0) k
  admitted-After (some o) s k n = (k.2, inl (n o refl, k.0, k.1))

-- A claim that comes to an end leaves the place and the scores as they were, or puts the claimer in
-- the place from now on: in a free place the scores stay, else the one who held it is named in the answer
-- and is paid the worth of his hold and what he had put aside, and nobody else is; the rides are never
-- touched.
pub conquister_claim-Effect :
    (rules : ClaimRules) (user_id : ℤ) (username : Text) (now : ℤ) (s : Session)
    → Ensures
        (λ r s'. Effect username now s.state r s'.state)
        (conquister_claim rules user_id username now s)
unfolding conquister_claim claim_transaction notify
conquister_claim-Effect rules user_id username now s =
    let st = s.state in
    let known = remember_platform st username user_id in
    let k = remember_platform-Keeps st username user_id in
    let refusal = claim_refused-Keeps username now known in
    Ensures-bind (λ r s'. Effect username now st r s'.state)
      (λ r s'. Effect username now st r s'.state) (claim_transaction rules user_id username now)
      (λ outcome. notify (told_claim username now) >> pure outcome) s
      (admitted-After rules user_id username now st (claim_refused username now known).0
        (record s { state = (claim_refused username now known).1 })
        (Keeps-trans st known (claim_refused username now known).1 k refusal.0) refusal.1)
      λ r s' h. h
