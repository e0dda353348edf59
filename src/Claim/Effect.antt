-- ===== src/Claim/Effect.antt =====
-- What a claim does to the place and the scores, whatever it comes to.
use norelecbot.Balloon.{balloon_attempt, balloon_attempts, balloon_roll}
use norelecbot.Base.{
  Bool, Option, ap, arith, false, none, not, refl, some, ℕ, ◌%◌, ◌∙◌, ◌≡◌, ◌≢◌, ◌⊎◌,
}
use norelecbot.Base.Int.{ℤ, ◌+ℤ◌}
use norelecbot.Claim.{claim_refused}
use norelecbot.Claim.Contest.{claim_defended, claim_enter, claim_kick, claim_sneaks, fresh_balloon}
use norelecbot.Claim.Result.{ClaimResult, ClaimRules, ClaimStatus}
use norelecbot.Hold.{Settlement, settle_hold}
use norelecbot.Hold.Pay.{Settles, settle_hold_pays, worth}
use norelecbot.Identity.{remember_irc, remember_platform, remember_telegram}
use norelecbot.Place.{Whereabouts, display_name}
use norelecbot.Session.{Session, random_index}
use norelecbot.Session.Ensures.{Ensures}
use norelecbot.State.{ConquisterState, Holder}
use norelecbot.Table.{Counters, counter, insert}
use norelecbot.Text.{Text, is_empty}
use norelecbot.Zodiac.{Sky}

-- What the steps before the place changes hands leave alone.
abbrev pub Keeps : ConquisterState → ConquisterState → Type 0
Keeps st st' = (st'.current ≡ st.current) × (st'.scores ≡ st.scores) × (st'.raids ≡ st.raids)

pub Keeps-trans : (a b c : ConquisterState) → Keeps a b → Keeps b c → Keeps a c
Keeps-trans a b c h k = (k.0 ∙ h.0, k.1 ∙ h.1, k.2 ∙ h.2)

pub remember_platform-Keeps :
    (st : ConquisterState) (username : Text) (user_id : ℤ)
    → Keeps st (remember_platform st username user_id)
unfolding remember_platform remember_irc remember_telegram
remember_platform-Keeps st username user_id = ground arith

pub claim_refused-Keeps :
    (username : Text) (now : ℤ) (st : ConquisterState)
    → let (r, st') = claim_refused username now st in
      Keeps st st' × ((o : ClaimResult) → r ≡ some o → o.status ≢ ClaimStatus.taken)
unfolding claim_refused
claim_refused-Keeps username now st = (ground arith, λ o e. ground arith)

balloon_roll-Keeps :
    (st : ConquisterState) (player : Text) (roll : ℕ) → Keeps st (balloon_roll st player roll).1
unfolding balloon_roll
balloon_roll-Keeps st player roll = ground arith

pub balloon_attempt-Keeps :
    (player : Text) (site : Whereabouts) (now : ℤ) (s : Session)
    → Ensures (λ r s'. Keeps s.state s'.state) (balloon_attempt player site now s)
unfolding balloon_attempt random_index
balloon_attempt-Keeps player site now s =
    ground (arith, balloon_roll-Keeps s.state player (s.draws s.drawn % balloon_attempts))

pub claim_sneaks-Keeps :
    (rules : ClaimRules) (username holder : Text) (now : ℤ) (first : Bool) (s : Session)
    → Ensures (λ r s'. Keeps s.state s'.state) (claim_sneaks rules username holder now first s)
unfolding claim_sneaks random_index
claim_sneaks-Keeps rules username holder now first s = ground arith

-- Who held the place before, as far as a claim is concerned.
abbrev pub held_by_somebody : Option Holder → Bool
held_by_somebody none = false
held_by_somebody (some hold) = not (is_empty hold.username)

abbrev pub HeldSince : Text → ℤ → Option Holder → Type 0
HeldSince username now none = ⊥
HeldSince username now (some hold) = (hold.username ≡ username) × (hold.since ≡ now)

-- Whom the claim kicks out is the one who held the place, and he is paid the worth of his hold and what he
-- had put aside, on top of his score.
abbrev pub Pays : Option Holder → ℤ → Counters → ClaimResult → Counters → Type 0
Pays none now scores r scores' = ⊥
Pays (some hold) now scores r scores' =
    (is_empty hold.username ≡ false)
    × (r.previous_key ≡ hold.username)
    × (r.earned ≡ worth hold now +ℤ hold.banked)
    × (scores' ≡ insert hold.username (counter scores hold.username +ℤ r.earned) scores)

-- A claim that is not taken leaves the place and the scores as they were. One that is taken puts the
-- claimer in the place from now on, and pays the one whom he kicked out, and nobody else.
abbrev pub Effect : Text → ℤ → ConquisterState → ClaimResult → ConquisterState → Type 0
Effect username now st r st' =
    (st'.raids ≡ st.raids)
    × (((r.status ≢ ClaimStatus.taken) × (st'.current ≡ st.current) × (st'.scores ≡ st.scores))
        ⊎ ((r.status ≡ ClaimStatus.taken)
            × HeldSince username now st'.current
            × (((held_by_somebody st.current ≡ false) × (st'.scores ≡ st.scores))
                ⊎ Pays st.current now st.scores r st'.scores)))

pub claim_enter_lem :
    (rules : ClaimRules) (user_id : ℤ) (username : Text) (now : ℤ) (outcome : ClaimResult)
    (st : ConquisterState)
    → let (r, st') = claim_enter rules user_id username now outcome st in
      (st'.raids ≡ st.raids)
      × (st'.scores ≡ st.scores)
      × (r.status ≡ outcome.status)
      × (r.previous_key ≡ outcome.previous_key)
      × (r.earned ≡ outcome.earned)
      × HeldSince username now st'.current
unfolding claim_enter
claim_enter_lem rules user_id username now outcome st =
    (ground arith, ground arith, refl, refl, refl, (refl, refl))

pub claim_defended_lem :
    (rules : ClaimRules) (username holder : Text) (now : ℤ) (outcome : ClaimResult)
    (st : ConquisterState)
    → let (r, st') = claim_defended rules username holder now outcome st in
      Keeps st st' × (r.status ≢ ClaimStatus.taken)
unfolding claim_defended
claim_defended_lem rules username holder now outcome st = (ground arith, ground arith)

-- What is paid goes to the holder, on top of what he has.
abbrev pub Paid : ConquisterState → Text → Option (Settlement × ConquisterState) → Type 0
Paid st holder none = Unit
Paid st holder (some (s, st')) =
    (st'.raids ≡ st.raids)
    × (st'.scores ≡ insert holder (counter st.scores holder +ℤ s.earned) st.scores)

Paid-Settles :
    (st : ConquisterState) (hold : Holder) (now : ℤ) (o : Option (Settlement × ConquisterState))
    → Settles st hold now o
    → Paid st hold.username o
Paid-Settles st hold now none h = tt
Paid-Settles st hold now (some (s, st')) (earned, paid, fits, room) =
    (ap ConquisterState.raids paid, ap ConquisterState.scores paid)

pub settle_hold-Paid :
    (st : ConquisterState) (hold : Holder) (now : ℤ) (sky : Sky)
    → Paid st hold.username (settle_hold st hold now sky)
settle_hold-Paid st hold now sky =
    Paid-Settles st hold now (settle_hold st hold now sky) (settle_hold_pays st hold now sky)

pub fresh_balloon-Keeps :
    (outcome : ClaimResult) (holder : Text) (st : ConquisterState)
    → Keeps st (fresh_balloon outcome holder st)
unfolding fresh_balloon
fresh_balloon-Keeps outcome holder st = ground arith

abbrev pub Kicked :
    ClaimResult → Holder → ℤ → ConquisterState → Option (ClaimResult × ConquisterState) → Type 0
Kicked outcome hold now st none = Unit
Kicked outcome hold now st (some (r, st')) =
    (st'.raids ≡ st.raids)
    × (r.status ≡ outcome.status)
    × (r.previous_key ≡ hold.username)
    × (r.earned ≡ worth hold now +ℤ hold.banked)
    × (st'.scores ≡ insert hold.username (counter st.scores hold.username +ℤ r.earned) st.scores)

pub claim_kick-Kicked :
    (rules : ClaimRules) (hold : Holder) (now : ℤ) (outcome : ClaimResult) (st : ConquisterState)
    → Kicked outcome hold now st (claim_kick rules hold now outcome st)
unfolding claim_kick
claim_kick-Kicked rules hold now outcome st =
    go (settle_hold freed hold now rules.signs) (settle_hold_pays freed hold now rules.signs)
  where
    freed : ConquisterState
    freed = fresh_balloon outcome hold.username st

    same : Keeps st freed
    same = fresh_balloon-Keeps outcome hold.username st

    go :
        (o : Option (Settlement × ConquisterState))
        → Settles freed hold now o
        → Kicked outcome hold now st (elim o [
          | none ↦ none
          | some (settled, state'') ↦ some (
            record outcome {
              previous_username = display_name freed hold.username;
              previous_key = hold.username;
              earned = settled.earned;
              lightning = settled.lightning;
              zodiac_percent = settled.zodiac_percent;
            },
            state'',
          )
        ])
    go none h = tt
    go (some (s, st')) (earned, paid, fits, room) = (
      ap ConquisterState.raids paid ∙ same.2,
      refl,
      refl,
      earned,
      ap ConquisterState.scores paid
          ∙ ap (λ (m : Counters). insert hold.username (counter m hold.username +ℤ s.earned) m)
              same.1,
    )
