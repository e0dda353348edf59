-- ===== src/Claim/Needs.antt =====
-- What a claim that is taken needed.
use norelecbot.Base.{Option, arith, false, inl, inr, none, refl, some, ◌≡◌, ◌≢◌, ◌⊎◌}
use norelecbot.Base.Int.{max_ℤ, pos, ℤ, ◌≤ℤ◌}
use norelecbot.Claim.{
  claim_admitted, claim_place, claim_refused, claim_transaction, conquister_claim,
}
use norelecbot.Claim.Effect.{claim_refused-Keeps}
use norelecbot.Claim.Result.{ClaimResult, ClaimRules, ClaimStatus}
use norelecbot.Identity.{remember_irc, remember_platform, remember_telegram}
use norelecbot.Place.{frozen_for, holds_place, raid_of, whereabouts}
use norelecbot.Session.{Session, notify, pure, told_claim, ◌>>◌}
use norelecbot.Session.Ensures.{Ensures, Ensures-always, Ensures-bind}
use norelecbot.State.{ConquisterState}
use norelecbot.Table.{lookup}
use norelecbot.Text.{Text}

abbrev pub HasCooled : ℤ → Option ℤ → Type 0
HasCooled now none = Unit
HasCooled now (some until) = until ≤ℤ now

-- He is not on the road, not inside, not frozen, and no penalty of his is running.
abbrev pub MayClaim : Text → ℤ → ConquisterState → Type 0
MayClaim username now st =
    (raid_of st username ≡ none)
    × (holds_place st.current username ≡ false)
    × (frozen_for st username now ≡ pos 0)
    × HasCooled now (lookup username st.cooldowns)

claim_refused-MayClaim :
    (username : Text) (now : ℤ) (st : ConquisterState)
    → (claim_refused username now st).0 ≡ none
    → MayClaim username now st
unfolding claim_refused whereabouts frozen_for max_ℤ
claim_refused-MayClaim username now st e = ground arith

MayClaim-remember :
    (st : ConquisterState) (user user' : Text) (user_id now : ℤ)
    → MayClaim user' now (remember_platform st user user_id)
    → MayClaim user' now st
unfolding remember_platform remember_irc remember_telegram raid_of frozen_for
MayClaim-remember st user user' user_id now h = ground arith

admitted_needs :
    (rules : ClaimRules) (user_id : ℤ) (username : Text) (now : ℤ) (st : ConquisterState)
    (refused : Option ClaimResult) (s : Session)
    → ((o : ClaimResult) → refused ≡ some o → o.status ≢ ClaimStatus.taken)
    → (refused ≡ none → MayClaim username now st)
    → Ensures
        (λ r s'. (r.status ≢ ClaimStatus.taken) ⊎ MayClaim username now st)
        (claim_admitted rules user_id username now refused s)
unfolding claim_admitted
admitted_needs rules user_id username now st (some o) s n m = inl (n o refl)
admitted_needs rules user_id username now st none s n m =
    Ensures-always (λ r s'. (r.status ≢ ClaimStatus.taken) ⊎ MayClaim username now st)
      (claim_place rules user_id username now s.state.current s) λ r s'. inr (m refl)

-- When a claim ends, the place is taken only by somebody who is on no road, not inside, not frozen and not held back by
-- a penalty.
pub conquister_claim_needs :
    (rules : ClaimRules) (user_id : ℤ) (username : Text) (now : ℤ) (s : Session)
    → Ensures
        (λ r s'. (r.status ≢ ClaimStatus.taken) ⊎ MayClaim username now s.state)
        (conquister_claim rules user_id username now s)
unfolding conquister_claim claim_transaction notify
conquister_claim_needs rules user_id username now s =
    let known = remember_platform s.state username user_id in
    let P : ClaimResult → Session → Type 0 =
      λ r s'. (r.status ≢ ClaimStatus.taken) ⊎ MayClaim username now s.state in
    Ensures-bind P P (claim_transaction rules user_id username now)
      (λ outcome. notify (told_claim username now) >> pure outcome) s
      (admitted_needs rules user_id username now s.state (claim_refused username now known).0
        (record s { state = (claim_refused username now known).1 })
        (claim_refused-Keeps username now known).1
        λ free.
          MayClaim-remember s.state username username user_id now
            (claim_refused-MayClaim username now known free))
      λ r s' h. h
