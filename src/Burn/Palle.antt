-- ===== src/Burn/Palle.antt =====
-- Palle that are burned.
use norelecbot.Base.{false, ◌≡◌, ◌≢◌, ◌⊎◌}
use norelecbot.Base.Int.{int_laws, pos, ℤ, ◌+ℤ◌, ◌<ℤ◌, ◌≤ℤ◌}
use norelecbot.Burn.{BurnStatus, palle_burn}
use norelecbot.Place.{on_the_road}
use norelecbot.State.{ConquisterState}
use norelecbot.Table.{counter, counter-insert_self}
use norelecbot.Text.{Text}

-- Palle are burned only off the road, more than none of them and no more than he has: his score goes
-- down by so many, not below zero, and is told. Otherwise nothing changes, and the score is told.
pub palle_burn_cases :
    (player : Text) (amount : ℤ) (state : ConquisterState)
    → let (r, state') = palle_burn player amount state in
      ((r.status ≡ BurnStatus.burned)
        × (pos 0 <ℤ amount)
        × (on_the_road state player ≡ false)
        × (counter state'.scores player +ℤ amount ≡ counter state.scores player)
        × (pos 0 ≤ℤ counter state'.scores player)
        × (r.score ≡ counter state'.scores player))
      ⊎ ((r.status ≢ BurnStatus.burned)
          × (state' ≡ state)
          × (r.score ≡ counter state.scores player))
unfolding palle_burn
palle_burn_cases player amount state = grind (int_laws, counter-insert_self)
