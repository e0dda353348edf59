-- ===== src/Balloon/Attempts.antt =====
-- About the roll of an attempt on a balloon.
use norelecbot.Balloon.{balloon_attempts, balloon_roll, held, popped}
use norelecbot.Base.{ℕ, ◌<◌, ◌≡◌, ◌⊎◌}
use norelecbot.Base.Int.{int_laws, pos, ◌+ℤ◌, ◌<ℤ◌, ◌≤ℤ◌}
use norelecbot.State.{ConquisterState}
use norelecbot.Table.{counter, counter-insert_self, erase}
use norelecbot.Text.{Text}

abbrev pub IsWorn : ConquisterState → Text → Type 0
IsWorn state player =
    (pos 0 ≤ℤ counter state.balloons player) × (counter state.balloons player ≤ℤ pos 3)

-- A balloon that was attempted three times at most pops when the roll, one of four, is no more than
-- that, and is as new; else it holds, worn once more, three times at most.
pub roll_pops :
    (state : ConquisterState) (player : Text) (roll : ℕ)
    → IsWorn state player
    → roll < balloon_attempts
    → let (r, state') = balloon_roll state player roll in
      ((r ≡ popped)
        × (pos roll ≤ℤ counter state.balloons player)
        × (state'.balloons ≡ erase player state.balloons))
      ⊎ ((r ≡ held)
          × (counter state.balloons player <ℤ pos roll)
          × IsWorn state' player
          × (counter state'.balloons player ≡ counter state.balloons player +ℤ pos 1))
unfolding balloon_roll
roll_pops state player roll w h = grind (int_laws, counter-insert_self)
