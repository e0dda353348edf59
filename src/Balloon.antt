-- ===== src/Balloon.antt =====
-- The balloon that guards a place: `balloon_there`, `balloon_attempt` and `balloon_pop_chance` of
-- src/game.cpp.
pub mod Attempts
use norelecbot.Base.{Bool, false, if◌then◌else◌, true, ℕ, ◌&&◌}
use norelecbot.Base.Int.{ltb_ℤ, pos, ℤ, ◌*ℤ◌, ◌+ℤ◌, ◌/ℤ◌}
use norelecbot.Gear.{carried_copies, house_copies}
use norelecbot.Place.{Whereabouts, frozen_for, is_home, same_place, whereabouts}
use norelecbot.Power.{balloon}
use norelecbot.Session.{Game, gets, pure, random_index, update, ◌>>=◌, ◌>>◌}
use norelecbot.State.{ConquisterState}
use norelecbot.Table.{counter, erase, insert}
use norelecbot.Text.{Text}

pub data BalloonRoll : Type 0 where
  none_there held popped : BalloonRoll

abbrev pub balloon_attempts : ℕ
balloon_attempts = 4

unfoldable pub balloon_there : ConquisterState → Text → Whereabouts → ℤ → Bool
balloon_there state player site now =
    if ltb_ℤ (pos 0) (frozen_for state player now)
    then false
    else if is_home site && ltb_ℤ (pos 0) (house_copies state player balloon)
    then true
    else same_place (whereabouts state player) site
      && ltb_ℤ (pos 0) (carried_copies state player balloon)

-- The attempt that this one is, and what the draw makes of it.
unfoldable pub balloon_roll : ConquisterState → Text → ℕ → BalloonRoll × ConquisterState
balloon_roll state player roll =
    let tried = counter state.balloons player +ℤ pos 1 in
    if ltb_ℤ (pos roll) tried
    then (popped, record state { balloons = erase player state.balloons })
    else (held, record state { balloons = insert player tried state.balloons })

balloon_try : Text → Game BalloonRoll
balloon_try player = do
  roll ← random_index balloon_attempts
  update (λ st. balloon_roll st player roll)

unfoldable pub balloon_attempt : Text → Whereabouts → ℤ → Game BalloonRoll
unfolding balloon_try
balloon_attempt player site now = do
  there ← gets (λ st. balloon_there st player site now)
  (if there then balloon_try player else pure none_there)

unfoldable pub balloon_pop_chance : ConquisterState → Text → ℤ
balloon_pop_chance state player =
    (counter state.balloons player +ℤ pos 1) *ℤ pos 100 /ℤ pos balloon_attempts
