-- ===== src/Invites/Once.antt =====
-- About `invite_due`.
use norelecbot.Base.{Bool, arith, false, none, some, ◌≡◌, ◌≢◌}
use norelecbot.Base.Int.{pos, ◌+ℤ◌, ◌≤ℤ◌}
use norelecbot.Invites.{invite_days_needed, invite_due, pay_invite}
use norelecbot.State.{ConquisterState}
use norelecbot.Table.{contains, counter, counter-insert, lookup, lookup-insert_self}
use norelecbot.Text.{Text, text_eq_iff, text_eq_refl}

-- An invite that was never settled, by another player who is not the same person, with days enough
-- played, pays the inviter and the newcomer what was promised, and a later call neither pays nor
-- changes anything.
pub invite_due_pays :
    (newcomer by : Text) (same later : Text → Text → Bool) (state : ConquisterState)
    → lookup newcomer state.invited_by ≡ some by
    → by ≢ newcomer
    → same newcomer by ≡ false
    → contains newcomer state.invite_paid ≡ false
    → invite_days_needed ≤ℤ counter state.invite_days newcomer
    → let (reward, state') = invite_due newcomer same state in
      (reward ≢ none)
      × (counter state'.scores by ≡ counter state.scores by +ℤ pos 1000)
      × (counter state'.scores newcomer ≡ counter state.scores newcomer +ℤ pos 500)
      × (invite_due newcomer later state' ≡ (none, state'))
unfolding invite_due pay_invite
invite_due_pays newcomer by same later state e ne apart unpaid days = grind (
  arith,
  lookup-insert_self,
  counter-insert,
  text_eq_refl,
  text_eq_iff by newcomer,
  text_eq_iff newcomer by,
)
