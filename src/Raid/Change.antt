-- ===== src/Raid/Change.antt =====
-- The ride that a loop of src/game.cpp holds by reference: here the one at an index, which is read
-- again where the source reads through the reference.
use norelecbot.Base.{get_elem?, none, set, some, ℕ}
use norelecbot.State.{ConquisterState, Raid}

-- `raid.field = …` through the reference of the loop.
unfoldable pub change_at : ℕ → (Raid → Raid) → ConquisterState → ConquisterState
change_at i f state = elim (get_elem? state.raids i) [
  | none ↦ state
  | some r ↦ record state { raids = set state.raids i (f r) }
]
