-- ===== src/Identity/Fresh.antt =====
-- New identities.
use norelecbot.Base.{
  Bool-cases, any_of, arith, false, inl, inr, refl, suc, zero, ℕ, ◌%◌, ◌<◌, ◌≡◌, ◌⊎◌,
}
use norelecbot.Base.Int.{eqb_ℤ, pos, ℤ}
use norelecbot.Identity.{draw_id, id_count}
use norelecbot.Session.{Outcome, Session, ok, random_index, throws}
use norelecbot.Table.{Counters}

abbrev pub Unused : Counters → ℕ → Type 0
Unused ids n = any_of (λ e. eqb_ℤ e.1 (pos n)) ids ≡ false

-- Within the fuel, one of the draws is that of an identity nobody has.
abbrev pub Lucky : ℕ → Counters → Session → Type 0
Lucky zero ids s = ⊥
Lucky (suc fuel) ids s =
    Unused ids (s.draws s.drawn % id_count) ⊎ Lucky fuel ids (record s { drawn = suc s.drawn })

abbrev pub IsNewId : Counters → Session → Outcome ℤ → Type 0
IsNewId ids s (ok id s') =
    (n : ℕ) × (id ≡ pos n) × (n < id_count) × Unused ids n × (s'.state ≡ s.state)
IsNewId ids s (throws e) = ⊥

-- When one draw within the fuel is of an identity nobody has, the loop ends with such a one, below
-- their number, and the state is as it was.
pub draw_id_new :
    (fuel : ℕ) (ids : Counters) (s : Session)
    → Lucky fuel ids s
    → IsNewId ids s (draw_id fuel ids s)
unfolding draw_id random_index
draw_id_new zero ids s h = elim h [ ]
draw_id_new (suc fuel) ids s h =
    elim (Bool-cases (any_of (λ e. eqb_ℤ e.1 (pos (s.draws s.drawn % id_count))) ids)) [
      | inl taken ↦
          rw (taken, IsNewId)
            (draw_id_new fuel ids (record s { drawn = suc s.drawn }) (ground arith))
      | inr free ↦ rw (free, IsNewId) (s.draws s.drawn % id_count, refl, omega arith, free, refl)
    ]
