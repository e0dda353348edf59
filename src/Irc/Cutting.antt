-- ===== src/Irc/Cutting.antt =====
-- The loop that cuts a long piece into lines, and the fuel of its model.
use norelecbot.Base.{List, [], false, length, ℕ, ◌*◌, ◌++◌, ◌∷◌, ◌≡◌, ◌≤◌, ◌⊎◌}
use norelecbot.Irc.{boundary_before, space}
use norelecbot.Text.{Text, is_empty}

-- Where a piece is cut, when its whole sequences of bytes fit up to `most`: there, and nothing is lost, or
-- at a space in the second half before, which is lost.
abbrev pub CutsAt : ℕ → ℕ → Text → Type 0
CutsAt most cut gap =
    ((cut ≡ most) × (gap ≡ [])) ⊎ ((cut ≤ most) × (most ≤ cut * 2) × (gap ≡ space ∷ []))

-- What is cut off a piece, line by line, up to the end of the piece, or to where not even one sequence of
-- bytes fits.
pub data Cuts (max_bytes : ℕ) : Text → List Text → Type 0 where
  ends : Cuts max_bytes [] []
  stops : {piece : Text} → boundary_before piece max_bytes ≡ 0 → Cuts max_bytes piece []
  cuts :
      {piece : Text} {lines : List Text} (line gap rest : Text)
      → piece ≡ line ++ (gap ++ rest)
      → is_empty line ≡ false
      → CutsAt (boundary_before piece max_bytes) (length line) gap
      → Cuts max_bytes rest lines
      → Cuts max_bytes piece (line ∷ lines)
