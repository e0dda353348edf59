-- ===== src/Irc/Lines.antt =====
-- The lines that a long text is cut into.
use norelecbot.Base.{
  All, All-append, Bool-cases, List, [], ap, arith, drop, inl, inr, leb, length, length-append,
  length-take, max, min, reverse, reverse_aux, some, suc, zero, ℕ, ◌++◌, ◌+◌, ◌<◌, ◌==◌, ◌∙◌, ◌∷◌,
  ◌≡◌, ◌≤◌,
}
use norelecbot.Irc.{
  add_piece, add_pieces, back_off, boundary_before, cut_piece, last_space, line_separator, next_cut,
  split_lines, split_text, strip_returns,
}
use norelecbot.Text.{Text, is_empty}

back_off_le : (s : Text) (n : ℕ) → back_off s n ≤ n
unfolding back_off
back_off_le s zero = omega arith
back_off_le s (suc n) = ground (arith, back_off_le s n)

pub boundary_before_le :
    (s : Text) (n : ℕ) → (boundary_before s n ≤ n) × (boundary_before s n ≤ length s)
unfolding boundary_before
boundary_before_le s n = omega (arith, back_off_le s (min n (length s)))

pub last_space_le : (s : Text) (n i : ℕ) → last_space s n ≡ some i → i ≤ n
unfolding last_space
last_space_le s zero i e = ground arith
last_space_le s (suc n) i e = ground (arith, last_space_le s n i)

next_cut_le : (piece : Text) (max_bytes : ℕ) → (next_cut piece max_bytes).0 ≤ max_bytes
unfolding next_cut
next_cut_le piece max_bytes = grind (
  arith,
  boundary_before_le piece max_bytes,
  last_space_le piece (boundary_before piece max_bytes),
)

-- A line that may be sent: not empty, and no longer than the limit.
abbrev pub IsLine : ℕ → Text → Type 0
IsLine limit l = (0 < length l) × (length l ≤ limit)

cut_piece-IsLine : (fuel limit : ℕ) (piece : Text) → All (IsLine limit) (cut_piece fuel limit piece)
unfolding cut_piece
cut_piece-IsLine zero limit piece = tt
cut_piece-IsLine (suc fuel) limit [] = tt
cut_piece-IsLine (suc fuel) limit (c ∷ s) =
    let cut = (next_cut (c ∷ s) limit).0 in
    let short = next_cut_le (c ∷ s) limit in
    elim (Bool-cases (cut == 0)) [
      | inl none_fits ↦ rw none_fits tt
      | inr fits ↦ rw fits (
        ground (arith, length-take cut (c ∷ s)),
        cut_piece-IsLine fuel limit (drop (cut + (next_cut (c ∷ s) limit).1) (c ∷ s)),
      )
    ]

All-reverse_aux :
    (P : Text → Type 0) (a b : List Text) → All P a → All P b → All P (reverse_aux a b)
All-reverse_aux P [] b h k = k
All-reverse_aux P (x ∷ a) b (h, hs) k = All-reverse_aux P a (x ∷ b) hs (h, k)

All-reverse : (P : Text → Type 0) (a : List Text) → All P a → All P (reverse a)
All-reverse P a h = All-reverse_aux P a [] h tt

add_piece-IsLine :
    (limit : ℕ) (piece : Text) (lines : List Text)
    → All (IsLine limit) lines
    → All (IsLine limit) (add_piece limit piece lines)
unfolding add_piece
add_piece-IsLine limit piece [] h =
    All-reverse (IsLine limit) (cut_piece (suc (length piece)) limit piece)
      (cut_piece-IsLine (suc (length piece)) limit piece)
add_piece-IsLine limit piece (last ∷ lines) (h, hs) =
    let cut = cut_piece (suc (length piece)) limit piece in
    let joined = last ++ line_separator ++ piece in
    let both : length joined ≡ length last + length line_separator + length piece =
      length-append (last ++ line_separator) piece
      ∙ ap (λ n. n + length piece) (length-append last line_separator) in
    elim (Bool-cases (leb (length last + length line_separator + length piece) limit)) [
      | inl fits ↦ rw fits (ground arith, hs)
      | inr long ↦ rw long (
          All-append (IsLine limit) (reverse cut) (last ∷ lines)
            (All-reverse (IsLine limit) cut (cut_piece-IsLine (suc (length piece)) limit piece))
            (h, hs))
    ]

add_pieces-IsLine :
    (limit : ℕ) (pieces lines : List Text)
    → All (IsLine limit) lines
    → All (IsLine limit) (add_pieces limit pieces lines)
unfolding add_pieces
add_pieces-IsLine limit [] lines h = h
add_pieces-IsLine limit (p ∷ pieces) lines h = elim (Bool-cases (is_empty (strip_returns p))) [
  | inl nothing ↦ rw nothing (add_pieces-IsLine limit pieces lines h)
  | inr there ↦ rw there (
      add_pieces-IsLine limit pieces (add_piece limit (strip_returns p) lines)
        (add_piece-IsLine limit (strip_returns p) lines h))
]

-- No line of a text that was cut up is empty, and none is longer than the limit, or than one byte
-- when the limit is none.
pub split_text-IsLine :
    (text : Text) (max_bytes : ℕ) → All (IsLine (max max_bytes 1)) (split_text text max_bytes)
unfolding split_text
split_text-IsLine text max_bytes =
    All-reverse (IsLine (max max_bytes 1)) (add_pieces (max max_bytes 1) (split_lines [] text) [])
      (add_pieces-IsLine (max max_bytes 1) (split_lines [] text) [] tt)
