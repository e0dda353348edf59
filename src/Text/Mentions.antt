-- ===== src/Text/Mentions.antt =====
-- `strip_mentions` and `utf8_prefix_bytes` of src/text.cpp.
use norelecbot.Base.{
  Bool, [], bit_and, drop, false, if◌then◌else◌, ltb, not, suc, true, zero, ℕ, ◌&&◌, ◌+◌, ◌-◌, ◌==◌,
  ◌||◌, ◌∷◌,
}
use norelecbot.Text.{Text, is_empty, is_name_character}

-- The length of the run of @ at the head.
unfoldable pub at_run : Text → ℕ
at_run [] = 0
at_run (c ∷ s) = let rest = at_run s in if c == b'@' then suc rest else 0

name_follows : Text → Bool
unfolding is_name_character
name_follows [] = false
name_follows (c ∷ s) = is_name_character c

-- Whether a run of @ that begins here is one before a name, and starts a word.
unfoldable pub mention_here : Bool → Text → Bool
unfolding at_run name_follows
mention_here starts_word s = starts_word && (ltb 0 (at_run s) && name_follows (drop (at_run s) s))

-- The walk: `skip` bytes of a run are still to be left out, and `starts_word` says whether the byte
-- before, in the text as it was, is none of a name.
strip_from : ℕ → Bool → Text → Text
unfolding mention_here is_name_character
strip_from skip starts_word [] = []
strip_from (suc k) starts_word (c ∷ s) = strip_from k (not (is_name_character c)) s
strip_from zero starts_word (c ∷ s) =
    let gone = mention_here starts_word (c ∷ s) in
    let rest = strip_from (if gone then at_run (c ∷ s) - 1 else 0) (not (is_name_character c)) s in
    if gone then rest else c ∷ rest

unfoldable pub strip_mentions : Text → Text
unfolding strip_from
strip_mentions s = strip_from 0 true s

-- Whether every byte from the second to the width is there and continues the sequence.
continues : ℕ → Text → Bool
continues zero s = true
continues (suc n) [] = false
continues (suc n) (c ∷ s) = not (ltb c 0x80 || ltb 0xBF c) && continues n s

unfoldable pub sequence_width : Text → ℕ
unfolding continues
sequence_width [] = 1
sequence_width (lead ∷ s) =
    let width =
      if bit_and lead 0xE0 == 0xC0
      then 2
      else if bit_and lead 0xF0 == 0xE0
      then 3
      else if bit_and lead 0xF8 == 0xF0
      then 4
      else 1 in
    if continues (width - 1) s then width else 1

-- The bytes of at most so many code points.
unfoldable pub utf8_prefix_bytes : Text → ℕ → ℕ
unfolding sequence_width
utf8_prefix_bytes s zero = 0
utf8_prefix_bytes s (suc n) =
    let width = sequence_width s in
    let rest = utf8_prefix_bytes (drop width s) n in if is_empty s then 0 else width + rest
