-- ===== src/Text/Emoji.antt =====
-- `letter_at`, `emoji_split` and `emoji_count` of src/text.cpp. The walk over the bytes is structural:
-- `skip` counts the bytes of the current letter that are still to be passed.
pub mod Pieces
use norelecbot.Base.{
  Bool, List, Option, [], bit_and, drop, false, if◌then◌else◌, length, ltb, none, not, some, suc,
  take, true, zero, ℕ, ◌%◌, ◌&&◌, ◌*◌, ◌+◌, ◌-◌, ◌==◌, ◌||◌, ◌∷◌,
}
use norelecbot.Text.{Text, between, is_empty, trim}

-- How many bytes a letter takes by its first one, and what that byte adds to the code point.
lead_width : ℕ → ℕ × ℕ
lead_width lead =
    if bit_and lead 0xE0 == 0xC0
    then (2, bit_and lead 0x1F)
    else if bit_and lead 0xF0 == 0xE0
    then (3, bit_and lead 0x0F)
    else if bit_and lead 0xF8 == 0xF0
    then (4, bit_and lead 0x07)
    else (1, lead)

abbrev pub Letter : Type 0
Letter = ℕ × ℕ

-- The bytes behind the first: one that is missing or no continuation leaves the first alone.
letter_tail : ℕ → ℕ → ℕ → Text → ℕ → Letter
letter_tail lead width zero s c = (c, width)
letter_tail lead width (suc n) [] c = (lead, 1)
letter_tail lead width (suc n) (b ∷ s) c =
    let rest = letter_tail lead width n s (c * 64 + b % 64) in
    if ltb b 0x80 || ltb 0xBF b then (lead, 1) else rest

-- The code point at the head of the text and its width. (The source reads it only inside the text.)
unfoldable pub letter_at : Text → Letter
unfolding lead_width letter_tail
letter_at [] = (0, 1)
letter_at (lead ∷ s) = let (width, c) = lead_width lead in letter_tail lead width (width - 1) s c

unfoldable pub sticks_to_the_one_before : ℕ → Bool
sticks_to_the_one_before c =
    c == 0x200D
    || (c == 0xFE0F
        || (c == 0xFE0E
            || (c == 0x20E3 || (between 0x1F3FB c 0x1F3FF || between 0xE0020 c 0xE007F))))

unfoldable pub is_regional : ℕ → Bool
is_regional c = between 0x1F1E6 c 0x1F1FF

keycap_close : Letter → ℕ → Option ℕ
keycap_close (c, w) before = if c == 0x20E3 then some (before + w) else none

-- A digit, a hash or a star with its keycap: the bytes that it takes, the letter included.
keycap_width : Text → ℕ → Option ℕ
unfolding letter_at keycap_close
keycap_width rest width =
    if is_empty rest
    then none
    else let (c, w) = letter_at rest in
      if c == 0xFE0F
      then (let rest' = drop w rest in
          if is_empty rest' then none else keycap_close (letter_at rest') (width + w))
      else if c == 0x20E3
      then some (width + w)
      else none

-- A pair of regional letters is one flag.
flag_width : Text → ℕ → ℕ → ℕ
unfolding letter_at is_regional
flag_width rest c width =
    if is_regional c && not (is_empty rest)
    then (let (c', w') = letter_at rest in if is_regional c' then width + w' else width)
    else width

-- One round of the loop of `emoji_split`: how many bytes it takes, whether a joiner came last, and
-- whether an emoji begins here. Nothing when there is something that is no ornament.
unfoldable pub split_step : Text → Bool → Option (ℕ × Bool × Bool)
unfolding keycap_width flag_width letter_at sticks_to_the_one_before
split_step s joined =
    let (c, width) = letter_at s in
    let rest = drop width s in
    if ltb c 0x80
    then if between b'0' c b'9' || (c == b'#' || c == b'*')
      then elim (keycap_width rest width) [ none ↦ none | some w ↦ some (w, joined, true) ]
      else none
    else if sticks_to_the_one_before c
    then some (width, c == 0x200D, false)
    else if joined
    then some (width, false, false)
    else some (flag_width rest c width, false, true)

-- The loop: where each emoji begins.
unfoldable pub split_starts : ℕ → ℕ → Bool → Text → Option (List ℕ)
unfolding split_step
split_starts skip at joined [] = some []
split_starts (suc k) at joined (b ∷ s) = split_starts k (suc at) joined s
split_starts zero at joined (b ∷ s) = elim (split_step (b ∷ s) joined) [
  | none ↦ none
  | some (w, joined', begins) ↦ elim (split_starts (w - 1) (suc at) joined' s) [
    | none ↦ none
    | some starts ↦ some (if begins then at ∷ starts else starts)
  ]
]

-- The pieces between one beginning and the next, the last up to the end.
unfoldable pub cut_at : Text → ℕ → List ℕ → List Text
cut_at s start [] = drop start s ∷ []
cut_at s start (next ∷ starts) = take (next - start) (drop start s) ∷ cut_at s next starts

unfoldable pub emoji_split : Text → Option (List Text)
unfolding split_starts cut_at trim
emoji_split t =
    let s = trim t in
    if is_empty s then none else elim (split_starts 0 0 false s) [
      | none ↦ none
      | some [] ↦ none
      | some (first ∷ starts) ↦ some (cut_at s 0 starts)
    ]

unfoldable pub emoji_count : Text → Option ℕ
unfolding emoji_split
emoji_count t = elim (emoji_split t) [ none ↦ none | some pieces ↦ some (length pieces) ]
