-- ===== src/Text/Emoji/Pieces.antt =====
-- The emojis of a text, put together again.
use norelecbot.Base.{
  All, Bool, Bool-cases, List, Option, [], ap, append-nil, arith, drop, false, if◌then◌else◌, inl,
  inr, length, length-drop, length-take, none, refl, some, suc, sym, take, take-append-drop, true,
  zero, ℕ, ◌++◌, ◌+◌, ◌-◌, ◌<◌, ◌∙◌, ◌∷◌, ◌≡◌, ◌≤◌,
}
use norelecbot.Text.{Text, is_empty, trim}
use norelecbot.Text.Emoji.{cut_at, emoji_split, split_starts, split_step}

abbrev pub concat : List Text → Text
concat [] = []
concat (p ∷ pieces) = p ++ concat pieces

-- Where the emojis begin: each behind the one before, and inside the text.
Ascending : ℕ → ℕ → List ℕ → Type 0
Ascending from end [] = Unit
Ascending from end (a ∷ starts) = (from ≤ a) × (a < end) × Ascending (suc a) end starts

Within : ℕ → ℕ → Option (List ℕ) → Type 0
Within from end none = Unit
Within from end (some starts) = Ascending from end starts

Ascending-weaken :
    (from end : ℕ) (starts : List ℕ) → Ascending (suc from) end starts → Ascending from end starts
unfolding Ascending
Ascending-weaken from end [] h = tt
Ascending-weaken from end (a ∷ starts) (h, k, r) = (omega arith, k, r)

Within-weaken : (from end : ℕ) (o : Option (List ℕ)) → Within (suc from) end o → Within from end o
unfolding Within
Within-weaken from end none h = tt
Within-weaken from end (some starts) h = Ascending-weaken from end starts h

begin-Within :
    (at end : ℕ) (begins : Bool) (o : Option (List ℕ))
    → at < end
    → Within (suc at) end o
    → Within at end
        (elim o [ none ↦ none | some starts ↦ some (if begins then at ∷ starts else starts) ])
unfolding Within Ascending
begin-Within at end begins none k h = tt
begin-Within at end true (some starts) k h = (omega arith, k, h)
begin-Within at end false (some starts) k h = Ascending-weaken at end starts h

step-Within :
    (at end : ℕ) (s : Text) (o : Option (ℕ × Bool × Bool))
    → at < end
    → ((w : ℕ) (joined' : Bool) → Within (suc at) end (split_starts (w - 1) (suc at) joined' s))
    → Within at end (elim o [
      | none ↦ none
      | some (w, joined', begins) ↦ elim (split_starts (w - 1) (suc at) joined' s) [
        | none ↦ none
        | some starts ↦ some (if begins then at ∷ starts else starts)
      ]
    ])
unfolding Within
step-Within at end s none k h = tt
step-Within at end s (some (w, joined', begins)) k h =
    begin-Within at end begins (split_starts (w - 1) (suc at) joined' s) k (h w joined')

split_starts-Within :
    (skip at end : ℕ) (joined : Bool) (s : Text)
    → at + length s ≡ end
    → Within at end (split_starts skip at joined s)
unfolding split_starts Within Ascending
split_starts-Within skip at end joined [] e = tt
split_starts-Within (suc k) at end joined (b ∷ s) e =
    Within-weaken at end (split_starts k (suc at) joined s)
      (split_starts-Within k (suc at) end joined s (omega arith))
split_starts-Within zero at end joined (b ∷ s) e =
    step-Within at end s (split_step (b ∷ s) joined) (omega arith)
      λ w joined'. split_starts-Within (w - 1) (suc at) end joined' s (omega arith)

drop-drop : (m n : ℕ) (s : Text) → drop n (drop m s) ≡ drop (m + n) s
drop-drop zero n s = let same : 0 + n ≡ n = omega arith in rw same refl
drop-drop (suc m) zero [] = let more : suc m + 0 ≡ suc m = omega arith in rw more refl
drop-drop (suc m) (suc n) [] =
    let more : suc m + suc n ≡ suc (m + suc n) = omega arith in rw more refl
drop-drop (suc m) n (c ∷ s) =
    let more : suc m + n ≡ suc (m + n) = omega arith in rw more (drop-drop m n s)

-- Every piece is there, and together they are the text from the start on.
abbrev IsCut : Text → List Text → Type 0
IsCut s pieces = (concat pieces ≡ s) × All (λ p. 0 < length p) pieces

cut_at-IsCut :
    (s : Text) (start : ℕ) (starts : List ℕ)
    → start < length s
    → Ascending (suc start) (length s) starts
    → IsCut (drop start s) (cut_at s start starts)
unfolding cut_at Ascending
cut_at-IsCut s start [] h a = (append-nil (drop start s), (omega (arith, length-drop start s), tt))
cut_at-IsCut s start (next ∷ starts) h (lo, hi, a) =
    let (joined, there) = cut_at-IsCut s next starts hi a in
    let step : start + (next - start) ≡ next = omega arith in
    let rest : drop (next - start) (drop start s) ≡ drop next s =
      drop-drop start (next - start) s ∙ ap (λ n. drop n s) step in
    (
      ap (◌++◌ (take (next - start) (drop start s))) (joined ∙ sym rest)
          ∙ take-append-drop (next - start) (drop start s),
      (omega (arith, length-take (next - start) (drop start s), length-drop start s), there),
    )

Ascending-from :
    (n end : ℕ) (starts : List ℕ) → Ascending (suc n) end starts → Ascending (suc 0) end starts
unfolding Ascending
Ascending-from n end [] h = tt
Ascending-from n end (a ∷ starts) (lo, hi, r) = (omega arith, hi, r)

length_there : (s : Text) → is_empty s ≡ false → 0 < length s
length_there [] e = absurd (ground arith)
length_there (c ∷ s) e = omega arith

-- The pieces of a text: at least one, none empty, and together they are the text.
abbrev pub ArePieces : Text → List Text → Type 0
ArePieces s pieces = (concat pieces ≡ s) × All (λ p. 0 < length p) pieces × (0 < length pieces)

-- Split up, a text is nothing but ornaments and blanks around: its pieces are those of what is left
-- without the blanks.
abbrev pub IsSplit : Text → Option (List Text) → Type 0
IsSplit s none = Unit
IsSplit s (some pieces) = ArePieces (trim s) pieces

length-cut_at : (s : Text) (start : ℕ) (starts : List ℕ) → 0 < length (cut_at s start starts)
unfolding cut_at
length-cut_at s start [] = omega arith
length-cut_at s start (next ∷ starts) = omega arith

starts-IsSplit :
    (s : Text) (o : Option (List ℕ))
    → 0 < length (trim s)
    → Within 0 (length (trim s)) o
    → IsSplit s (elim o [
      | none ↦ none
      | some [] ↦ none
      | some (first ∷ starts) ↦ some (cut_at (trim s) 0 starts)
    ])
unfolding Within Ascending
starts-IsSplit s none k h = tt
starts-IsSplit s (some []) k h = tt
starts-IsSplit s (some (first ∷ starts)) k (lo, hi, a) =
    let (joined, there) =
      cut_at-IsCut (trim s) 0 starts k (Ascending-from first (length (trim s)) starts a) in
    (joined, there, length-cut_at (trim s) 0 starts)

-- A text that is split has at least one piece and none that is empty, and put together they are the
-- text without the blanks around.
pub emoji_split-IsSplit : (s : Text) → IsSplit s (emoji_split s)
unfolding emoji_split
emoji_split-IsSplit s = elim (Bool-cases (is_empty (trim s))) [
  | inl e ↦ rw (e, IsSplit) tt
  | inr e ↦ rw e (
      starts-IsSplit s (split_starts 0 0 false (trim s)) (length_there (trim s) e)
        (split_starts-Within 0 0 (length (trim s)) false (trim s) (omega arith)))
]
