-- ===== src/Text.antt =====
-- Text as the bytes of a `std::string`, and the character helpers of src/text.cpp: the C locale's
-- `isspace`, `isalnum`, `tolower` and `toupper`, case-blind comparison, trimming and search.
pub mod Emoji
pub mod Mentions
pub mod Number
use Prim.Native.Char.{code}
use norelecbot.Base.{
  Bool, List, Option, String, [], arith, false, if◌then◌else◌, leb, ltb, map, none, refl, reverse,
  some, subst, suc, true, ℕ, ◌%◌, ◌&&◌, ◌++◌, ◌+◌, ◌-◌, ◌/◌, ◌==◌, ◌||◌, ◌↔◌, ◌∷◌, ◌≡◌,
}

abbrev pub Text : Type 0
Text = List ℕ

-- The UTF-8 bytes of one code point, and of a string literal of the source.
utf8_char : ℕ → Text
utf8_char c =
    if ltb c 0x80
    then c ∷ []
    else if ltb c 0x800
    then (0xC0 + c / 64) ∷ (0x80 + c % 64) ∷ []
    else if ltb c 0x10000
    then (0xE0 + c / 4096) ∷ (0x80 + c / 64 % 64) ∷ (0x80 + c % 64) ∷ []
    else (0xF0 + c / 262144) ∷ (0x80 + c / 4096 % 64) ∷ (0x80 + c / 64 % 64) ∷ (0x80 + c % 64) ∷ []

unfoldable pub utf8 : String → Text
unfolding utf8_char
utf8 String.[] = []
utf8 (String.◌∷◌ c s) = utf8_char (code c) ++ utf8 s

-- `==` on `std::string`.
unfoldable pub text_eq : Text → Text → Bool
text_eq [] [] = true
text_eq [] (y ∷ ys) = false
text_eq (x ∷ xs) [] = false
text_eq (x ∷ xs) (y ∷ ys) = x == y && text_eq xs ys

-- `empty()`
abbrev pub is_empty {ℓ} : {A : Type ℓ} → List A → Bool
is_empty [] = true
is_empty (x ∷ xs) = false

abbrev pub between : ℕ → ℕ → ℕ → Bool
between lo c hi = leb lo c && leb c hi

-- `std::isspace`: the blank and the five control characters from tab to carriage return.
unfoldable pub is_space : ℕ → Bool
is_space c = c == 32 || between 9 c 13

is_alnum : ℕ → Bool
is_alnum c = between b'0' c b'9' || (between b'A' c b'Z' || between b'a' c b'z')

unfoldable pub is_name_character : ℕ → Bool
unfolding is_alnum
is_name_character c = is_alnum c || c == b'_'

unfoldable pub to_lower : ℕ → ℕ
to_lower c = if between b'A' c b'Z' then c + 32 else c

unfoldable pub to_upper : ℕ → ℕ
to_upper c = if between b'a' c b'z' then c - 32 else c

unfoldable pub equals_ignore_case : Text → Text → Bool
unfolding to_lower
equals_ignore_case [] [] = true
equals_ignore_case [] (y ∷ ys) = false
equals_ignore_case (x ∷ xs) [] = false
equals_ignore_case (x ∷ xs) (y ∷ ys) = to_lower x == to_lower y && equals_ignore_case xs ys

-- The two loops of `trim`: characters off the front, then off the back.
unfoldable pub trim_front : Text → Text
unfolding is_space
trim_front [] = []
trim_front (c ∷ s) = let rest = trim_front s in if is_space c then rest else c ∷ s

unfoldable pub trim_back : Text → Text
unfolding trim_front
trim_back s = reverse (trim_front (reverse s))

unfoldable pub trim : Text → Text
unfolding trim_back trim_front
trim s = trim_back (trim_front s)

-- `starts_with` and `find` of `std::string_view`.
unfoldable pub starts_with : Text → Text → Bool
starts_with s [] = true
starts_with [] (p ∷ ps) = false
starts_with (c ∷ s) (p ∷ ps) = c == p && starts_with s ps

unfoldable pub find : Text → Text → Option ℕ
unfolding starts_with
find [] piece = if starts_with [] piece then some 0 else none
find (c ∷ s) piece =
    let rest = find s piece in
    if starts_with (c ∷ s) piece then some 0 else elim rest [ none ↦ none | some i ↦ some (suc i) ]

-- `lower_name`, `irc::to_lower`: every character in lower case.
unfoldable pub lower_name : Text → Text
unfolding to_lower
lower_name s = map to_lower s

-- A search that starts over at each position, as `std::ranges::search` does.
starts_ignore_case : Text → Text → Bool
unfolding to_lower
starts_ignore_case s [] = true
starts_ignore_case [] (p ∷ ps) = false
starts_ignore_case (c ∷ s) (p ∷ ps) = to_lower c == to_lower p && starts_ignore_case s ps

search_ignore_case : Text → Text → Bool
unfolding starts_ignore_case
search_ignore_case [] piece = starts_ignore_case [] piece
search_ignore_case (c ∷ s) piece = starts_ignore_case (c ∷ s) piece || search_ignore_case s piece

unfoldable pub contains_ignore_case : Text → Text → Bool
unfolding search_ignore_case
contains_ignore_case s piece = if is_empty piece then false else search_ignore_case s piece

-- Equality of texts decides identity.
pub text_eq_refl : (a : Text) → text_eq a a ≡ true
unfolding text_eq
text_eq_refl [] = refl
text_eq_refl (x ∷ a) = ground (arith, text_eq_refl a)

pub text_eq_sound : (a b : Text) → text_eq a b ≡ true → a ≡ b
unfolding text_eq
text_eq_sound [] [] h = refl
text_eq_sound [] (y ∷ b) h = cc
text_eq_sound (x ∷ a) [] h = cc
text_eq_sound (x ∷ a) (y ∷ b) h = ground (arith, text_eq_sound a b)

pub text_eq_iff : (a b : Text) → (text_eq a b ≡ true) ↔ (a ≡ b)
text_eq_iff a b = (text_eq_sound a b, λ e. subst (λ c. text_eq a c ≡ true) e (text_eq_refl a))
