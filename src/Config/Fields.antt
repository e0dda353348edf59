-- ===== src/Config/Fields.antt =====
-- The setters of src/config.cpp: a number between its bounds, a list of names or of numbers, a switch.
use norelecbot.Base.{
  Bool, List, Option, [], drop, find_index, if◌then◌else◌, is_some, length, none, not, some, suc,
  take, zero, ℕ, ◌&&◌, ◌==◌, ◌||◌, ◌∷◌,
}
use norelecbot.Base.Int.{ltb_ℤ, ℤ}
use norelecbot.SortedMap.{put}
use norelecbot.Text.{Text, equals_ignore_case, is_empty, text_eq, trim, utf8}
use norelecbot.Text.Number.{parse_int64}
use norelecbot.Zodiac.{Override, sign_named}

-- The fallback when nothing is given, and nothing when it is no number or out of bounds.
unfoldable pub set_number {ℓ} : {A : Type ℓ} → (ℤ → A) → Text → ℤ → ℤ → ℤ → Option A
unfolding parse_int64
set_number put value fallback minimum maximum =
    elim (if is_empty value then some fallback else parse_int64 value) [
      | none ↦ none
      | some n ↦ if ltb_ℤ n minimum || ltb_ℤ maximum n then none else some (put n)
    ]

is_separator : ℕ → Bool
is_separator c = c == b',' || (c == 32 || c == 9)

-- The names between commas, blanks and tabs, without the empty ones. Every round takes a byte at least,
-- so the length of the text is fuel enough.
unfoldable pub split_names_from : ℕ → Text → List Text
unfolding trim is_separator
split_names_from zero value = []
split_names_from (suc fuel) value =
    let end = find_index is_separator value in
    let name = trim (take end value) in
    let rest = split_names_from fuel (drop (suc end) value) in
    if is_empty value then [] else if is_empty name then rest else name ∷ rest

unfoldable pub split_names : Text → List Text
unfolding split_names_from
split_names value = split_names_from (suc (length value)) value

unfoldable pub parse_ids : List Text → Option (List ℤ)
unfolding parse_int64
parse_ids [] = some []
parse_ids (name ∷ names) =
    let rest = parse_ids names in
    elim (parse_int64 name) [
      | none ↦ none
      | some id ↦ elim rest [ none ↦ none | some ids ↦ some (id ∷ ids) ]
    ]

unfoldable pub set_ids {ℓ} : {A : Type ℓ} → (List ℤ → A) → Text → Option A
unfolding parse_ids split_names
set_ids put value = elim (parse_ids (split_names value)) [ none ↦ none | some ids ↦ some (put ids) ]

-- `set_text`
unfoldable pub text_or : Text → Text → Text
text_or value fallback = if is_empty value then fallback else value

-- `value != "0" && !equals_ignore_case(value, "false")`
unfoldable pub is_on : Text → Bool
unfolding utf8 equals_ignore_case
is_on value = not (text_eq value (utf8 "0")) && not (equals_ignore_case value (utf8 "false"))

is_equals : ℕ → Bool
is_equals c = c == b'='

-- "name=sign" pairs; one that is not, or names no sign, refuses them all.
unfoldable pub parse_signs : List Text → Option (List Override)
unfolding is_equals sign_named
parse_signs [] = some []
parse_signs (pair ∷ pairs) =
    let rest = parse_signs pairs in
    let equals = find_index is_equals pair in
    let name = take equals pair in
    let sign = drop (suc equals) pair in
    if equals == length pair || (is_empty name || not (is_some (sign_named sign)))
    then none
    else elim rest [
      | none ↦ none
      | some chosen ↦ some (record { username = name; sign = sign } ∷ chosen)
    ]

unfoldable pub set_signs {ℓ} : {A : Type ℓ} → (List Override → A) → Text → Option A
unfolding parse_signs split_names
set_signs put value = elim (parse_signs (split_names value)) [
  | none ↦ none
  | some chosen ↦ some (put chosen)
]
