-- ===== src/Text/Number.antt =====
-- `parse_int64` of src/text.cpp and `std::to_string`. `std::from_chars` reads an optional minus sign
-- and digits, and fails when the value does not fit 64 bits.
pub mod Printed
use norelecbot.Base.{
  Bool, Option, [], if◌then◌else◌, ltb, none, not, some, suc, zero, ℕ, ◌%◌, ◌&&◌, ◌*◌, ◌+◌, ◌-◌,
  ◌/◌, ◌==◌, ◌∷◌,
}
use norelecbot.Base.Int.{int64_max, leb_ℤ, negsuc, pos, sub_ℕ, ℤ}
use norelecbot.Text.{Text, between, is_empty, starts_with, trim}

unfoldable pub is_digit : ℕ → Bool
is_digit c = between b'0' c b'9'

-- The value of a run of digits, or nothing when another character is met.
unfoldable pub read_digits : ℕ → Text → Option ℕ
unfolding is_digit
read_digits acc [] = some acc
read_digits acc (c ∷ s) =
    let rest = read_digits (acc * 10 + (c - b'0')) s in if is_digit c then rest else none

unfoldable pub in_range : ℤ → Option ℤ
in_range z = if leb_ℤ (negsuc 9223372036854775807) z && leb_ℤ z int64_max then some z else none

-- `from_chars` over the whole text.
unfoldable pub from_chars : Text → Option ℤ
unfolding read_digits in_range
from_chars [] = none
from_chars (c ∷ s) =
    if c == b'-'
    then if is_empty s
      then none
      else elim (read_digits 0 s) [ none ↦ none | some n ↦ in_range (sub_ℕ 0 n) ]
    else elim (read_digits 0 (c ∷ s)) [ none ↦ none | some n ↦ in_range (pos n) ]

unfoldable pub drop_plus : Text → Text
drop_plus [] = []
drop_plus (c ∷ s) = if c == b'+' && not (starts_with s (b'-' ∷ [])) then s else c ∷ s

unfoldable pub parse_int64 : Text → Option ℤ
unfolding from_chars drop_plus trim starts_with
parse_int64 t = from_chars (drop_plus (trim t))

-- `std::to_string`: the digits, the last one first taken off. The fuel is the number itself.
unfoldable pub digits : ℕ → ℕ → Text → Text
digits zero n acc = acc
digits (suc f) n acc =
    let rest = digits f (n / 10) ((b'0' + n % 10) ∷ acc) in
    if ltb n 10 then (b'0' + n) ∷ acc else rest

unfoldable pub to_string : ℤ → Text
unfolding digits
to_string (pos n) = digits (suc n) n []
to_string (negsuc n) = b'-' ∷ digits (suc (suc n)) (suc n) []
