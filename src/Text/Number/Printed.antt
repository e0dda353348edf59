-- ===== src/Text/Number/Printed.antt =====
-- About `parse_int64` of what `std::to_string` writes.
use norelecbot.Base.{
  All, Bool-cases, Option, [], ap, arith, false, inl, inr, length, ltb, ltb→lt, none, refl, reverse,
  reverse-reverse, reverse_aux, some, suc, true, zero, ℕ, ◌%◌, ◌*◌, ◌+◌, ◌-◌, ◌/◌, ◌<◌, ◌==◌, ◌∙◌,
  ◌∷◌, ◌≡◌, ◌≤◌,
}
use norelecbot.Base.Int.{int64_max, negsuc, pos, sub_ℕ, ℤ, ◌≤ℤ◌}
use norelecbot.Text.{Text, is_space, trim, trim_back, trim_front}
use norelecbot.Text.Number.{
  digits, drop_plus, from_chars, in_range, is_digit, parse_int64, read_digits, to_string,
}

digits_small : (f n : ℕ) (acc : Text) → n < 10 → digits (suc f) n acc ≡ (b'0' + n) ∷ acc
unfolding digits
digits_small f n acc h = ground arith

digits_large :
    (f n : ℕ) (acc : Text)
    → 10 ≤ n
    → digits (suc f) n acc ≡ digits f (n / 10) ((b'0' + n % 10) ∷ acc)
unfolding digits
digits_large f n acc h = ground arith

read_digit :
    (acc d : ℕ) (s : Text)
    → d < 10
    → read_digits acc ((b'0' + d) ∷ s) ≡ read_digits (acc * 10 + d) s
unfolding read_digits is_digit
read_digit acc d s h = let e : b'0' + d - b'0' ≡ d = omega arith in rw e (ground arith)

-- Reading goes on behind the digits that were written.
pub read_digits-digits :
    (f n : ℕ) (s : Text) → n < f → read_digits 0 (digits f n s) ≡ read_digits n s
read_digits-digits zero n s h = elim h [ ]
read_digits-digits (suc f) n s h = elim (Bool-cases (ltb n 10)) [
  | inl small ↦
      let from_zero : 0 * 10 + n ≡ n = omega arith in
      rw (digits_small f n s (ltb→lt n 10 small))
        (read_digit 0 n s (ltb→lt n 10 small) ∙ ap (λ m. read_digits m s) from_zero)
  | inr large ↦
      let whole : n / 10 * 10 + n % 10 ≡ n = omega arith in
      rw (digits_large f n s (ground arith)) (
        read_digits-digits f (n / 10) ((b'0' + n % 10) ∷ s) (ground arith)
        ∙ read_digit (n / 10) (n % 10) s (omega arith)
        ∙ ap (λ m. read_digits m s) whole)
]

digit : (d : ℕ) → d < 10 → is_digit (b'0' + d) ≡ true
unfolding is_digit
digit d h = ground arith

abbrev pub AreDigits : Text → Type 0
AreDigits = All (λ c. is_digit c ≡ true)

pub digits-AreDigits : (f n : ℕ) (s : Text) → AreDigits s → AreDigits (digits f n s)
unfolding digits
digits-AreDigits zero n s h = h
digits-AreDigits (suc f) n s h = elim (Bool-cases (ltb n 10)) [
  | inl small ↦ rw (digits_small f n s (ltb→lt n 10 small)) (digit n (ltb→lt n 10 small), h)
  | inr large ↦
      rw (digits_large f n s (ground arith))
        (digits-AreDigits f (n / 10) ((b'0' + n % 10) ∷ s) (digit (n % 10) (omega arith), h))
]

pub length-digits : (f n : ℕ) (s : Text) → n < f → 0 < length (digits f n s)
length-digits zero n s h = elim h [ ]
length-digits (suc f) n s h = elim (Bool-cases (ltb n 10)) [
  | inl small ↦ rw (digits_small f n s (ltb→lt n 10 small)) (omega arith)
  | inr large ↦
      rw (digits_large f n s (ground arith))
        (length-digits f (n / 10) ((b'0' + n % 10) ∷ s) (ground arith))
]

-- What has no blank is not trimmed.
abbrev pub NoBlank : Text → Type 0
NoBlank = All (λ c. is_space c ≡ false)

pub NoBlank-digits : (s : Text) → AreDigits s → NoBlank s
unfolding is_space is_digit
NoBlank-digits [] h = tt
NoBlank-digits (c ∷ s) (d, h) = (ground arith, NoBlank-digits s h)

NoBlank-reverse_aux : (a b : Text) → NoBlank a → NoBlank b → NoBlank (reverse_aux a b)
NoBlank-reverse_aux [] b h k = k
NoBlank-reverse_aux (x ∷ a) b (h, hs) k = NoBlank-reverse_aux a (x ∷ b) hs (h, k)

pub trim_front-NoBlank : (s : Text) → NoBlank s → trim_front s ≡ s
unfolding trim_front
trim_front-NoBlank [] h = refl
trim_front-NoBlank (c ∷ s) (b, h) = rw b refl

trim-NoBlank : (s : Text) → NoBlank s → trim s ≡ s
unfolding trim trim_back
trim-NoBlank s h =
    ap trim_back (trim_front-NoBlank s h)
    ∙ ap reverse (trim_front-NoBlank (reverse s) (NoBlank-reverse_aux s [] h tt))
    ∙ reverse-reverse s

minus_blank : is_space b'-' ≡ false
unfolding is_space
minus_blank = refl

read_whole : (ℕ → ℤ) → Text → Option ℤ
read_whole sign t = elim (read_digits 0 t) [ none ↦ none | some n ↦ in_range (sign n) ]

unsigned_read :
    (t : Text) → AreDigits t → 0 < length t → from_chars (drop_plus t) ≡ read_whole pos t
unfolding read_whole from_chars drop_plus is_digit
unsigned_read [] h k = elim k [ ]
unsigned_read (c ∷ t) (d, h) k =
    let plus : (c == b'+') ≡ false = ground arith in
    let minus : (c == b'-') ≡ false = ground arith in rw (plus, minus) refl

signed_read : (t : Text) → 0 < length t → from_chars (drop_plus (b'-' ∷ t)) ≡ read_whole (sub_ℕ 0) t
unfolding read_whole from_chars drop_plus
signed_read [] k = elim k [ ]
signed_read (c ∷ t) k = refl

whole_read : (sign : ℕ → ℤ) (n : ℕ) → read_whole sign (digits (suc n) n []) ≡ in_range (sign n)
unfolding read_whole read_digits
whole_read sign n = rw (read_digits-digits (suc n) n [] (omega arith), read_whole) refl

in_range-some : (z : ℤ) → negsuc 9223372036854775807 ≤ℤ z → z ≤ℤ int64_max → in_range z ≡ some z
unfolding in_range
in_range-some z h k = ground arith

-- Any number of 64 bits reads back as itself when it was printed.
pub parse_int64-to_string :
    (z : ℤ) → negsuc 9223372036854775807 ≤ℤ z → z ≤ℤ int64_max → parse_int64 (to_string z) ≡ some z
unfolding parse_int64 to_string
parse_int64-to_string (pos n) h k =
    let t = digits (suc n) n [] in
    let ds = digits-AreDigits (suc n) n [] tt in
    ap (λ u. from_chars (drop_plus u)) (trim-NoBlank t (NoBlank-digits t ds))
    ∙ unsigned_read t ds (length-digits (suc n) n [] (omega arith))
    ∙ whole_read pos n
    ∙ in_range-some (pos n) h k
parse_int64-to_string (negsuc n) h k =
    let t = digits (suc (suc n)) (suc n) [] in
    let ds = digits-AreDigits (suc (suc n)) (suc n) [] tt in
    let minus : is_space b'-' ≡ false = minus_blank in
    ap (λ u. from_chars (drop_plus u)) (trim-NoBlank (b'-' ∷ t) (minus, NoBlank-digits t ds))
    ∙ signed_read t (length-digits (suc (suc n)) (suc n) [] (omega arith))
    ∙ whole_read (sub_ℕ 0) (suc n)
    ∙ ap in_range negative
    ∙ in_range-some (negsuc n) h k
  where
    negative : sub_ℕ 0 (suc n) ≡ negsuc n
    negative = ground arith
