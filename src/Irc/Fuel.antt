-- ===== src/Irc/Fuel.antt =====
-- The loop that reads the parameters of a message, and the fuel of its model.
use norelecbot.Base.{
  Bool, Bool-cases, List, [], any_of, ap, arith, drop, false, inl, inr, length, refl, suc, true,
  zero, ℕ, ◌++◌, ◌<◌, ◌==◌, ◌∷◌, ◌≡◌, ◌≤◌, ◌⊎◌,
}
use norelecbot.Irc.{parse_params, skip_spaces, space, starts_colon, take_until_space}
use norelecbot.Text.{Text, is_empty}

take_until_space_le : (s : Text) → length (take_until_space s).1 ≤ length s
unfolding take_until_space
take_until_space_le [] = omega arith
take_until_space_le (c ∷ s) = ground (arith, take_until_space_le s)

-- Behind the spaces a token takes a byte at least.
token_lt :
    (line : Text)
    → is_empty (skip_spaces line) ≡ false
    → length (take_until_space (skip_spaces line)).1 < length line
unfolding skip_spaces take_until_space
token_lt [] e = absurd (ground arith)
token_lt (c ∷ s) e = elim (Bool-cases (c == space)) [
  | inl blank ↦
      let later : is_empty (skip_spaces s) ≡ false = ground arith in
      rw blank (let h = token_lt s later in omega arith)
  | inr first ↦ rw (first, first) (omega (arith, take_until_space_le s))
]

-- Whether a text begins with a space.
abbrev pub starts_space : Text → Bool
starts_space [] = false
starts_space (c ∷ s) = c == space

-- The loop of `parse` that reads the parameters, without fuel: it ends behind the last one, a text behind
-- a colon is the last one whole, and a token is one of them.
pub data Params : Text → List Text → Type 0 where
  ends : {line : Text} → is_empty (skip_spaces line) ≡ true → Params line []
  trails : {line : Text} (text : Text) → skip_spaces line ≡ b':' ∷ text → Params line (text ∷ [])
  reads :
      {line : Text} {params : List Text} (token rest : Text)
      → skip_spaces line ≡ token ++ rest
      → is_empty token ≡ false
      → starts_colon token ≡ false
      → any_of (λ c. c == space) token ≡ false
      → (is_empty rest ≡ true) ⊎ (starts_space rest ≡ true)
      → Params rest params
      → Params line (token ∷ params)

take_until_space_lem :
    (s : Text)
    → let (token, rest) = take_until_space s in
      (s ≡ token ++ rest)
      × (any_of (λ c. c == space) token ≡ false)
      × ((is_empty rest ≡ true) ⊎ (starts_space rest ≡ true))
unfolding take_until_space any_of
take_until_space_lem [] = (refl, refl, inl refl)
take_until_space_lem (c ∷ s) =
    let (joined, plain, stopped) = take_until_space_lem s in
    elim (Bool-cases (c == space)) [
      | inl blank ↦ rw blank (refl, refl, inr blank)
      | inr letter ↦ rw letter (ap (◌∷◌ c) joined, rw letter plain, stopped)
    ]

starts_space-skip_spaces : (line : Text) → starts_space (skip_spaces line) ≡ false
unfolding skip_spaces
starts_space-skip_spaces [] = refl
starts_space-skip_spaces (c ∷ s) = elim (Bool-cases (c == space)) [
  | inl blank ↦ rw blank (starts_space-skip_spaces s)
  | inr letter ↦ rw letter letter
]

-- What a text that begins with neither a space nor a colon begins with: a token.
token_there :
    (s : Text)
    → is_empty s ≡ false
    → starts_space s ≡ false
    → starts_colon s ≡ false
    → (is_empty (take_until_space s).0 ≡ false) × (starts_colon (take_until_space s).0 ≡ false)
unfolding take_until_space
token_there [] e b c = absurd (ground arith)
token_there (x ∷ s) e b c = rw b (refl, c)

colon_first : (s : Text) → starts_colon s ≡ true → s ≡ b':' ∷ drop 1 s
colon_first [] h = absurd (ground arith)
colon_first (c ∷ s) h = ground arith

-- With more fuel than the line has bytes every parameter is read, in order: each token behind spaces, up to
-- the next space, and at a colon all that is behind it as the last one.
pub parse_params_reads :
    (fuel : ℕ) (line : Text) → length line < fuel → Params line (parse_params fuel line)
unfolding parse_params
parse_params_reads zero line h = elim h [ ]
parse_params_reads (suc fuel) line h =
    let s = skip_spaces line in
    elim (Bool-cases (is_empty s)) [
      | inl e ↦ rw e (Params.ends e)
      | inr e ↦ elim (Bool-cases (starts_colon s)) [
        | inl colon ↦ rw (e, colon) (Params.trails (drop 1 s) (colon_first s colon))
        | inr other ↦
            let (joined, plain, stopped) = take_until_space_lem s in
            let (there, no_colon) = token_there s e (starts_space-skip_spaces line) other in
            let shorter = token_lt line e in
            rw (e, other)
              (Params.reads (take_until_space s).0 (take_until_space s).1 joined there no_colon
                plain stopped (parse_params_reads fuel (take_until_space s).1 (omega arith)))
      ]
    ]
