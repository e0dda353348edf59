-- ===== src/Storage/Keeping/Lobsters.antt =====
-- The lobsters of a holder, written by slot and read back.
use norelecbot.Base.{
  All, All-append, All-implies, Bool-cases, List, [], ap, append-nil, append_assoc, arith, false,
  inl, inr, length, map, refl, some, suc, sym, ℕ, ◌++◌, ◌<◌, ◌^◌, ◌∙◌, ◌∷◌, ◌≡◌, ◌≤◌,
}
use norelecbot.Base.Int.{pos}
use norelecbot.Storage.Document.{digit_run, put_lobster, stoul, stoul_digits, stoul_signed}
use norelecbot.Storage.Json.{JsonLib}
use norelecbot.Storage.Reading.{add_lobsters, lobsters_in}
use norelecbot.Storage.Sections.{object_of}
use norelecbot.Storage.Written.{lobsters_json}
use norelecbot.Table.{Keyed, Table, contains, lookup}
use norelecbot.Text.{Text, text_eq, text_eq_sound, trim_front}
use norelecbot.Text.Number.{digits, is_digit, read_digits, to_string}
use norelecbot.Text.Number.Printed.{
  AreDigits, NoBlank-digits, digits-AreDigits, length-digits, read_digits-digits,
  trim_front-NoBlank,
}

-- The slots fit the numbers of the machine, and stand in order, the first one above a bound.
abbrev IsAscendingFrom : ℕ → List (ℕ × Text) → Type 0
IsAscendingFrom least [] = Unit
IsAscendingFrom least ((slot, e) ∷ lobsters) =
    (least ≤ slot) × (slot < 2 ^ 64) × IsAscendingFrom (suc slot) lobsters

abbrev pub IsAscending : List (ℕ × Text) → Type 0
IsAscending lobsters = IsAscendingFrom 0 lobsters

digit_run-AreDigits : (s : Text) → AreDigits s → digit_run s ≡ s
unfolding digit_run
digit_run-AreDigits [] h = refl
digit_run-AreDigits (c ∷ s) (d, h) = rw d (ap (◌∷◌ c) (digit_run-AreDigits s h))

read_self : (n : ℕ) → read_digits 0 (digits (suc n) n []) ≡ some n
unfolding read_digits
read_self n = read_digits-digits (suc n) n [] (omega arith)

signed_digits : (s : Text) → AreDigits s → 0 < length s → stoul_signed s ≡ stoul_digits s
unfolding stoul_signed is_digit
signed_digits [] h k = absurd (omega arith)
signed_digits (c ∷ s) (d, h) k = ground arith

stoul_digits_of :
    (t : Text) (n : ℕ)
    → digit_run t ≡ t
    → 0 < length t
    → read_digits 0 t ≡ some n
    → n < 2 ^ 64
    → stoul_digits t ≡ some n
unfolding stoul_digits
stoul_digits_of [] n whole there reads small = absurd (omega arith)
stoul_digits_of (c ∷ t) n whole there reads small =
    rw (whole, stoul_digits) (rw reads (ground arith))

stoul_digits_self : (n : ℕ) → n < 2 ^ 64 → stoul_digits (digits (suc n) n []) ≡ some n
stoul_digits_self n small =
    let t = digits (suc n) n [] in
    stoul_digits_of t n (digit_run-AreDigits t (digits-AreDigits (suc n) n [] tt))
      (length-digits (suc n) n [] (omega arith)) (read_self n) small

pub stoul-to_string : (n : ℕ) → n < 2 ^ 64 → stoul (to_string (pos n)) ≡ some n
unfolding stoul to_string
stoul-to_string n small =
    let t = digits (suc n) n [] in
    let ds = digits-AreDigits (suc n) n [] tt in
    ap stoul_signed (trim_front-NoBlank t (NoBlank-digits t ds))
    ∙ signed_digits t ds (length-digits (suc n) n [] (omega arith))
    ∙ stoul_digits_self n small

-- A slot above all others goes in behind them.
IsBelow : ℕ → List (ℕ × Text) → Type 0
IsBelow slot lobsters = All (λ e. e.0 < slot) lobsters

put_lobster_last :
    (slot : ℕ) (emoji : Text) (lobsters : List (ℕ × Text))
    → IsBelow slot lobsters
    → put_lobster slot emoji lobsters ≡ lobsters ++ (slot, emoji) ∷ []
unfolding put_lobster IsBelow
put_lobster_last slot emoji [] h = refl
put_lobster_last slot emoji ((other, e) ∷ lobsters) (lt, h) =
    ground (arith, put_lobster_last slot emoji lobsters h)

IsBelow-more :
    (slot : ℕ) (emoji : Text) (lobsters : List (ℕ × Text))
    → IsBelow slot lobsters
    → IsBelow (suc slot) (lobsters ++ (slot, emoji) ∷ [])
unfolding IsBelow
IsBelow-more slot emoji lobsters h =
    All-append (λ e. e.0 < suc slot) lobsters ((slot, emoji) ∷ [])
      (All-implies (λ e. e.0 < slot) (λ e. e.0 < suc slot) lobsters (λ e p. omega arith) h)
      (omega arith, tt)

other_name :
    (a b : ℕ)
    → a < 2 ^ 64
    → b < 2 ^ 64
    → a < b
    → text_eq (to_string (pos b)) (to_string (pos a)) ≡ false
other_name a b fa fb lt = elim (Bool-cases (text_eq (to_string (pos b)) (to_string (pos a)))) [
  | inl same ↦
      let e : some b ≡ some a =
        sym (stoul-to_string b fb)
        ∙ ap stoul (text_eq_sound (to_string (pos b)) (to_string (pos a)) same)
        ∙ stoul-to_string a fa in
      absurd (ground arith)
  | inr other ↦ other
]

module _ (L : JsonLib) where
  abbrev written : List (ℕ × Text) → Table L.Json
  written lobsters = map (λ e. (to_string (pos e.0), L.of_text e.1)) lobsters

  written_new :
      (slot least : ℕ) (m : List (ℕ × Text))
      → slot < 2 ^ 64
      → slot < least
      → IsAscendingFrom least m
      → contains (to_string (pos slot)) (written m) ≡ false
  unfolding lookup
  written_new slot least [] fits lt h = refl
  written_new slot least ((other, e) ∷ m) fits lt (le, small, h) = ground (
    arith,
    other_name slot other fits small (omega arith),
    written_new slot (suc other) m fits (omega arith) h,
  )

  written-Keyed : (least : ℕ) (m : List (ℕ × Text)) → IsAscendingFrom least m → Keyed (written m)
  written-Keyed least [] h = tt
  written-Keyed least ((slot, e) ∷ m) (le, small, h) =
      (written_new slot (suc slot) m small (omega arith) h, written-Keyed (suc slot) m h)

  add_lobsters_next :
      (slot : ℕ) (emoji : Text) (m : Table L.Json) (acc : List (ℕ × Text))
      → slot < 2 ^ 64
      → add_lobsters L ((to_string (pos slot), L.of_text emoji) ∷ m) acc
        ≡ add_lobsters L m (put_lobster slot emoji acc)
  unfolding add_lobsters
  add_lobsters_next slot emoji m acc small =
      let reads : stoul_signed (trim_front (to_string (pos slot))) ≡ some slot =
        unfold stoul in stoul-to_string slot small in
      rw (reads, add_lobsters) (rw (L.view_text emoji) refl)

  add_lobsters_all :
      (least : ℕ) (m acc : List (ℕ × Text))
      → IsAscendingFrom least m
      → IsBelow least acc
      → add_lobsters L (written m) acc ≡ some (acc ++ m)
  unfolding add_lobsters
  add_lobsters_all least [] acc h below = ap some (sym (append-nil acc))
  add_lobsters_all least ((slot, emoji) ∷ m) acc (le, small, h) below =
      let under : IsBelow slot acc =
        unfold IsBelow in
        All-implies (λ e. e.0 < least) (λ e. e.0 < slot) acc (λ e p. omega arith) below in
      add_lobsters_next slot emoji (written m) acc small
      ∙ rw (put_lobster_last slot emoji acc under) (
          add_lobsters_all (suc slot) m (acc ++ (slot, emoji) ∷ []) h
            (IsBelow-more slot emoji acc under)
          ∙ ap some (append_assoc acc ((slot, emoji) ∷ []) m))

  pub lobsters_in-lobsters_json :
      (lobsters : List (ℕ × Text))
      → IsAscending lobsters
      → lobsters_in L (L.view (lobsters_json L lobsters)) ≡ some lobsters
  unfolding lobsters_in lobsters_json object_of IsBelow
  lobsters_in-lobsters_json lobsters h =
      rw (L.view_object (written lobsters) (written-Keyed 0 lobsters h))
        (add_lobsters_all 0 lobsters [] h tt)
