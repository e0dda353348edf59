-- ===== src/Table/Total.antt =====
-- The sum of a table of numbers, and how a write changes it.
use norelecbot.Base.{Bool-cases, [], if◌then◌else◌, inl, inr, ◌∷◌, ◌≡◌}
use norelecbot.Base.Int.{int_laws, pos, ℤ, ◌+ℤ◌, ◌-ℤ◌}
use norelecbot.Table.{Counters, counter, counter-insert, insert, lookup}
use norelecbot.Text.{Text, text_eq, text_eq_iff}

unfoldable pub total : Counters → ℤ
total [] = pos 0
total ((k, v) ∷ m) = v +ℤ total m

-- A write changes the sum by what it changes the number on file.
pub total-insert :
    (k : Text) (v : ℤ) (m : Counters) → total (insert k v m) +ℤ counter m k ≡ total m +ℤ v
unfolding total insert counter lookup
total-insert k v [] = grind int_laws
total-insert k v ((j, w) ∷ m) = elim (Bool-cases (text_eq j k)) [
  | inl here ↦ rw here (grind int_laws)
  | inr later ↦ rw later (grind (int_laws, total-insert k v m))
]

-- A payment to one changes his number by what is paid, and nobody else's.
pub counter-insert_paid :
    (k other : Text) (paid : ℤ) (m : Counters)
    → counter (insert k (counter m k +ℤ paid) m) other
      ≡ counter m other +ℤ (if text_eq k other then paid else pos 0)
counter-insert_paid k other paid m =
    grind (int_laws, counter-insert k other (counter m k +ℤ paid) m, text_eq_iff k other)

-- The same of what is taken.
pub counter-insert_taken :
    (k other : Text) (taken : ℤ) (m : Counters)
    → counter (insert k (counter m k -ℤ taken) m) other
      ≡ counter m other -ℤ (if text_eq k other then taken else pos 0)
counter-insert_taken k other taken m =
    grind (int_laws, counter-insert k other (counter m k -ℤ taken) m, text_eq_iff k other)
