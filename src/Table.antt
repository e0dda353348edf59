-- ===== src/Table.antt =====
-- `nlohmann::ordered_map`, the `Counters` and `Authors` of src/storage.hpp: pairs in file order, found
-- by a walk from the front, and the lookups of src/game.cpp over them.
pub mod Keyed
pub mod Total
use norelecbot.Base.{
  Bool, List, Option, [], arith, false, if◌then◌else◌, is_some, none, refl, some, true, value_or,
  ◌∷◌, ◌≡◌, ◌≢◌,
}
use norelecbot.Base.Int.{pos, ℤ}
use norelecbot.Text.{Text, equals_ignore_case, text_eq, text_eq_iff, text_eq_refl}

abbrev pub Table {ℓ} : Type ℓ → Type ℓ
Table V = List (Text × V)

abbrev pub Counters : Type 0
Counters = Table ℤ

abbrev pub Authors : Type 0
Authors = Table Text

module _ {ℓ} {V : Type ℓ} where
  -- `find`, and `find_entry` of game.cpp.
  unfoldable pub lookup : Text → Table V → Option V
  lookup k [] = none
  lookup k ((j, v) ∷ m) = if text_eq j k then some v else lookup k m

  -- `m[k] = v`: over the entry that is there, or behind all others.
  unfoldable pub insert : Text → V → Table V → Table V
  insert k v [] = (k, v) ∷ []
  insert k v ((j, w) ∷ m) = if text_eq j k then (j, v) ∷ m else (j, w) ∷ insert k v m

  -- `m.erase(k)`: the first entry of that key.
  unfoldable pub erase : Text → Table V → Table V
  erase k [] = []
  erase k ((j, w) ∷ m) = if text_eq j k then m else (j, w) ∷ erase k m

  abbrev pub contains : Text → Table V → Bool
  contains k m = is_some (lookup k m)

  -- `find_ignore_case`: the first entry whose key differs at most in case.
  unfoldable pub find_ignore_case : Table V → Text → Option (Text × V)
  find_ignore_case [] k = none
  find_ignore_case ((j, v) ∷ m) k =
      if equals_ignore_case j k then some (j, v) else find_ignore_case m k

  pub lookup-insert :
      (k j : Text) (v : V) (m : Table V)
      → lookup j (insert k v m) ≡ (if text_eq k j then some v else lookup j m)
  unfolding lookup insert
  lookup-insert k j v [] = refl
  lookup-insert k j v ((i, w) ∷ m) =
      ground (arith, text_eq_iff k j, text_eq_iff i k, text_eq_iff i j, lookup-insert k j v m)

  pub lookup-insert_self : (k : Text) (v : V) (m : Table V) → lookup k (insert k v m) ≡ some v
  lookup-insert_self k v m = simp (lookup-insert, text_eq_refl)

  pub lookup-erase_ne : (k j : Text) (m : Table V) → k ≢ j → lookup j (erase k m) ≡ lookup j m
  unfolding lookup erase
  lookup-erase_ne k j [] ne = refl
  lookup-erase_ne k j ((i, w) ∷ m) ne =
      ground (arith, text_eq_iff i k, text_eq_iff i j, lookup-erase_ne k j m ne)

-- `counter`: the number on file, or zero.
unfoldable pub counter : Counters → Text → ℤ
counter m k = value_or (lookup k m) (pos 0)

pub counter-insert :
    (k j : Text) (v : ℤ) (m : Counters)
    → counter (insert k v m) j ≡ (if text_eq k j then v else counter m j)
unfolding counter
counter-insert k j v m = rw (lookup-insert k j v m) (split (text_eq k j))
  where
    split :
        (b : Bool)
        → value_or (if b then some v else lookup j m) (pos 0)
          ≡ (if b then v else value_or (lookup j m) (pos 0))
    split true = refl
    split false = refl

pub counter-insert_self : (k : Text) (v : ℤ) (m : Counters) → counter (insert k v m) k ≡ v
counter-insert_self k v m = simp (counter-insert, text_eq_refl)

-- Every key stands once: what a file that was read by keys guarantees.
abbrev pub Keyed {ℓ} : {V : Type ℓ} → Table V → Type 0
Keyed [] = Unit
Keyed ((k, v) ∷ m) = (contains k m ≡ false) × Keyed m
