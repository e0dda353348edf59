-- ===== src/SortedMap.antt =====
-- `std::map` by `std::string`: a table in the order of its keys. Reading and erasing are those of any
-- table; a new key goes in at its place.
use norelecbot.Base.{
  All, Bool-cases, Option-cases, [], arith, if◌then◌else◌, inl, inr, refl, some, value_or, ◌∷◌, ◌≡◌,
}
use norelecbot.Ranking.{text_less}
use norelecbot.Table.{Table, lookup}
use norelecbot.Table.Keyed.{All-lookup}
use norelecbot.Text.{Text, text_eq, text_eq_iff, text_eq_sound}

unfoldable pub put {ℓ} : {V : Type ℓ} → Text → V → Table V → Table V
unfolding text_less
put k v [] = (k, v) ∷ []
put k v ((j, w) ∷ m) =
    let later = put k v m in
    if text_eq j k
    then (j, v) ∷ m
    else if text_less k j
    then (k, v) ∷ (j, w) ∷ m
    else (j, w) ∷ later

-- `m[k]`, which makes a default entry when there is none.
unfoldable pub at_key {ℓ} : {V : Type ℓ} → Text → V → Table V → V
unfolding lookup
at_key k fresh m = value_or (lookup k m) fresh

module _ {ℓ} {V : Type ℓ} where
  pub All-put :
      (P : Text × V → Type 0) (k : Text) (v : V) (m : Table V)
      → P (k, v)
      → All P m
      → All P (put k v m)
  unfolding put
  All-put P k v [] p h = (p, tt)
  All-put P k v ((i, w) ∷ m) p (h, hs) = elim (Bool-cases (text_eq i k)) [
    | inl same ↦ rw same (rw (text_eq_sound i k same) p, hs)
    | inr other ↦ elim (Bool-cases (text_less k i)) [
      | inl before ↦ rw (other, before) (p, (h, hs))
      | inr after ↦ rw (other, after) (h, All-put P k v m p hs)
    ]
  ]

  pub All-at_key :
      (P : Text × V → Type 0) (k : Text) (fresh : V) (m : Table V)
      → P (k, fresh)
      → All P m
      → P (k, at_key k fresh m)
  unfolding at_key
  All-at_key P k fresh m p h = elim (Option-cases (lookup k m)) [
    | inl absent ↦ rw absent p
    | inr (v, found) ↦ rw found (All-lookup P k v m found h)
  ]

-- What is read behind a write.
pub lookup-put :
    {V : Type 0} (k j : Text) (v : V) (m : Table V)
    → lookup j (put k v m) ≡ (if text_eq k j then some v else lookup j m)
unfolding lookup put
lookup-put k j v [] = refl
lookup-put k j v ((i, w) ∷ m) =
    ground (arith, text_eq_iff k j, text_eq_iff i k, text_eq_iff i j, lookup-put k j v m)
