-- ===== src/Table/Keyed.antt =====
-- Tables in which every key stands once, and properties of all their entries, under writes.
use norelecbot.Base.{All, Bool-cases, [], arith, false, inl, inr, refl, some, subst, true, ◌∷◌, ◌≡◌}
use norelecbot.Table.{Keyed, Table, contains, erase, insert, lookup, lookup-insert}
use norelecbot.Text.{Text, text_eq, text_eq_iff, text_eq_sound}

module _ {ℓ} {V : Type ℓ} where
  contains-erase :
      (k j : Text) (m : Table V) → contains j m ≡ false → contains j (erase k m) ≡ false
  unfolding lookup erase
  contains-erase k j [] h = refl
  contains-erase k j ((i, w) ∷ m) h =
      ground (arith, text_eq_iff i k, text_eq_iff i j, contains-erase k j m)

  pub erase-Keyed : (k : Text) (m : Table V) → Keyed m → Keyed (erase k m)
  unfolding erase
  erase-Keyed k [] h = tt
  erase-Keyed k ((i, w) ∷ m) (new, keyed) = elim (Bool-cases (text_eq i k)) [
    | inl same ↦ rw same keyed
    | inr other ↦ rw other (contains-erase k i m new, erase-Keyed k m keyed)
  ]

  pub insert-Keyed : (k : Text) (v : V) (m : Table V) → Keyed m → Keyed (insert k v m)
  unfolding insert lookup
  insert-Keyed k v [] h = (refl, tt)
  insert-Keyed k v ((i, w) ∷ m) (new, keyed) = elim (Bool-cases (text_eq i k)) [
    | inl same ↦ rw same (new, keyed)
    | inr other ↦ rw other (
      ground (arith, lookup-insert k i v m, text_eq_iff i k, text_eq_iff k i),
      insert-Keyed k v m keyed,
    )
  ]

  -- A property of the entries of all other keys.
  pub All-erase : (P : Text × V → Type 0) (k : Text) (m : Table V) → All P m → All P (erase k m)
  unfolding erase
  All-erase P k [] h = tt
  All-erase P k ((i, w) ∷ m) (h, hs) = elim (Bool-cases (text_eq i k)) [
    | inl same ↦ rw same hs
    | inr other ↦ rw other (h, All-erase P k m hs)
  ]

  pub All-insert :
      (P : Text × V → Type 0) (k : Text) (v : V) (m : Table V)
      → P (k, v)
      → All P m
      → All P (insert k v m)
  unfolding insert
  All-insert P k v [] p h = (p, tt)
  All-insert P k v ((i, w) ∷ m) p (h, hs) = elim (Bool-cases (text_eq i k)) [
    | inl same ↦ rw same (rw (text_eq_sound i k same) p, hs)
    | inr other ↦ rw other (h, All-insert P k v m p hs)
  ]

  -- A key that stood once is gone when it was erased.
  pub contains-erase_self : (k : Text) (m : Table V) → Keyed m → contains k (erase k m) ≡ false
  unfolding erase lookup
  contains-erase_self k [] h = refl
  contains-erase_self k ((i, w) ∷ m) (new, keyed) =
      ground (arith, text_eq_iff i k, contains-erase_self k m keyed)

  -- A weaker property of the entries, where the key that is missing need not be looked at.
  pub All-weaken_absent :
      (P Q : Text × V → Type 0) (k : Text) (m : Table V)
      → contains k m ≡ false
      → ((e : Text × V) → text_eq e.0 k ≡ false → P e → Q e)
      → All P m
      → All Q m
  unfolding lookup
  All-weaken_absent P Q k [] absent f h = tt
  All-weaken_absent P Q k ((i, w) ∷ m) absent f (h, hs) = elim (Bool-cases (text_eq i k)) [
    | inl same ↦ absurd (not_absent same)
    | inr other ↦ (f (i, w) other h, All-weaken_absent P Q k m (ground arith) f hs)
  ]
    where
      not_absent : text_eq i k ≡ true → ⊥
      not_absent same = ground arith

  pub All-lookup :
      (P : Text × V → Type 0) (k : Text) (v : V) (m : Table V)
      → lookup k m ≡ some v
      → All P m
      → P (k, v)
  unfolding lookup
  All-lookup P k v [] e h = absurd (ground arith)
  All-lookup P k v ((i, w) ∷ m) e (h, hs) = elim (Bool-cases (text_eq i k)) [
    | inl same ↦
        subst (λ j. P (j, v)) (text_eq_sound i k same) (subst (λ x. P (i, x)) (ground arith) h)
    | inr other ↦ All-lookup P k v m (ground arith) hs
  ]
