-- ===== src/Slots/Put.antt =====
-- What `put_in` does to the slots.
use norelecbot.Base.{
  List, Option-cases, [], ap, arith, find_index, get_or, if◌then◌else◌, inl, inr, length,
  length-append, length-replicate, none, refl, replicate, set, some, suc, zero, ℕ, ◌++◌, ◌-◌, ◌<◌,
  ◌==◌, ◌∙◌, ◌∷◌, ◌≡◌, ◌≢◌, ◌≤◌,
}
use norelecbot.Slots.{first_empty, free_slot, put_in, write_slot}
use norelecbot.Text.{Text}

abbrev hole : Text
hole = []

find_index-le : (slots : List Text) → first_empty slots ≤ length slots
unfolding first_empty find_index
find_index-le [] = omega arith
find_index-le (s ∷ slots) = ground (arith, find_index-le slots)

-- The slot that is found is empty, or the one behind the last.
first_empty-empty : (slots : List Text) → get_or slots (first_empty slots) hole ≡ hole
unfolding first_empty find_index
first_empty-empty [] = refl
first_empty-empty ([] ∷ slots) = refl
first_empty-empty ((c ∷ s) ∷ slots) = first_empty-empty slots

get_or-replicate : (n i : ℕ) → get_or (replicate n hole) i hole ≡ hole
get_or-replicate zero i = refl
get_or-replicate (suc n) zero = refl
get_or-replicate (suc n) (suc i) = get_or-replicate n i

get_or-append :
    (slots : List Text) (n i : ℕ) → get_or (slots ++ replicate n hole) i hole ≡ get_or slots i hole
get_or-append [] n i = get_or-replicate n i
get_or-append (s ∷ slots) n zero = refl
get_or-append (s ∷ slots) n (suc i) = get_or-append slots n i

get_or-set :
    (slots : List Text) (i j : ℕ) (e : Text)
    → i < length slots
    → get_or (set slots i e) j hole ≡ (if i == j then e else get_or slots j hole)
get_or-set [] i j e h = elim h [ ]
get_or-set (s ∷ slots) zero zero e h = refl
get_or-set (s ∷ slots) zero (suc j) e h = ground arith
get_or-set (s ∷ slots) (suc i) zero e h = ground arith
get_or-set (s ∷ slots) (suc i) (suc j) e h = ground (arith, get_or-set slots i j e)

-- A write reaches its slot, and no other slot changes.
pub get_or-write_slot :
    (slots : List Text) (i j : ℕ) (e : Text)
    → get_or (write_slot slots i e) j [] ≡ (if i == j then e else get_or slots j [])
unfolding write_slot
get_or-write_slot slots i j e =
    let n = suc i - length slots in
    let long : i < length (slots ++ replicate n hole) =
      omega (arith, length-append slots (replicate n hole), length-replicate n hole) in
    get_or-set (slots ++ replicate n hole) i j e long
    ∙ ap (λ x. if i == j then e else x) (get_or-append slots n j)

-- There is a free slot exactly when one below the limit is empty or not there yet, and it is empty.
pub free_slot_lem :
    (slots : List Text) (limit i : ℕ)
    → free_slot slots limit ≡ some i
    → (i < limit) × (get_or slots i [] ≡ []) × (i ≤ length slots)
unfolding free_slot
free_slot_lem slots limit i e = grind (arith, first_empty-empty slots, find_index-le slots)

-- An emoji that is put in lands in one empty slot below the limit, and every other slot keeps what it has.
pub put_in_slot :
    (slots slots' : List Text) (emoji : Text) (limit : ℕ)
    → put_in slots emoji limit ≡ some slots'
    → (i : ℕ) × (i < limit)
      × (get_or slots i [] ≡ [])
      × ((j : ℕ) → get_or slots' j [] ≡ (if i == j then emoji else get_or slots j []))
unfolding put_in
put_in_slot slots slots' emoji limit e = elim (Option-cases (free_slot slots limit)) [
  | inl none_free ↦ absurd (ground arith)
  | inr (i, found) ↦
      let (low, there, _) = free_slot_lem slots limit i found in
      let same : write_slot slots i emoji ≡ slots' = ground arith in
      (i, low, there, λ j. rw (← same) (get_or-write_slot slots i j emoji))
]

full_from : (slots : List Text) (i : ℕ) → i < first_empty slots → get_or slots i [] ≢ hole
unfolding first_empty find_index
full_from [] i h = elim h [ ]
full_from ([] ∷ slots) i h = elim h [ ]
full_from ((c ∷ s) ∷ slots) zero h = λ e. cc
full_from ((c ∷ s) ∷ slots) (suc i) h = full_from slots i (omega arith)

-- When nothing is put in, every slot below the limit is taken.
pub put_in_full :
    (slots : List Text) (emoji : Text) (limit : ℕ)
    → put_in slots emoji limit ≡ none
    → (i : ℕ) → i < limit
    → get_or slots i [] ≢ []
unfolding put_in free_slot
put_in_full slots emoji limit e i h = full_from slots i (ground arith)
