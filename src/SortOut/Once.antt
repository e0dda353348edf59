-- ===== src/SortOut/Once.antt =====
-- About `equipment_sort_out`: where each emoji is, and a second call.
use norelecbot.Base.{
  Bool-cases, List, Option-cases, [], arith, count_if, false, find_index, inl, inr, length, not,
  refl, replicate, set, some, subst, suc, zero, ℕ, ◌++◌, ◌+◌, ◌-◌, ◌<◌, ◌||◌, ◌∷◌, ◌≡◌, ◌⊎◌,
}
use norelecbot.Gear.{is_child}
use norelecbot.Power.{works_on_him}
use norelecbot.Session.{Session, backup, ok}
use norelecbot.Session.Ensures.{Ensures}
use norelecbot.Slots.{carried_limit, first_empty, free_slot, write_slot}
use norelecbot.SortOut.{equipment_sort_out, sort_house}
use norelecbot.State.{ConquisterState}
use norelecbot.Storage.Atomic.{differs}
use norelecbot.Text.{Text, is_empty, text_eq, text_eq_sound}

-- How many of an emoji are in the slots.
unfoldable pub copies : Text → List Text → ℕ
unfolding count_if
copies e slots = count_if (text_eq e) slots

module _ (e : Text) (there : is_empty e ≡ false) where
  not_nothing : text_eq e [] ≡ false
  not_nothing = elim (Bool-cases (text_eq e [])) [
    | inl same ↦ absurd (ground (arith, text_eq_sound e [] same))
    | inr differs ↦ differs
  ]

  copies-empty : (n : ℕ) → copies e (replicate n []) ≡ 0
  unfolding copies count_if
  copies-empty zero = refl
  copies-empty (suc n) = rw not_nothing (copies-empty n)

  copies-grown : (slots : List Text) (n : ℕ) → copies e (slots ++ replicate n []) ≡ copies e slots
  unfolding copies count_if
  copies-grown [] n = copies-empty n
  copies-grown (s ∷ slots) n = ground (arith, copies-grown slots n)

  copies-set :
      (slots : List Text) (x : Text) (n : ℕ)
      → first_empty slots < length slots + n
      → copies e (set (slots ++ replicate n []) (first_empty slots) x) ≡ copies e (x ∷ slots)
  unfolding copies count_if first_empty find_index
  copies-set [] x zero k = absurd (omega arith)
  copies-set [] x (suc n) k = ground (arith, copies-empty n)
  copies-set ([] ∷ slots) x n k = ground (arith, copies-grown slots n, not_nothing)
  copies-set ((c ∷ s) ∷ slots) x n k =
      let later = copies-set slots x n (omega arith) in ground (arith, later)

  -- Writing to a free slot puts that emoji there, and takes none away.
  copies-write_slot :
      (slots : List Text) (x : Text) (to : ℕ)
      → free_slot slots carried_limit ≡ some to
      → copies e (write_slot slots to x) ≡ copies e (x ∷ slots)
  unfolding write_slot free_slot
  copies-write_slot slots x to f =
      let at : first_empty slots ≡ to = ground arith in
      subst (λ i. copies e (write_slot slots i x) ≡ copies e (x ∷ slots)) at
        (copies-set slots x (suc (first_empty slots) - length slots) (omega arith))

-- Each slot is as it was, or empty now.
abbrev pub Emptied : List Text → List Text → Type 0
Emptied [] [] = Unit
Emptied [] (b ∷ after) = ⊥
Emptied (a ∷ before) [] = ⊥
Emptied (a ∷ before) (b ∷ after) = ((b ≡ a) ⊎ (b ≡ [])) × Emptied before after

Emptied-refl : (slots : List Text) → Emptied slots slots
Emptied-refl [] = tt
Emptied-refl (a ∷ slots) = (inl refl, Emptied-refl slots)

-- Of every emoji there are as many in the house and on its owner together as before, and each slot of
-- the house is as it was or empty now.
pub sort_house_keeps :
    (st : ConquisterState) (player : Text) (i : ℕ) (slots gear : List Text) (e : Text)
    → is_empty e ≡ false
    → let (house, gear', moved) = sort_house st player i slots gear in
      (copies e house + copies e gear' ≡ copies e slots + copies e gear) × Emptied slots house
unfolding sort_house copies count_if
sort_house_keeps st player i [] gear e there = (refl, tt)
sort_house_keeps st player i (slot ∷ slots) gear e there =
    elim (Bool-cases (is_empty slot || (not (works_on_him slot) || is_child st player i))) [
      | inl c ↦
          let (kept, slotwise) = sort_house_keeps st player (suc i) slots gear e there in
          rw c (ground (arith, kept), (inl refl, slotwise))
      | inr c ↦ elim (Option-cases (free_slot gear carried_limit)) [
        | inl f ↦ rw (c, f) (refl, (inl refl, Emptied-refl slots))
        | inr (to, f) ↦
            let (kept, slotwise) =
              sort_house_keeps st player (suc i) slots (write_slot gear to slot) e there in
            let more = copies-write_slot e there gear slot to f in
            rw (c, f) (ground (arith, kept, more, not_nothing e there), (inr refl, slotwise))
      ]
    ]

-- Sorted out, the game stays as it is: a second call does nothing.
pub equipment_sort_out_once :
    (s : Session) → Ensures (λ r s'. equipment_sort_out s' ≡ ok r s') (equipment_sort_out s)
unfolding equipment_sort_out backup
equipment_sort_out_once s = ground arith
