-- ===== src/Raid/Moved.antt =====
-- About the palle that a ride moves as it arrives.
use norelecbot.Base.{
  Bool-cases, List, [], ap, arith, get_elem?, if◌then◌else◌, inl, inr, refl, set, some, suc, sym,
  zero, ℕ, ◌∙◌, ◌∷◌, ◌≡◌,
}
use norelecbot.Base.Int.{int_laws, ltb_ℤ, pos, ℤ, ◌+ℤ◌, ◌-ℤ◌, ◌≤ℤ◌}
use norelecbot.Raid.Change.{change_at}
use norelecbot.Raid.Deliver.{deliver_palle}
use norelecbot.Raid.Rob.{take_loot}
use norelecbot.Raid.Wealth.{on_the_way, wealth}
use norelecbot.State.{ConquisterState, Raid}
use norelecbot.Table.{counter}
use norelecbot.Table.Total.{counter-insert_paid, counter-insert_taken, total-insert}
use norelecbot.Text.{Text, text_eq}

weight : Raid → ℤ
weight r = r.loot +ℤ r.gift

on_the_way-set :
    (raids : List Raid) (i : ℕ) (r r' : Raid)
    → get_elem? raids i ≡ some r
    → on_the_way (set raids i r') +ℤ weight r ≡ on_the_way raids +ℤ weight r'
unfolding on_the_way weight
on_the_way-set [] i r r' e = absurd (ground arith)
on_the_way-set (q ∷ raids) zero r r' e = grind int_laws
on_the_way-set (q ∷ raids) (suc i) r r' e = grind (int_laws, on_the_way-set raids i r r' e)

set-same :
    (raids : List Raid) (i : ℕ) (r : Raid) → get_elem? raids i ≡ some r → set raids i r ≡ raids
set-same [] i r e = refl
set-same (q ∷ raids) zero r e = ground arith
set-same (q ∷ raids) (suc i) r e = ap (◌∷◌ q) (set-same raids i r e)

-- The palle that the ride at an index brought go to the target's score, and nobody else's changes; the
-- ride carries none then, every other ride is as it was, and all palle together are as many as before.
pub wealth-deliver_palle :
    (i : ℕ) (r : Raid) (st : ConquisterState) (other : Text)
    → get_elem? st.raids i ≡ some r
    → pos 0 ≤ℤ r.gift
    → (counter (deliver_palle i r st).scores other
        ≡ counter st.scores other +ℤ (if text_eq r.target other then r.gift else pos 0))
      × ((deliver_palle i r st).raids ≡ set st.raids i (record r { gift = pos 0 }))
      × (wealth (deliver_palle i r st) ≡ wealth st)
unfolding deliver_palle change_at wealth weight
wealth-deliver_palle i r st other e h =
    let after = counter st.scores r.target +ℤ r.gift in
    elim (Bool-cases (ltb_ℤ (pos 0) r.gift)) [
      | inl some_gift ↦
          rw (some_gift, e, change_at)
            (
              counter-insert_paid r.target other r.gift st.scores,
              refl,
              grind (
                int_laws,
                total-insert r.target after st.scores,
                on_the_way-set st.raids i r (record r { gift = pos 0 }) e,
              ),
            )
      | inr no_gift ↦
          let none_left : r.gift ≡ pos 0 = grind int_laws in
          rw no_gift (
            grind int_laws,
            sym (
                ap (λ g. set st.raids i (record r { gift = g })) (sym none_left)
                ∙ set-same st.raids i r e),
            refl,
          )
    ]

-- What a ride at an index that carries no loot yet takes goes off the target's score, and nobody
-- else's changes; the ride carries it then, every other ride is as it was, and all palle together are as
-- many as before.
pub wealth-take_loot :
    (i : ℕ) (r : Raid) (loot : ℤ) (st : ConquisterState) (other : Text)
    → get_elem? st.raids i ≡ some r
    → r.loot ≡ pos 0
    → pos 0 ≤ℤ loot
    → (counter (take_loot i r.target (counter st.scores r.target) loot st).scores other
        ≡ counter st.scores other -ℤ (if text_eq r.target other then loot else pos 0))
      × ((take_loot i r.target (counter st.scores r.target) loot st).raids
          ≡ set st.raids i (record r { loot = loot }))
      × (wealth (take_loot i r.target (counter st.scores r.target) loot st) ≡ wealth st)
unfolding take_loot change_at wealth weight
wealth-take_loot i r loot st other e z h =
    let after = counter st.scores r.target -ℤ loot in
    let moved = on_the_way-set st.raids i r (record r { loot = loot }) e in
    elim (Bool-cases (ltb_ℤ (pos 0) loot)) [
      | inl some_loot ↦
          rw (some_loot, e, change_at, some_loot)
            (
              counter-insert_taken r.target other loot st.scores,
              refl,
              grind (int_laws, total-insert r.target after st.scores, moved),
            )
      | inr no_loot ↦
          rw (no_loot, e, change_at, no_loot) (grind int_laws, refl, grind (int_laws, moved))
    ]
