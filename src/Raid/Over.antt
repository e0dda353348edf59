-- ===== src/Raid/Over.antt =====
-- What a round of the keeper does to the rides that are over: `raid_due` of src/game.cpp.
use norelecbot.Base.{
  All, Bool-cases, List, [], ap, arith, erase_if, false, get_elem?, if◌then◌else◌, inl, inr, length,
  refl, some, suc, ℕ, ◌++◌, ◌+◌, ◌∙◌, ◌∷◌, ◌≡◌,
}
use norelecbot.Base.Int.{int_laws, ltb_ℤ, pos, ℤ, ◌+ℤ◌, ◌≤ℤ◌}
use norelecbot.Gear.{hang, hang_gear, put_in_house, put_on}
use norelecbot.Raid.Due.{
  arrive_due, back_due, bring_home, clear_over, come_back, is_due, is_over, pay_home, settle_at,
  settle_from, unpack,
}
use norelecbot.Raid.Ledger.{scores-unpack}
use norelecbot.Rules.{RaidRules}
use norelecbot.Session.{Session, notify, pure, ◌>>=◌}
use norelecbot.Session.Ensures.{Ensures, Ensures-bind}
use norelecbot.State.{ConquisterState, Raid}
use norelecbot.Table.{counter}
use norelecbot.Table.Total.{counter-insert_paid}
use norelecbot.Text.{Text, text_eq}

-- What one ride brings somebody home: nothing, unless it is over and he is its raider.
abbrev pub homecoming : ℤ → Text → Raid → ℤ
homecoming now other r =
    if is_over now r then (if text_eq r.raider other then r.loot +ℤ r.gift else pos 0) else pos 0

abbrev pub homecomings : ℤ → Text → List Raid → ℤ
homecomings now other [] = pos 0
homecomings now other (r ∷ raids) = homecoming now other r +ℤ homecomings now other raids

-- No ride has still to arrive, and no ride carries less than nothing.
abbrev pub Homewards : ℤ → Raid → Type 0
Homewards now r = (is_due now r ≡ false) × (pos 0 ≤ℤ r.loot +ℤ r.gift)

abbrev Came : Text → ℤ → ConquisterState → ConquisterState → Type 0
Came other brought st st' =
    (st'.raids ≡ st.raids) × (counter st'.scores other ≡ counter st.scores other +ℤ brought)

raids-unpack : (r : Raid) (state : ConquisterState) → (unpack r state).raids ≡ state.raids
unfolding unpack put_on hang_gear put_in_house hang
raids-unpack r state = ground arith

pay_home-Came :
    (r : Raid) (state : ConquisterState) (other : Text)
    → pos 0 ≤ℤ r.loot +ℤ r.gift
    → Came other
        (if text_eq r.raider other then r.loot +ℤ r.gift else pos 0)
        state
        (pay_home r state)
unfolding pay_home
pay_home-Came r state other h = elim (Bool-cases (ltb_ℤ (pos 0) (r.loot +ℤ r.gift))) [
  | inl some_palle ↦
      rw some_palle (refl, counter-insert_paid r.raider other (r.loot +ℤ r.gift) state.scores)
  | inr nothing ↦ rw nothing (refl, grind int_laws)
]

bring_home-Came :
    (r : Raid) (state : ConquisterState) (other : Text)
    → pos 0 ≤ℤ r.loot +ℤ r.gift
    → Came other
        (if text_eq r.raider other then r.loot +ℤ r.gift else pos 0)
        state
        (bring_home r state)
unfolding bring_home
bring_home-Came r state other h =
    let (same, paid) = pay_home-Came r state other h in
    (
      raids-unpack r (pay_home r state) ∙ same,
      ap (λ m. counter m other) (scores-unpack r (pay_home r state)) ∙ paid,
    )

module _ (fuel : ℕ) (rules : RaidRules) (now : ℤ) (other : Text) where
  settle_at-Came :
      (i : ℕ) (r : Raid) (s : Session)
      → get_elem? s.state.raids i ≡ some r
      → Homewards now r
      → Ensures
          (λ events s'. Came other (homecoming now other r) s.state s'.state)
          (settle_at fuel rules i now s)
  unfolding settle_at arrive_due back_due come_back notify
  settle_at-Came i r s e (not_due, brought) = elim (Bool-cases (is_over now r)) [
    | inl over ↦ elim (Bool-cases (ltb_ℤ (pos 0) r.loot)) [
      | inl took ↦ rw (e, not_due, e, over, took) (bring_home-Came r s.state other brought)
      | inr spared ↦ rw (e, not_due, e, over, spared) (bring_home-Came r s.state other brought)
    ]
    | inr riding ↦ rw (e, not_due, e, riding) (refl, grind int_laws)
  ]

  settle_from-Came :
      (i : ℕ) (raids : List Raid) (s : Session)
      → ((j : ℕ) → get_elem? s.state.raids (i + j) ≡ get_elem? raids j)
      → All (Homewards now) raids
      → Ensures
          (λ events s'. Came other (homecomings now other raids) s.state s'.state)
          (settle_from fuel rules now i (length raids) s)
  unfolding settle_from
  settle_from-Came i [] s at h = (refl, grind int_laws)
  settle_from-Came i (r ∷ raids) s at (home, h) =
      Ensures-bind _ (λ events s'. Came other (homecoming now other r) s.state s'.state)
        (settle_at fuel rules i now)
        (λ here. settle_from fuel rules now (suc i) (length raids) >>= λ rest. pure (here ++ rest))
        s (settle_at-Came i r s (ap (get_elem? s.state.raids) (omega arith) ∙ at 0) home)
        λ here s' (same, paid).
          Ensures-bind _ (λ events s''. Came other (homecomings now other raids) s'.state s''.state)
            (settle_from fuel rules now (suc i) (length raids)) (λ rest. pure (here ++ rest)) s'
            (settle_from-Came (suc i) raids s'
              (λ j.
                ap (λ rs. get_elem? rs (suc i + j)) same
                ∙ ap (get_elem? s.state.raids) (omega arith)
                ∙ at (suc j))
              h)
            λ rest s'' (same', paid'). (same' ∙ same, grind int_laws)

-- When none of the rides has still to arrive and none carries less than nothing, the round pays everybody
-- just what his rides that are over bring him, each once, and takes those rides, and no other, off the
-- list.
pub clear_over-settle_from :
    (fuel : ℕ) (rules : RaidRules) (now : ℤ) (s : Session) (other : Text)
    → All (Homewards now) s.state.raids
    → Ensures
        (λ events s'.
          (counter s'.state.scores other
            ≡ counter s.state.scores other +ℤ homecomings now other s.state.raids)
          × (s'.state.raids ≡ erase_if (is_over now) s.state.raids))
        ((settle_from fuel rules now 0 (length s.state.raids) >>= clear_over now) s)
unfolding clear_over
clear_over-settle_from fuel rules now s other h =
    Ensures-bind _ (λ events s'. Came other (homecomings now other s.state.raids) s.state s'.state)
      (settle_from fuel rules now 0 (length s.state.raids)) (clear_over now) s
      (settle_from-Came fuel rules now other 0 s.state.raids s
        (λ j. ap (get_elem? s.state.raids) (omega arith)) h)
      λ events s' (same, paid). (paid, ap (erase_if (is_over now)) same)
