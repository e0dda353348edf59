-- ===== src/Raid/Ledger.antt =====
-- What the steps of a ride do to all palle together.
use norelecbot.Base.{ap, arith, if◌then◌else◌, value_or, ℕ, ◌∙◌, ◌≡◌}
use norelecbot.Base.Int.{int_laws, max_ℤ, min_ℤ-le, negsuc, pos, ℤ, ◌*ℤ◌, ◌+ℤ◌, ◌-ℤ◌, ◌/ℤ◌, ◌≤ℤ◌}
use norelecbot.Base.Percent.{share-le}
use norelecbot.Claim.Result.{power_percent}
use norelecbot.Gear.{hang, hang_gear, house_copies, put_in_house, put_on}
use norelecbot.Power.{salt_power}
use norelecbot.Raid.Due.{bring_home, pay_home, unpack}
use norelecbot.Raid.Rob.{salt}
use norelecbot.Rules.{RaidRules}
use norelecbot.State.{ConquisterState, Raid}
use norelecbot.Table.{Counters, counter, insert}
use norelecbot.Table.Total.{counter-insert_paid, counter-insert_taken, total, total-insert}
use norelecbot.Text.{Text, text_eq}

-- A payment from one to another, his own included, leaves the sum alone.
pub total_transfer :
    (a b : Text) (paid : ℤ) (m : Counters)
    → let less = insert a (counter m a -ℤ paid) m in
      total (insert b (counter less b +ℤ paid) less) ≡ total m
total_transfer a b paid m =
    let less = insert a (counter m a -ℤ paid) m in
    grind (
      int_laws,
      total-insert a (counter m a -ℤ paid) m,
      total-insert b (counter less b +ℤ paid) less,
    )

power_percent_le : (copies each : ℤ) → power_percent copies each ≤ℤ pos 100
unfolding power_percent
power_percent_le copies each = (min_ℤ-le (pos 100) (copies *ℤ max_ℤ each (pos 0))).0

share_bounds :
    (his share : ℤ)
    → pos 0 ≤ℤ his
    → pos 0 ≤ℤ share
    → share ≤ℤ pos 100
    → (pos 0 ≤ℤ his *ℤ share /ℤ pos 100) × (his *ℤ share /ℤ pos 100 ≤ℤ his)
unfolding ◌*ℤ◌ ◌/ℤ◌
share_bounds (pos a) (pos p) h k l = ground (arith, share-le a p)
share_bounds (negsuc a) p h k l = absurd (omega arith)
share_bounds (pos a) (negsuc p) h k l = absurd (omega arith)

max_of : (z : ℤ) → pos 0 ≤ℤ z → max_ℤ z (pos 0) ≡ z
unfolding max_ℤ
max_of z h = ground arith

-- A payment as the scores show it: off the payer, to the payee, and nobody else's changes.
counter-transfer :
    (a b other : Text) (paid : ℤ) (m : Counters)
    → let less = insert a (counter m a -ℤ paid) m in
      counter (insert b (counter less b +ℤ paid) less) other
      ≡ counter m other
        -ℤ (if text_eq a other then paid else pos 0)
        +ℤ (if text_eq b other then paid else pos 0)
counter-transfer a b other paid m =
    let less = insert a (counter m a -ℤ paid) m in
    counter-insert_paid b other paid less
    ∙ ap (λ n. n +ℤ (if text_eq b other then paid else pos 0)) (counter-insert_taken a other paid m)

-- When the raider's score is not negative, what the salt costs goes off the raider's score to the house's,
-- not less than nothing and not more than he has; nobody else's score changes, and all palle together
-- stay the same.
pub total-salt :
    (rules : RaidRules) (r : Raid) (now : ℤ) (state : ConquisterState) (other : Text)
    → pos 0 ≤ℤ counter state.scores r.raider
    → let (paid, state') = salt rules r now state in
      (counter state'.scores other
        ≡ counter state.scores other
          -ℤ (if text_eq r.raider other then paid else pos 0)
          +ℤ (if text_eq r.target other then paid else pos 0))
      × (total state'.scores ≡ total state.scores)
      × (pos 0 ≤ℤ paid)
      × (paid ≤ℤ counter state.scores r.raider)
unfolding salt
total-salt rules r now state other h =
    let share = power_percent (house_copies state r.target salt_power) rules.salt_percent in
    let his = counter state.scores r.raider in
    let paid = his *ℤ share /ℤ pos 100 in
    let same : max_ℤ his (pos 0) ≡ his = max_of his h in
    rw same (
      grind (
        int_laws,
        share_bounds his share h,
        power_percent_le (house_copies state r.target salt_power) rules.salt_percent,
        total_transfer r.raider r.target paid state.scores,
        counter-transfer r.raider r.target other paid state.scores,
      ))

scores-put_on :
    (state : ConquisterState) (player emoji : Text)
    → (value_or (put_on state player emoji) state).scores ≡ state.scores
unfolding put_on hang_gear
scores-put_on state player emoji = ground arith

scores-put_in_house :
    (state : ConquisterState) (player emoji : Text) (limit : ℕ)
    → (value_or (put_in_house state player emoji limit) state).scores ≡ state.scores
unfolding put_in_house hang
scores-put_in_house state player emoji limit = ground arith

pub scores-unpack : (r : Raid) (state : ConquisterState) → (unpack r state).scores ≡ state.scores
unfolding unpack
scores-unpack r state = grind (
  arith,
  scores-put_on state r.raider r.gift_emoji,
  scores-put_in_house state r.raider r.gift_emoji 18446744073709551615,
)

-- When the loot and what he still carries are not negative together, all palle on file grow by just
-- that as the raider comes home.
pub total-bring_home :
    (r : Raid) (state : ConquisterState)
    → pos 0 ≤ℤ r.loot +ℤ r.gift
    → total (bring_home r state).scores ≡ total state.scores +ℤ (r.loot +ℤ r.gift)
unfolding bring_home pay_home
total-bring_home r state h =
    ap total (scores-unpack r (pay_home r state))
    ∙ grind (
      int_laws,
      total-insert r.raider (counter state.scores r.raider +ℤ (r.loot +ℤ r.gift)) state.scores,
    )
