-- ===== src/Examples.antt =====
-- Runs of the models on small games, and the theorems at them.
pub mod Barred
pub mod Beats
pub mod Chats
pub mod Parts
pub mod Players
pub mod Saves
pub mod Watch
use norelecbot.Base.{
  [], any_of, arith, erase_if, false, if◌then◌else◌, inl, inr, length, refl, some, true, ℕ, ◌*◌,
  ◌+◌, ◌↔◌, ◌∷◌, ◌≡◌, ◌≢◌, ◌⊎◌,
}
use norelecbot.Base.Int.{min_ℤ, pos, ◌+ℤ◌, ◌-ℤ◌, ◌≤ℤ◌}
use norelecbot.Claim.{conquister_claim}
use norelecbot.Claim.Effect.{Effect}
use norelecbot.Claim.Needs.{MayClaim, conquister_claim_needs}
use norelecbot.Claim.Result.{ClaimRules, ClaimStatus}
use norelecbot.Claim.Whole.{conquister_claim-Effect}
use norelecbot.Identity.{RaidTargetKind, draw_id}
use norelecbot.Identity.Fresh.{IsNewId, draw_id_new}
use norelecbot.Position.{coordinates_of, distance, magnitude}
use norelecbot.Position.Metric.{IsNearestRoot, distance_nearest}
use norelecbot.Power.{hourglass, ninja}
use norelecbot.Raid.{raid_start}
use norelecbot.Raid.Arrive.{arrive}
use norelecbot.Raid.Due.{bring_home, clear_over, is_over, settle_from}
use norelecbot.Raid.Ledger.{total-bring_home, total-salt}
use norelecbot.Raid.Loot.{loot_bounds}
use norelecbot.Raid.Over.{clear_over-settle_from, homecomings}
use norelecbot.Raid.Request.{Trip}
use norelecbot.Raid.Rob.{loot_of, salt}
use norelecbot.Raid.Wealth.{wealth, wealth-raid_start}
use norelecbot.Rules.{RaidRules, default_rules, utc_sky}
use norelecbot.Session.{Session, ◌>>=◌}
use norelecbot.Session.Ensures.{Ensures}
use norelecbot.State.{ConquisterState, Raid, empty_state}
use norelecbot.Table.{counter, lookup}
use norelecbot.Table.Total.{total}
use norelecbot.Text.{Text, text_eq}
use norelecbot.Zodiac.{signs}

abbrev pub anna : Text
anna = 97 ∷ 110 ∷ []

abbrev pub bruno : Text
bruno = 98 ∷ 114 ∷ []

-- Bruno holds the place since 0, and Anna has palle.
abbrev pub game : ConquisterState
unfolding empty_state
game = record empty_state {
  current = some (record {
    user_id = pos 0;
    username = bruno;
    since = pos 0;
    lightning_percent = pos 0;
    bolts = pos 0;
    banked = pos 0;
    counted_from = pos 0;
    lobsters = [];
  });
  scores = (anna, pos 50) ∷ (bruno, pos 7) ∷ [];
  ids = (anna, pos 5) ∷ (bruno, pos 7000000003) ∷ [];
}

abbrev pub playing : Session
unfolding game
playing = record {
  state = game;
  quotes = [];
  draws = λ n. n;
  drawn = 0;
  file_there = true;
  copies_work = true;
  backups = [];
  notices = [];
}

abbrev claim_rules : ClaimRules
claim_rules = record {
  cooldown_seconds = pos 600;
  signs = utc_sky;
  lightning = pos 10;
  ninja = pos 20;
  hourglass = pos 10;
}

abbrev present : Trip
present = record {
  target = bruno;
  target_kind = RaidTargetKind.any;
  gift = pos 20;
  gift_emoji = [];
  intact = true;
}

conquister_claim-Effect_example :
    Ensures
      (λ r s'. Effect anna (pos 1000) game r s'.state)
      (conquister_claim claim_rules (pos 0) anna (pos 1000) playing)
unfolding game playing
conquister_claim-Effect_example =
    conquister_claim-Effect claim_rules (pos 0) anna (pos 1000) playing

conquister_claim_needs_example :
    Ensures
      (λ r s'. (r.status ≢ ClaimStatus.taken) ⊎ MayClaim anna (pos 1000) game)
      (conquister_claim claim_rules (pos 0) anna (pos 1000) playing)
unfolding game playing
conquister_claim_needs_example = conquister_claim_needs claim_rules (pos 0) anna (pos 1000) playing

wealth-raid_start_example :
    Ensures
      (λ r s'. wealth s'.state ≡ wealth game +ℤ r.earned)
      (raid_start 10 default_rules (pos 0) anna present (pos 1000) playing)
unfolding game playing
wealth-raid_start_example =
    wealth-raid_start 10 default_rules (pos 0) anna present (pos 1000) playing (inr refl)

abbrev pub annas_ride : Raid
annas_ride = record {
  raider = anna;
  target = bruno;
  arrive = pos 1000;
  back = pos 2000;
  arrived = true;
  loot = pos 3;
  gift = pos 0;
  gift_emoji = [];
  intact = false;
}

abbrev riding : Session
unfolding game playing
riding = record playing { state = record game { raids = annas_ride ∷ [] } }

clear_over-settle_from_example :
    Ensures
      (λ events s'.
        (counter s'.state.scores anna
          ≡ counter riding.state.scores anna +ℤ homecomings (pos 2500) anna riding.state.raids)
        × (s'.state.raids ≡ erase_if (is_over (pos 2500)) riding.state.raids))
      ((settle_from 10 default_rules (pos 2500) 0 (length riding.state.raids)
          >>= clear_over (pos 2500))
        riding)
unfolding riding ◌+ℤ◌
clear_over-settle_from_example =
    clear_over-settle_from 10 default_rules (pos 2500) riding anna ((refl, omega arith), tt)

abbrev salted_rules : RaidRules
salted_rules = record default_rules { salt_percent = pos 10 }

total-salt_example :
    let (paid, state') = salt salted_rules annas_ride (pos 1100) game in
    (counter state'.scores bruno
      ≡ counter game.scores bruno
        -ℤ (if text_eq anna bruno then paid else pos 0)
        +ℤ (if text_eq bruno bruno then paid else pos 0))
    × (total state'.scores ≡ total game.scores)
    × (pos 0 ≤ℤ paid)
    × (paid ≤ℤ counter game.scores anna)
unfolding counter lookup text_eq game
total-salt_example = total-salt salted_rules annas_ride (pos 1100) game bruno (omega arith)

total-bring_home_example :
    total (bring_home annas_ride game).scores ≡ total game.scores +ℤ (pos 3 +ℤ pos 0)
unfolding ◌+ℤ◌
total-bring_home_example = total-bring_home annas_ride game (omega arith)

loot_bounds_example :
    let (loot, spared) = loot_of (pos 90) (pos 60) (pos 25) in
    (pos 0 ≤ℤ loot) × (pos 0 ≤ℤ spared) × (loot +ℤ spared ≡ min_ℤ (pos 90) (pos 60))
loot_bounds_example =
    loot_bounds (pos 90) (pos 60) (pos 25) (omega arith) (omega arith) (omega arith) (omega arith)

distance_nearest_example :
    let a = coordinates_of (pos 300000) in
    let b = coordinates_of (pos 4) in
    let width = magnitude (a.x -ℤ b.x) in
    let height = magnitude (a.y -ℤ b.y) in
    (distance a b ≡ distance b a)
    × (q : ℕ) × (distance a b ≡ pos q)
    × IsNearestRoot (width * width + height * height) q
    × ((q ≡ 0) ↔ (◌≡◌ {A = ℕ} 300000 4))
distance_nearest_example = distance_nearest 300000 4 (omega arith) (omega arith)

draw_id_new_example : IsNewId ((anna, pos 0) ∷ []) playing (draw_id 2 ((anna, pos 0) ∷ []) playing)
unfolding any_of playing
draw_id_new_example = draw_id_new 2 ((anna, pos 0) ∷ []) playing (inr (inl refl))
