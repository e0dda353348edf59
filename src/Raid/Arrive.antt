-- ===== src/Raid/Arrive.antt =====
-- A ride that reaches its target: the first half of the loop of `raid_due` in src/game.cpp.
use norelecbot.Base.{[], if◌then◌else◌, none, not, some, true, ℕ, ◌||◌}
use norelecbot.Base.Int.{eqb_ℤ, ltb_ℤ, max_ℤ, pos, ℤ, ◌-ℤ◌}
use norelecbot.Event.{RaidEvent, fresh_event, on_telegram}
use norelecbot.Gear.{is_pugliese, is_smeared, shown_gear}
use norelecbot.Place.{display_name}
use norelecbot.Raid.Change.{change_at}
use norelecbot.Raid.Deliver.{deliver}
use norelecbot.Raid.Rob.{eat, raid_house, salt}
use norelecbot.Rules.{RaidRules}
use norelecbot.Session.{Game, get_state, modify, pure, update, ◌>>=◌, ◌>>◌}
use norelecbot.State.{ConquisterState, Raid}
use norelecbot.Text.{Text, is_empty, text_eq}

-- The event as it begins.
arrival_event : Raid → ℤ → ConquisterState → RaidEvent
unfolding max_ℤ
arrival_event r now state = record fresh_event {
  raider = display_name state r.raider;
  target = display_name state r.target;
  seconds = max_ℤ (r.back -ℤ now) (pos 0);
  target_on_telegram = on_telegram state r.target;
  raider_on_telegram = on_telegram state r.raider;
  raider_emoji = shown_gear state r.raider;
  target_emoji = shown_gear state r.target;
  raider_smeared = is_smeared state r.raider now;
  target_smeared = is_smeared state r.target now;
  raider_pugliese = is_pugliese state r.raider;
  target_pugliese = is_pugliese state r.target;
}

-- What changed on the two since the raider got there.
arrival_told : Raid → Text → Text → RaidEvent → ConquisterState → RaidEvent
arrival_told r raider_then target_then event state =
    let raider_now = shown_gear state r.raider in
    let target_now = shown_gear state r.target in
    let raider_same = text_eq raider_now raider_then in
    let target_same = text_eq target_now target_then in
    record event {
      raider_emoji = raider_now;
      raider_emoji_before = if raider_same then none else some raider_then;
      target_emoji = target_now;
      target_emoji_before = if target_same then none else some target_then;
    }

-- Whoever comes to rob meets the salt and the dinosaur first.
house_guards : RaidRules → Raid → ℤ → Game (ℤ × Text)
house_guards rules r now =
    if eqb_ℤ r.gift (pos 0)
    then (do salted ← update (salt rules r now); eaten ← eat rules r; pure (salted, eaten))
    else pure (pos 0, [])

arrive_to_rob : ℕ → RaidRules → ℕ → Raid → ℤ → RaidEvent → Game RaidEvent
unfolding house_guards
arrive_to_rob fuel rules i r now event = do
  (salted, eaten) ← house_guards rules r now
  raid_house fuel rules i r now (record event { salted = salted; eaten = eaten })

unfoldable pub arrive : ℕ → RaidRules → ℕ → Raid → ℤ → Game RaidEvent
unfolding arrival_event arrival_told arrive_to_rob deliver change_at
arrive fuel rules i r now = do
  modify (change_at i (λ x. record x { arrived = true }))
  state ← get_state
  let event = arrival_event r now state
  settled ←
      (if ltb_ℤ (pos 0) r.gift || not (is_empty r.gift_emoji)
        then deliver rules i r now event
        else arrive_to_rob fuel rules i r now event)
  after ← get_state
  pure (arrival_told r event.raider_emoji event.target_emoji settled after)
