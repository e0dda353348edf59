-- ===== src/Raid/Rob.antt =====
-- Whoever comes to rob: `board`, `sneaks`, `defended_at_home`, `salt` and that part of `raid_due` in
-- src/game.cpp.
use norelecbot.Balloon.{
  BalloonRoll, balloon_attempt, balloon_pop_chance, balloon_there, held, none_there, popped,
}
use norelecbot.Base.{
  Bool, List, [], any_of, erase_if, false, get_or, if◌then◌else◌, is_some, length, not, set, true,
  value_or, ℕ, ◌&&◌, ◌++◌, ◌||◌, ◌∷◌,
}
use norelecbot.Base.Int.{eqb_ℤ, leb_ℤ, ltb_ℤ, max_ℤ, min_ℤ, pos, ℤ, ◌*ℤ◌, ◌+ℤ◌, ◌-ℤ◌, ◌/ℤ◌}
use norelecbot.Claim.Result.{power_percent}
use norelecbot.Event.{RaidEvent}
use norelecbot.Gear.{carried_copies, gear_of, hang, house_copies, is_child, put_on, slots_of}
use norelecbot.Identity.{player_id}
use norelecbot.Landing.{blow_up, chance_below, slots_where}
use norelecbot.Place.{Whereabouts, at_home}
use norelecbot.Position.{coordinates_of, distance}
use norelecbot.Power.{alarm, dino, dog, is_untouchable, ninja, pirate, pleading, salt_power}
use norelecbot.Raid.Change.{change_at}
use norelecbot.Rules.{RaidRules}
use norelecbot.Session.{Game, get_state, gets, modify, pure, random_index, update, ◌>>=◌, ◌>>◌}
use norelecbot.Slots.{carried_limit, free_slot}
use norelecbot.State.{ConquisterState, Knock, Raid}
use norelecbot.Table.{counter, insert}
use norelecbot.Text.{Text, is_empty, text_eq}
use norelecbot.Zodiac.{day_percent}

abbrev pub salt_seconds : ℤ
salt_seconds = pos 300

unfoldable pub same_knock : Raid → Knock → Bool
same_knock r k = text_eq k.raider r.raider && text_eq k.target r.target

-- What a raider pays for coming again so soon.
unfoldable pub salt : RaidRules → Raid → ℤ → ConquisterState → ℤ × ConquisterState
unfolding max_ℤ same_knock
salt rules r now state =
    let recent = erase_if (λ k. ltb_ℤ salt_seconds (now -ℤ k.at)) state.knocks in
    let share = power_percent (house_copies state r.target salt_power) rules.salt_percent in
    if leb_ℤ share (pos 0) || not (any_of (same_knock r) recent)
    then (
      pos 0,
      record state {
        knocks = recent ++ record { raider = r.raider; target = r.target; at = now } ∷ [];
      },
    )
    else let his = max_ℤ (counter state.scores r.raider) (pos 0) in
      let paid = his *ℤ share /ℤ pos 100 in
      let scores = insert r.raider (his -ℤ paid) state.scores in
      (
        paid,
        record state {
          knocks = erase_if (same_knock r) recent;
          scores = insert r.target (counter scores r.target +ℤ paid) scores;
        },
      )

-- The slots of the house from which something can be carried off.
unfoldable pub boardable : ConquisterState → Text → List Text → List ℕ
unfolding slots_where
boardable state target slots =
    slots_where
      (λ i s. not (is_empty s) && (not (is_child state target i) && not (is_untouchable s))) 0 slots

carry_off : Raid → List Text → ℕ → ConquisterState → Text × ConquisterState
carry_off r slots i state =
    let emoji = get_or slots i [] in
    let robbed = hang state r.target (set slots i []) in
    (emoji, value_or (put_on robbed r.raider emoji) robbed)

board_from : Raid → List Text → List ℕ → Game Text
unfolding carry_off
board_from r slots [] = pure []
board_from r slots (j ∷ there) = do
  drawn ← random_index (length (j ∷ there))
  update (carry_off r slots (get_or (j ∷ there) drawn 0))

board_lucky : Raid → Bool → Game Text
unfolding board_from
board_lucky r lucky = do
  state ← get_state
  (if lucky && is_some (free_slot (gear_of state r.raider) carried_limit)
      then board_from r (slots_of state r.target)
          (boardable state r.target (slots_of state r.target))
      else pure [])

-- A raid that got through may carry off an emoji.
unfoldable pub board : RaidRules → Raid → Game Text
unfolding board_lucky
board rules r = do
  pirates ← gets (λ st. carried_copies st r.raider pirate)
  lucky ← chance_below (power_percent pirates rules.pirate_percent)
  board_lucky r lucky

-- What the alarms leave of a chance.
unfoldable pub quiet_chance : RaidRules → ConquisterState → Text → ℤ → ℤ
unfolding max_ℤ
quiet_chance rules state target chance =
    max_ℤ (pos 0) (chance -ℤ house_copies state target alarm *ℤ max_ℤ rules.alarm_percent (pos 0))

-- Whether the raider slips past what guards the house, and whether an alarm gave him away.
unfoldable pub sneaks : RaidRules → Raid → ℤ → Game (Bool × Bool)
sneaks rules r now = do
  state ← get_state
  let guarded =
      balloon_there state r.target Whereabouts.home now
      || ltb_ℤ (pos 0) (house_copies state r.target dog)
  let chance = power_percent (carried_copies state r.raider ninja) rules.ninja_percent
  (if not guarded || leb_ℤ chance (pos 0) then pure (false, false) else (do
    roll ← random_index 100
    let sneaked = ltb_ℤ (pos roll) (quiet_chance rules state r.target chance)
    pure (sneaked, not sneaked && ltb_ℤ (pos roll) chance)))

-- The dinosaur of the house may eat one of the emoji that the raider has on him.
unfoldable pub eat : RaidRules → Raid → Game Text
eat rules r = do
  dinos ← gets (λ st. house_copies st r.target dino)
  hungry ← chance_below (power_percent dinos rules.dino_percent)
  eaten ← (if hungry then blow_up r.raider true else pure [])
  pure (get_or eaten 0 [])

-- What is taken: the road, never more than is there, less the share of the pleading ones.
unfoldable pub loot_of : ℤ → ℤ → ℤ → ℤ × ℤ
unfolding min_ℤ
loot_of theirs carried pleaded =
    let taken = min_ℤ theirs carried in
    let spared = taken *ℤ pleaded /ℤ pos 100 in (taken -ℤ spared, spared)

unfoldable pub take_loot : ℕ → Text → ℤ → ℤ → ConquisterState → ConquisterState
unfolding change_at
take_loot i target theirs loot state =
    change_at i (λ r. record r { loot = loot })
      (if ltb_ℤ (pos 0) loot
        then record state { scores = insert target (theirs -ℤ loot) state.scores }
        else state)

-- The palle that the road carries.
unfoldable pub road_palle : RaidRules → ℤ → ℤ → ℤ → Bool → ℤ
road_palle rules road raider_percent target_percent golden =
    let walked = if ltb_ℤ (pos 0) rules.loot_divisor then road /ℤ rules.loot_divisor else road in
    walked *ℤ raider_percent /ℤ target_percent *ℤ (if golden then pos 2 else pos 1)

rob : ℕ → RaidRules → ℕ → Raid → ℤ → RaidEvent → Game RaidEvent
rob fuel rules i r now event = do
  before ← get_state
  let theirs = counter before.scores r.target
  from ← player_id fuel r.raider
  to ← player_id fuel r.target
  let road = distance (coordinates_of from) (coordinates_of to)
  let raider_percent = day_percent event.raider now rules.signs
  let target_percent = day_percent event.target now rules.signs
  let golden =
      leb_ℤ (pos 0) rules.golden_hour && eqb_ℤ (rules.signs.zone.local_hour now) rules.golden_hour
  pleas ← gets (λ st. house_copies st r.target pleading)
  let pleaded = power_percent pleas rules.pleading_percent
  let (loot, spared) =
      loot_of theirs (road_palle rules road raider_percent target_percent golden) pleaded
  modify (take_loot i r.target theirs loot)
  boarded ← board rules r
  pure (record event {
    undefended = not (at_home before r.target);
    distance = road;
    raider_percent = raider_percent;
    target_percent = target_percent;
    golden = golden;
    pleaded_percent = pleaded;
    spared = spared;
    loot = loot;
    boarded = boarded;
  })

nothing_taken : ℕ → Game (Unit {0})
nothing_taken i = modify (change_at i (λ r. record r { loot = pos 0 }))

-- Past the balloon: the dogs, and then the house.
past_balloon : ℕ → RaidRules → ℕ → Raid → ℤ → RaidEvent → Game RaidEvent
unfolding rob nothing_taken
past_balloon fuel rules i r now event = do
  dogs ← gets (λ st. house_copies st r.target dog)
  caught ←
      (if event.sneaked then pure false else chance_below (power_percent dogs rules.dog_percent))
  (if caught
      then (do nothing_taken i; pure (record event { intercepted = true }))
      else rob fuel rules i r now event)

held_off : ℕ → Raid → RaidEvent → Game RaidEvent
unfolding nothing_taken
held_off i r event = do
  next ← gets (λ st. balloon_pop_chance st r.target)
  nothing_taken i
  pure (record event { balloon_held = true; next_chance = next })

at_the_balloon : ℕ → RaidRules → ℕ → Raid → ℤ → RaidEvent → BalloonRoll → Game RaidEvent
unfolding held_off past_balloon
at_the_balloon fuel rules i r now event held = held_off i r event
at_the_balloon fuel rules i r now event popped =
    past_balloon fuel rules i r now (record event { balloon_popped = true })
at_the_balloon fuel rules i r now event none_there = past_balloon fuel rules i r now event

-- Whoever came to rob.
unfoldable pub raid_house : ℕ → RaidRules → ℕ → Raid → ℤ → RaidEvent → Game RaidEvent
unfolding at_the_balloon past_balloon
raid_house fuel rules i r now event = do
  (sneaked, alarmed) ← sneaks rules r now
  let event' = record event { sneaked = sneaked; alarmed = alarmed }
  roll ← (if sneaked then pure none_there else balloon_attempt r.target Whereabouts.home now)
  at_the_balloon fuel rules i r now event' roll
