-- ===== src/Raid/Depart.antt =====
-- Setting off for somebody else: that part of `raid_start` in src/game.cpp.
use norelecbot.Base.{
  Bool, Option, [], false, if◌then◌else◌, inl, inr, is_some, none, not, some, value_or, ℕ, ◌&&◌,
  ◌++◌, ◌||◌, ◌∷◌, ◌⊎◌,
}
use norelecbot.Base.Int.{eqb_ℤ, ltb_ℤ, max_ℤ, pos, ℤ, ◌*ℤ◌, ◌+ℤ◌, ◌-ℤ◌, ◌/ℤ◌}
use norelecbot.Claim.Result.{newcomer_seconds}
use norelecbot.Gear.{
  can_receive, carried_copies, gear_of, gear_slot_holding, slot_holding, take_emoji,
}
use norelecbot.Identity.{player_id}
use norelecbot.Place.{display_name, frozen_for, is_conquister, raid_of, whereabouts}
use norelecbot.Position.{coordinates_of, distance, shortest_travel, travel_seconds}
use norelecbot.Power.{is_thrown, rocket}
use norelecbot.Raid.Request.{RaidResult, RaidStatus, Trip, fresh_raid}
use norelecbot.Rules.{RaidRules}
use norelecbot.Session.{
  Game, get_state, gets, modify, notify, pure, put_state, told_ride, update, ◌>>=◌, ◌>>◌,
}
use norelecbot.Slots.{carried_limit, free_slot}
use norelecbot.State.{ConquisterState, Raid}
use norelecbot.Table.{counter, insert, lookup}
use norelecbot.Text.{Text, is_empty}

-- A blow, which a newcomer is spared: to rob him, or something thrown.
unfoldable pub is_blow : Trip → Bool
is_blow t =
    eqb_ℤ t.gift (pos 0) && (is_empty t.gift_emoji || (not t.intact && is_thrown t.gift_emoji))

unfoldable pub protected_for : ConquisterState → Text → ℤ → ℤ
protected_for state known now = elim (lookup known state.joined) [
  | none ↦ pos 0
  | some came ↦
      if ltb_ℤ (now -ℤ came) newcomer_seconds then newcomer_seconds -ℤ (now -ℤ came) else pos 0
]

-- Why he does not set off, before anything is taken along; nothing when he may.
unfoldable pub departure_refused : Text → Text → Trip → ℤ → ConquisterState → Option RaidResult
unfolding max_ℤ
departure_refused username known t now state = elim (raid_of state username) [
  | some r ↦ some (record fresh_raid {
    status = RaidStatus.already_travelling;
    seconds = max_ℤ (r.back -ℤ now) (pos 0);
  })
  | none ↦
      if is_blow t && ltb_ℤ (pos 0) (protected_for state known now)
      then some (record fresh_raid {
        status = RaidStatus.protected_target;
        target = display_name state known;
        seconds = protected_for state known now;
      })
      else if ltb_ℤ (pos 0) (frozen_for state username now)
      then some (record fresh_raid {
        status = RaidStatus.frozen;
        seconds = frozen_for state username now;
      })
      else if is_conquister (whereabouts state username)
      then some (record fresh_raid { status = RaidStatus.holding_place })
      else none
]

-- The palle that he takes along leave home with him.
unfoldable pub take_palle : Text → ℤ → ConquisterState → (RaidResult ⊎ RaidResult) × ConquisterState
take_palle username gift state =
    let score = counter state.scores username in
    if eqb_ℤ gift (pos 0)
    then (inr fresh_raid, state)
    else if ltb_ℤ gift (pos 0)
    then (inl (record fresh_raid { status = RaidStatus.invalid_amount }), state)
    else if ltb_ℤ score gift
    then (inl (record fresh_raid { status = RaidStatus.insufficient_score; score = score }), state)
    else (
      inr (record fresh_raid { score = score -ℤ gift }),
      record state { scores = insert username (score -ℤ gift) state.scores },
    )

-- The emoji that he takes along: why it stays, or the state without it.
unfoldable pub pack_emoji :
    RaidRules → Text → Text → Trip → ConquisterState → RaidStatus ⊎ ConquisterState
pack_emoji rules username known t state =
    let on_him = is_some (gear_slot_holding state username t.gift_emoji) in
    if is_empty t.gift_emoji
    then inr state
    else if not on_him && not (is_some (slot_holding state username t.gift_emoji))
    then inl RaidStatus.no_such_emoji
    else if not on_him && not (is_some (free_slot (gear_of state username) carried_limit))
    then inl RaidStatus.hands_full
    else if (t.intact || not (is_thrown t.gift_emoji))
        && not (can_receive state known t.gift_emoji rules.furniture_limit)
    then inl RaidStatus.no_room
    else inr (value_or (take_emoji state username t.gift_emoji) state)

-- The ride with the rockets that he has on him as he leaves.
unfoldable pub ride_seconds : RaidRules → ℤ → ℤ → ℤ
unfolding max_ℤ
ride_seconds rules rockets road =
    let plain = travel_seconds road rules.travel_divisor in
    if ltb_ℤ (pos 0) rockets && ltb_ℤ (pos 0) rules.rocket_percent
    then max_ℤ shortest_travel (plain *ℤ pos 100 /ℤ (pos 100 +ℤ rockets *ℤ rules.rocket_percent))
    else plain

unfoldable pub new_ride : Text → Text → Trip → ℤ → ℤ → Raid
new_ride username known t now seconds = record {
  raider = username;
  target = known;
  arrive = now +ℤ seconds;
  back = now +ℤ pos 2 *ℤ seconds;
  arrived = false;
  loot = pos 0;
  gift = t.gift;
  gift_emoji = t.gift_emoji;
  intact = t.intact;
}

-- The ride is put behind the others, and the sentinel hears of it.
unfoldable pub ride_out :
    RaidRules → Text → Text → Trip → ℤ → RaidResult → Text → ℤ → ℤ → Game RaidResult
unfolding new_ride
ride_out rules username known t now outcome target home theirs = do
  rockets ← gets (λ st. carried_copies st username rocket)
  let seconds = ride_seconds rules rockets (distance (coordinates_of home) (coordinates_of theirs))
  notify (
      told_ride username known
        (not (eqb_ℤ t.gift (pos 0))
          || (not (is_empty t.gift_emoji) && (t.intact || not (is_thrown t.gift_emoji))))
        now)
  modify (λ st. record st { raids = st.raids ++ new_ride username known t now seconds ∷ [] })
  pure (record outcome { target = target; seconds = seconds })

unfoldable pub find_them :
    ℕ → RaidRules → Text → Text → Trip → ℤ → RaidResult → Text → ℤ → Game RaidResult
unfolding ride_out
find_them fuel rules username known t now outcome target home = do
  theirs ← player_id fuel known
  ride_out rules username known t now outcome target home theirs

-- He sets off: both homes are looked up, and then the ride begins.
unfoldable pub set_off : ℕ → RaidRules → Text → Text → Trip → ℤ → RaidResult → Game RaidResult
unfolding find_them
set_off fuel rules username known t now outcome = do
  target ← gets (λ st. display_name st known)
  home ← player_id fuel username
  find_them fuel rules username known t now outcome target home

unfoldable pub packed :
    ℕ
    → RaidRules
    → Text
    → Text
    → Trip
    → ℤ
    → RaidResult
    → RaidStatus ⊎ ConquisterState
    → Game RaidResult
packed fuel rules username known t now outcome (inl why) = pure (record outcome { status = why })
packed fuel rules username known t now outcome (inr state) = do
  put_state state
  set_off fuel rules username known t now outcome

unfoldable pub loaded :
    ℕ → RaidRules → Text → Text → Trip → ℤ → RaidResult ⊎ RaidResult → Game RaidResult
unfolding packed
loaded fuel rules username known t now (inl outcome) = pure outcome
loaded fuel rules username known t now (inr outcome) = do
  state ← get_state
  packed fuel rules username known t now outcome (pack_emoji rules username known t state)

unfoldable pub depart : ℕ → RaidRules → Text → Text → Trip → ℤ → Game RaidResult
unfolding loaded
depart fuel rules username known t now = do
  state ← get_state
  elim (departure_refused username known t now state) [
    | some outcome ↦ pure outcome
    | none ↦
        ◌>>=◌ (update (take_palle username t.gift))
          (λ taken. loaded fuel rules username known t now taken)
  ]
