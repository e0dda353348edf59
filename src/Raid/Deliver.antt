-- ===== src/Raid/Deliver.antt =====
-- Whoever comes to bring or to throw something: that part of `raid_due` in src/game.cpp.
use norelecbot.Base.{[], if◌then◌else◌, none, not, some, true, ℕ, ◌&&◌, ◌||◌}
use norelecbot.Base.Int.{ltb_ℤ, pos, ℤ, ◌+ℤ◌}
use norelecbot.Claim.Result.{power_percent}
use norelecbot.Event.{EventKind, RaidEvent}
use norelecbot.Gear.{house_copies, is_pugliese, receive, shown_gear}
use norelecbot.Landing.{chance_below, land}
use norelecbot.Place.{Whereabouts, at_home}
use norelecbot.Power.{is_power, is_thrown, mailbox, seed}
use norelecbot.Raid.Change.{change_at}
use norelecbot.Rules.{RaidRules}
use norelecbot.Session.{Game, get_state, gets, modify, pure, update, ◌>>=◌, ◌>>◌}
use norelecbot.State.{ConquisterState, Raid}
use norelecbot.Table.{counter, insert}
use norelecbot.Text.{is_empty}

-- Something thrown, which a mailbox may send back.
throw_at : RaidRules → ℕ → Raid → ℤ → RaidEvent → Game RaidEvent
unfolding change_at
throw_at rules i r now event = do
  boxes ← gets (λ st. house_copies st r.target mailbox)
  back ← chance_below (power_percent boxes rules.mailbox_percent)
  landing ←
      (if back
        then land (record rules { bomb_dud_percent = pos 0 }) r.gift_emoji r.raider r.raider
            Whereabouts.home now
        else land rules r.gift_emoji r.raider r.target Whereabouts.home now)
  modify (change_at i (λ x. record x { gift_emoji = [] }))
  state ← get_state
  pure (record event {
    sent_back = back;
    raider_smeared = event.raider_smeared || (back && landing.smeared);
    target_smeared = event.target_smeared || (not back && landing.smeared);
    raider_pugliese = is_pugliese state r.raider;
    target_pugliese = is_pugliese state r.target;
    backfired = landing.backfired;
    reset = landing.reset;
    expecting = landing.expecting;
    froze = landing.froze;
    melted = landing.melted;
    blown = landing.blown;
    raider_emoji = shown_gear state r.raider;
    target_emoji = shown_gear state r.target;
  })

-- Something given, which is hung where there is room.
hand_emoji : RaidRules → ℕ → Raid → RaidEvent → ConquisterState → RaidEvent × ConquisterState
unfolding change_at
hand_emoji rules i r event state =
    elim (receive state r.target r.gift_emoji rules.furniture_limit) [
      | none ↦ (record event { no_room = true }, state)
      | some (with_him, state') ↦
          let state'' = change_at i (λ x. record x { gift_emoji = [] }) state' in
          (
            record event { gift_with_him = with_him; target_emoji = shown_gear state'' r.target },
            state'',
          )
    ]

deliver_emoji : RaidRules → ℕ → Raid → ℤ → RaidEvent → Game RaidEvent
unfolding throw_at hand_emoji
deliver_emoji rules i r now event = do
  state ← get_state
  (if is_thrown r.gift_emoji
        && (not r.intact && (is_power r.gift_emoji seed && not (at_home state r.target)))
      then pure (record event { nobody_home = true })
      else if is_thrown r.gift_emoji && not r.intact
      then throw_at rules i r now event
      else update (hand_emoji rules i r event))

-- The palle that he brought are the target's now.
unfoldable pub deliver_palle : ℕ → Raid → ConquisterState → ConquisterState
unfolding change_at
deliver_palle i r state =
    if ltb_ℤ (pos 0) r.gift
    then change_at i (λ x. record x { gift = pos 0 })
        (record state {
          scores = insert r.target (counter state.scores r.target +ℤ r.gift) state.scores;
        })
    else state

unfoldable pub deliver : RaidRules → ℕ → Raid → ℤ → RaidEvent → Game RaidEvent
unfolding deliver_emoji
deliver rules i r now event = do
  modify (deliver_palle i r)
  let event' = record event { kind = EventKind.delivered; gift = r.gift }
  (if is_empty r.gift_emoji
      then pure event'
      else deliver_emoji rules i r now
          (record event' { gift_emoji = r.gift_emoji; intact = r.intact }))
