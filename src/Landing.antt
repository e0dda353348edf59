-- ===== src/Landing.antt =====
-- What a thrown emoji does where it lands: `start_over`, `blow_up` and `land` of src/game.cpp.
use norelecbot.Base.{
  Bool, List, [], erase_if, false, get_or, if◌then◌else◌, length, none, not, set, some, suc, true,
  ℕ, ◌&&◌, ◌++◌, ◌||◌, ◌∷◌,
}
use norelecbot.Base.Int.{ltb_ℤ, max_ℤ, pos, ℤ, ◌*ℤ◌, ◌+ℤ◌, ◌-ℤ◌, ◌/ℤ◌}
use norelecbot.Claim.Result.{power_percent}
use norelecbot.Gear.{carried_copies, gear_of, hang, hang_gear, slots_of, smear}
use norelecbot.Identity.{known_players}
use norelecbot.Place.{Whereabouts, is_conquister, whereabouts}
use norelecbot.Power.{balloon, bomb, fire_power, ice, is_power, nuke, poo, power_of, seed}
use norelecbot.Rules.{RaidRules}
use norelecbot.Session.{Game, backup, gets, modify, pure, random_index, update, ◌>>=◌, ◌>>◌}
use norelecbot.State.{ConquisterState, Raid}
use norelecbot.Table.{Authors, Counters, contains, erase, insert}
use norelecbot.Text.{Text, is_empty, text_eq, utf8}
use norelecbot.Text.Number.{to_string}

pub record Landing : Type 0 where
  pub smeared : Bool
  pub backfired : Bool
  pub reset : Bool
  pub expecting : ℤ
  pub froze : ℤ
  pub melted : Bool
  pub blown : List Text

abbrev pub no_landing : Landing
no_landing = record {
  smeared = false;
  backfired = false;
  reset = false;
  expecting = pos 0;
  froze = pos 0;
  melted = false;
  blown = [];
}

unfoldable pub zero_scores : Counters → Counters
zero_scores [] = []
zero_scores ((k, v) ∷ m) = (k, pos 0) ∷ zero_scores m

unfoldable pub give_balloons : List Text → Authors → Authors
give_balloons [] m = m
give_balloons (p ∷ players) m = give_balloons players (insert p balloon.emoji m)

-- The game starts over: `start_over(state)`.
unfoldable pub start_over : ConquisterState → ConquisterState
unfolding zero_scores give_balloons
start_over state = record state {
  scores = zero_scores state.scores;
  current = none;
  furniture = [];
  equipped = give_balloons (known_players (record state { scores = zero_scores state.scores })) [];
  raids = [];
  balloons = [];
  cooldowns = [];
  smeared = [];
  frozen = [];
  pregnancies = [];
  children = [];
  knocks = [];
  pugliesi = [];
}

unfoldable pub end_rides : Text → ℤ → List Raid → List Raid
end_rides player now [] = []
end_rides player now (r ∷ raids) =
    (if text_eq r.raider player
      then record r { arrived = true; back = now; loot = pos 0; gift = pos 0; gift_emoji = [] }
      else r)
    ∷ end_rides player now raids

-- One player starts over: `start_over(state, player, now)`.
unfoldable pub start_over_player : ConquisterState → Text → ℤ → ConquisterState
unfolding end_rides
start_over_player state player now =
    let zeroed =
      if contains player state.scores
      then record state { scores = insert player (pos 0) state.scores }
      else state in
    let out =
      if is_conquister (whereabouts zeroed player)
      then record zeroed { current = none }
      else zeroed in
    let bare = hang (record out { raids = end_rides player now out.raids }) player [] in
    record bare {
      equipped = insert player balloon.emoji bare.equipped;
      pregnancies = erase_if (λ p. text_eq p.mother player) bare.pregnancies;
      children = erase_if (λ c. text_eq c.owner player) bare.children;
      balloons = erase player bare.balloons;
      cooldowns = erase player bare.cooldowns;
      smeared = erase player bare.smeared;
    }

-- The slots, from `slot` on, whose emoji passes.
unfoldable pub slots_where : (ℕ → Text → Bool) → ℕ → List Text → List ℕ
slots_where p slot [] = []
slots_where p slot (s ∷ slots) =
    let rest = slots_where p (suc slot) slots in if p slot s then slot ∷ rest else rest

-- An emoji with a power that is not untouchable.
unfoldable pub is_exposed : Text → Bool
is_exposed s = not (is_empty s) && elim (power_of s) [ none ↦ false | some p ↦ not p.untouchable ]

unfoldable pub exposed_slots : List Text → List ℕ
unfolding slots_where is_exposed
exposed_slots slots = slots_where (λ i s. is_exposed s) 0 slots

blow_slot : Text → Bool → List Text → ℕ → Game (List Text)
blow_slot target on_him slots hit = do
  modify (λ st.
      if on_him then hang_gear st target (set slots hit []) else hang st target (set slots hit []))
  pure (get_or slots hit [] ∷ [])

blow_from : Text → Bool → List Text → List ℕ → Game (List Text)
unfolding blow_slot
blow_from target on_him slots [] = pure []
blow_from target on_him slots (i ∷ there) = do
  drawn ← random_index (length (i ∷ there))
  blow_slot target on_him slots (get_or (i ∷ there) drawn 0)

-- One emoji drawn among those that are exposed is gone; nothing when there is none.
unfoldable pub blow_up : Text → Bool → Game (List Text)
unfolding blow_from
blow_up target on_him = do
  slots ← gets (λ st. if on_him then gear_of st target else slots_of st target)
  blow_from target on_him slots (exposed_slots slots)

unfoldable pub reset_tag : ℤ → Text
unfolding utf8
reset_tag now = utf8 "before-reset-" ++ to_string now

land_poo : RaidRules → Text → ℤ → Game Landing
land_poo rules victim now = do
  modify (λ st. smear st victim now rules.smeared_seconds)
  pure (record no_landing { smeared = true })

-- A draw below a percentage, made only when the percentage is above zero.
unfoldable pub chance_below : ℤ → Game Bool
chance_below percent =
    if ltb_ℤ (pos 0) percent
    then (do roll ← random_index 100; pure (ltb_ℤ (pos roll) percent))
    else pure false

land_bomb : RaidRules → Text → Text → Whereabouts → Game Landing
land_bomb rules thrower victim site = do
  dud ← chance_below rules.bomb_dud_percent
  blown ← blow_up (if dud then thrower else victim) (dud || is_conquister site)
  pure (record no_landing { backfired = dud; blown = blown })

land_nuke : Text → ℤ → Game Landing
land_nuke victim now = do
  backup (reset_tag now)
  modify (λ st. start_over_player st victim now)
  pure (record no_landing { reset = true })

land_seed : RaidRules → Text → Text → ℤ → Game Landing
unfolding max_ℤ
land_seed rules thrower victim now = do
  let wait = max_ℤ rules.pregnancy_seconds (pos 0)
  modify (λ st. record st {
    pregnancies =
        st.pregnancies ++ record { mother = victim; father = thrower; due = now +ℤ wait } ∷ [];
  })
  pure (record no_landing { expecting = max_ℤ wait (pos 1) })

-- Ice: every fire that the victim has with him melts its share.
unfoldable pub land_ice : RaidRules → Text → ℤ → ConquisterState → Landing × ConquisterState
unfolding max_ℤ
land_ice rules victim now state =
    let melt = power_percent (carried_copies state victim fire_power) rules.fire_percent in
    let froze = max_ℤ rules.frozen_seconds (pos 0) *ℤ (pos 100 -ℤ melt) /ℤ pos 100 in
    (
      record no_landing { melted = ltb_ℤ (pos 0) melt; froze = froze },
      if ltb_ℤ (pos 0) froze
          then record state { frozen = insert victim (now +ℤ froze) state.frozen }
          else state,
    )

unfoldable pub land : RaidRules → Text → Text → Text → Whereabouts → ℤ → Game Landing
unfolding land_poo land_bomb land_nuke land_seed
land rules emoji thrower victim site now =
    if is_power emoji poo
    then land_poo rules victim now
    else if is_power emoji bomb
    then land_bomb rules thrower victim site
    else if is_power emoji nuke
    then land_nuke victim now
    else if is_power emoji seed
    then land_seed rules thrower victim now
    else if is_power emoji ice
    then update (land_ice rules victim now)
    else pure no_landing
