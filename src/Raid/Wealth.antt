-- ===== src/Raid/Wealth.antt =====
-- All palle there are, on file and on the road, as somebody sets off or turns home.
use norelecbot.Base.{
  Bool-cases, List, Option, Option-cases, [], any_of, ap, arith, inl, inr, none, refl, some, suc,
  true, zero, ℕ, ◌%◌, ◌++◌, ◌∙◌, ◌∷◌, ◌≡◌, ◌⊎◌,
}
use norelecbot.Base.Int.{eqb_ℤ, int_laws, pos, ℤ, ◌+ℤ◌, ◌-ℤ◌}
use norelecbot.Claim.Effect.{Paid, remember_platform-Keeps, settle_hold-Paid}
use norelecbot.Gear.{carried_copies, hang, hang_gear, take_emoji}
use norelecbot.Hold.{Settlement, leave_place, settle_hold}
use norelecbot.Identity.{draw_id, give_id, id_count, player_by_name, player_id, remember_platform}
use norelecbot.Place.{display_name, is_conquister, raid_of, whereabouts}
use norelecbot.Position.{coordinates_of, distance}
use norelecbot.Power.{rocket}
use norelecbot.Raid.{is_homewards, raid_start}
use norelecbot.Raid.Depart.{
  depart, departure_refused, find_them, loaded, new_ride, pack_emoji, packed, ride_out,
  ride_seconds, set_off, take_palle,
}
use norelecbot.Raid.Homewards.{change_ride, go_homewards, leave_homewards, left_with, turn_back}
use norelecbot.Raid.Request.{RaidResult, RaidStatus, Trip}
use norelecbot.Rules.{RaidRules}
use norelecbot.Session.{Session, attempt, notify, random_index, score_overflow}
use norelecbot.Session.Ensures.{Ensures, Ensures-bind, Ensures-weaken}
use norelecbot.State.{ConquisterState, Raid}
use norelecbot.Table.{Counters, counter, lookup}
use norelecbot.Table.Total.{total, total-insert}
use norelecbot.Text.{Text, is_empty}
use norelecbot.Zodiac.{Sky}

unfoldable pub on_the_way : List Raid → ℤ
on_the_way [] = pos 0
on_the_way (r ∷ raids) = r.loot +ℤ r.gift +ℤ on_the_way raids

unfoldable pub wealth : ConquisterState → ℤ
unfolding on_the_way
wealth st = total st.scores +ℤ on_the_way st.raids

-- The scores and the rides, and so all palle, are as they were.
abbrev Apart : ConquisterState → ConquisterState → Type 0
Apart st st' = (st'.scores ≡ st.scores) × (st'.raids ≡ st.raids)

Apart-wealth : (st st' : ConquisterState) → Apart st st' → wealth st' ≡ wealth st
unfolding wealth
Apart-wealth st st' (a, b) = rw (a, b) refl

draw_id_state :
    (fuel : ℕ) (ids : Counters) (s : Session)
    → Ensures (λ r s'. s'.state ≡ s.state) (draw_id fuel ids s)
unfolding draw_id random_index
draw_id_state zero ids s = tt
draw_id_state (suc fuel) ids s =
    elim (Bool-cases (any_of (λ e. eqb_ℤ e.1 (pos (s.draws s.drawn % id_count))) ids)) [
      | inl taken ↦ rw (taken, Ensures) (draw_id_state fuel ids (record s { drawn = suc s.drawn }))
      | inr free ↦ rw (free, Ensures) refl
    ]

give_id-Apart :
    (username : Text) (drawn : ℤ) (s s' : Session)
    → s'.state ≡ s.state
    → Ensures (λ r s''. Apart s.state s''.state) (give_id username drawn s')
unfolding give_id
give_id-Apart username drawn s s' e =
    (ap (λ (st : ConquisterState). st.scores) e, ap (λ (st : ConquisterState). st.raids) e)

player_id-Apart :
    (fuel : ℕ) (username : Text) (s : Session)
    → Ensures (λ r s'. Apart s.state s'.state) (player_id fuel username s)
unfolding player_id
player_id-Apart fuel username s = elim (Option-cases (lookup username s.state.ids)) [
  | inl unknown ↦
      rw (unknown, Ensures)
        (Ensures-bind (λ r s'. Apart s.state s'.state) (λ r s'. s'.state ≡ s.state)
          (draw_id fuel s.state.ids) (give_id username) s (draw_id_state fuel s.state.ids s)
          λ drawn s' e. give_id-Apart username drawn s s' e)
  | inr (id, known) ↦ rw (known, Ensures) (refl, refl)
]

on_the_way-append :
    (raids : List Raid) (r : Raid)
    → on_the_way (raids ++ r ∷ []) ≡ on_the_way raids +ℤ (r.loot +ℤ r.gift)
unfolding on_the_way
on_the_way-append [] r = grind int_laws
on_the_way-append (q ∷ raids) r = grind (int_laws, on_the_way-append raids r)

on_the_way-change_ride :
    (player : Text) (now : ℤ) (raids : List Raid)
    → on_the_way (change_ride player (turn_back now) raids) ≡ on_the_way raids
unfolding on_the_way change_ride turn_back
on_the_way-change_ride player now [] = refl
on_the_way-change_ride player now (r ∷ raids) =
    grind (int_laws, on_the_way-change_ride player now raids)

-- Who leaves the place is paid for it.
abbrev Settled : ConquisterState → Option (Settlement × ConquisterState) → Type 0
Settled st none = Unit
Settled st (some (s, st')) = wealth st' ≡ wealth st +ℤ s.earned

Paid-Settled :
    (st : ConquisterState) (holder : Text) (o : Option (Settlement × ConquisterState))
    → Paid st holder o
    → Settled st o
unfolding wealth
Paid-Settled st holder none h = tt
Paid-Settled st holder (some (s, st')) (raids, scores) =
    rw (raids, scores)
      (grind (int_laws, total-insert holder (counter st.scores holder +ℤ s.earned) st.scores))

leave_place-Settled :
    (st : ConquisterState) (now : ℤ) (sky : Sky) → Settled st (leave_place st now sky)
unfolding leave_place wealth
leave_place-Settled st now sky = elim (Option-cases st.current) [
  | inl e ↦ rw (e, Settled) (grind int_laws)
  | inr (hold, e) ↦
      rw (e, Settled)
        (Paid-Settled (record st { current = none }) hold.username
          (settle_hold (record st { current = none }) hold now sky)
          (settle_hold-Paid (record st { current = none }) hold now sky))
]

abbrev Earned : ConquisterState → Option (RaidResult × ConquisterState) → Type 0
Earned st none = Unit
Earned st (some (r, st')) = wealth st' ≡ wealth st +ℤ r.earned

leave_homewards-Earned :
    (sky : Sky) (now : ℤ) (st : ConquisterState) → Earned st (leave_homewards sky now st)
unfolding leave_homewards
leave_homewards-Earned sky now st = go (leave_place st now sky) (leave_place-Settled st now sky)
  where
    go :
        (o : Option (Settlement × ConquisterState))
        → Settled st o
        → Earned st (elim o [ none ↦ none | some (s, state') ↦ some (left_with s, state') ])
    go none h = tt
    go (some (s, st')) h = h

go_homewards-Earned :
    (username : Text) (sky : Sky) (now : ℤ) (st : ConquisterState)
    → Earned st (go_homewards username sky now st)
unfolding go_homewards wealth
go_homewards-Earned username sky now st = elim (Option-cases (raid_of st username)) [
  | inr (r, e) ↦ rw (e, Earned) (rw (on_the_way-change_ride username now st.raids) (grind int_laws))
  | inl e ↦ elim (Bool-cases (is_conquister (whereabouts st username))) [
    | inl inside ↦ rw (e, inside, Earned) (leave_homewards-Earned sky now st)
    | inr elsewhere ↦ rw (e, elsewhere, Earned) (grind int_laws)
  ]
]

module _ (fuel : ℕ) (rules : RaidRules) (username known : Text) (t : Trip) (now : ℤ) where
  -- The ride takes its gift along.
  abbrev Rides : ConquisterState → RaidResult → RaidResult → Session → Type 0
  Rides st outcome r s' = (r.earned ≡ outcome.earned) × (wealth s'.state ≡ wealth st +ℤ t.gift)

  ride_out-Rides :
      (st : ConquisterState) (outcome : RaidResult) (target : Text) (home theirs : ℤ) (s : Session)
      → Apart st s.state
      → Ensures
          (Rides st outcome)
          (ride_out rules username known t now outcome target home theirs s)
  unfolding ride_out notify new_ride wealth
  ride_out-Rides st outcome target home theirs s (a, b) =
      let r = new_ride username known t now (
        ride_seconds rules (carried_copies s.state username rocket)
          (distance (coordinates_of home) (coordinates_of theirs))) in
      (refl, rw (a, b) (grind (int_laws, on_the_way-append st.raids r)))

  find_them-Rides :
      (st : ConquisterState) (outcome : RaidResult) (target : Text) (home : ℤ) (s : Session)
      → Apart st s.state
      → Ensures (Rides st outcome) (find_them fuel rules username known t now outcome target home s)
  unfolding find_them
  find_them-Rides st outcome target home s (a, b) =
      Ensures-bind (Rides st outcome) (λ r s'. Apart s.state s'.state) (player_id fuel known)
        (ride_out rules username known t now outcome target home) s (player_id-Apart fuel known s)
        λ theirs s' (c, d). ride_out-Rides st outcome target home theirs s' (c ∙ a, d ∙ b)

  set_off-Rides :
      (outcome : RaidResult) (s : Session)
      → Ensures (Rides s.state outcome) (set_off fuel rules username known t now outcome s)
  unfolding set_off
  set_off-Rides outcome s =
      let target = display_name s.state known in
      Ensures-bind (Rides s.state outcome) (λ r s'. Apart s.state s'.state)
        (player_id fuel username) (find_them fuel rules username known t now outcome target) s
        (player_id-Apart fuel username s)
        λ home s' h. find_them-Rides s.state outcome target home s' h

  -- What the whole departure does to all palle, as the result tells it.
  abbrev Told : ConquisterState → RaidResult → Session → Type 0
  Told st r s' = wealth s'.state ≡ wealth st +ℤ r.earned

  pack_emoji-Apart :
      (st st' : ConquisterState) → pack_emoji rules username known t st ≡ inr st' → Apart st st'
  unfolding pack_emoji take_emoji hang_gear hang
  pack_emoji-Apart st st' e = ground arith

  packed-Told :
      (st : ConquisterState) (outcome : RaidResult) (s : Session)
      → outcome.earned ≡ pos 0
      → wealth s.state +ℤ t.gift ≡ wealth st
      → ((why : RaidStatus) → pack_emoji rules username known t s.state ≡ inl why → t.gift ≡ pos 0)
      → (o : RaidStatus ⊎ ConquisterState) → pack_emoji rules username known t s.state ≡ o
      → Ensures (Told st) (packed fuel rules username known t now outcome o s)
  unfolding packed
  packed-Told st outcome s z w n (inl why) e = grind (int_laws, n why e)
  packed-Told st outcome s z w n (inr st') e =
      let kept = Apart-wealth s.state st' (pack_emoji-Apart s.state st' e) in
      Ensures-weaken (Rides st' outcome) (Told st)
        (set_off fuel rules username known t now outcome (record s { state = st' }))
        (set_off-Rides outcome (record s { state = st' })) λ r s' (a, b). grind int_laws

  -- One thing at a time: palle or an emoji.
  module _ (one : (t.gift ≡ pos 0) ⊎ (is_empty t.gift_emoji ≡ true)) where
    refused_empty :
        (st : ConquisterState) (why : RaidStatus)
        → pack_emoji rules username known t st ≡ inl why
        → t.gift ≡ pos 0
    unfolding pack_emoji
    refused_empty st why e = ground arith

    wealth-take_palle :
        (st : ConquisterState)
        → let (taken, st') = take_palle username t.gift st in
          ((outcome : RaidResult) → taken ≡ inl outcome → (outcome.earned ≡ pos 0) × (st' ≡ st))
          × ((outcome : RaidResult)
              → taken ≡ inr outcome
              → (outcome.earned ≡ pos 0) × (wealth st' +ℤ t.gift ≡ wealth st))
    unfolding take_palle wealth
    wealth-take_palle st =
        let score = counter st.scores username in
        (
          λ outcome e. ground arith,
          λ outcome e. grind (int_laws, total-insert username (score -ℤ t.gift) st.scores),
        )

    loaded-Told :
        (st : ConquisterState) (s : Session) (taken : RaidResult ⊎ RaidResult)
        → ((outcome : RaidResult) → taken ≡ inl outcome → (outcome.earned ≡ pos 0) × (s.state ≡ st))
        → ((outcome : RaidResult)
            → taken ≡ inr outcome
            → (outcome.earned ≡ pos 0) × (wealth s.state +ℤ t.gift ≡ wealth st))
        → Ensures (Told st) (loaded fuel rules username known t now taken s)
    unfolding loaded
    loaded-Told st s (inl outcome) stays goes =
        let (z, same) = stays outcome refl in rw same (grind int_laws)
    loaded-Told st s (inr outcome) stays goes =
        let (z, w) = goes outcome refl in
        packed-Told st outcome s z w (refused_empty s.state)
          (pack_emoji rules username known t s.state) refl

    refused_earned :
        (st : ConquisterState) (outcome : RaidResult)
        → departure_refused username known t now st ≡ some outcome
        → outcome.earned ≡ pos 0
    unfolding departure_refused
    refused_earned st outcome e = ground arith

    depart-Told : (s : Session) → Ensures (Told s.state) (depart fuel rules username known t now s)
    unfolding depart
    depart-Told s = elim (Option-cases (departure_refused username known t now s.state)) [
      | inr (outcome, e) ↦
          let z = refused_earned s.state outcome e in rw (e, Ensures) (grind int_laws)
      | inl e ↦
          let (stays, goes) = wealth-take_palle s.state in
          rw (e, Ensures)
            (loaded-Told s.state (record s { state = (take_palle username t.gift s.state).1 })
              (take_palle username t.gift s.state).0 stays goes)
    ]

homewards-Told :
    (st : ConquisterState) (s : Session) (o : Option (RaidResult × ConquisterState))
    → Earned st o
    → Ensures (λ r s'. wealth s'.state ≡ wealth st +ℤ r.earned) (attempt score_overflow (λ x. o) s)
homewards-Told st s none h = tt
homewards-Told st s (some (r, st')) h = h

-- Whoever sets off with one thing, palle or an emoji, or turns home: all palle, on file and on the
-- road, are as many as before, and what is paid for the place that he left.
pub wealth-raid_start :
    (fuel : ℕ) (rules : RaidRules) (user_id : ℤ) (username : Text) (t : Trip) (now : ℤ)
    (s : Session)
    → (t.gift ≡ pos 0) ⊎ (is_empty t.gift_emoji ≡ true)
    → Ensures
        (λ r s'. wealth s'.state ≡ wealth s.state +ℤ r.earned)
        (raid_start fuel rules user_id username t now s)
unfolding raid_start
wealth-raid_start fuel rules user_id username t now s one =
    let known = remember_platform s.state username user_id in
    let kept = remember_platform-Keeps s.state username user_id in
    let same = Apart-wealth s.state known (kept.1, kept.2) in
    rw (← same) (elim (Bool-cases (is_homewards known user_id username t)) [
      | inl back ↦
          rw (back, Ensures)
            (homewards-Told known (record s { state = known })
              (go_homewards username rules.signs now known)
              (go_homewards-Earned username rules.signs now known))
      | inr away ↦ elim (Option-cases (player_by_name known t.target t.target_kind)) [
        | inl unknown ↦ rw (away, unknown, Ensures) (grind int_laws)
        | inr (them, e) ↦
            rw (away, e, Ensures)
              (depart-Told fuel rules username them t now one (record s { state = known }))
      ]
    ])
