-- ===== src/Family.antt =====
-- Children: `child_emoji`, `births` and `grow` of src/game.cpp.
use norelecbot.Base.{
  Bool, List, Option, [], any_of, erase_if, false, get_or, if◌then◌else◌, length, none, not, set,
  some, suc, true, zero, ℕ, ◌&&◌, ◌++◌, ◌==◌, ◌||◌, ◌∷◌,
}
use norelecbot.Base.Int.{eqb_ℤ, leb_ℤ, ltb_ℤ, max_ℤ, negsuc, pos, ℤ, ◌+ℤ◌, ◌-ℤ◌, ◌/ℤ◌}
use norelecbot.Event.{EventKind, RaidEvent, fresh_event, on_telegram}
use norelecbot.Gear.{hang, is_child, shown_gear, slots_of, to_size}
use norelecbot.Landing.{chance_below, slots_where}
use norelecbot.Place.{display_name}
use norelecbot.Power.{is_untouchable}
use norelecbot.Rules.{RaidRules}
use norelecbot.Session.{
  Game, get_state, gets, modify, pure, random_index, update, when, ◌>>=◌, ◌>>◌,
}
use norelecbot.Slots.{free_slot, write_slot}
use norelecbot.State.{Child, ConquisterState, Pregnancy}
use norelecbot.Text.{Text, is_empty, text_eq, utf8}

unfoldable pub child_emoji : Bool → ℤ → Text
unfolding utf8
child_emoji m (negsuc n) = []
child_emoji m (pos zero) = utf8 "👶"
child_emoji m (pos (suc zero)) = if m then utf8 "👦" else utf8 "👧"
child_emoji m (pos (suc (suc zero))) = if m then utf8 "👨" else utf8 "👩"
child_emoji m (pos (suc (suc (suc zero)))) = if m then utf8 "👴" else utf8 "👵"
child_emoji m (pos (suc (suc (suc (suc n))))) = []

-- Where a newborn can take the place of something: neither untouchable nor another child.
unfoldable pub replaceable : ConquisterState → Text → List Text → List ℕ
unfolding slots_where
replaceable state mother slots =
    slots_where (λ i s. not (is_untouchable s) && not (is_child state mother i)) 0 slots

birth_at :
    Pregnancy → Bool → ℤ → List Text → ℕ → List Text → ConquisterState → RaidEvent × ConquisterState
birth_at p male now slots place blown state =
    let emoji = child_emoji male (pos 0) in
    let hung = hang state p.mother (write_slot slots place emoji) in
    let state' = record hung {
      children =
          hung.children
          ++ record { owner = p.mother; slot = pos place; male = male; born = now; courted = false }
            ∷ [];
    } in
    (
      record fresh_event {
        kind = EventKind.born;
        raider = if is_empty p.father then [] else display_name state p.father;
        raider_on_telegram = not (is_empty p.father) && on_telegram state p.father;
        target = display_name state p.mother;
        target_on_telegram = on_telegram state p.mother;
        gift_emoji = emoji;
        gift = if male then pos 1 else pos 0;
        blown = blown;
        target_emoji = shown_gear state' p.mother;
      },
      state',
    )

birth_over : Pregnancy → Bool → ℤ → List Text → List ℕ → Game (List RaidEvent)
unfolding birth_at
birth_over p male now slots [] = pure []
birth_over p male now slots (o ∷ others) = do
  drawn ← random_index (length (o ∷ others))
  let place = get_or (o ∷ others) drawn 0
  event ← update (birth_at p male now slots place (get_or slots place [] ∷ []))
  pure (event ∷ [])

birth_in : Pregnancy → Bool → ℤ → List Text → Option ℕ → Game (List RaidEvent)
unfolding birth_over birth_at
birth_in p male now slots (some place) = do
  event ← update (birth_at p male now slots place [])
  pure (event ∷ [])
birth_in p male now slots none = do
  state ← get_state
  birth_over p male now slots (replaceable state p.mother slots)

birth : RaidRules → ℤ → Pregnancy → Game (List RaidEvent)
unfolding birth_in
birth rules now p = do
  sex ← random_index 2
  slots ← gets (λ st. slots_of st p.mother)
  birth_in p (sex == 0) now slots (free_slot slots rules.furniture_limit)

births_of : RaidRules → ℤ → List Pregnancy → Game (List RaidEvent)
unfolding birth
births_of rules now [] = pure []
births_of rules now (p ∷ pregnancies) = do
  here ← (if ltb_ℤ now p.due then pure [] else birth rules now p)
  rest ← births_of rules now pregnancies
  pure (here ++ rest)

unfoldable pub births : RaidRules → ℤ → Game (List RaidEvent)
unfolding births_of erase_if
births rules now = do
  pregnancies ← gets (λ st. st.pregnancies)
  born_now ← births_of rules now pregnancies
  modify (λ st. record st { pregnancies = erase_if (λ p. leb_ℤ p.due now) pregnancies })
  pure born_now

-- The stage of its life that a child has reached.
unfoldable pub age_of : RaidRules → ℤ → Child → ℤ
unfolding max_ℤ
age_of rules now c = max_ℤ (now -ℤ c.born) (pos 0) /ℤ max_ℤ rules.child_stage_seconds (pos 1)

leave_event : Child → Text → ConquisterState → ConquisterState → RaidEvent
leave_event c shown state state' = record fresh_event {
  kind = EventKind.gone;
  target = display_name state c.owner;
  target_on_telegram = on_telegram state c.owner;
  gift_emoji = shown;
  target_emoji = shown_gear state' c.owner;
}

-- One child: what is told, whether it stays, and the house as it is then.
unfoldable pub grow_child :
    RaidRules → ℤ → Child → ConquisterState → (List RaidEvent × Bool) × ConquisterState
unfolding leave_event
grow_child rules now c state =
    let slots = slots_of state c.owner in
    let slot = to_size c.slot in
    let shown = get_or slots slot [] in
    let looks = child_emoji c.male (age_of rules now c) in
    if is_empty shown
    then (([], false), state)
    else if is_empty looks
    then (let state' = hang state c.owner (set slots slot []) in
        ((leave_event c shown state state' ∷ [], false), state'))
    else if text_eq shown looks
    then (([], true), state)
    else (([], true), hang state c.owner (set slots slot looks))

unfoldable pub grow_all :
    RaidRules → ℤ → List Child → ConquisterState → (List RaidEvent × List Child) × ConquisterState
unfolding grow_child
grow_all rules now [] state = (([], []), state)
grow_all rules now (c ∷ children) state =
    let ((events, stays), state') = grow_child rules now c state in
    let ((more, staying), state'') = grow_all rules now children state' in
    ((events ++ more, if stays then c ∷ staying else staying), state'')

abbrev pub is_grown : RaidRules → ℤ → Child → Bool
is_grown rules now c = eqb_ℤ (age_of rules now c) (pos 2)

-- Whether this girl may court now: grown up, not yet courted, and a grown-up boy in the house.
unfoldable pub may_court : RaidRules → ℤ → List Child → Child → Bool
may_court rules now staying c =
    not (c.male || (c.courted || not (is_grown rules now c)))
    && any_of (λ o. o.male && (text_eq o.owner c.owner && is_grown rules now o)) staying

conceive : RaidRules → ℤ → Text → Game (Unit {0})
unfolding max_ℤ
conceive rules now owner = modify (λ st. record st {
  pregnancies =
      st.pregnancies
      ++ record { mother = owner; father = []; due = now +ℤ max_ℤ rules.pregnancy_seconds (pos 0) }
        ∷ [];
})

court : RaidRules → ℤ → Child → Game Child
unfolding conceive
court rules now c = do
  lucky ← chance_below rules.mating_percent
  when lucky (conceive rules now c.owner)
  pure (record c { courted = true })

court_all : RaidRules → ℤ → List Child → List Child → Game (List Child)
unfolding court
court_all rules now staying [] = pure []
court_all rules now staying (c ∷ cs) = do
  c' ← (if may_court rules now staying c then court rules now c else pure c)
  rest ← court_all rules now staying cs
  pure (c' ∷ rest)

unfoldable pub grow : RaidRules → ℤ → Game (List RaidEvent)
unfolding court_all
grow rules now = do
  children ← gets (λ st. st.children)
  (events, staying) ← update (grow_all rules now children)
  staying' ← court_all rules now staying staying
  modify (λ st. record st { children = staying' })
  pure events
