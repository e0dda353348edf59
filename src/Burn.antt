-- ===== src/Burn.antt =====
-- What is brought back to @TheConquister37: `palle_burn` and `furniture_burn` of src/game.cpp.
pub mod Palle
use norelecbot.Base.{
  Bool, List, Option, [], false, if◌then◌else◌, map, none, not, some, true, ◌&&◌, ◌∷◌,
}
use norelecbot.Base.Int.{leb_ℤ, ltb_ℤ, pos, ℤ, ◌-ℤ◌}
use norelecbot.Event.{on_telegram}
use norelecbot.Gear.{burn_child, names_child, shown_gear, take_emoji}
use norelecbot.Hold.{lose_bolts}
use norelecbot.Landing.{land, reset_tag, start_over}
use norelecbot.Place.{Whereabouts, display_name, on_the_road}
use norelecbot.Power.{is_power, is_thrown, nuke}
use norelecbot.Rules.{RaidRules}
use norelecbot.Session.{
  Game, attempt, backup, get_state, gets, modify, pure, put_state, score_overflow, update, ◌>>=◌,
  ◌>>◌,
}
use norelecbot.State.{ConquisterState, Holder}
use norelecbot.Table.{Counters, counter, insert}
use norelecbot.Text.{Text, is_empty, text_eq}
use norelecbot.Zodiac.{Sky}

pub data BurnStatus : Type 0 where
  burned invalid_amount insufficient_score travelling : BurnStatus

pub record BurnResult : Type 0 where
  pub status : BurnStatus
  pub amount : ℤ
  pub score : ℤ

unfoldable pub palle_burn : Text → ℤ → ConquisterState → BurnResult × ConquisterState
palle_burn player amount state =
    let score = counter state.scores player in
    if on_the_road state player
    then (record { status = BurnStatus.travelling; amount = pos 0; score = score }, state)
    else if leb_ℤ amount (pos 0)
    then (record { status = BurnStatus.invalid_amount; amount = pos 0; score = score }, state)
    else if ltb_ℤ score amount
    then (record { status = BurnStatus.insufficient_score; amount = pos 0; score = score }, state)
    else (
      record { status = BurnStatus.burned; amount = amount; score = score -ℤ amount },
      record state { scores = insert player (score -ℤ amount) state.scores },
    )

pub data FurnitureBurnStatus : Type 0 where
  burned not_owned travelling child : FurnitureBurnStatus

pub record FurnitureBurnResult : Type 0 where
  pub status : FurnitureBurnStatus
  pub shown : Text
  pub hit : Text
  pub hit_on_telegram : Bool
  pub hit_furniture : Text
  pub hit_before : Text
  pub blown : List Text
  pub backfired : Bool
  pub reset : Bool
  pub expecting : ℤ
  pub froze : ℤ
  pub melted : Bool

abbrev pub fresh_burn : FurnitureBurnResult
fresh_burn = record {
  status = FurnitureBurnStatus.burned;
  shown = [];
  hit = [];
  hit_on_telegram = false;
  hit_furniture = [];
  hit_before = [];
  blown = [];
  backfired = false;
  reset = false;
  expecting = pos 0;
  froze = pos 0;
  melted = false;
}

-- What he names may be a child of his, which only destroying takes.
burn_kid : Text → Text → Bool → ConquisterState → FurnitureBurnResult × ConquisterState
burn_kid player emoji destroy state =
    if not (names_child state player emoji)
    then (record fresh_burn { status = FurnitureBurnStatus.not_owned }, state)
    else if not destroy
    then (record fresh_burn { status = FurnitureBurnStatus.child }, state)
    else let state' = burn_child state player emoji in
      (record fresh_burn { shown = shown_gear state' player }, state')

burn_nuke : ℤ → Game FurnitureBurnResult
burn_nuke now = do
  backup (reset_tag now)
  modify start_over
  pure (record fresh_burn { reset = true })

fewer_bolts_now : ℤ → Sky → Game (Unit {0})
fewer_bolts_now now sky =
    attempt score_overflow
      (λ st. elim (lose_bolts st now sky) [ none ↦ none | some st' ↦ some (tt, st') ])

burn_hit : RaidRules → Text → Text → ℤ → Text → FurnitureBurnResult → Game FurnitureBurnResult
burn_hit rules player emoji now holder outcome = do
  before ← gets (λ st. shown_gear st holder)
  landing ← land rules emoji player holder Whereabouts.conquister now
  state ← get_state
  pure (record outcome {
    hit_before = before;
    backfired = landing.backfired;
    expecting = landing.expecting;
    froze = landing.froze;
    melted = landing.melted;
    blown = landing.blown;
    shown = shown_gear state player;
    hit = display_name state holder;
    hit_on_telegram = on_telegram state holder;
    hit_furniture = shown_gear state holder;
  })

-- Thrown at the place, it lands on whoever holds it, unless that is the thrower.
burn_landing :
    RaidRules → Text → Text → ℤ → Option Holder → FurnitureBurnResult → Game FurnitureBurnResult
burn_landing rules player emoji now none outcome = pure outcome
burn_landing rules player emoji now (some hold) outcome =
    if is_thrown emoji && (not (is_empty hold.username) && not (text_eq hold.username player))
    then burn_hit rules player emoji now hold.username outcome
    else pure outcome

burn_thrown : RaidRules → Text → Text → ℤ → Game FurnitureBurnResult
burn_thrown rules player emoji now = do
  state ← get_state
  outcome ←
      burn_landing rules player emoji now state.current
        (record fresh_burn { shown = shown_gear state player })
  fewer_bolts_now now rules.signs
  pure outcome

burn_up : RaidRules → Text → ℤ → Game FurnitureBurnResult
burn_up rules player now = do
  shown ← gets (λ st. shown_gear st player)
  fewer_bolts_now now rules.signs
  pure (record fresh_burn { shown = shown })

burn_taken : RaidRules → Text → Text → ℤ → Bool → ConquisterState → Game FurnitureBurnResult
burn_taken rules player emoji now destroy taken = do
  put_state taken
  (if destroy
      then burn_up rules player now
      else if is_power emoji nuke
      then burn_nuke now
      else burn_thrown rules player emoji now)

unfoldable pub furniture_burn : RaidRules → Text → Text → ℤ → Bool → Game FurnitureBurnResult
unfolding burn_kid burn_nuke burn_taken burn_up burn_thrown burn_landing burn_hit fewer_bolts_now
furniture_burn rules player emoji now destroy = do
  state ← get_state
  (if on_the_road state player
      then pure (record fresh_burn { status = FurnitureBurnStatus.travelling })
      else elim (take_emoji state player emoji) [
        | none ↦ update (burn_kid player emoji destroy)
        | some taken ↦ burn_taken rules player emoji now destroy taken
      ])

-- The players who are smeared now, and those named for the season.
smeared_from : ℤ → Counters → List Text
smeared_from now [] = []
smeared_from now ((player, until) ∷ m) =
    if ltb_ℤ now until then player ∷ smeared_from now m else smeared_from now m

unfoldable pub smeared_all : ConquisterState → ℤ → List Text
unfolding smeared_from
smeared_all state now = smeared_from now state.smeared

unfoldable pub pugliesi_all : ConquisterState → List Text
pugliesi_all state = map (λ e. e.0) state.pugliesi
