-- ===== src/Command/Unread.antt =====
-- Lines of a chat that none of the readers of src/commands.cpp takes, and what they are read as.
use norelecbot.Base.{
  Bool, Bool-cases, Option, [], any_of, ap, arith, false, find_index, inl, inr, is_some, none, not,
  refl, some, true, ◌&&◌, ◌++◌, ◌||◌, ◌∙◌, ◌∷◌, ◌≡◌, ◌⊎◌,
}
use norelecbot.Command.{
  amount_target, command_is_for_bot, command_names, conquister_trigger, emoji_target,
  expand_adventure, is_at, is_blank, is_command, parse_command_line, past_trigger, raid_target,
  raid_trigger, slot_move, split_target,
}
use norelecbot.Command.Verbs.{
  CommandContext, Verb, expand_buy, expand_verb, own_name, same_verb, verb_named,
}
use norelecbot.Session.{throw}
use norelecbot.Text.{Text, is_empty, lower_name, starts_with, text_eq, text_eq_sound, trim, utf8}

starts_with-raid_trigger_lem :
    (m : Text) → starts_with m raid_trigger ≡ true → m ≡ raid_trigger ++ past_trigger m
unfolding starts_with raid_trigger past_trigger utf8
starts_with-raid_trigger_lem [] h = absurd (ground arith)
starts_with-raid_trigger_lem (c ∷ []) h = absurd (ground arith)
starts_with-raid_trigger_lem (c ∷ d ∷ []) h = absurd (ground arith)
starts_with-raid_trigger_lem (c ∷ d ∷ e ∷ s) h = ground arith

name_of_raid : (s : Text) → (parse_command_line (raid_trigger ++ s)).name ≡ utf8 "we"
unfolding parse_command_line raid_trigger is_blank is_at lower_name utf8 find_index
name_of_raid s = refl

-- No "We ..." line is a command by its name.
pub name_not_unblock :
    (m : Text)
    → starts_with m raid_trigger ≡ true
    → text_eq (parse_command_line m).name (utf8 "/unblock") ≡ false
unfolding text_eq utf8
name_not_unblock m h = rw (starts_with-raid_trigger_lem m h, name_of_raid (past_trigger m)) refl

-- A line that none of the readers takes.
abbrev pub IsUnread : Text → Type 0
IsUnread m =
    (text_eq m conquister_trigger ≡ false)
    × (amount_target m ≡ none)
    × (slot_move m ≡ none)
    × (emoji_target m ≡ none)
    × (is_empty (raid_target m) ≡ true)

starts_with-conquister :
    (m : Text) → text_eq m conquister_trigger ≡ true → starts_with m raid_trigger ≡ true
starts_with-conquister m h = rw (text_eq_sound m conquister_trigger h) here
  where
    here : starts_with conquister_trigger raid_trigger ≡ true
    here = unfold starts_with conquister_trigger raid_trigger utf8 in refl

pub untriggered-IsUnread : (m : Text) → starts_with m raid_trigger ≡ false → IsUnread m
unfolding amount_target slot_move emoji_target raid_target split_target
untriggered-IsUnread m h =
    (ground (arith, starts_with-conquister m), rw h refl, rw h refl, rw h refl, rw h refl)

-- A name that is no command is none of the commands.
not_named :
    (name known : Text)
    → is_command known ≡ true
    → is_command name ≡ false
    → text_eq name known ≡ false
not_named name known a b = elim (Bool-cases (text_eq name known)) [
  | inl same ↦
      let listed : is_command name ≡ true = ap is_command (text_eq_sound name known same) ∙ a in
      absurd (ground arith)
  | inr other ↦ other
]

commands_listed :
    (is_command (utf8 "/raid") ≡ true)
    × (is_command (utf8 "/give") ≡ true)
    × (is_command (utf8 "/throw") ≡ true)
    × (is_command (utf8 "/burn") ≡ true)
    × (is_command (utf8 "/back") ≡ true)
    × (is_command (utf8 "/move") ≡ true)
    × (is_command (utf8 "/buy") ≡ true)
unfolding is_command command_names utf8 text_eq any_of
commands_listed = (refl, refl, refl, refl, refl, refl, refl)

-- A line that is no command is taken for nothing else.
pub expand_verb-none :
    (m : Text)
    → is_command (parse_command_line m).name ≡ false
    → expand_verb m ≡ record { verb = Verb.no_verb; message = m }
unfolding expand_verb verb_named same_verb
expand_verb-none m h =
    let name = (parse_command_line m).name in
    let (raid, give, throw, burn, back, move, buy) = commands_listed in
    ground (
      arith,
      not_named name (utf8 "/raid") raid h,
      not_named name (utf8 "/give") give h,
      not_named name (utf8 "/throw") throw h,
      not_named name (utf8 "/burn") burn h,
    )

pub expand_buy-none :
    (context : CommandContext) (m : Text)
    → is_command (parse_command_line m).name ≡ false
    → expand_buy context m ≡ m
unfolding expand_buy
expand_buy-none context m h =
    let name = (parse_command_line m).name in
    let (raid, give, throw, burn, back, move, buy) = commands_listed in
    ground (
      arith,
      not_named name (utf8 "/back") back h,
      not_named name (utf8 "/move") move h,
      not_named name (utf8 "/buy") buy h,
    )

starts_with-append : (p s : Text) → starts_with (p ++ s) p ≡ true
unfolding starts_with
starts_with-append [] s = ground arith
starts_with-append (c ∷ p) s = ground (arith, starts_with-append p s)

-- What is read as another line is read as a "We ..." line.
pub expand_buy-cases :
    (context : CommandContext) (m : Text)
    → (expand_buy context m ≡ m) ⊎ (starts_with (expand_buy context m) raid_trigger ≡ true)
unfolding expand_buy
expand_buy-cases context m =
    let argument = (parse_command_line m).argument in
    ground (
      arith,
      starts_with-append raid_trigger (own_name context),
      starts_with-append raid_trigger (own_name context ++ 32 ∷ argument),
    )

pub expand_verb-cases :
    (m : Text)
    → (expand_verb m ≡ record { verb = Verb.no_verb; message = m })
      ⊎ (starts_with (expand_verb m).message raid_trigger ≡ true)
unfolding expand_verb
expand_verb-cases m =
    let argument = (parse_command_line m).argument in
    ground (arith, starts_with-append raid_trigger argument, starts_with-trigger (32 ∷ argument))
  where
    starts_with-trigger : (s : Text) → starts_with (conquister_trigger ++ s) raid_trigger ≡ true
    starts_with-trigger s = unfold starts_with conquister_trigger raid_trigger utf8 in refl

empty_is_no_command :
    (m : Text) → is_empty m ≡ true → is_command (parse_command_line m).name ≡ false
unfolding is_command command_names utf8 text_eq any_of parse_command_line lower_name find_index
empty_is_no_command [] h = refl
empty_is_no_command (c ∷ s) h = absurd (ground arith)

or-false : (a b : Bool) → (a || b) ≡ false → (a ≡ false) × (b ≡ false)
or-false true b h = absurd (ground arith)
or-false false b h = (refl, h)

is_some-none : {A : Type 0} (o : Option A) → is_some o ≡ false → o ≡ none
is_some-none none h = refl
is_some-none (some a) h = absurd (ground arith)

not-true : (b : Bool) → not b ≡ false → b ≡ true
not-true true h = refl
not-true false h = absurd (ground arith)

unnamed :
    (m : Text)
    → (not (is_empty m) && is_command (parse_command_line m).name) ≡ false
    → is_command (parse_command_line m).name ≡ false
unnamed m h = ground (arith, empty_is_no_command m)

-- What is not for the bot, no reader takes, and it is no command.
pub unheard-IsUnread :
    (said : Text)
    → command_is_for_bot said ≡ false
    → let m = expand_adventure (trim said) in
      IsUnread m × (is_command (parse_command_line m).name ≡ false)
unfolding command_is_for_bot
unheard-IsUnread said h =
    let m = expand_adventure (trim said) in
    let by_name = not (is_empty m) && is_command (parse_command_line m).name in
    let moves = is_some (slot_move m) || by_name in
    let carries = is_some (emoji_target m) || moves in
    let brings = is_some (amount_target m) || carries in
    let raids = not (is_empty (raid_target m)) || brings in
    let (no_claim, rest) = or-false (text_eq m conquister_trigger) raids h in
    let (no_raid, rest') = or-false (not (is_empty (raid_target m))) brings rest in
    let (no_palle, rest'') = or-false (is_some (amount_target m)) carries rest' in
    let (no_emoji, rest''') = or-false (is_some (emoji_target m)) moves rest'' in
    let (no_move, no_name) = or-false (is_some (slot_move m)) by_name rest''' in
    (
      (
        no_claim,
        is_some-none (amount_target m) no_palle,
        is_some-none (slot_move m) no_move,
        is_some-none (emoji_target m) no_emoji,
        not-true (is_empty (raid_target m)) no_raid,
      ),
      unnamed m no_name,
    )
