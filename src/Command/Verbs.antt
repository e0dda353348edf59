-- ===== src/Command/Verbs.antt =====
-- src/commands.cpp: the commands that are another way to write a "We name ..." line, and the verb that
-- then holds the line to its own meaning. `CommandContext` of src/commands.hpp, without the storage.
use norelecbot.Base.{
  Bool, [], drop, find_index, if◌then◌else◌, is_some, length, not, suc, take, ℕ, ◌&&◌, ◌++◌, ◌==◌,
  ◌||◌, ◌∷◌,
}
use norelecbot.Base.Int.{eqb_ℤ, pos, ℤ}
use norelecbot.Command.{conquister_trigger, is_gap, parse_command_line, raid_trigger}
use norelecbot.Config.{AppConfig}
use norelecbot.Text.{Text, equals_ignore_case, is_empty, starts_with, text_eq, trim, utf8}
use norelecbot.Text.Number.{parse_int64}

pub record CommandContext : Type 0 where
  pub config : AppConfig
  pub user_id : ℤ
  pub username : Text
  pub account_name : Text
  pub claims_allowed : Bool
  pub owner : Bool
  pub admin : Bool

pub data Verb : Type 0 where
  no_verb raid_verb give_verb throw_verb burn_verb : Verb

pub record Verbed : Type 0 where
  pub verb : Verb
  pub message : Text

verb_number : Verb → ℕ
verb_number Verb.no_verb = 0
verb_number Verb.raid_verb = 1
verb_number Verb.give_verb = 2
verb_number Verb.throw_verb = 3
verb_number Verb.burn_verb = 4

unfoldable pub same_verb : Verb → Verb → Bool
unfolding verb_number
same_verb a b = verb_number a == verb_number b

unfoldable pub conquister_place : Text
unfolding utf8
conquister_place = utf8 "@TheConquister37"

unfoldable pub command_prefix : CommandContext → Text
unfolding utf8
command_prefix context = if eqb_ℤ context.user_id (pos 0) then utf8 "!" else utf8 "/"

unfoldable pub own_name : CommandContext → Text
own_name context =
    if eqb_ℤ context.user_id (pos 0) then context.username else b'@' ∷ context.username

-- The name without the mention that reaches it on Telegram.
unfoldable pub without_mention : Text → Text
unfolding starts_with
without_mention target = if starts_with target (b'@' ∷ []) then drop 1 target else target

unfoldable pub names_the_place : Text → Bool
unfolding equals_ignore_case conquister_place without_mention
names_the_place target = equals_ignore_case (without_mention target) (drop 1 conquister_place)

unfoldable pub two_slots : Text → Bool
unfolding is_gap parse_int64 trim
two_slots argument =
    let space = find_index is_gap argument in
    not (space == length argument)
    && (is_some (parse_int64 (take space argument))
        && is_some (parse_int64 (trim (drop (suc space) argument))))

unfoldable pub expand_buy : CommandContext → Text → Text
unfolding parse_command_line raid_trigger own_name two_slots utf8
expand_buy context message =
    let command = parse_command_line message in
    if is_empty context.username
    then message
    else if text_eq command.name (utf8 "/back")
    then raid_trigger ++ own_name context
    else if text_eq command.name (utf8 "/move") && two_slots command.argument
    then raid_trigger ++ own_name context ++ 32 ∷ command.argument
    else if not (text_eq command.name (utf8 "/buy")) || is_empty command.argument
    then message
    else raid_trigger ++ own_name context ++ 32 ∷ command.argument

unfoldable pub verb_named : Text → Verb
unfolding utf8
verb_named name =
    if text_eq name (utf8 "/raid")
    then Verb.raid_verb
    else if text_eq name (utf8 "/give")
    then Verb.give_verb
    else if text_eq name (utf8 "/throw")
    then Verb.throw_verb
    else if text_eq name (utf8 "/burn")
    then Verb.burn_verb
    else Verb.no_verb

unfoldable pub expand_verb : Text → Verbed
unfolding parse_command_line verb_named same_verb conquister_trigger raid_trigger
expand_verb message =
    let command = parse_command_line message in
    let verb = verb_named command.name in
    if same_verb verb Verb.no_verb || is_empty command.argument
    then record { verb = Verb.no_verb; message = message }
    else if same_verb verb Verb.burn_verb
    then record { verb = verb; message = conquister_trigger ++ 32 ∷ command.argument }
    else record { verb = verb; message = raid_trigger ++ command.argument }
