-- ===== src/Command/Dispatch.antt =====
-- src/commands.cpp: `dispatch`, up to the handler that answers: which one it is and what it is given,
-- or what `dispatch` says by itself. The clock is read once. A handler's own failure, which `dispatch`
-- turns into a general answer, is the handler's. That remembering the sender throws, which gives the same
-- general answer in place of the handler's, is not modelled.
use norelecbot.Base.{
  Bool, Option, [], false, if◌then◌else◌, is_some, none, not, some, true, value_or, ◌&&◌, ◌==◌,
  ◌||◌,
}
use norelecbot.Base.Int.{ltb_ℤ, pos, ℤ, ◌-ℤ◌}
use norelecbot.Command.{
  ParsedAmount, ParsedEmoji, ParsedMove, amount_target, command_is_for_bot, conquister_trigger,
  emoji_target, expand_adventure, is_command, parse_command_line, raid_target, slot_move,
}
use norelecbot.Command.OldLine.{Bound, names_me, old_line_instead, remember_sender}
use norelecbot.Command.Verbs.{
  CommandContext, Verb, Verbed, expand_buy, expand_verb, names_the_place, same_verb,
}
use norelecbot.Power.{is_thrown}
use norelecbot.Sentinel.{blocked_until, tell_blocked}
use norelecbot.Text.{Text, is_empty, text_eq, trim, utf8}
use norelecbot.Text.Emoji.{emoji_count}
use norelecbot.Zodiac.{Zone}

-- What `dispatch` says by itself, with the numbers and names in it.
pub data Refusal : Type 0 where
  is_blocked : ℤ → Refusal
  is_gone : Text → Refusal
  usage : Verb → Refusal
  no_palle_there : ℤ → Refusal
  no_palle_to_yourself : Refusal
  missing_username : Refusal
  moves_only_yours : Refusal
  one_at_a_time : Refusal
  burn_it : Text → Refusal
  give_it : Text → Text → Refusal
  not_to_yourself : Verb → Refusal
  no_slot_there : Verb → Text → Text → Refusal
  nothing_there : Text → Refusal
  no_raid_on_yourself : Refusal

pub data Deed : Type 0 where
  silent : Deed
  says : Refusal → Deed
  handle_claim : Deed
  handle_burn : ℤ → Deed
  handle_gift : ParsedAmount → Deed
  handle_furniture_move : ParsedMove → Deed
  handle_furniture : Text → Option ℤ → Deed
  handle_emoji_burn : Text → Bool → Deed
  handle_raid : Text → ℤ → Text → Bool → Deed
  runs : Text → Text → Deed

module _ (zone : Zone) (context : CommandContext) (now : ℤ) where
  -- A player the sentinel blocked is told so, once an hour, and nothing he asks is done.
  unfoldable pub keep_out : Text → Text → Bound → Option Deed × Bound
  unfolding command_is_for_bot parse_command_line remember_sender blocked_until tell_blocked utf8
  keep_out said message bound =
      let known = remember_sender zone context now bound in
      let until = blocked_until known.key now known.sentinel in
      let (tell, told) = tell_blocked known.key now known.sentinel in
      if not context.owner
        && (not (is_empty context.username)
            && (command_is_for_bot said
                && not (text_eq (parse_command_line message).name (utf8 "/unblock"))))
      then if ltb_ℤ (pos 0) until
        then (
          some (if tell then Deed.says (Refusal.is_blocked (until -ℤ now)) else Deed.silent),
          record known { sentinel = told },
        )
        else (none, known)
      else (none, bound)

  unfoldable pub claim_line : Verb → Bound → Deed × Bound
  unfolding same_verb remember_sender
  claim_line verb bound =
      if not context.claims_allowed
      then (Deed.silent, bound)
      else if not (same_verb verb Verb.no_verb)
      then (Deed.says (Refusal.usage verb), bound)
      else (Deed.handle_claim, remember_sender zone context now bound)

  unfoldable pub palle_line : Verb → ParsedAmount → Bound → Deed × Bound
  unfolding same_verb remember_sender names_the_place names_me
  palle_line verb transfer bound =
      let known = remember_sender zone context now bound in
      if not context.claims_allowed
      then (Deed.silent, bound)
      else if same_verb verb Verb.raid_verb || same_verb verb Verb.throw_verb
      then (Deed.says (Refusal.usage verb), bound)
      else if names_the_place transfer.target
      then (
        if same_verb verb Verb.burn_verb
            then Deed.handle_burn transfer.amount
            else Deed.says (Refusal.no_palle_there transfer.amount),
        known,
      )
      else if names_me transfer.target known
      then (Deed.says Refusal.no_palle_to_yourself, known)
      else (Deed.handle_gift transfer, known)

  unfoldable pub move_line : Verb → ParsedMove → Bound → Deed × Bound
  unfolding same_verb remember_sender names_me
  move_line verb move bound =
      let known = remember_sender zone context now bound in
      if not context.claims_allowed
      then (Deed.silent, bound)
      else if not (same_verb verb Verb.no_verb)
      then (Deed.says (Refusal.usage verb), bound)
      else if is_empty context.username
      then (Deed.says Refusal.missing_username, known)
      else if not (names_me move.target known)
      then (Deed.says Refusal.moves_only_yours, known)
      else (Deed.handle_furniture_move move, known)

  -- An emoji that is one, carried to the name of somebody else or of the place.
  unfoldable pub carry_away : Verb → ParsedEmoji → Deed
  unfolding same_verb names_the_place is_thrown
  carry_away verb carried =
      if is_some carried.position
      then Deed.says (Refusal.no_slot_there verb carried.target carried.emoji)
      else if names_the_place carried.target
      then if same_verb verb Verb.burn_verb
        then Deed.handle_emoji_burn carried.emoji true
        else if same_verb verb Verb.give_verb || not (is_thrown carried.emoji)
        then Deed.says (Refusal.nothing_there carried.emoji)
        else Deed.handle_emoji_burn carried.emoji false
      else Deed.handle_raid carried.target (pos 0) carried.emoji (same_verb verb Verb.give_verb)

  unfoldable pub carry : Verb → ParsedEmoji → Bound → Deed
  unfolding same_verb emoji_count is_thrown names_the_place names_me carry_away
  carry verb carried known =
      if not (value_or (emoji_count carried.emoji) 0 == 1)
      then Deed.says Refusal.one_at_a_time
      else if same_verb verb Verb.throw_verb && not (is_thrown carried.emoji)
      then if names_the_place carried.target
        then Deed.says (Refusal.burn_it carried.emoji)
        else Deed.says (Refusal.give_it carried.target carried.emoji)
      else if names_me carried.target known
      then if same_verb verb Verb.no_verb
        then Deed.handle_furniture carried.emoji carried.position
        else Deed.says (Refusal.not_to_yourself verb)
      else carry_away verb carried

  unfoldable pub emoji_line : Verb → ParsedEmoji → Bound → Deed × Bound
  unfolding same_verb remember_sender carry
  emoji_line verb carried bound =
      let known = remember_sender zone context now bound in
      if not context.claims_allowed
      then (Deed.silent, bound)
      else if same_verb verb Verb.raid_verb
      then (Deed.says (Refusal.usage verb), bound)
      else (carry verb carried known, known)

  unfoldable pub raid_line : Verb → Text → Bound → Deed × Bound
  unfolding same_verb remember_sender names_me
  raid_line verb target bound =
      let known = remember_sender zone context now bound in
      if not context.claims_allowed
      then (Deed.silent, bound)
      else if not (same_verb verb Verb.no_verb) && not (same_verb verb Verb.raid_verb)
      then (Deed.says (Refusal.usage verb), bound)
      else if same_verb verb Verb.raid_verb && names_me target known
      then (Deed.says Refusal.no_raid_on_yourself, known)
      else (Deed.handle_raid target (pos 0) [] false, known)

  -- A command by its name, when the line is none of the others.
  unfoldable pub named_line : Verb → Text → Bound → Deed × Bound
  unfolding same_verb parse_command_line is_command remember_sender
  named_line verb message bound =
      let command = parse_command_line message in
      if not (same_verb verb Verb.no_verb)
      then (Deed.says (Refusal.usage verb), bound)
      else if is_empty message || not (is_command command.name)
      then (Deed.silent, bound)
      else (Deed.runs command.name command.argument, remember_sender zone context now bound)

  unfoldable pub read_line : Verb → Text → Bound → Deed × Bound
  unfolding conquister_trigger amount_target slot_move emoji_target raid_target claim_line
      palle_line move_line emoji_line raid_line named_line
  read_line verb message bound =
      if text_eq message conquister_trigger
      then claim_line verb bound
      else elim (amount_target message) [
        | some transfer ↦ palle_line verb transfer bound
        | none ↦ elim (slot_move message) [
          | some move ↦ move_line verb move bound
          | none ↦ elim (emoji_target message) [
            | some carried ↦ emoji_line verb carried bound
            | none ↦
                if is_empty (raid_target message)
                then named_line verb message bound
                else raid_line verb (raid_target message) bound
          ]
        ]
      ]

  -- An old line gets the command instead of it, any other line is read.
  unfoldable pub answer_line : Verbed → Option Text × Bound → Deed × Bound
  answer_line verbed (some line, known) =
      (if context.claims_allowed then Deed.says (Refusal.is_gone line) else Deed.silent, known)
  answer_line verbed (none, known) = read_line verbed.verb verbed.message known

  -- Behind the block.
  unfoldable pub let_in : Text → Verbed → Option Deed × Bound → Deed × Bound
  let_in said verbed (some deed, known) = (deed, known)
  let_in said verbed (none, known) =
      answer_line verbed (old_line_instead zone context now said known)

  unfoldable pub answer_verbed : Text → Bound → Verbed → Deed × Bound
  answer_verbed said bound verbed = let_in said verbed (keep_out said verbed.message bound)

  unfoldable pub dispatch : Text → Bound → Deed × Bound
  dispatch said bound =
      answer_verbed said bound (expand_verb (expand_buy context (expand_adventure (trim said))))
