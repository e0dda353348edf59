-- ===== src/Command/OldLine.antt =====
-- src/commands.cpp: who sent a line is remembered by the game and linked for the sentinel, and an old
-- "We name ..." line is answered with the command that does now what it did.
use norelecbot.Base.{Bool, Option, [], if◌then◌else◌, none, not, some, ◌&&◌, ◌++◌, ◌||◌, ◌∷◌}
use norelecbot.Base.Int.{pos, pos_part, ℤ}
use norelecbot.Command.{
  ParsedAmount, ParsedEmoji, ParsedMove, amount_target, conquister_trigger, emoji_target,
  expand_adventure, raid_target, raid_trigger, sentinel_identity, slot_move,
}
use norelecbot.Command.Verbs.{
  CommandContext, command_prefix, conquister_place, names_the_place, without_mention,
}
use norelecbot.Identity.{RaidTargetKind}
use norelecbot.Invites.{player_seen}
use norelecbot.Power.{is_thrown}
use norelecbot.Ranking.{names_player}
use norelecbot.Sentinel.{Sentinel, link_identity}
use norelecbot.State.{ConquisterState}
use norelecbot.Text.{Text, is_empty, starts_with, text_eq, trim, utf8}
use norelecbot.Text.Number.{to_string}
use norelecbot.Zodiac.{Zone}

-- What a dispatch changes: the key the sender is bound to, empty before; the game; the sentinel.
pub record Bound : Type 0 where
  pub key : Text
  pub state : ConquisterState
  pub sentinel : Sentinel

module _ (zone : Zone) (context : CommandContext) (now : ℤ) where
  -- `remember_sender`. The limit of the slots is never negative in a configuration that was loaded.
  unfoldable pub remember_sender : Bound → Bound
  unfolding player_seen link_identity sentinel_identity
  remember_sender bound =
      let (key, state) =
        player_seen zone context.user_id context.username context.account_name
          (if context.config.starter_balloon then pos_part context.config.furniture_limit else 0)
          (if context.config.newcomers then now else pos 0) bound.state in
      if is_empty context.username then bound else record {
        key = key;
        state = state;
        sentinel =
            link_identity (sentinel_identity context.user_id context.username) key bound.sentinel;
      }

-- Whether a name is the sender himself.
unfoldable pub names_me : Text → Bound → Bool
unfolding names_player without_mention
names_me target bound =
    not (is_empty bound.key)
    && names_player bound.state bound.key (without_mention target)
        (if starts_with target (b'@' ∷ []) then RaidTargetKind.telegram else RaidTargetKind.irc)

module _ (context : CommandContext) where
  unfoldable pub palle_instead : ParsedAmount → Text
  unfolding command_prefix names_the_place to_string utf8
  palle_instead transfer =
      if names_the_place transfer.target
      then command_prefix context ++ utf8 "burn " ++ to_string transfer.amount
      else command_prefix context
        ++ utf8 "give "
        ++ transfer.target
        ++ 32 ∷ to_string transfer.amount

  unfoldable pub move_instead : ParsedMove → Text
  unfolding command_prefix to_string utf8
  move_instead move =
      command_prefix context ++ utf8 "move " ++ to_string move.from ++ 32 ∷ to_string move.to

  unfoldable pub place_instead : ParsedEmoji → Text
  unfolding command_prefix is_thrown conquister_place utf8
  place_instead carried =
      if is_thrown carried.emoji
      then command_prefix context ++ utf8 "throw " ++ conquister_place ++ 32 ∷ carried.emoji
      else command_prefix context ++ utf8 "burn " ++ carried.emoji

  unfoldable pub buy_instead : ParsedEmoji → Text
  unfolding command_prefix to_string utf8
  buy_instead carried =
      command_prefix context
      ++ utf8 "buy "
      ++ carried.emoji
      ++ elim carried.position [ none ↦ [] | some position ↦ 32 ∷ to_string position ]

  unfoldable pub gift_instead : ParsedEmoji → Text
  unfolding command_prefix is_thrown utf8
  gift_instead carried =
      command_prefix context
      ++ (if is_thrown carried.emoji then utf8 "throw" else utf8 "give")
      ++ 32 ∷ carried.target
      ++ 32 ∷ carried.emoji

  unfoldable pub raid_instead : Text → Bool → Text
  unfolding command_prefix utf8
  raid_instead target mine =
      if mine
      then command_prefix context ++ utf8 "back"
      else command_prefix context ++ utf8 "raid " ++ target

module _ (zone : Zone) (context : CommandContext) (now : ℤ) where
  unfoldable pub emoji_instead : ParsedEmoji → Bound → Text × Bound
  unfolding names_the_place remember_sender names_me place_instead buy_instead gift_instead
  emoji_instead carried bound =
      let known = remember_sender zone context now bound in
      if names_the_place carried.target then (place_instead context carried, bound) else (
        if names_me carried.target known
            then buy_instead context carried
            else gift_instead context carried,
        known,
      )

  unfoldable pub read_old_line : Text → Bound → Option Text × Bound
  unfolding amount_target slot_move emoji_target raid_target palle_instead move_instead
      emoji_instead remember_sender names_me raid_instead
  read_old_line old bound = elim (amount_target old) [
    | some transfer ↦ (some (palle_instead context transfer), bound)
    | none ↦ elim (slot_move old) [
      | some move ↦ (some (move_instead context move), bound)
      | none ↦ elim (emoji_target old) [
        | some carried ↦ let (line, known) = emoji_instead carried bound in (some line, known)
        | none ↦
            let known = remember_sender zone context now bound in
            if is_empty (raid_target old) then (none, bound) else (
              some (raid_instead context (raid_target old) (names_me (raid_target old) known)),
              known,
            )
      ]
    ]
  ]

  unfoldable pub old_line_instead : Text → Bound → Option Text × Bound
  unfolding expand_adventure trim raid_trigger conquister_trigger read_old_line
  old_line_instead said bound =
      let old = expand_adventure (trim said) in
      if not (starts_with old raid_trigger) || text_eq old conquister_trigger
      then (none, bound)
      else read_old_line old bound
