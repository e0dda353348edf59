-- ===== src/Command.antt =====
-- src/commands.cpp: how a line of a chat is read, as a raid, a gift of palle, an emoji carried, two
-- slots that change places, or a command by its name, and which lines are for the bot at all.
pub mod Readings
pub mod Verbs
pub mod OldLine
pub mod Dispatch
pub mod Unread
pub mod Barred
use norelecbot.Base.{
  Bool, List, Option, [], any_of, drop, find_index, if◌then◌else◌, is_some, length, none, not, some,
  suc, take, ℕ, ◌&&◌, ◌++◌, ◌==◌, ◌||◌, ◌∷◌,
}
use norelecbot.Base.Int.{eqb_ℤ, pos, ℤ}
use norelecbot.Text.{Text, is_empty, lower_name, starts_with, text_eq, trim, utf8}
use norelecbot.Text.Emoji.{emoji_count}
use norelecbot.Text.Number.{parse_int64, to_string}

-- conquister_trigger and raid_trigger of src/commands.hpp.
unfoldable pub conquister_trigger : Text
conquister_trigger = utf8 "We @TheConquister37"

unfoldable pub raid_trigger : Text
raid_trigger = utf8 "We "

-- The characters of " \t\r\n", and those of " \t".
unfoldable pub is_blank : ℕ → Bool
is_blank c = c == 32 || (c == 9 || (c == 13 || c == 10))

unfoldable pub is_gap : ℕ → Bool
is_gap c = c == 32 || c == 9

is_at : ℕ → Bool
is_at c = c == b'@'

unfoldable pub valid_raid_target : Text → Bool
unfolding is_blank is_at
valid_raid_target target =
    not (is_empty target)
    && (not (text_eq target (b'@' ∷ []))
        && (not (any_of is_blank target)
            && not
                (any_of is_at (if starts_with target (b'@' ∷ []) then drop 1 target else target))))

-- `substr(raid_trigger.size())`
unfoldable pub past_trigger : Text → Text
unfolding raid_trigger utf8
past_trigger message = drop 3 message

unfoldable pub raid_target : Text → Text
unfolding raid_trigger conquister_trigger past_trigger valid_raid_target
raid_target message =
    if not (starts_with message raid_trigger) || text_eq message conquister_trigger
    then []
    else if valid_raid_target (past_trigger message)
    then past_trigger message
    else []

-- The name behind the trigger and, from the first blank on, the rest: the lines the three readers
-- begin with. Without a blank, or with no valid name, there is nothing to read.
unfoldable pub split_target : Text → Option (Text × Text)
unfolding raid_trigger past_trigger valid_raid_target is_blank
split_target message =
    let rest = past_trigger message in
    let separator = find_index is_blank rest in
    if not (starts_with message raid_trigger)
    then none
    else if separator == length rest || not (valid_raid_target (take separator rest))
    then none
    else some (take separator rest, drop separator rest)

pub record ParsedAmount : Type 0 where
  pub target : Text
  pub amount : ℤ

unfoldable pub amount_target : Text → Option ParsedAmount
unfolding split_target parse_int64
amount_target message = elim (split_target message) [
  | none ↦ none
  | some split ↦ elim (parse_int64 split.1) [
    | none ↦ none
    | some n ↦ some (record { target = split.0; amount = n })
  ]
]

pub record ParsedEmoji : Type 0 where
  pub target : Text
  pub emoji : Text
  pub position : Option ℤ

-- `find_last_of(" \t")`
unfoldable pub last_gap : Text → Option ℕ
unfolding is_gap
last_gap [] = none
last_gap (c ∷ s) = elim (last_gap s) [
  | some i ↦ some (suc i)
  | none ↦ if is_gap c then some 0 else none
]

-- The slot written behind the emoji, when the last word is a number.
unfoldable pub emoji_position : Text → Text × Option ℤ
unfolding last_gap parse_int64 trim
emoji_position emoji = elim (last_gap emoji) [
  | none ↦ (emoji, none)
  | some gap ↦ elim (parse_int64 (drop (suc gap) emoji)) [
    | none ↦ (emoji, none)
    | some n ↦ (trim (take gap emoji), some n)
  ]
]

unfoldable pub emoji_target : Text → Option ParsedEmoji
unfolding split_target emoji_position parse_int64 emoji_count trim
emoji_target message = elim (split_target message) [
  | none ↦ none
  | some split ↦
      let (emoji, position) = emoji_position (trim split.1) in
      if is_some (parse_int64 emoji) || not (is_some (emoji_count emoji))
      then none
      else some (record { target = split.0; emoji = emoji; position = position })
]

pub record ParsedMove : Type 0 where
  pub target : Text
  pub from : ℤ
  pub to : ℤ

-- The two numbers around the first gap.
unfoldable pub slot_numbers : Text → Option (ℤ × ℤ)
unfolding is_gap parse_int64
slot_numbers slots =
    let gap = find_index is_gap slots in
    if gap == length slots then none else elim (parse_int64 (take gap slots)) [
      | none ↦ none
      | some from ↦ elim (parse_int64 (drop (suc gap) slots)) [
        | none ↦ none
        | some to ↦ some (from, to)
      ]
    ]

unfoldable pub slot_move : Text → Option ParsedMove
unfolding split_target slot_numbers trim
slot_move message = elim (split_target message) [
  | none ↦ none
  | some split ↦ elim (slot_numbers (trim split.1)) [
    | none ↦ none
    | some slots ↦ some (record { target = split.0; from = slots.0; to = slots.1 })
  ]
]

pub record ParsedCommand : Type 0 where
  pub name : Text
  pub argument : Text

-- The first word up to an @, in lower case, and what follows the word, trimmed.
unfoldable pub parse_command_line : Text → ParsedCommand
unfolding is_blank is_at lower_name trim
parse_command_line message =
    let end = find_index is_blank message in
    let word = take end message in
    record {
      name = lower_name (take (find_index is_at word) word);
      argument = trim (drop end message);
    }

unfoldable pub expand_adventure : Text → Text
unfolding parse_command_line conquister_trigger utf8
expand_adventure message =
    let command = parse_command_line message in
    if not (text_eq command.name (utf8 "/avventura"))
    then message
    else if is_empty command.argument
    then conquister_trigger
    else conquister_trigger ++ 32 ∷ command.argument

-- The names of the table `commands`, in its order.
unfoldable pub command_names : List Text
unfolding utf8
command_names =
    utf8 "/leaderboard"
    ∷ utf8 "/help"
    ∷ utf8 "/emoji"
    ∷ utf8 "/profile"
    ∷ utf8 "/addquote"
    ∷ utf8 "/link"
    ∷ utf8 "/quotes"
    ∷ utf8 "/delquote"
    ∷ utf8 "/debug"
    ∷ utf8 "/buy"
    ∷ utf8 "/raid"
    ∷ utf8 "/give"
    ∷ utf8 "/throw"
    ∷ utf8 "/burn"
    ∷ utf8 "/back"
    ∷ utf8 "/house"
    ∷ utf8 "/move"
    ∷ utf8 "/take"
    ∷ utf8 "/store"
    ∷ utf8 "/unblock"
    ∷ utf8 "/invitedby"
    ∷ []

-- `find_command(...) != nullptr`
unfoldable pub is_command : Text → Bool
unfolding command_names
is_command name = any_of (λ known. text_eq known name) command_names

unfoldable pub command_is_for_bot : Text → Bool
unfolding expand_adventure trim conquister_trigger raid_target amount_target emoji_target slot_move
    parse_command_line is_command
command_is_for_bot said =
    let message = expand_adventure (trim said) in
    text_eq message conquister_trigger
    || (not (is_empty (raid_target message))
        || (is_some (amount_target message)
            || (is_some (emoji_target message)
                || (is_some (slot_move message)
                    || not (is_empty message) && is_command (parse_command_line message).name))))

unfoldable pub sentinel_identity : ℤ → Text → Text
unfolding to_string lower_name utf8
sentinel_identity user_id nick =
    if not (eqb_ℤ user_id (pos 0))
    then utf8 "tg:" ++ to_string user_id
    else utf8 "irc:" ++ lower_name nick
