-- ===== src/IrcSession/Handling.antt =====
-- src/irc_session.cpp: `release` and `handle`, which ask the responder. It answers after the calls made
-- so far.
use norelecbot.Base.{
  Bool, List, Option, [], erase_if, false, if◌then◌else◌, none, not, some, true, ◌&&◌, ◌++◌, ◌||◌,
  ◌∷◌,
}
use norelecbot.Base.Int.{pos, ℤ}
use norelecbot.Command.{command_is_for_bot, sentinel_identity}
use norelecbot.Irc.{Message, command_line, nick_of, same_name}
use norelecbot.IrcSession.{
  Call, IrcLink, Registration, SessionConfig, Turn, Waiting, Whois, call, forget_nick, fresh_answer,
  host_of, is_command_of, is_nick, note_account, note_registered, param, quiet, send,
  unregistered_reply, with_slash,
}
use norelecbot.IrcSession.Speech.{
  identify, is_owner, join, may_tell, released_entry, say, say_reply, wait_for_whois,
}
use norelecbot.Table.{erase, insert, lookup}
use norelecbot.Text.{Text, is_empty, lower_name, utf8}

module _ (config : SessionConfig)
    (respond : List Call → Text → Text → Bool → Text → Option Text) where
  unfoldable pub answer : Text → Text → Text → Turn → Turn
  unfolding is_owner with_slash call say_reply
  answer who account text turn =
      say_reply config (respond turn.calls who account (is_owner config who) (with_slash text))
        (call (Call.asks_responder who account (is_owner config who) (with_slash text)) turn)

  unfoldable pub settle : Waiting → ℤ → Registration → Turn → Registration × Turn
  unfolding answer may_tell say unregistered_reply
  settle w now entry turn =
      if entry.registered
      then (entry, answer w.nick entry.account w.text turn)
      else if may_tell config entry now
      then (record entry { told = now }, say config (unregistered_reply w.nick) turn)
      else (entry, turn)

  -- The loop of `release`: what waited for this nick is settled in order and goes.
  unfoldable pub settle_all : Text → ℤ → List Waiting → Registration → Turn → Registration × Turn
  unfolding is_nick settle
  settle_all lowered now [] entry turn = (entry, turn)
  settle_all lowered now (w ∷ ws) entry turn =
      let (entry', turn') = if is_nick lowered w then settle w now entry turn else (entry, turn) in
      settle_all lowered now ws entry' turn'

  unfoldable pub release : Text → Whois → ℤ → IrcLink → Turn → IrcLink × Turn
  unfolding released_entry settle_all insert is_nick
  release lowered whois now link turn =
      let (entry, turn') =
        settle_all lowered now link.waiting
          (released_entry config lowered whois now link.registrations) turn in
      (
        record link {
          registrations = insert lowered entry link.registrations;
          waiting = erase_if (is_nick lowered) link.waiting;
        },
        turn',
      )

  -- 318: the end of a WHOIS.
  unfoldable pub end_whois : Text → ℤ → IrcLink → IrcLink × Turn
  unfolding lookup erase release quiet
  end_whois lowered now link = elim (lookup lowered link.asked) [
    | none ↦ (link, quiet)
    | some whois ↦
        release lowered whois now (record link { asked = erase lowered link.asked }) quiet
  ]

  -- A line for the bot from somebody the server has spoken of lately.
  unfoldable pub answer_known : Text → Text → ℤ → Registration → IrcLink → Turn → IrcLink × Turn
  unfolding answer may_tell say unregistered_reply insert lower_name
  answer_known sender text now known link turn =
      if known.registered
      then (link, answer sender known.account text turn)
      else if may_tell config known now
      then (
        record link {
          registrations =
              insert (lower_name sender) (record known { told = now }) link.registrations;
        },
        say config (unregistered_reply sender) turn,
      )
      else (link, turn)

  unfoldable pub for_bot : Text → Text → ℤ → IrcLink → Turn → IrcLink × Turn
  unfolding fresh_answer answer_known wait_for_whois lower_name
  for_bot sender text now link turn = elim (fresh_answer (lower_name sender) now link) [
    | some known ↦ answer_known sender text now known link turn
    | none ↦ wait_for_whois config sender text now link turn
  ]

  -- A line of the channel.
  unfoldable pub hear : Message → ℤ → IrcLink → IrcLink × Turn
  unfolding param nick_of command_is_for_bot with_slash call sentinel_identity host_of for_bot quiet
  hear m now link =
      let sender = nick_of m.prefix in
      let text = param m 1 in
      let is_for_bot = command_is_for_bot (with_slash text) in
      let turn =
        call
          (Call.tells_sentinel (sentinel_identity (pos 0) sender) (host_of m.prefix) is_for_bot now)
          quiet in
      if is_for_bot
      then for_bot sender text now link turn
      else (link, call (Call.tells_pulse text now) turn)

  -- `handle`, in two halves: what is said in the channel comes last.
  unfoldable pub handle_privmsg : Message → ℤ → IrcLink → IrcLink × Turn
  unfolding is_command_of same_name param nick_of hear quiet
  handle_privmsg m now link =
      if not (is_command_of m "PRIVMSG") || not (same_name (param m 0) config.channel)
      then (link, quiet)
      else if is_empty (nick_of m.prefix) || same_name (nick_of m.prefix) link.nick
      then (link, quiet)
      else hear m now link

  unfoldable pub handle_players : Message → ℤ → IrcLink → IrcLink × Turn
  unfolding is_command_of note_registered note_account end_whois forget_nick handle_privmsg
      lower_name param nick_of quiet erase
  handle_players m now link =
      if is_command_of m "307"
      then (note_registered (lower_name (param m 1)) link, quiet)
      else if is_command_of m "330"
      then (note_account (lower_name (param m 1)) (param m 2) link, quiet)
      else if is_command_of m "318"
      then end_whois (lower_name (param m 1)) now link
      else if is_command_of m "401"
      then (forget_nick (lower_name (param m 1)) link, quiet)
      else if is_command_of m "NICK"
          || (is_command_of m "QUIT" || (is_command_of m "PART" || is_command_of m "KICK"))
      then (
        record link { registrations = erase (lower_name (nick_of m.prefix)) link.registrations },
        quiet,
      )
      else handle_privmsg m now link

  unfoldable pub handle : Message → ℤ → IrcLink → IrcLink × Turn
  unfolding is_command_of param same_name nick_of send quiet identify join handle_players
      command_line utf8
  handle m now link =
      if is_command_of m "PING"
      then (link, send (command_line (utf8 "PONG") [] (some (param m 0))) quiet)
      else if is_command_of m "ERROR"
      then (link, quiet)
      else if is_command_of m "001"
      then (record link { nick = param m 0 }, identify config)
      else if is_command_of m "376" || is_command_of m "422"
      then (link, join config)
      else if is_command_of m "433" || is_command_of m "437"
      then (
        record link { nick = link.nick ++ b'_' ∷ [] },
        send (command_line (utf8 "NICK") ((link.nick ++ b'_' ∷ []) ∷ []) none) quiet,
      )
      else if is_command_of m "JOIN" && same_name (nick_of m.prefix) link.nick
      then (record link { joined = true }, quiet)
      else if is_command_of m "KICK" && same_name (param m 1) link.nick
      then (record link { joined = false }, join config)
      else handle_players m now link
