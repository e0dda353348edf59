-- ===== src/IrcSession/Speech.antt =====
-- src/irc_session.cpp: what the session says with its configuration alone.
use norelecbot.Base.{
  Bool, List, Option, [], false, if◌then◌else◌, length, map, none, not, some, value_or, ◌&&◌, ◌++◌,
  ◌∷◌,
}
use norelecbot.Base.Int.{leb_ℤ, ℤ, ◌+ℤ◌}
use norelecbot.Irc.{command_line, same_name, split_text}
use norelecbot.IrcSession.{
  IrcLink, Registration, SessionConfig, Turn, Whois, fresh_registration, max_text_bytes, quiet,
  send, sub_size,
}
use norelecbot.Table.{Table, contains, insert, lookup}
use norelecbot.Text.{Text, is_empty, lower_name, utf8}

module _ (config : SessionConfig) where
  unfoldable pub connected : IrcLink → IrcLink × List Text
  unfolding command_line utf8
  connected link = (
    record { nick = config.own_nick; joined = false; registrations = []; asked = []; waiting = [] },
    command_line (utf8 "NICK") (config.own_nick ∷ []) none
        ∷ command_line (utf8 "USER") (config.user ∷ utf8 "0" ∷ utf8 "*" ∷ []) (some config.realname)
        ∷ [],
  )

  unfoldable pub say_line : Text → Text
  unfolding command_line utf8
  say_line part =
      command_line (utf8 "PRIVMSG") (config.channel ∷ []) (some (config.no_forward_prefix ++ part))

  unfoldable pub said_lines : Text → List Text
  unfolding split_text sub_size say_line
  said_lines text =
      map say_line (split_text text (sub_size max_text_bytes (length config.no_forward_prefix)))

  unfoldable pub say : Text → Turn → Turn
  unfolding said_lines
  say text turn = record turn { lines = turn.lines ++ said_lines text }

  unfoldable pub announce : Text → List Text
  unfolding say quiet
  announce text = (say text quiet).lines

  unfoldable pub is_owner : Text → Bool
  unfolding same_name
  is_owner who = not (is_empty config.owner_nick) && same_name who config.owner_nick

  unfoldable pub say_reply : Option Text → Turn → Turn
  unfolding say
  say_reply none turn = turn
  say_reply (some reply) turn = say reply turn

  -- Whoever is not registered is told so, once while an answer of the server counts.
  unfoldable pub may_tell : Registration → ℤ → Bool
  may_tell entry now = leb_ℤ (entry.told +ℤ config.registration_seconds) now

  unfoldable pub released_entry : Text → Whois → ℤ → Table Registration → Registration
  unfolding lookup fresh_registration
  released_entry lowered whois now registrations =
      record (value_or (lookup lowered registrations) fresh_registration) {
        registered = whois.registered;
        account = if is_empty whois.account then lowered else whois.account;
        expires = now +ℤ config.registration_seconds;
      }

  -- A line that waits for the server, which is asked unless it is being asked already.
  unfoldable pub wait_for_whois : Text → Text → ℤ → IrcLink → Turn → IrcLink × Turn
  unfolding lookup insert lower_name send command_line utf8
  wait_for_whois sender text now link turn =
      let waiting' =
        link.waiting
        ++ record { nick = sender; text = text; deadline = now +ℤ config.whois_seconds } ∷ [] in
      if contains (lower_name sender) link.asked
      then (record link { waiting = waiting' }, turn)
      else (
        record link {
          waiting = waiting';
          asked =
              insert (lower_name sender) (record { registered = false; account = [] }) link.asked;
        },
        send (command_line (utf8 "WHOIS") (sender ∷ []) none) turn,
      )

  unfoldable pub identify : Turn
  unfolding send quiet command_line utf8
  identify =
      if is_empty config.nickserv_password
      then quiet
      else send
          (command_line (utf8 "PRIVMSG") (utf8 "NickServ" ∷ [])
            (some (utf8 "IDENTIFY " ++ config.nickserv_password)))
          quiet

  unfoldable pub join : Turn
  unfolding send quiet command_line utf8
  join = send (command_line (utf8 "JOIN") (config.channel ∷ []) none) quiet
