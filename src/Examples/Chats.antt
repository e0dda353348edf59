-- ===== src/Examples/Chats.antt =====
-- The theorems on the IRC session, at a channel in which somebody asks for help.
use norelecbot.Base.{
  All, Bool, List, Option, [], any_of, arith, erase_if, find_index, length, none, refl, some, true,
  ◌∷◌, ◌≡◌, ◌≤◌,
}
use norelecbot.Base.Int.{pos, ◌+ℤ◌}
use norelecbot.Irc.{Message, command_line}
use norelecbot.IrcSession.{Call, IrcLink, SessionConfig, fresh_answer, new_link, quiet, send, tick}
use norelecbot.IrcSession.Handling.{for_bot, handle}
use norelecbot.IrcSession.Runs.{Run, tick_frees}
use norelecbot.IrcSession.Said.{announce_fits}
use norelecbot.IrcSession.Speech.{announce}
use norelecbot.IrcSession.Trust.{is_vouched_call}
use norelecbot.IrcSession.Trust.Served.{handle_vouched}
use norelecbot.Text.{Text, text_eq, utf8}

abbrev irc_config : SessionConfig
unfolding utf8
irc_config = record {
  own_nick = utf8 "bot";
  user = utf8 "bot";
  realname = utf8 "bot";
  nickserv_password = [];
  channel = utf8 "#c";
  no_forward_prefix = utf8 ">";
  owner_nick = [];
  registration_seconds = pos 300;
  whois_seconds = pos 10;
}

abbrev answers_hello : List Call → Text → Text → Bool → Text → Option Text
answers_hello calls who account owner text = some (b'h' ∷ b'i' ∷ [])

abbrev asks_help : Message
unfolding utf8
asks_help = record {
  prefix = utf8 "anna!a@h";
  command = utf8 "PRIVMSG";
  params = utf8 "#c" ∷ utf8 "!help" ∷ [];
}

abbrev who_is_registered : Message
unfolding utf8
who_is_registered = record {
  prefix = utf8 "s";
  command = utf8 "307";
  params = utf8 "bot" ∷ utf8 "anna" ∷ [];
}

abbrev end_of_whois : Message
unfolding utf8
end_of_whois = record {
  prefix = utf8 "s";
  command = utf8 "318";
  params = utf8 "bot" ∷ utf8 "anna" ∷ [];
}

abbrev asked_link : IrcLink
asked_link = (handle irc_config answers_hello asks_help (pos 1) (new_link irc_config)).0

abbrev told_link : IrcLink
told_link = (handle irc_config answers_hello who_is_registered (pos 2) asked_link).0

asked-Run : Run irc_config answers_hello (asks_help ∷ []) asked_link
asked-Run = Run.hears asks_help (pos 1) Run.starts

told-Run : Run irc_config answers_hello (who_is_registered ∷ asks_help ∷ []) told_link
told-Run = Run.hears who_is_registered (pos 2) asked-Run

handle_vouched_example :
    All
      (λ c. is_vouched_call (end_of_whois ∷ who_is_registered ∷ asks_help ∷ []) c ≡ true)
      (handle irc_config answers_hello end_of_whois (pos 3) told_link).1.calls
handle_vouched_example = handle_vouched irc_config answers_hello end_of_whois (pos 3) told-Run

-- The responder is asked once.
handle_run : length (handle irc_config answers_hello end_of_whois (pos 3) told_link).1.calls ≡ 1
unfolding handle new_link text_eq find_index any_of
handle_run = refl

tick_frees_example :
    ((tick (pos 11) asked_link).waiting ≡ [])
    × ((tick (pos 11) asked_link).asked ≡ [])
    × ((for_bot irc_config answers_hello
          (utf8 "anna")
          (utf8 "!help")
          (pos 12)
          (tick (pos 11) asked_link)
          quiet).1
        ≡ send (command_line (utf8 "WHOIS") (utf8 "anna" ∷ []) none) quiet)
unfolding handle new_link tick fresh_answer text_eq find_index any_of ◌+ℤ◌ erase_if
tick_frees_example =
    tick_frees irc_config answers_hello (pos 11) (pos 12) (utf8 "anna") (utf8 "!help") quiet
      asked-Run (refl, tt) refl

announce_fits_example : All (λ l. length l ≤ 512) (announce irc_config (utf8 "ciao"))
unfolding irc_config
announce_fits_example = announce_fits irc_config (utf8 "ciao") (omega arith) (omega arith)
