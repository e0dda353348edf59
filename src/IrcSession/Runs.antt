-- ===== src/IrcSession/Runs.antt =====
-- A session from its start: connections, messages of the server and ticks, in any order.
use norelecbot.Base.{All, Bool, List, Option, [], any_of, arith, none, refl, subst, true, ◌∷◌, ◌≡◌}
use norelecbot.Base.Int.{leb_ℤ, ℤ}
use norelecbot.Irc.{Message, command_line}
use norelecbot.IrcSession.{
  Call, IrcLink, SessionConfig, Turn, Waiting, Whois, drop_late, fresh_answer, new_link, send, tick,
}
use norelecbot.IrcSession.Asked.{Awaits, IsAwaited}
use norelecbot.IrcSession.Asked.Handled.{handle-Awaits}
use norelecbot.IrcSession.Asked.Ticked.{tick-Awaits}
use norelecbot.IrcSession.Handling.{for_bot, handle}
use norelecbot.IrcSession.Speech.{connected, wait_for_whois}
use norelecbot.Table.{Table, erase, lookup}
use norelecbot.Text.{Text, lower_name, utf8}

module _ (config : SessionConfig)
    (respond : List Call → Text → Text → Bool → Text → Option Text) where
  -- The sessions that can come about, each with the messages since it connected, the last one first.
  pub data Run : List Message → IrcLink → Type 0 where
    starts : Run [] (new_link config)
    connects : {h : List Message} {link : IrcLink} → Run h link → Run [] (connected config link).0
    hears :
        {h : List Message} {link : IrcLink} (m : Message) (now : ℤ)
        → Run h link
        → Run (m ∷ h) (handle config respond m now link).0
    ticks : {h : List Message} {link : IrcLink} (now : ℤ) → Run h link → Run h (tick now link)

  pub Run-Awaits : {h : List Message} {link : IrcLink} → Run h link → Awaits link
  unfolding new_link connected IsAwaited
  Run-Awaits starts = (tt, tt)
  Run-Awaits (connects r) = (tt, tt)
  Run-Awaits (hears {link} m now r) = handle-Awaits config respond m now link (Run-Awaits r)
  Run-Awaits (ticks {link} now r) = tick-Awaits now link (Run-Awaits r)

-- Nobody waits on when every deadline has passed.
drop_late-none :
    (now : ℤ) (ws : List Waiting) (m : Table Whois)
    → All (λ w. leb_ℤ w.deadline now ≡ true) ws
    → (drop_late now ws m).0 ≡ []
unfolding drop_late
drop_late-none now [] m h = refl
drop_late-none now (w ∷ ws) m (h, hs) =
    ground (arith, drop_late-none now ws (erase (lower_name w.nick) m) hs)

not_asked : (m : Table Whois) → IsAwaited [] m → m ≡ []
unfolding IsAwaited any_of
not_asked [] h = refl
not_asked (e ∷ m) (keyed, (h, hs)) = absurd (ground arith)

module _ (config : SessionConfig)
    (respond : List Call → Text → Text → Bool → Text → Option Text) where
  -- Whoever is not known and not asked about is asked about.
  for_bot_asks :
      (sender text : Text) (now : ℤ) (link : IrcLink) (turn : Turn)
      → fresh_answer (lower_name sender) now link ≡ none
      → link.asked ≡ []
      → (for_bot config respond sender text now link turn).1
        ≡ send (command_line (utf8 "WHOIS") (sender ∷ []) none) turn
  unfolding for_bot wait_for_whois lookup
  for_bot_asks sender text now link turn unknown unasked = ground arith

  -- In a session that came about from its start, once every deadline of those who wait has passed, a
  -- tick leaves no question to the server open and nobody waiting: a later line for the bot of anybody,
  -- when no answer about him counts any more, asks the server about him.
  pub tick_frees :
      {h : List Message} {link : IrcLink} (now later : ℤ) (sender text : Text) (turn : Turn)
      → Run config respond h link
      → All (λ w. leb_ℤ w.deadline now ≡ true) link.waiting
      → fresh_answer (lower_name sender) later (tick now link) ≡ none
      → ((tick now link).waiting ≡ [])
        × ((tick now link).asked ≡ [])
        × ((for_bot config respond sender text later (tick now link) turn).1
            ≡ send (command_line (utf8 "WHOIS") (sender ∷ []) none) turn)
  tick_frees {link} now later sender text turn r late unknown =
      let after : Awaits (tick now link) = tick-Awaits now link (Run-Awaits config respond r) in
      let nobody : (tick now link).waiting ≡ [] =
        unfold tick in drop_late-none now link.waiting link.asked late in
      let none_open : (tick now link).asked ≡ [] =
        not_asked (tick now link).asked
          (subst (λ ws. IsAwaited ws (tick now link).asked) nobody after) in
      (nobody, none_open, for_bot_asks sender text later (tick now link) turn unknown none_open)
