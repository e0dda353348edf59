-- ===== src/IrcSession/Trust/Served.antt =====
-- A session from its start answers only those whom the server has vouched for.
use norelecbot.Base.{
  All, Bool, Bool-cases, List, Option, [], any_of, arith, inl, inr, none, some, true, ◌++◌, ◌∷◌,
  ◌≡◌,
}
use norelecbot.Base.Int.{ℤ}
use norelecbot.Irc.{Message, command_line, nick_of}
use norelecbot.IrcSession.{
  Call, IrcLink, SessionConfig, Turn, is_command_of, is_stale, new_link, param, quiet, send, tick,
}
use norelecbot.IrcSession.Handling.{handle, handle_players, handle_privmsg}
use norelecbot.IrcSession.Runs.{Run}
use norelecbot.IrcSession.Speech.{connected, identify, join}
use norelecbot.IrcSession.Trust.{
  AllCalls, AllEntries, AllWhois, IsTrusted, drop_late-AllWhois, erase-AllEntries,
  erase_if-AllEntries, is_vouched_call, more-IsTrusted, vouched, vouches,
}
use norelecbot.IrcSession.Trust.Steps.{
  end_whois-IsTrustedStep, forget_nick-IsTrusted, hear-IsTrustedStep, note_account-IsTrusted,
  note_registered-IsTrusted,
}
use norelecbot.Text.{Text, is_empty, lower_name, text_eq_refl, utf8}

module _ (m : Message) (h : List Message) (config : SessionConfig)
    (respond : List Call → Text → Text → Bool → Text → Option Text) (now : ℤ) where
  abbrev Step : IrcLink × Turn → Type 0
  Step r = IsTrusted (m ∷ h) r.0 × AllCalls (m ∷ h) r.1

  quiet-AllCalls : AllCalls (m ∷ h) quiet
  unfolding AllCalls quiet
  quiet-AllCalls = tt

  send-AllCalls : (l : Text) → AllCalls (m ∷ h) (send l quiet)
  unfolding AllCalls quiet send
  send-AllCalls l = tt

  vouched_by :
      vouches (lower_name (param m 1)) m ≡ true → vouched (m ∷ h) (lower_name (param m 1)) ≡ true
  unfolding vouched any_of
  vouched_by v = ground arith

  vouches_registered :
      is_command_of m "307" ≡ true → vouched (m ∷ h) (lower_name (param m 1)) ≡ true
  vouches_registered e =
      vouched_by (unfold vouches in ground (arith, text_eq_refl (lower_name (param m 1))))

  vouches_account : is_command_of m "330" ≡ true → vouched (m ∷ h) (lower_name (param m 1)) ≡ true
  vouches_account e =
      vouched_by (unfold vouches in ground (arith, text_eq_refl (lower_name (param m 1))))

  handle_privmsg-Step :
      (link : IrcLink) → IsTrusted (m ∷ h) link → Step (handle_privmsg config respond m now link)
  unfolding handle_privmsg
  handle_privmsg-Step link t =
      ground (arith, quiet-AllCalls, hear-IsTrustedStep (m ∷ h) config respond m now link t)

  handle_players-Step :
      (link : IrcLink) → IsTrusted (m ∷ h) link → Step (handle_players config respond m now link)
  unfolding handle_players
  handle_players-Step link t = ground (
    arith,
    quiet-AllCalls,
    vouches_registered,
    vouches_account,
    note_registered-IsTrusted (m ∷ h) config respond (lower_name (param m 1)) link,
    note_account-IsTrusted (m ∷ h) config respond (lower_name (param m 1)) (param m 2) link,
    end_whois-IsTrustedStep (m ∷ h) config respond (lower_name (param m 1)) now link t,
    forget_nick-IsTrusted (m ∷ h) config respond (lower_name (param m 1)) link t,
    erase-AllEntries (m ∷ h) (lower_name (nick_of m.prefix)) link.registrations,
    handle_privmsg-Step link t,
  )

  join-AllCalls : AllCalls (m ∷ h) (join config)
  unfolding join
  join-AllCalls = send-AllCalls _

  identify-AllCalls : AllCalls (m ∷ h) (identify config)
  unfolding identify
  identify-AllCalls = elim (Bool-cases (is_empty config.nickserv_password)) [
    | inl nothing ↦ rw nothing quiet-AllCalls
    | inr secret ↦ rw secret (send-AllCalls _)
  ]

  pub handle-Step :
      (link : IrcLink) → IsTrusted (m ∷ h) link → Step (handle config respond m now link)
  unfolding handle
  handle-Step link t = ground (
    arith,
    quiet-AllCalls,
    send-AllCalls (command_line (utf8 "PONG") [] (some (param m 0))),
    identify-AllCalls,
    join-AllCalls,
    send-AllCalls (command_line (utf8 "NICK") ((link.nick ++ b'_' ∷ []) ∷ []) none),
    handle_players-Step link t,
  )

module _ (config : SessionConfig)
    (respond : List Call → Text → Text → Bool → Text → Option Text) where
  Run-IsTrusted : {h : List Message} {link : IrcLink} → Run config respond h link → IsTrusted h link
  unfolding new_link connected AllWhois AllEntries tick
  Run-IsTrusted Run.starts = (tt, tt)
  Run-IsTrusted (Run.connects r) = (tt, tt)
  Run-IsTrusted (Run.hears {h} {link} m now r) =
      (handle-Step m h config respond now link (more-IsTrusted m h link (Run-IsTrusted r))).0
  Run-IsTrusted (Run.ticks {h} {link} now r) =
      let (asked, known) = Run-IsTrusted r in
      (
        drop_late-AllWhois h now link.waiting link.asked asked,
        erase_if-AllEntries h (is_stale now) link.registrations known,
      )

  -- In a session that came about from its start, whenever a message makes it ask the responder for a
  -- player, the server has said of that nick that it is registered, since the session last connected.
  pub handle_vouched :
      {h : List Message} {link : IrcLink} (m : Message) (now : ℤ)
      → Run config respond h link
      → All (λ c. is_vouched_call (m ∷ h) c ≡ true) (handle config respond m now link).1.calls
  unfolding AllCalls
  handle_vouched {h} {link} m now r =
      (handle-Step m h config respond now link (more-IsTrusted m h link (Run-IsTrusted r))).1
