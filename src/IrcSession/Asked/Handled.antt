-- ===== src/IrcSession/Asked/Handled.antt =====
-- `handle` and the questions to the server that are in flight.
use norelecbot.Base.{
  Bool, Bool-cases, List, Option, Option-cases, [], arith, false, inl, inr, true, ◌++◌, ◌∷◌,
}
use norelecbot.Base.Int.{ℤ, ◌+ℤ◌}
use norelecbot.Command.{command_is_for_bot}
use norelecbot.Irc.{Message, nick_of}
use norelecbot.IrcSession.{
  Call, IrcLink, Registration, SessionConfig, Turn, Waiting, fresh_answer, note_account,
  note_registered, param, with_slash,
}
use norelecbot.IrcSession.Asked.{
  Awaits, any_of-is_nick_self, append-IsAwaited, insert-IsAwaited, lookup-IsAwaited,
  settle-IsAwaited,
}
use norelecbot.IrcSession.Handling.{
  answer_known, end_whois, for_bot, handle, handle_players, handle_privmsg, hear, release,
}
use norelecbot.IrcSession.Speech.{wait_for_whois}
use norelecbot.Table.{contains, lookup}
use norelecbot.Text.{Text, lower_name}

module _ (config : SessionConfig)
    (respond : List Call → Text → Text → Bool → Text → Option Text) where
  end_whois-Awaits :
      (lowered : Text) (now : ℤ) (link : IrcLink)
      → Awaits link
      → Awaits (end_whois config respond lowered now link).0
  unfolding end_whois release
  end_whois-Awaits lowered now link h = elim (Option-cases (lookup lowered link.asked)) [
    | inl unasked ↦ ground arith
    | inr (whois, asked) ↦
        rw (asked, end_whois, release) (settle-IsAwaited lowered link.waiting link.asked h)
  ]

  note_registered-Awaits :
      (lowered : Text) (link : IrcLink) → Awaits link → Awaits (note_registered lowered link)
  unfolding note_registered
  note_registered-Awaits lowered link h = elim (Option-cases (lookup lowered link.asked)) [
    | inl unasked ↦ ground arith
    | inr (whois, asked) ↦ ground (
      arith,
      insert-IsAwaited lowered (record whois { registered = true }) link.waiting link.asked
          (lookup-IsAwaited lowered whois link.waiting link.asked asked h) h,
    )
  ]

  note_account-Awaits :
      (lowered account : Text) (link : IrcLink)
      → Awaits link
      → Awaits (note_account lowered account link)
  unfolding note_account
  note_account-Awaits lowered account link h = elim (Option-cases (lookup lowered link.asked)) [
    | inl unasked ↦ ground arith
    | inr (whois, asked) ↦ ground (
      arith,
      insert-IsAwaited lowered (record { registered = true; account = account }) link.waiting
          link.asked (lookup-IsAwaited lowered whois link.waiting link.asked asked h) h,
    )
  ]

  wait_for_whois-Awaits :
      (sender text : Text) (now : ℤ) (link : IrcLink) (turn : Turn)
      → Awaits link
      → Awaits (wait_for_whois config sender text now link turn).0
  unfolding wait_for_whois
  wait_for_whois-Awaits sender text now link turn h =
      let late = now +ℤ config.whois_seconds in
      let w : Waiting = record { nick = sender; text = text; deadline = late } in
      let more = append-IsAwaited link.waiting (w ∷ []) link.asked h in
      elim (Bool-cases (contains (lower_name sender) link.asked)) [
        | inl asked ↦ rw asked more
        | inr new ↦ rw new (
            insert-IsAwaited (lower_name sender) (record { registered = false; account = [] })
              (link.waiting ++ w ∷ []) link.asked
              (any_of-is_nick_self sender text late link.waiting) more)
      ]

  answer_known-Awaits :
      (sender text : Text) (now : ℤ) (known : Registration) (link : IrcLink) (turn : Turn)
      → Awaits link
      → Awaits (answer_known config respond sender text now known link turn).0
  unfolding answer_known
  answer_known-Awaits sender text now known link turn h = ground arith

  for_bot-Awaits :
      (sender text : Text) (now : ℤ) (link : IrcLink) (turn : Turn)
      → Awaits link
      → Awaits (for_bot config respond sender text now link turn).0
  unfolding for_bot
  for_bot-Awaits sender text now link turn h =
      elim (Option-cases (fresh_answer (lower_name sender) now link)) [
        | inl nothing ↦ ground (arith, wait_for_whois-Awaits sender text now link turn h)
        | inr (known, fresh) ↦ ground (arith, answer_known-Awaits sender text now known link turn h)
      ]

  hear-Awaits :
      (m : Message) (now : ℤ) (link : IrcLink)
      → Awaits link
      → Awaits (hear config respond m now link).0
  unfolding hear
  hear-Awaits m now link h = elim (Bool-cases (command_is_for_bot (with_slash (param m 1)))) [
    | inl for_it ↦ rw for_it (for_bot-Awaits (nick_of m.prefix) (param m 1) now link _ h)
    | inr chat ↦ rw chat h
  ]

  handle_privmsg-Awaits :
      (m : Message) (now : ℤ) (link : IrcLink)
      → Awaits link
      → Awaits (handle_privmsg config respond m now link).0
  unfolding handle_privmsg
  handle_privmsg-Awaits m now link h = ground (arith, hear-Awaits m now link)

  -- What a message changes leaves every question with somebody who waits for it.
  pub handle-Awaits :
      (m : Message) (now : ℤ) (link : IrcLink)
      → Awaits link
      → Awaits (handle config respond m now link).0
  unfolding handle handle_players
  handle-Awaits m now link h = ground (
    arith,
    end_whois-Awaits (lower_name (param m 1)) now link,
    note_registered-Awaits (lower_name (param m 1)) link,
    note_account-Awaits (lower_name (param m 1)) (param m 2) link,
    settle-IsAwaited (lower_name (param m 1)) link.waiting link.asked,
    handle_privmsg-Awaits m now link,
  )
