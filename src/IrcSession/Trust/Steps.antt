-- ===== src/IrcSession/Trust/Steps.antt =====
-- Each step of a session keeps to those whom the server has vouched for.
use norelecbot.Base.{
  All-append, Bool, Bool-cases, List, Option, Option-cases, [], arith, false, inl, inr, none, not,
  refl, some, true, ◌||◌, ◌∷◌, ◌≡◌,
}
use norelecbot.Base.Int.{ℤ}
use norelecbot.Command.{command_is_for_bot}
use norelecbot.Irc.{Message, nick_of}
use norelecbot.IrcSession.{
  Call, IrcLink, Registration, SessionConfig, Turn, Waiting, call, forget_nick, fresh_answer,
  is_nick, note_account, note_registered, param, quiet, send, unregistered_reply, with_slash,
}
use norelecbot.IrcSession.Handling.{
  answer, answer_known, end_whois, for_bot, hear, release, settle, settle_all,
}
use norelecbot.IrcSession.Speech.{is_owner, released_entry, say, say_reply, wait_for_whois}
use norelecbot.IrcSession.Trust.{
  AllCalls, IsTrusted, erase-AllWhois, fresh_answer-vouched, insert-AllEntries, insert-AllWhois,
  is_vouched_call, lookup-AllWhois, vouched,
}
use norelecbot.Table.{lookup}
use norelecbot.Text.{Text, lower_name, text_eq_iff}

module _ (h : List Message) (config : SessionConfig) where
  say-AllCalls : (text : Text) (turn : Turn) → AllCalls h turn → AllCalls h (say config text turn)
  unfolding say AllCalls
  say-AllCalls text turn all = all

  call-AllCalls :
      (c : Call) (turn : Turn)
      → is_vouched_call h c ≡ true
      → AllCalls h turn
      → AllCalls h (call c turn)
  unfolding call AllCalls
  call-AllCalls c turn v all =
      All-append (λ x. is_vouched_call h x ≡ true) turn.calls (c ∷ []) all (v, tt)

  say_reply-AllCalls :
      (reply : Option Text) (turn : Turn)
      → AllCalls h turn
      → AllCalls h (say_reply config reply turn)
  unfolding say_reply
  say_reply-AllCalls none turn all = all
  say_reply-AllCalls (some text) turn all = say-AllCalls text turn all

module _ (h : List Message) (config : SessionConfig)
    (respond : List Call → Text → Text → Bool → Text → Option Text) where
  answer-AllCalls :
      (who account text : Text) (turn : Turn)
      → vouched h (lower_name who) ≡ true
      → AllCalls h turn
      → AllCalls h (answer config respond who account text turn)
  unfolding answer is_vouched_call
  answer-AllCalls who account text turn v all = say_reply-AllCalls h config _ _ (
      call-AllCalls h config
        (Call.asks_responder who account (is_owner config who) (with_slash text)) turn v all)

  -- An entry is trusted and so are the calls.
  IsTrustedEntry : Text → Registration × Turn → Type 0
  IsTrustedEntry k (r, turn) = ((not r.registered || vouched h k) ≡ true) × AllCalls h turn

  settle-IsTrustedEntry :
      (lowered : Text) (w : Waiting) (now : ℤ) (entry : Registration) (turn : Turn)
      → is_nick lowered w ≡ true
      → IsTrustedEntry lowered (entry, turn)
      → IsTrustedEntry lowered (settle config respond w now entry turn)
  unfolding settle IsTrustedEntry is_nick
  settle-IsTrustedEntry lowered w now entry turn same (v, all) = ground (
    arith,
    text_eq_iff (lower_name w.nick) lowered,
    answer-AllCalls w.nick entry.account w.text turn,
    say-AllCalls h config (unregistered_reply w.nick) turn,
  )

  settle_all-IsTrustedEntry :
      (lowered : Text) (now : ℤ) (ws : List Waiting) (entry : Registration) (turn : Turn)
      → IsTrustedEntry lowered (entry, turn)
      → IsTrustedEntry lowered (settle_all config respond lowered now ws entry turn)
  unfolding settle_all
  settle_all-IsTrustedEntry lowered now [] entry turn t = t
  settle_all-IsTrustedEntry lowered now (w ∷ ws) entry turn t =
      settle_all-IsTrustedEntry lowered now ws _ _ (elim (Bool-cases (is_nick lowered w)) [
        | inl his ↦ rw his (settle-IsTrustedEntry lowered w now entry turn his t)
        | inr other ↦ rw other t
      ])

  -- A link to go on with, and the calls that were made.
  abbrev pub IsTrustedStep : IrcLink × Turn → Type 0
  IsTrustedStep (link, turn) = IsTrusted h link × AllCalls h turn

  pub end_whois-IsTrustedStep :
      (lowered : Text) (now : ℤ) (link : IrcLink)
      → IsTrusted h link
      → IsTrustedStep (end_whois config respond lowered now link)
  unfolding end_whois release quiet AllCalls IsTrustedEntry released_entry
  end_whois-IsTrustedStep lowered now link (asked, known) =
      elim (Option-cases (lookup lowered link.asked)) [
        | inl unasked ↦ ground (arith, asked, known)
        | inr (whois, found) ↦
            let entry = released_entry config lowered whois now link.registrations in
            let v = lookup-AllWhois h lowered whois link.asked found asked in
            let t = settle_all-IsTrustedEntry lowered now link.waiting entry quiet (v, tt) in
            rw (found, end_whois, release)
              (
                (
                  erase-AllWhois h lowered link.asked asked,
                  insert-AllEntries h lowered
                      (settle_all config respond lowered now link.waiting entry quiet).0
                      link.registrations t.0 known,
                ),
                t.1,
              )
      ]

  pub note_registered-IsTrusted :
      (lowered : Text) (link : IrcLink)
      → vouched h lowered ≡ true
      → IsTrusted h link
      → IsTrusted h (note_registered lowered link)
  unfolding note_registered
  note_registered-IsTrusted lowered link v (asked, known) =
      elim (Option-cases (lookup lowered link.asked)) [
        | inl unasked ↦ ground (arith, asked, known)
        | inr (whois, found) ↦ ground (
          arith,
          insert-AllWhois h lowered (record whois { registered = true }) link.asked v asked,
          known,
        )
      ]

  pub note_account-IsTrusted :
      (lowered account : Text) (link : IrcLink)
      → vouched h lowered ≡ true
      → IsTrusted h link
      → IsTrusted h (note_account lowered account link)
  unfolding note_account
  note_account-IsTrusted lowered account link v (asked, known) =
      elim (Option-cases (lookup lowered link.asked)) [
        | inl unasked ↦ ground (arith, asked, known)
        | inr (whois, found) ↦ ground (
          arith,
          insert-AllWhois h lowered (record { registered = true; account = account }) link.asked v
              asked,
          known,
        )
      ]

  pub forget_nick-IsTrusted :
      (lowered : Text) (link : IrcLink) → IsTrusted h link → IsTrusted h (forget_nick lowered link)
  unfolding forget_nick
  forget_nick-IsTrusted lowered link (asked, known) =
      (erase-AllWhois h lowered link.asked asked, known)

  answer_known-IsTrustedStep :
      (sender text : Text) (now : ℤ) (r : Registration) (link : IrcLink) (turn : Turn)
      → (not r.registered || vouched h (lower_name sender)) ≡ true
      → IsTrusted h link
      → AllCalls h turn
      → IsTrustedStep (answer_known config respond sender text now r link turn)
  unfolding answer_known
  answer_known-IsTrustedStep sender text now r link turn v (asked, known) all = ground (
    arith,
    v,
    answer-AllCalls sender r.account text turn,
    insert-AllEntries h (lower_name sender) (record r { told = now }) link.registrations v known,
    say-AllCalls h config (unregistered_reply sender) turn all,
  )

  wait_for_whois-IsTrustedStep :
      (sender text : Text) (now : ℤ) (link : IrcLink) (turn : Turn)
      → IsTrusted h link
      → AllCalls h turn
      → IsTrustedStep (wait_for_whois config sender text now link turn)
  unfolding wait_for_whois send AllCalls
  wait_for_whois-IsTrustedStep sender text now link turn (asked, known) all = ground (
    arith,
    insert-AllWhois h (lower_name sender) (record { registered = false; account = [] }) link.asked
        refl asked,
  )

  for_bot-IsTrustedStep :
      (sender text : Text) (now : ℤ) (link : IrcLink) (turn : Turn)
      → IsTrusted h link
      → AllCalls h turn
      → IsTrustedStep (for_bot config respond sender text now link turn)
  unfolding for_bot
  for_bot-IsTrustedStep sender text now link turn t all =
      elim (Option-cases (fresh_answer (lower_name sender) now link)) [
        | inl unknown ↦ ground (arith, wait_for_whois-IsTrustedStep sender text now link turn t all)
        | inr (r, fresh) ↦ ground (
          arith,
          answer_known-IsTrustedStep sender text now r link turn
              (fresh_answer-vouched h (lower_name sender) now link r fresh t.1) t all,
        )
      ]

  pub hear-IsTrustedStep :
      (m : Message) (now : ℤ) (link : IrcLink)
      → IsTrusted h link
      → IsTrustedStep (hear config respond m now link)
  unfolding hear quiet call AllCalls is_vouched_call
  hear-IsTrustedStep m now link t =
      elim (Bool-cases (command_is_for_bot (with_slash (param m 1)))) [
        | inl for_it ↦
            rw for_it (for_bot-IsTrustedStep (nick_of m.prefix) (param m 1) now link _ t (refl, tt))
        | inr chat ↦ rw chat (t, (refl, (refl, tt)))
      ]
