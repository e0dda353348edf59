-- ===== src/Command/Barred.antt =====
-- What an account that the sentinel keeps out can have done by writing.
use norelecbot.Base.{
  Bool, Bool-cases, ap, arith, false, inl, inr, none, refl, subst, sym, true, ◌∙◌, ◌≡◌, ◌⊎◌,
}
use norelecbot.Base.Int.{ltb_ℤ, pos, ℤ}
use norelecbot.Command.{
  command_is_for_bot, expand_adventure, is_command, parse_command_line, raid_trigger,
}
use norelecbot.Command.Dispatch.{
  Deed, Refusal, answer_line, answer_verbed, dispatch, keep_out, let_in, named_line, read_line,
}
use norelecbot.Command.OldLine.{Bound, old_line_instead, read_old_line, remember_sender}
use norelecbot.Command.Unread.{
  IsUnread, expand_buy-cases, expand_buy-none, expand_verb-cases, expand_verb-none,
  name_not_unblock, unheard-IsUnread, untriggered-IsUnread,
}
use norelecbot.Command.Verbs.{CommandContext, Verb, Verbed, expand_buy, expand_verb, same_verb}
use norelecbot.Sentinel.{blocked_until, heard}
use norelecbot.Text.{Text, is_empty, starts_with, text_eq, trim, utf8}
use norelecbot.Zodiac.{Zone}

-- Nothing, but to be told so, or to ask for `/unblock`, which is the owner's.
unfoldable pub is_kept_out : Deed → Bool
unfolding utf8
is_kept_out Deed.silent = true
is_kept_out (Deed.says (Refusal.is_blocked left)) = true
is_kept_out (Deed.runs name argument) = text_eq name (utf8 "/unblock")
is_kept_out _ = false

module _ (zone : Zone) (context : CommandContext) (now : ℤ) where
  -- An old line that no reader takes stays without an answer of its own.
  read_old_line-unread :
      (old : Text) (bound : Bound)
      → IsUnread old
      → read_old_line zone context now old bound ≡ (none, bound)
  unfolding read_old_line
  read_old_line-unread old bound (other, amount, slots, emoji, raid) =
      rw (amount, slots, emoji, raid) refl

  old_line-unread :
      (said : Text) (bound : Bound)
      → IsUnread (expand_adventure (trim said))
      → old_line_instead zone context now said bound ≡ (none, bound)
  unfolding old_line_instead
  old_line-unread said bound h =
      ground (arith, read_old_line-unread (expand_adventure (trim said)) bound h)

  read_line-unread :
      (verb : Verb) (m : Text) (bound : Bound)
      → IsUnread m
      → read_line zone context now verb m bound ≡ named_line zone context now verb m bound
  unfolding read_line
  read_line-unread verb m bound (other, amount, slots, emoji, raid) =
      rw (other, amount, slots, emoji, raid) refl

  answer_line-unread :
      (said : Text) (bound : Bound)
      → IsUnread (expand_adventure (trim said))
      → let v : Verbed = record { verb = Verb.no_verb; message = expand_adventure (trim said) } in
        answer_line zone context now v (old_line_instead zone context now said bound)
        ≡ named_line zone context now Verb.no_verb v.message bound
  unfolding answer_line
  answer_line-unread said bound unread =
      let v : Verbed = record { verb = Verb.no_verb; message = expand_adventure (trim said) } in
      ap (answer_line zone context now v) (old_line-unread said bound unread)
      ∙ read_line-unread Verb.no_verb v.message bound unread

  named_line-is_kept_out :
      (m : Text) (bound : Bound)
      → (is_command (parse_command_line m).name ≡ false)
        ⊎ (text_eq (parse_command_line m).name (utf8 "/unblock") ≡ true)
      → is_kept_out (named_line zone context now Verb.no_verb m bound).0 ≡ true
  unfolding named_line is_kept_out same_verb
  named_line-is_kept_out m bound allowed = ground arith

  -- A line that no reader takes and that is no command, or is `/unblock`, leaves it at that.
  answer_verbed-unread :
      (said : Text) (bound : Bound)
      → let v : Verbed = record { verb = Verb.no_verb; message = expand_adventure (trim said) } in
        IsUnread v.message
        → (is_command (parse_command_line v.message).name ≡ false)
          ⊎ (text_eq (parse_command_line v.message).name (utf8 "/unblock") ≡ true)
        → (known : Bound) → keep_out zone context now said v.message bound ≡ (none, known)
        → is_kept_out (answer_verbed zone context now said bound v).0 ≡ true
  unfolding answer_verbed let_in
  answer_verbed-unread said bound unread allowed known free =
      let v : Verbed = record { verb = Verb.no_verb; message = expand_adventure (trim said) } in
      ap (λ stopped. is_kept_out (let_in zone context now said v stopped).0) free
      ∙ ap (λ answer. is_kept_out answer.0) (answer_line-unread said known unread)
      ∙ named_line-is_kept_out v.message known allowed

  keep_out-passes :
      (said message : Text) (bound : Bound)
      → (command_is_for_bot said ≡ false)
        ⊎ (text_eq (parse_command_line message).name (utf8 "/unblock") ≡ true)
      → keep_out zone context now said message bound ≡ (none, bound)
  unfolding keep_out
  keep_out-passes said message bound passes = ground arith

  -- The line of an account that is blocked, which is for the bot and not `/unblock`.
  keep_out-holds :
      (said : Text) (v : Verbed) (bound : Bound)
      → let known = remember_sender zone context now bound in
        context.owner ≡ false
        → is_empty context.username ≡ false
        → ltb_ℤ (pos 0) (blocked_until known.key now known.sentinel) ≡ true
        → command_is_for_bot said ≡ true
        → text_eq (parse_command_line v.message).name (utf8 "/unblock") ≡ false
        → is_kept_out (answer_verbed zone context now said bound v).0 ≡ true
  unfolding answer_verbed let_in keep_out is_kept_out
  keep_out-holds said v bound other named blocked heard free = ground arith

  -- `/unblock` is not read as another line.
  unblock_is_itself :
      (m : Text)
      → text_eq
          (parse_command_line (expand_verb (expand_buy context m)).message).name
          (utf8 "/unblock")
        ≡ true
      → (expand_verb (expand_buy context m) ≡ record { verb = Verb.no_verb; message = m })
        × (starts_with m raid_trigger ≡ false)
  unblock_is_itself m h =
      let bought = expand_buy context m in
      let verbed = expand_verb bought in
      let verbed_free = unblock_untriggered verbed.message h in
      let same : verbed ≡ record { verb = Verb.no_verb; message = bought } =
        elim (expand_verb-cases bought) [ inl e ↦ e | inr raids ↦ absurd (ground arith) ] in
      let bought_free : starts_with bought raid_trigger ≡ false =
        ap (λ v. starts_with v.message raid_trigger) (sym same) ∙ verbed_free in
      let kept : bought ≡ m = elim (expand_buy-cases context m) [
        | inl e ↦ e
        | inr raids ↦ absurd (ground arith)
      ] in
      (
        same ∙ ap (λ message. record { verb = Verb.no_verb; message = message }) kept,
        ap (λ message. starts_with message raid_trigger) (sym kept) ∙ bought_free,
      )
    where
      unblock_untriggered :
          (message : Text)
          → text_eq (parse_command_line message).name (utf8 "/unblock") ≡ true
          → starts_with message raid_trigger ≡ false
      unblock_untriggered message e = ground (arith, name_not_unblock message)

  -- An account with a name, not of an owner, that the sentinel keeps out until later than now: whatever it
  -- writes, no handler is called but that of `/unblock`, and nothing is said but that it is blocked.
  pub dispatch-is_kept_out :
      (said : Text) (bound : Bound)
      → context.owner ≡ false
      → is_empty context.username ≡ false
      → ltb_ℤ (pos 0) (
          blocked_until
            (remember_sender zone context now bound).key
            now
            (remember_sender zone context now bound).sentinel)
        ≡ true
      → is_kept_out (dispatch zone context now said bound).0 ≡ true
  unfolding dispatch
  dispatch-is_kept_out said bound other named blocked =
      let m = expand_adventure (trim said) in
      let v = expand_verb (expand_buy context m) in
      elim (Bool-cases (text_eq (parse_command_line v.message).name (utf8 "/unblock"))) [
        | inl asks ↦
            let (same, free) = unblock_is_itself m asks in
            let name : text_eq (parse_command_line m).name (utf8 "/unblock") ≡ true =
              ap (λ w. text_eq (parse_command_line w.message).name (utf8 "/unblock")) (sym same)
              ∙ asks in
            subst (λ w. is_kept_out (answer_verbed zone context now said bound w).0 ≡ true)
              (sym same)
              (answer_verbed-unread said bound (untriggered-IsUnread m free) (inr name) bound
                (keep_out-passes said m bound (inr name)))
        | inr free ↦ elim (Bool-cases (command_is_for_bot said)) [
          | inl is_heard ↦ keep_out-holds said v bound other named blocked is_heard free
          | inr not_heard ↦
              let (unread, no_command) = unheard-IsUnread said not_heard in
              let same : v ≡ record { verb = Verb.no_verb; message = m } =
                ap expand_verb (expand_buy-none context m no_command)
                ∙ expand_verb-none m no_command in
              subst (λ w. is_kept_out (answer_verbed zone context now said bound w).0 ≡ true)
                (sym same)
                (answer_verbed-unread said bound unread (inl no_command) bound
                  (keep_out-passes said m bound (inl not_heard)))
        ]
      ]
