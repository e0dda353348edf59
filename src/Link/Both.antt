-- ===== src/Link/Both.antt =====
-- About the accounts that `player_link` leaves.
use norelecbot.Base.{
  Bool, Bool-cases, Option, [], ap, arith, false, if◌then◌else◌, inl, inr, none, not, refl, some,
  ◌&&◌, ◌||◌, ◌∙◌, ◌∷◌, ◌≡◌, ◌≢◌, ◌⊎◌,
}
use norelecbot.Base.Int.{eqb_ℤ, pos, ℤ}
use norelecbot.Identity.{platform_key}
use norelecbot.Link.{
  LinkStatus, account_of, asked_back, found_account, has_assets, link_accounts, link_keys,
  link_reciprocal, merge, platform_prefix, player_link, rename_all, taken_by_other,
}
use norelecbot.State.{ConquisterState}
use norelecbot.Table.{Authors, lookup}
use norelecbot.Text.{Text, is_empty, lower_name, starts_with, text_eq, text_eq_iff, text_eq_refl}

lookup-rename_all :
    (secondary primary k key : Text) (m : Authors)
    → lookup k m ≡ some key
    → lookup k (rename_all secondary primary m)
      ≡ some (if text_eq key secondary then primary else key)
unfolding lookup rename_all
lookup-rename_all secondary primary k key [] e = absurd (ground arith)
lookup-rename_all secondary primary k key ((j, v) ∷ m) e =
    ground (arith, lookup-rename_all secondary primary k key m)

-- One key for the two accounts.
abbrev pub AreOne : Text → Text → Authors → Type 0
AreOne mine theirs accounts =
    (key : Text) × (lookup mine accounts ≡ some key) × (lookup theirs accounts ≡ some key)

stays : Bool → Text → Text → Text
stays keeps_other mine_key other_key = if keeps_other then other_key else mine_key

goes : Bool → Text → Text → Text
goes keeps_other mine_key other_key =
    if text_eq (stays keeps_other mine_key other_key) mine_key then other_key else mine_key

-- Whoever stays, both keys become his.
stays_both :
    (keeps_other : Bool) (mine_key other_key : Text)
    → let primary = stays keeps_other mine_key other_key in
      let secondary = goes keeps_other mine_key other_key in
      ((if text_eq mine_key secondary then primary else mine_key) ≡ primary)
      × ((if text_eq other_key secondary then primary else other_key) ≡ primary)
unfolding stays goes
stays_both keeps_other mine_key other_key = ground (
  arith,
  text_eq_refl mine_key,
  text_eq_refl other_key,
  text_eq_iff mine_key other_key,
  text_eq_iff other_key mine_key,
)

-- What a link comes to: both accounts are one player's, or they are as they were.
abbrev pub Answer : Text → Text → ConquisterState → LinkStatus × ConquisterState → Type 0
Answer mine theirs st (r, st') =
    ((r ≡ LinkStatus.linked) × AreOne mine theirs st'.accounts)
    ⊎ ((r ≢ LinkStatus.linked) × (st'.accounts ≡ st.accounts))

module _ (mine theirs mine_key other_key : Text) (st : ConquisterState)
    (a : lookup mine st.accounts ≡ some mine_key)
    (b : lookup theirs st.accounts ≡ some other_key) where
  renamed-AreOne :
      let keeps_other = has_assets st other_key in
      AreOne mine theirs (
        rename_all
          (goes keeps_other mine_key other_key)
          (stays keeps_other mine_key other_key)
          st.accounts)
  renamed-AreOne =
      let keeps_other = has_assets st other_key in
      let primary = stays keeps_other mine_key other_key in
      let secondary = goes keeps_other mine_key other_key in
      let (one, two) = stays_both keeps_other mine_key other_key in
      (
        primary,
        lookup-rename_all secondary primary mine mine_key st.accounts a ∙ ap some one,
        lookup-rename_all secondary primary theirs other_key st.accounts b ∙ ap some two,
      )

  link_keys-Answer : Answer mine theirs st (link_keys mine theirs mine_key other_key st)
  unfolding link_keys merge stays goes
  link_keys-Answer = elim (Bool-cases (has_assets st mine_key && has_assets st other_key)) [
    | inl e ↦ rw (e, Answer) (inr ((λ c. cc), refl))
    | inr e ↦ rw (e, Answer) (inl (refl, renamed-AreOne))
  ]

  link_reciprocal-Answer :
      (other_on_irc : Bool)
      → Answer mine theirs st (link_reciprocal other_on_irc mine theirs mine_key other_key st)
  unfolding link_reciprocal
  link_reciprocal-Answer other_on_irc =
      elim (Bool-cases (
        taken_by_other other_on_irc mine_key mine st.accounts
        || taken_by_other (not other_on_irc) other_key theirs st.accounts)) [
          | inl e ↦ rw (e, Answer) (inr ((λ c. cc), refl))
          | inr e ↦ rw e link_keys-Answer
        ]

  link_accounts-Answer :
      (other_on_irc : Bool)
      → Answer mine theirs st (link_accounts other_on_irc mine theirs mine_key other_key st)
  unfolding link_accounts
  link_accounts-Answer other_on_irc = elim (Bool-cases (text_eq mine_key other_key)) [
    | inl e ↦ rw (e, Answer) (inr ((λ c. cc), refl))
    | inr e ↦ elim (Bool-cases (asked_back (lookup theirs st.link_requests) mine)) [
      | inl f ↦ rw (e, f) (link_reciprocal-Answer other_on_irc)
      | inr f ↦ rw (e, f, Answer) (inr ((λ c. cc), refl))
    ]
  ]

-- An account that is found on file is bound to that player.
lookup-account_of :
    (on_irc : Bool) (owner : Text) (m : Authors)
    → is_empty (account_of on_irc owner m) ≡ false
    → (key : Text) × (lookup (account_of on_irc owner m) m ≡ some key)
unfolding account_of lookup
lookup-account_of on_irc owner [] e = absurd (ground arith)
lookup-account_of on_irc owner ((account, key) ∷ m) e =
    elim (Bool-cases (text_eq key owner && starts_with account (platform_prefix on_irc))) [
      | inl here ↦ rw (here, text_eq_refl account) (key, refl)
      | inr later ↦
          let there = account_of on_irc owner m in
          let there_too : is_empty there ≡ false = ground arith in
          let (found, f) = lookup-account_of on_irc owner m there_too in
          elim (Bool-cases (text_eq account there)) [
            | inl same ↦ rw (later, same) (key, refl)
            | inr other ↦ (found, ground (arith, f))
          ]
    ]

-- What a call answers: both accounts are one player's now, or the accounts are as they were.
abbrev pub Linked : Text → Text → ConquisterState → Option (LinkStatus × ConquisterState) → Type 0
Linked mine theirs st none = ⊥
Linked mine theirs st (some answer) = Answer mine theirs st answer

-- The names of the platform that the caller is not on.
abbrev pub other_names : ℤ → ConquisterState → Authors
other_names user_id st = if not (eqb_ℤ user_id (pos 0)) then st.irc_nicks else st.telegram_names

-- With his own account bound and the other name on file, a call answers, and if it says linked his
-- account and the other's are one player's now; with any other answer every account is whose it was.
pub player_link-Linked :
    (user_id : ℤ) (username other_name account_name owner mine_key : Text) (st : ConquisterState)
    → lookup (lower_name other_name) (other_names user_id st) ≡ some owner
    → lookup (platform_key user_id username account_name) st.accounts ≡ some mine_key
    → Linked
        (platform_key user_id username account_name)
        (account_of (not (eqb_ℤ user_id (pos 0))) owner st.accounts)
        st
        (player_link user_id username other_name account_name st)
unfolding player_link found_account
player_link-Linked user_id username other_name account_name owner mine_key st named bound =
    let on_irc = not (eqb_ℤ user_id (pos 0)) in
    let theirs = account_of on_irc owner st.accounts in
    let mine = platform_key user_id username account_name in
    elim (Bool-cases (is_empty theirs)) [
      | inl e ↦ rw (named, e, Linked) (inr ((λ c. cc), refl))
      | inr e ↦
          let (other_key, f) = lookup-account_of on_irc owner st.accounts e in
          rw (named, e, bound, f, Linked)
            (link_accounts-Answer mine theirs mine_key other_key st bound f on_irc)
    ]
