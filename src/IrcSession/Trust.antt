-- ===== src/IrcSession/Trust.antt =====
-- Whom the server has vouched for, and for whom the responder is asked.
pub mod Steps
pub mod Served
use norelecbot.Base.{
  All, All-implies, Bool, Bool-cases, List, Option-cases, [], any_of, arith, erase_if, inl, inr,
  not, some, true, ◌&&◌, ◌||◌, ◌∷◌, ◌≡◌,
}
use norelecbot.Base.Int.{ℤ}
use norelecbot.Irc.{Message}
use norelecbot.IrcSession.{
  Call, IrcLink, Registration, Turn, Waiting, Whois, drop_late, fresh_answer, is_command_of, param,
}
use norelecbot.Table.{Table, erase, insert, lookup}
use norelecbot.Table.Keyed.{All-erase, All-insert, All-lookup}
use norelecbot.Text.{Text, lower_name, text_eq}

-- A message that says of a nick that it is registered: 307, or 330 with the account.
unfoldable pub vouches : Text → Message → Bool
unfolding is_command_of lower_name param
vouches lowered m =
    (is_command_of m "307" || is_command_of m "330") && text_eq (lower_name (param m 1)) lowered

unfoldable pub vouched : List Message → Text → Bool
unfolding vouches any_of
vouched h lowered = any_of (vouches lowered) h

-- A call to the responder is for a nick that was vouched for.
unfoldable pub is_vouched_call : List Message → Call → Bool
unfolding vouched lower_name
is_vouched_call h (Call.asks_responder who account owner text) = vouched h (lower_name who)
is_vouched_call h (Call.tells_sentinel who host command now) = true
is_vouched_call h (Call.tells_pulse text now) = true

abbrev pub WhoisVouched : List Message → Text × Whois → Type 0
WhoisVouched h e = (not e.1.registered || vouched h e.0) ≡ true

abbrev pub EntryVouched : List Message → Text × Registration → Type 0
EntryVouched h e = (not e.1.registered || vouched h e.0) ≡ true

unfoldable pub AllWhois : List Message → Table Whois → Type 0
AllWhois h asked = All (WhoisVouched h) asked

unfoldable pub AllEntries : List Message → Table Registration → Type 0
AllEntries h registrations = All (EntryVouched h) registrations

-- What the session takes for registered was vouched for.
abbrev pub IsTrusted : List Message → IrcLink → Type 0
IsTrusted h link = AllWhois h link.asked × AllEntries h link.registrations

unfoldable pub AllCalls : List Message → Turn → Type 0
AllCalls h turn = All (λ c. is_vouched_call h c ≡ true) turn.calls

vouched-more :
    (m : Message) (h : List Message) (k : Text) → vouched h k ≡ true → vouched (m ∷ h) k ≡ true
unfolding vouched any_of
vouched-more m h k v = ground arith

pub more-IsTrusted :
    (m : Message) (h : List Message) (link : IrcLink) → IsTrusted h link → IsTrusted (m ∷ h) link
unfolding AllWhois AllEntries
more-IsTrusted m h link (asked, known) = (
  All-implies (WhoisVouched h) (WhoisVouched (m ∷ h)) link.asked
      (λ e p. ground (arith, vouched-more m h e.0)) asked,
  All-implies (EntryVouched h) (EntryVouched (m ∷ h)) link.registrations
      (λ e p. ground (arith, vouched-more m h e.0)) known,
)

module _ (h : List Message) where
  pub insert-AllWhois :
      (k : Text) (w : Whois) (m : Table Whois)
      → (not w.registered || vouched h k) ≡ true
      → AllWhois h m
      → AllWhois h (insert k w m)
  unfolding AllWhois
  insert-AllWhois k w m v all = All-insert (WhoisVouched h) k w m v all

  pub erase-AllWhois : (k : Text) (m : Table Whois) → AllWhois h m → AllWhois h (erase k m)
  unfolding AllWhois
  erase-AllWhois k m all = All-erase (WhoisVouched h) k m all

  pub lookup-AllWhois :
      (k : Text) (w : Whois) (m : Table Whois)
      → lookup k m ≡ some w
      → AllWhois h m
      → (not w.registered || vouched h k) ≡ true
  unfolding AllWhois
  lookup-AllWhois k w m e all = All-lookup (WhoisVouched h) k w m e all

  pub insert-AllEntries :
      (k : Text) (r : Registration) (m : Table Registration)
      → (not r.registered || vouched h k) ≡ true
      → AllEntries h m
      → AllEntries h (insert k r m)
  unfolding AllEntries
  insert-AllEntries k r m v all = All-insert (EntryVouched h) k r m v all

  pub erase-AllEntries :
      (k : Text) (m : Table Registration) → AllEntries h m → AllEntries h (erase k m)
  unfolding AllEntries
  erase-AllEntries k m all = All-erase (EntryVouched h) k m all

  pub lookup-AllEntries :
      (k : Text) (r : Registration) (m : Table Registration)
      → lookup k m ≡ some r
      → AllEntries h m
      → (not r.registered || vouched h k) ≡ true
  unfolding AllEntries
  lookup-AllEntries k r m e all = All-lookup (EntryVouched h) k r m e all

  pub fresh_answer-vouched :
      (k : Text) (now : ℤ) (link : IrcLink) (r : Registration)
      → fresh_answer k now link ≡ some r
      → AllEntries h link.registrations
      → (not r.registered || vouched h k) ≡ true
  unfolding fresh_answer
  fresh_answer-vouched k now link r e all = elim (Option-cases (lookup k link.registrations)) [
    | inl unknown ↦ absurd (ground arith)
    | inr (r', known) ↦ ground (arith, lookup-AllEntries k r' link.registrations known all)
  ]

  -- The ticks and the messages about other players only forget.
  pub drop_late-AllWhois :
      (now : ℤ) (ws : List Waiting) (m : Table Whois)
      → AllWhois h m
      → AllWhois h (drop_late now ws m).1
  unfolding drop_late
  drop_late-AllWhois now [] m all = all
  drop_late-AllWhois now (w ∷ ws) m all = ground (
    arith,
    drop_late-AllWhois now ws m all,
    drop_late-AllWhois now ws (erase (lower_name w.nick) m)
        (erase-AllWhois (lower_name w.nick) m all),
  )

  pub erase_if-AllEntries :
      (p : Text × Registration → Bool) (m : Table Registration)
      → AllEntries h m
      → AllEntries h (erase_if p m)
  unfolding AllEntries erase_if
  erase_if-AllEntries p [] all = tt
  erase_if-AllEntries p (e ∷ m) (v, all) = elim (Bool-cases (p e)) [
    | inl goes ↦ rw goes (erase_if-AllEntries p m all)
    | inr stays ↦ rw stays (v, erase_if-AllEntries p m all)
  ]
