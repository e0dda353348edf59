-- ===== src/IrcSession/Asked/Ticked.antt =====
-- `tick` and the questions to the server that are in flight.
use norelecbot.Base.{
  All, All-implies, Bool, Bool-cases, List, [], any_of, arith, false, inl, inr, true, ◌||◌, ◌↔◌,
  ◌∷◌, ◌≡◌,
}
use norelecbot.Base.Int.{ltb_ℤ, ℤ}
use norelecbot.IrcSession.{IrcLink, Waiting, Whois, drop_late, is_nick, tick}
use norelecbot.IrcSession.Asked.{Awaits, IsAwaited}
use norelecbot.Table.{Keyed, Table, erase}
use norelecbot.Table.Keyed.{All-erase, All-weaken_absent, contains-erase_self, erase-Keyed}
use norelecbot.Text.{Text, lower_name, text_eq_iff}

-- The same where others wait too.
unfoldable IsAwaitedBy : (Text → Bool) → List Waiting → Table Whois → Type 0
unfolding any_of is_nick
IsAwaitedBy others waiting asked =
    Keyed asked × All (λ e. (others e.0 || any_of (is_nick e.0) waiting) ≡ true) asked

-- Who waits with a place in the list, or beside it.
shift-IsAwaitedBy :
    (others : Text → Bool) (w : Waiting) (ws : List Waiting) (m : Table Whois)
    → IsAwaitedBy others (w ∷ ws) m ↔ IsAwaitedBy (λ k. others k || is_nick k w) ws m
unfolding IsAwaitedBy any_of
shift-IsAwaitedBy others w ws m =
    let here : Text × Whois → Type 0 = λ e. (others e.0 || any_of (is_nick e.0) (w ∷ ws)) ≡ true in
    let beside : Text × Whois → Type 0 =
      λ e. ((others e.0 || is_nick e.0 w) || any_of (is_nick e.0) ws) ≡ true in
    (
      λ h. (h.0, All-implies here beside m (λ e p. ground arith) h.1),
      λ h. (h.0, All-implies beside here m (λ e p. ground arith) h.1),
    )

-- Whoever gives up takes his question along.
erase-IsAwaitedBy :
    (others : Text → Bool) (w : Waiting) (ws : List Waiting) (m : Table Whois)
    → IsAwaitedBy others (w ∷ ws) m
    → IsAwaitedBy others ws (erase (lower_name w.nick) m)
unfolding IsAwaitedBy any_of is_nick
erase-IsAwaitedBy others w ws m (keyed, h) =
    let here : Text × Whois → Type 0 = λ e. (others e.0 || any_of (is_nick e.0) (w ∷ ws)) ≡ true in
    let without : Text × Whois → Type 0 = λ e. (others e.0 || any_of (is_nick e.0) ws) ≡ true in
    let gone = erase (lower_name w.nick) m in
    (
      erase-Keyed (lower_name w.nick) m keyed,
      All-weaken_absent here without (lower_name w.nick) gone
          (contains-erase_self (lower_name w.nick) m keyed)
          (λ e ne p.
            ground
              (arith, text_eq_iff (lower_name w.nick) e.0, text_eq_iff e.0 (lower_name w.nick)))
          (All-erase here (lower_name w.nick) m h),
    )

-- `tick`: a question goes with the first that waited too long for it.
drop_late-IsAwaitedBy :
    (now : ℤ) (others : Text → Bool) (ws : List Waiting) (m : Table Whois)
    → IsAwaitedBy others ws m
    → IsAwaitedBy others (drop_late now ws m).0 (drop_late now ws m).1
unfolding drop_late
drop_late-IsAwaitedBy now others [] m h = h
drop_late-IsAwaitedBy now others (w ∷ ws) m h = elim (Bool-cases (ltb_ℤ now w.deadline)) [
  | inl early ↦
      rw (early, drop_late)
        ((shift-IsAwaitedBy others w (drop_late now ws m).0 (drop_late now ws m).1).1 (
          drop_late-IsAwaitedBy now (λ k. others k || is_nick k w) ws m
            ((shift-IsAwaitedBy others w ws m).0 h)))
  | inr late ↦
      rw (late, drop_late)
        (drop_late-IsAwaitedBy now others ws (erase (lower_name w.nick) m)
          (erase-IsAwaitedBy others w ws m h))
]

pub tick-Awaits : (now : ℤ) (link : IrcLink) → Awaits link → Awaits (tick now link)
unfolding tick IsAwaited IsAwaitedBy
tick-Awaits now link h = drop_late-IsAwaitedBy now (λ k. false) link.waiting link.asked h
