-- ===== src/IrcSession/Asked.antt =====
-- Which questions to the server are in flight, and what waits for their answers.
pub mod Handled
pub mod Ticked
use norelecbot.Base.{
  All, All-implies, List, [], any_of, arith, erase_if, false, refl, some, true, ◌++◌, ◌||◌, ◌∷◌,
  ◌≡◌,
}
use norelecbot.Base.Int.{ℤ}
use norelecbot.IrcSession.{IrcLink, Waiting, Whois, is_nick}
use norelecbot.Table.{Keyed, Table, contains, erase, insert, lookup}
use norelecbot.Table.Keyed.{
  All-erase, All-insert, All-lookup, All-weaken_absent, contains-erase_self, erase-Keyed,
  insert-Keyed,
}
use norelecbot.Text.{Text, lower_name, text_eq, text_eq_iff, text_eq_refl}

unfoldable pub IsAwaited : List Waiting → Table Whois → Type 0
unfolding any_of is_nick
IsAwaited waiting asked = Keyed asked × All (λ e. any_of (is_nick e.0) waiting ≡ true) asked

any_of-erase_if :
    (k lowered : Text) (ws : List Waiting)
    → text_eq k lowered ≡ false
    → any_of (is_nick k) ws ≡ true
    → any_of (is_nick k) (erase_if (is_nick lowered) ws) ≡ true
unfolding any_of erase_if is_nick
any_of-erase_if k lowered [] ne h = h
any_of-erase_if k lowered (w ∷ ws) ne h = ground (
  arith,
  text_eq_iff (lower_name w.nick) k,
  text_eq_iff (lower_name w.nick) lowered,
  text_eq_iff k lowered,
  any_of-erase_if k lowered ws ne,
)

any_of-append :
    (k : Text) (ws vs : List Waiting)
    → any_of (is_nick k) (ws ++ vs) ≡ (any_of (is_nick k) ws || any_of (is_nick k) vs)
unfolding any_of
any_of-append k [] vs = refl
any_of-append k (w ∷ ws) vs = ground (arith, any_of-append k ws vs)

-- What waits for another nick waits on when one nick is settled.
still_awaited :
    (lowered : Text) (ws : List Waiting) (m : Table Whois)
    → contains lowered m ≡ false
    → All (λ e. any_of (is_nick e.0) ws ≡ true) m
    → All (λ e. any_of (is_nick e.0) (erase_if (is_nick lowered) ws) ≡ true) m
still_awaited lowered ws m absent h =
    All-weaken_absent (λ e. any_of (is_nick e.0) ws ≡ true)
      (λ e. any_of (is_nick e.0) (erase_if (is_nick lowered) ws) ≡ true) lowered m absent
      (λ e ne p. any_of-erase_if e.0 lowered ws ne p) h

pub settle-IsAwaited :
    (lowered : Text) (ws : List Waiting) (m : Table Whois)
    → IsAwaited ws m
    → IsAwaited (erase_if (is_nick lowered) ws) (erase lowered m)
unfolding IsAwaited
settle-IsAwaited lowered ws m (keyed, h) = (
  erase-Keyed lowered m keyed,
  still_awaited lowered ws (erase lowered m) (contains-erase_self lowered m keyed)
      (All-erase (λ e. any_of (is_nick e.0) ws ≡ true) lowered m h),
)

-- More may wait.
pub append-IsAwaited :
    (ws vs : List Waiting) (m : Table Whois) → IsAwaited ws m → IsAwaited (ws ++ vs) m
unfolding IsAwaited
append-IsAwaited ws vs m (keyed, h) = (
  keyed,
  All-implies (λ e. any_of (is_nick e.0) ws ≡ true) (λ e. any_of (is_nick e.0) (ws ++ vs) ≡ true) m
      (λ e p. rw (any_of-append e.0 ws vs, p) refl) h,
)

-- A question that is there may learn something, and one may be asked when something waits for it.
pub insert-IsAwaited :
    (k : Text) (whois : Whois) (ws : List Waiting) (m : Table Whois)
    → any_of (is_nick k) ws ≡ true
    → IsAwaited ws m
    → IsAwaited ws (insert k whois m)
unfolding IsAwaited
insert-IsAwaited k whois ws m there (keyed, h) = (
  insert-Keyed k whois m keyed,
  All-insert (λ e. any_of (is_nick e.0) ws ≡ true) k whois m there h,
)

pub lookup-IsAwaited :
    (k : Text) (whois : Whois) (ws : List Waiting) (m : Table Whois)
    → lookup k m ≡ some whois
    → IsAwaited ws m
    → any_of (is_nick k) ws ≡ true
unfolding IsAwaited
lookup-IsAwaited k whois ws m e (keyed, h) =
    All-lookup (λ e. any_of (is_nick e.0) ws ≡ true) k whois m e h

any_of-is_nick_self :
    (nick : Text) (text : Text) (deadline : ℤ) (ws : List Waiting)
    → any_of
        (is_nick (lower_name nick))
        (ws ++ record { nick = nick; text = text; deadline = deadline } ∷ [])
      ≡ true
unfolding any_of is_nick
any_of-is_nick_self nick text deadline [] = rw text_eq_refl refl
any_of-is_nick_self nick text deadline (w ∷ ws) =
    ground (arith, any_of-is_nick_self nick text deadline ws)

abbrev pub Awaits : IrcLink → Type 0
Awaits link = IsAwaited link.waiting link.asked
