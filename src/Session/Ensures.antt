-- ===== src/Session/Ensures.antt =====
-- What a call ensures when it returns: a postcondition on its result and the session it leaves, and
-- the rule for a chain of calls.
use norelecbot.Session.{Game, Outcome, Session, ok, throws, ◌>>=◌}

abbrev pub Ensures {ℓ} : {A : Type ℓ} → (A → Session → Type 0) → Outcome A → Type 0
Ensures P (ok a s) = P a s
Ensures P (throws e) = Unit

module _ {ℓ κ} {A : Type ℓ} {B : Type κ} where
  -- `m` ensures `Q`, and from there the rest ensures `P`.
  pub Ensures-bind :
      (P : B → Session → Type 0) (Q : A → Session → Type 0) (m : Game A) (f : A → Game B)
      (s : Session)
      → Ensures Q (m s)
      → ((a : A) (s' : Session) → Q a s' → Ensures P (f a s'))
      → Ensures P ((m >>= f) s)
  Ensures-bind P Q m f s h k = go (m s) h
    where
      go :
          (o : Outcome A)
          → Ensures Q o
          → Ensures P (elim o [ ok a s' ↦ f a s' | throws e ↦ throws e ])
      go (ok a s') h' = k a s' h'
      go (throws e) h' = tt

module _ {ℓ} {A : Type ℓ} where
  -- A weaker postcondition.
  pub Ensures-weaken :
      (Q P : A → Session → Type 0) (o : Outcome A)
      → Ensures Q o
      → ((a : A) (s : Session) → Q a s → P a s)
      → Ensures P o
  Ensures-weaken Q P (ok a s) h k = k a s h
  Ensures-weaken Q P (throws e) h k = tt

  -- What holds of every result.
  pub Ensures-always :
      (P : A → Session → Type 0) (o : Outcome A) → ((a : A) (s : Session) → P a s) → Ensures P o
  Ensures-always P (ok a s) h = h a s
  Ensures-always P (throws e) h = tt
