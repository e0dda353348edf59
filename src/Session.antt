-- ===== src/Session.antt =====
-- `StorageSession` of src/storage.hpp and src/storage.cpp as a monad: the two documents, the random
-- generator as the numbers it is going to draw, the copies made beside the file, and what is told to
-- the sentinel on the way. An exception ends the call, and nothing of the session is kept.
pub mod Ensures
use norelecbot.Base.{
  Bool, List, Option, [], arith, false, if◌then◌else◌, none, not, some, suc, true, ℕ, ◌%◌, ◌++◌,
  ◌<◌, ◌∷◌, ◌≡◌,
}
use norelecbot.Base.Int.{ℤ}
use norelecbot.State.{ConquisterState}
use norelecbot.Text.{Text}

-- `StorageError`, the `at` of a missing key, and the loop that draws identities when no draw is new.
pub data Fault : Type 0 where
  score_overflow : Fault
  counter_overflow : Fault
  backup_failed : Fault
  no_new_id : Fault
  key_missing : Fault

-- The calls into the sentinel, in order, with their arguments.
pub data Notice : Type 0 where
  told_claim : Text → ℤ → Notice
  told_ride : Text → Text → Bool → ℤ → Notice
  told_back : Text → ℤ → Notice
  told_robbed : Text → Text → ℤ → Notice

pub record Session : Type 0 where
  pub state : ConquisterState
  pub quotes : List Text
  -- The raw draws of `random_`, and how many were used.
  pub draws : ℕ → ℕ
  pub drawn : ℕ
  -- Whether there is a file, whether it can be copied now, and the tags of the copies made.
  pub file_there : Bool
  pub copies_work : Bool
  pub backups : List Text
  pub notices : List Notice

pub data Outcome {ℓ} (A : Type ℓ) : Type ℓ where
  ok : A → Session → Outcome A
  throws : Fault → Outcome A

abbrev pub Game {ℓ} : Type ℓ → Type ℓ
Game A = Session → Outcome A

infixl 5 ◌>>=◌ ◌>>◌
abbrev pub ◌>>=◌ {ℓ κ} : {A : Type ℓ} {B : Type κ} → Game A → (A → Game B) → Game B
◌>>=◌ m f s = elim (m s) [ ok a s' ↦ f a s' | throws e ↦ throws e ]

abbrev pub ◌>>◌ {ℓ} : {B : Type ℓ} → Game (Unit {0}) → Game B → Game B
m >> k = m >>= λ _. k

module _ {ℓ} {A : Type ℓ} where
  abbrev pub pure : A → Game A
  pure a s = ok a s

  abbrev pub throw : Fault → Game A
  throw e s = throws e

  abbrev pub gets : (ConquisterState → A) → Game A
  gets f s = ok (f s.state) s

-- What fails without a session fails with one.
abbrev pub or_throw {ℓ} : {A : Type ℓ} → Option A → Fault → Game A
or_throw none e = throw e
or_throw (some a) e = pure a

abbrev pub get_state : Game ConquisterState
get_state s = ok s.state s

abbrev pub put_state : ConquisterState → Game (Unit {0})
put_state st s = ok tt (record s { state = st })

abbrev pub modify : (ConquisterState → ConquisterState) → Game (Unit {0})
modify f s = ok tt (record s { state = f s.state })

-- A step on the state that has a result.
abbrev pub update {ℓ} : {A : Type ℓ} → (ConquisterState → A × ConquisterState) → Game A
update f s = let (a, st) = f s.state in ok a (record s { state = st })

-- A step on the state that may throw.
abbrev pub attempt {ℓ} :
    {A : Type ℓ} → Fault → (ConquisterState → Option (A × ConquisterState)) → Game A
attempt e f s = elim (f s.state) [ none ↦ throws e | some (a, st) ↦ ok a (record s { state = st }) ]

abbrev pub when : Bool → Game (Unit {0}) → Game (Unit {0})
when true m = m
when false m = pure tt

-- `random_index`: uniform on 0 to count - 1. The generator's draw is reduced to that range.
unfoldable pub random_index : ℕ → Game ℕ
random_index count s = ok (s.draws s.drawn % count) (record s { drawn = suc s.drawn })

-- `backup`: a copy of the file, when there is one, under the tag, or an exception.
unfoldable pub backup : Text → Game (Unit {0})
backup tag s =
    if not s.file_there
    then ok tt s
    else if s.copies_work
    then ok tt (record s { backups = s.backups ++ tag ∷ [] })
    else throws backup_failed

unfoldable pub notify : Notice → Game (Unit {0})
notify n s = ok tt (record s { notices = s.notices ++ n ∷ [] })

-- A draw lies below the count.
pub random_index-lt :
    (count : ℕ) (s : Session) {i : ℕ} {s' : Session}
    → random_index count s ≡ ok i s'
    → 0 < count
    → i < count
unfolding random_index
random_index-lt count s e h = ground arith
