-- ===== src/Storage/Atomic.antt =====
-- `load_state`, `load_quotes` and `StorageSession::save` of src/storage.cpp: the two files, and how a
-- transaction leaves them. Whether a write works is not the program's: the results of the writes, in
-- their order, are a parameter.
use native.Mathlib.Decide.{ℕ_discrete}
pub mod Saved
use norelecbot.Base.{
  Bool, List, Option, [], false, if◌then◌else◌, map, none, not, some, true, ℕ, ◌∷◌, ◌≡◌,
}
use norelecbot.Base.Int.{ℤ}
use norelecbot.State.{ConquisterState, empty_state}
use norelecbot.Storage.Json.{JsonLib, View, text_in, ◌<*>◌}
use norelecbot.Storage.Reading.{parse_state}
use norelecbot.Storage.Written.{state_to_json}
use norelecbot.Text.{Text, is_empty}

pub ℤ-discrete : Discrete ℤ
ℤ-discrete = hlevel (ℕ_discrete)

pub Text-discrete : Discrete Text
Text-discrete = hlevel (ℕ_discrete)

pub State-discrete : Discrete ConquisterState
State-discrete = hlevel (ℕ_discrete, ℤ-discrete, Text-discrete)

pub Quotes-discrete : Discrete (List Text)
Quotes-discrete = hlevel (ℕ_discrete, Text-discrete)

-- `!=`
abbrev pub differs : {A : Type 0} {a b : A} → Dec (a ≡ b) → Bool
differs (yes e) = false
differs (no n) = true

pub data SaveFault : Type 0 where
  quotes_not_saved : SaveFault
  state_not_saved : SaveFault

-- `StorageSession::Loaded`
pub record Loaded (A : Type 0) : Type 0 where
  pub original : A
  pub current : A

module _ (L : JsonLib) where
  open L use {Json}

  -- A file that is not there, that is not JSON, or that holds a document.
  pub data File : Type 0 where
    no_file : File
    no_json : File
    holds : Json → File

  pub record Disk : Type 0 where
    pub quotes_file : File
    pub state_file : File

  unfoldable pub load_state : ℤ → File → Option ConquisterState
  unfolding parse_state empty_state
  load_state now no_file = some empty_state
  load_state now no_json = none
  load_state now (holds j) = parse_state L now j

  -- A list of texts, none of them empty.
  unfoldable pub read_quotes : List Json → Option (List Text)
  unfolding text_in
  read_quotes [] = some []
  read_quotes (j ∷ js) =
      let rest = read_quotes js in
      elim (text_in (L.view j)) [
        | none ↦ none
        | some t ↦ if is_empty t then none else (some (◌∷◌ t) <*> rest)
      ]

  unfoldable pub quotes_in : View Json → Option (List Text)
  unfolding read_quotes
  quotes_in (View.is_array js) = read_quotes js
  quotes_in View.is_null = none
  quotes_in (View.is_bool b) = none
  quotes_in (View.is_int z) = none
  quotes_in (View.is_text t) = none
  quotes_in (View.is_object m) = none
  quotes_in View.is_other = none

  unfoldable pub load_quotes : File → Option (List Text)
  unfolding quotes_in
  load_quotes no_file = some []
  load_quotes no_json = none
  load_quotes (holds j) = quotes_in (L.view j)

  unfoldable pub quotes_json : List Text → Json
  quotes_json quotes = L.array (map L.of_text quotes)

  -- `save_json`: the file is replaced as a whole, or left alone. That `dump` throws on a text that is not
  -- UTF-8, before anything is written, is not modelled.
  unfoldable pub save_json : Bool → Json → File → Bool × File
  save_json works value file = if works then (true, holds value) else (false, file)

  module _ (writes : ℕ → Bool) where
    -- The end of `save`: the state, behind the quotes. When it cannot be saved the quotes go back.
    unfoldable pub save_behind : Bool → Bool → Json → Json → Disk → Option SaveFault × Disk
    unfolding save_json
    save_behind quotes_saved state_changed quotes_back state_doc disk =
        let (saved, file) =
          save_json (writes (if quotes_saved then 1 else 0)) state_doc disk.state_file in
        let (restored, quotes_file) = save_json (writes 2) quotes_back disk.quotes_file in
        if not state_changed
        then (none, disk)
        else if saved
        then (none, record disk { state_file = file })
        else (
          some SaveFault.state_not_saved,
          if quotes_saved then record disk { quotes_file = quotes_file } else disk,
        )

    unfoldable pub save_documents :
        Bool → Bool → Json → Json → Json → Disk → Option SaveFault × Disk
    unfolding save_json save_behind
    save_documents quotes_changed state_changed quotes_doc quotes_back state_doc disk =
        let (saved, file) = save_json (writes 0) quotes_doc disk.quotes_file in
        if not quotes_changed
        then save_behind false state_changed quotes_back state_doc disk
        else if saved
        then save_behind true state_changed quotes_back state_doc
            (record disk { quotes_file = file })
        else (some SaveFault.quotes_not_saved, disk)

    -- `save`. A document that the transaction did not look at is as one that it did not change.
    unfoldable pub save :
        Loaded (List Text) → Loaded ConquisterState → Disk → Option SaveFault × Disk
    unfolding save_documents state_to_json quotes_json
    save quotes state disk =
        save_documents (differs (Quotes-discrete quotes.current quotes.original))
          (differs (State-discrete state.current state.original)) (quotes_json quotes.current)
          (quotes_json quotes.original) (state_to_json L state.current) disk
