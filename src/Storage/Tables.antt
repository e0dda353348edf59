-- ===== src/Storage/Tables.antt =====
-- The tables of a document, by src/storage.cpp: `parse_counters`, `parse_balloons`, `parse_authors`.
use norelecbot.Base.{Option, [], if◌then◌else◌, none, not, some, ◌&&◌, ◌∷◌}
use norelecbot.Base.Int.{ltb_ℤ, pos, ℤ}
use norelecbot.Storage.Json.{JsonLib, View, emplace, int_in, read_or, text_in, ◌<*>◌}
use norelecbot.Table.{Authors, Counters, Table, contains, insert, lookup}

module _ (L : JsonLib) where
  open L use {Json, view}

  -- The entries of an object, in order, each read or the whole refused.
  unfoldable pub add_ints : Table Json → Counters → Option Counters
  unfolding int_in emplace
  add_ints [] counters = some counters
  add_ints ((k, j) ∷ m) counters = elim (int_in (view j)) [
    | none ↦ none
    | some z ↦ add_ints m (emplace k z counters)
  ]

  unfoldable pub ints_of : View Json → Option Counters
  unfolding add_ints
  ints_of (View.is_object m) = add_ints m []
  ints_of View.is_null = none
  ints_of (View.is_bool b) = none
  ints_of (View.is_int z) = none
  ints_of (View.is_text t) = none
  ints_of (View.is_array js) = none
  ints_of View.is_other = none

  unfoldable pub parse_counters : Option Json → Option Counters
  unfolding ints_of read_or
  parse_counters section = read_or L ints_of [] section

  -- Old timed balloons that still last become ordinary ones, where there is none.
  unfoldable pub keep_shields : ℤ → Counters → Counters → Counters
  unfolding lookup insert
  keep_shields now [] balloons = balloons
  keep_shields now ((player, expires) ∷ shields) balloons = keep_shields now shields (
      if ltb_ℤ now expires && not (contains player balloons)
      then insert player (pos 0) balloons
      else balloons)

  unfoldable pub parse_balloons : ℤ → Option Json → Option Json → Option Counters
  unfolding parse_counters keep_shields
  parse_balloons now balloons shields =
      some (λ b s. keep_shields now s b) <*> parse_counters balloons <*> parse_counters shields

  -- Names: whatever is not a text is passed over.
  unfoldable pub add_texts : Table Json → Authors → Authors
  unfolding text_in emplace
  add_texts [] authors = authors
  add_texts ((k, j) ∷ m) authors = elim (text_in (view j)) [
    | none ↦ add_texts m authors
    | some t ↦ add_texts m (emplace k t authors)
  ]

  unfoldable pub texts_of : View Json → Authors
  unfolding add_texts
  texts_of (View.is_object m) = add_texts m []
  texts_of View.is_null = []
  texts_of (View.is_bool b) = []
  texts_of (View.is_int z) = []
  texts_of (View.is_text t) = []
  texts_of (View.is_array js) = []
  texts_of View.is_other = []

  unfoldable pub parse_authors : Option Json → Option Authors
  unfolding texts_of
  parse_authors none = some []
  parse_authors (some j) = some (texts_of (view j))
