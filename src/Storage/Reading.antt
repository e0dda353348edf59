-- ===== src/Storage/Reading.antt =====
-- `parse_state` of src/storage.cpp: the state out of a document, section by section. What is missing
-- counts as empty.
use norelecbot.Base.{List, Option, [], false, if◌then◌else◌, none, some, ℕ, ◌∷◌}
use norelecbot.Base.Int.{ltb_ℤ, pos, ℤ, ◌*ℤ◌}
use norelecbot.State.{ConquisterState, Holder}
use norelecbot.Storage.Document.{make_holder, make_state, put_lobster, stoul}
use norelecbot.Storage.Json.{
  JsonLib, View, bool_in, find_in, int_in, read_at, read_or, text_in, ◌<*>◌,
}
use norelecbot.Storage.Sections.{
  object_of, parse_child, parse_knock, parse_pregnancy, parse_raid, parse_section,
}
use norelecbot.Storage.Tables.{parse_authors, parse_balloons, parse_counters}
use norelecbot.Table.{Table, lookup}
use norelecbot.Text.{Text, utf8}

module _ (L : JsonLib) where
  open L use {Json, view}

  -- The entries of "lobsters", by slot.
  unfoldable pub add_lobsters : Table Json → List (ℕ × Text) → Option (List (ℕ × Text))
  unfolding stoul text_in put_lobster
  add_lobsters [] lobsters = some lobsters
  add_lobsters ((k, j) ∷ m) lobsters = elim (stoul k) [
    | none ↦ none
    | some slot ↦ elim (text_in (view j)) [
      | none ↦ none
      | some emoji ↦ add_lobsters m (put_lobster slot emoji lobsters)
    ]
  ]

  unfoldable pub lobsters_in : View Json → Option (List (ℕ × Text))
  unfolding object_of add_lobsters
  lobsters_in v = elim (object_of L v) [ none ↦ none | some m ↦ add_lobsters m [] ]

  -- Older saves kept a whole multiplier.
  unfoldable pub old_multiplier : Option ℤ → Option ℤ
  old_multiplier none = none
  old_multiplier (some m) = some (if ltb_ℤ (pos 1) m then m *ℤ pos 100 else pos 0)

  unfoldable pub parse_lightning : Option Json → Option Json → Option ℤ
  unfolding read_or old_multiplier int_in
  parse_lightning (some lightning) multiplier = int_in (view lightning)
  parse_lightning none multiplier = old_multiplier (read_or L int_in (pos 0) multiplier)

  unfoldable pub parse_hold : (Text → Option Json) → Option Holder
  unfolding make_holder read_at read_or text_in int_in parse_lightning lobsters_in utf8
  parse_hold get =
      some make_holder
      <*> read_at L int_in (get (utf8 "user_id"))
      <*> read_at L text_in (get (utf8 "username"))
      <*> read_at L int_in (get (utf8 "since"))
      <*> parse_lightning (get (utf8 "lightning_percent")) (get (utf8 "multiplier"))
      <*> read_or L int_in (pos 0) (get (utf8 "bolts"))
      <*> read_or L int_in (pos 0) (get (utf8 "banked"))
      <*> read_or L int_in (pos 0) (get (utf8 "counted_from"))
      <*> read_or L lobsters_in [] (get (utf8 "lobsters"))

  unfoldable pub holder_in : View Json → Option (Option Holder)
  unfolding parse_hold find_in
  holder_in View.is_null = some none
  holder_in (View.is_object m) = some some <*> parse_hold (find_in (View.is_object m))
  holder_in (View.is_bool b) = none
  holder_in (View.is_int z) = none
  holder_in (View.is_text t) = none
  holder_in (View.is_array js) = none
  holder_in View.is_other = none

  unfoldable pub parse_holder : Option Json → Option (Option Holder)
  unfolding holder_in read_or
  parse_holder current = read_or L holder_in none current

  unfoldable pub parse_fields : ℤ → (Text → Option Json) → Option ConquisterState
  unfolding make_state parse_holder parse_counters parse_balloons parse_authors parse_section
      parse_raid parse_pregnancy parse_child parse_knock read_or int_in bool_in utf8
  parse_fields now get =
      some make_state
      <*> parse_holder (get (utf8 "current"))
      <*> parse_counters L (get (utf8 "scores"))
      <*> parse_counters L (get (utf8 "quotes_added"))
      <*> parse_balloons L now (get (utf8 "balloons")) (get (utf8 "shields"))
      <*> parse_counters L (get (utf8 "cooldowns"))
      <*> parse_counters L (get (utf8 "ids"))
      <*> parse_counters L (get (utf8 "telegram_ids"))
      <*> parse_counters L (get (utf8 "irc_names"))
      <*> parse_authors L (get (utf8 "accounts"))
      <*> parse_authors L (get (utf8 "display_names"))
      <*> parse_authors L (get (utf8 "telegram_names"))
      <*> parse_authors L (get (utf8 "irc_nicks"))
      <*> parse_authors L (get (utf8 "link_requests"))
      <*> parse_section L (parse_raid L) (get (utf8 "raids"))
      <*> parse_authors L (get (utf8 "quote_authors"))
      <*> parse_authors L (get (utf8 "furniture"))
      <*> parse_counters L (get (utf8 "debugging"))
      <*> parse_counters L (get (utf8 "smeared"))
      <*> parse_counters L (get (utf8 "welcomed"))
      <*> parse_counters L (get (utf8 "frozen"))
      <*> parse_section L (parse_pregnancy L) (get (utf8 "pregnancies"))
      <*> parse_section L (parse_child L) (get (utf8 "children"))
      <*> read_or L int_in (pos 0) (get (utf8 "eggs_at"))
      <*> parse_section L (parse_knock L) (get (utf8 "knocks"))
      <*> parse_authors L (get (utf8 "equipped"))
      <*> read_or L bool_in false (get (utf8 "split"))
      <*> parse_counters L (get (utf8 "pugliesi"))
      <*> parse_counters L (get (utf8 "joined"))
      <*> parse_counters L (get (utf8 "guided"))
      <*> parse_counters L (get (utf8 "entered"))
      <*> parse_authors L (get (utf8 "invited_by"))
      <*> parse_counters L (get (utf8 "invite_days"))
      <*> parse_counters L (get (utf8 "invite_last_day"))
      <*> parse_counters L (get (utf8 "invite_paid"))

  unfoldable pub parse_state : ℤ → Json → Option ConquisterState
  unfolding parse_fields object_of lookup
  parse_state now json = elim (object_of L (view json)) [
    | none ↦ none
    | some m ↦ parse_fields now (λ k. lookup k m)
  ]
