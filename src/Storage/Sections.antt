-- ===== src/Storage/Sections.antt =====
-- The lists of a document, by src/storage.cpp: `parse_raids`, `parse_pregnancies`, `parse_knocks` and
-- `parse_children`.
use norelecbot.Base.{List, Option, [], false, none, some, ◌∷◌}
use norelecbot.Base.Int.{pos}
use norelecbot.State.{Child, Knock, Pregnancy, Raid}
use norelecbot.Storage.Document.{make_child, make_knock, make_pregnancy, make_raid}
use norelecbot.Storage.Json.{JsonLib, View, bool_in, int_in, read_at, read_or, text_in, ◌<*>◌}
use norelecbot.Table.{Table, lookup}
use norelecbot.Text.{Text, utf8}

module _ (L : JsonLib) where
  open L use {Json, view}

  -- The entries of an object, or of a list, when it is one.
  unfoldable pub object_of : View Json → Option (Table Json)
  object_of (View.is_object m) = some m
  object_of View.is_null = none
  object_of (View.is_bool b) = none
  object_of (View.is_int z) = none
  object_of (View.is_text t) = none
  object_of (View.is_array js) = none
  object_of View.is_other = none

  unfoldable pub array_of : View Json → List Json
  array_of (View.is_array js) = js
  array_of View.is_null = []
  array_of (View.is_bool b) = []
  array_of (View.is_int z) = []
  array_of (View.is_text t) = []
  array_of (View.is_object m) = []
  array_of View.is_other = []

  -- What is no object in a section is passed over, as is a section that is no list.
  unfoldable pub parse_entries :
      {A : Type 0} → ((Text → Option Json) → Option A) → List Json → Option (List A)
  unfolding object_of lookup
  parse_entries parse_one [] = some []
  parse_entries parse_one (j ∷ js) =
      let rest = parse_entries parse_one js in
      elim (object_of (view j)) [
        | none ↦ rest
        | some m ↦ some (◌∷◌) <*> parse_one (λ k. lookup k m) <*> rest
      ]

  unfoldable pub parse_section :
      {A : Type 0} → ((Text → Option Json) → Option A) → Option Json → Option (List A)
  unfolding parse_entries array_of
  parse_section parse_one none = some []
  parse_section parse_one (some j) = parse_entries parse_one (array_of (view j))

  unfoldable pub parse_raid : (Text → Option Json) → Option Raid
  unfolding make_raid read_at read_or text_in int_in bool_in utf8
  parse_raid get =
      some make_raid
      <*> read_at L text_in (get (utf8 "raider"))
      <*> read_at L text_in (get (utf8 "target"))
      <*> read_at L int_in (get (utf8 "arrive"))
      <*> read_at L int_in (get (utf8 "back"))
      <*> read_at L bool_in (get (utf8 "arrived"))
      <*> read_at L int_in (get (utf8 "loot"))
      <*> read_or L int_in (pos 0) (get (utf8 "gift"))
      <*> read_or L text_in [] (get (utf8 "gift_emoji"))
      <*> read_or L bool_in false (get (utf8 "intact"))

  unfoldable pub parse_pregnancy : (Text → Option Json) → Option Pregnancy
  unfolding make_pregnancy read_at text_in int_in utf8
  parse_pregnancy get =
      some make_pregnancy
      <*> read_at L text_in (get (utf8 "mother"))
      <*> read_at L text_in (get (utf8 "father"))
      <*> read_at L int_in (get (utf8 "due"))

  unfoldable pub parse_child : (Text → Option Json) → Option Child
  unfolding make_child read_at read_or text_in int_in bool_in utf8
  parse_child get =
      some make_child
      <*> read_at L text_in (get (utf8 "owner"))
      <*> read_at L int_in (get (utf8 "slot"))
      <*> read_at L bool_in (get (utf8 "male"))
      <*> read_at L int_in (get (utf8 "born"))
      <*> read_or L bool_in false (get (utf8 "courted"))

  unfoldable pub parse_knock : (Text → Option Json) → Option Knock
  unfolding make_knock read_at text_in int_in utf8
  parse_knock get =
      some make_knock
      <*> read_at L text_in (get (utf8 "raider"))
      <*> read_at L text_in (get (utf8 "target"))
      <*> read_at L int_in (get (utf8 "at"))
