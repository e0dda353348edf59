-- ===== src/Storage/Json.antt =====
-- nlohmann::ordered_json as src/storage.cpp uses it: values, built and looked at, and how its readers
-- behave. The library itself is a parameter.
use norelecbot.Base.{Bool, List, Option, [], if◌then◌else◌, none, some, ◌++◌, ◌∷◌, ◌≡◌}
use norelecbot.Base.Int.{ℤ}
use norelecbot.Table.{Keyed, Table, contains, lookup}
use norelecbot.Text.{Text}

-- What a value is. A number that is not an integer, or does not fit 64 bits, is `is_other`.
pub data View (J : Type 0) : Type 0 where
  is_null : View J
  is_bool : Bool → View J
  is_int : ℤ → View J
  is_text : Text → View J
  is_array : List J → View J
  is_object : Table J → View J
  is_other : View J

pub record JsonLib : Type 1 where
  pub Json : Type 0
  pub null : Json
  pub of_bool : Bool → Json
  pub of_int : ℤ → Json
  pub of_text : Text → Json
  pub array : List Json → Json
  pub object : Table Json → Json
  pub view : Json → View Json
  -- What was built is seen; an object has each of its keys once.
  pub view_null : view null ≡ View.is_null
  pub view_bool : (b : Bool) → view (of_bool b) ≡ View.is_bool b
  pub view_int : (z : ℤ) → view (of_int z) ≡ View.is_int z
  pub view_text : (t : Text) → view (of_text t) ≡ View.is_text t
  pub view_array : (js : List Json) → view (array js) ≡ View.is_array js
  pub view_object : (m : Table Json) → Keyed m → view (object m) ≡ View.is_object m

-- A chain of reads, each of which may throw.
infixl 4 ◌<*>◌
abbrev pub ◌<*>◌ {ℓ κ} : {A : Type ℓ} {B : Type κ} → Option (A → B) → Option A → Option B
none <*> y = none
(some f) <*> none = none
(some f) <*> some a = some (f a)

-- `emplace`, which keeps what is there.
unfoldable pub emplace {ℓ} : {V : Type ℓ} → Text → V → Table V → Table V
unfolding lookup
emplace k v m = if contains k m then m else m ++ (k, v) ∷ []

module _ {J : Type 0} where
  -- `find` of an object; a value of another kind has no entries.
  unfoldable pub find_in : View J → Text → Option J
  unfolding lookup
  find_in (View.is_object m) k = lookup k m
  find_in View.is_null k = none
  find_in (View.is_bool b) k = none
  find_in (View.is_int z) k = none
  find_in (View.is_text t) k = none
  find_in (View.is_array js) k = none
  find_in View.is_other k = none

  -- `integer`, `get<std::string>` and `get<bool>`. An integer above the largest `int64`, which `get`
  -- wraps around, counts as another value and is refused.
  unfoldable pub int_in : View J → Option ℤ
  int_in (View.is_int z) = some z
  int_in View.is_null = none
  int_in (View.is_bool b) = none
  int_in (View.is_text t) = none
  int_in (View.is_array js) = none
  int_in (View.is_object m) = none
  int_in View.is_other = none

  unfoldable pub text_in : View J → Option Text
  text_in (View.is_text t) = some t
  text_in View.is_null = none
  text_in (View.is_bool b) = none
  text_in (View.is_int z) = none
  text_in (View.is_array js) = none
  text_in (View.is_object m) = none
  text_in View.is_other = none

  unfoldable pub bool_in : View J → Option Bool
  bool_in (View.is_bool b) = some b
  bool_in View.is_null = none
  bool_in (View.is_int z) = none
  bool_in (View.is_text t) = none
  bool_in (View.is_array js) = none
  bool_in (View.is_object m) = none
  bool_in View.is_other = none

module _ (L : JsonLib) where
  open L use {Json, view}

  -- The same on the entry of a key: `at` throws when there is none.
  unfoldable pub read_at {ℓ} : {A : Type ℓ} → (View Json → Option A) → Option Json → Option A
  read_at read none = none
  read_at read (some j) = read (view j)

  -- `contains(k) ? read(at(k)) : d`
  unfoldable pub read_or {ℓ} : {A : Type ℓ} → (View Json → Option A) → A → Option Json → Option A
  read_or read d none = some d
  read_or read d (some j) = read (view j)
