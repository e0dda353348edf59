-- ===== src/Examples/Saves.antt =====
-- The theorems on the documents, with a small library of JSON values.
use norelecbot.Base.{
  Bool, List, Option, [], ap, arith, false, find_index, if◌then◌else◌, is_some, none, refl, some,
  true, value_or, ℕ, ◌==◌, ◌∷◌, ◌≡◌, ◌⊎◌,
}
use norelecbot.Base.Int.{negsuc, pos, ℤ}
use norelecbot.Config.{AppConfig, fresh_config}
use norelecbot.Config.Bounds.{IsBounded}
use norelecbot.Config.Kept.{load_config-IsBounded}
use norelecbot.Config.Settings.{apply_in, load_config, settings}
use norelecbot.State.{ConquisterState, Holder, empty_state}
use norelecbot.Storage.Atomic.{Disk, File, Loaded, load_quotes, load_state, save}
use norelecbot.Storage.Atomic.Saved.{save_atomic}
use norelecbot.Storage.Json.{JsonLib, View}
use norelecbot.Storage.Keeping.Whole.{IsKept, IsKeptHolder, parse_state-state_to_json}
use norelecbot.Storage.Reading.{parse_state}
use norelecbot.Storage.Written.{state_to_json}
use norelecbot.Table.{Table, lookup}
use norelecbot.Text.{Text, text_eq, utf8}

mutual
  data Value : Type 0 where
    null_value : Value
    bool_value : Bool → Value
    int_value : ℤ → Value
    text_value : Text → Value
    array_value : Values → Value
    object_value : Fields → Value

  data Values : Type 0 where
    nil : Values
    cons : Value → Values → Values

  data Fields : Type 0 where
    no_fields : Fields
    field : Text → Value → Fields → Fields

of_list : List Value → Values
of_list [] = Values.nil
of_list (v ∷ vs) = Values.cons v (of_list vs)

of_table : Table Value → Fields
of_table [] = Fields.no_fields
of_table ((k, v) ∷ m) = Fields.field k v (of_table m)

to_list : Values → List Value
to_list Values.nil = []
to_list (Values.cons v vs) = v ∷ to_list vs

to_table : Fields → Table Value
to_table Fields.no_fields = []
to_table (Fields.field k v m) = (k, v) ∷ to_table m

to_list-of_list : (vs : List Value) → to_list (of_list vs) ≡ vs
unfolding to_list of_list
to_list-of_list [] = refl
to_list-of_list (v ∷ vs) = ap (◌∷◌ v) (to_list-of_list vs)

to_table-of_table : (m : Table Value) → to_table (of_table m) ≡ m
unfolding to_table of_table
to_table-of_table [] = refl
to_table-of_table ((k, v) ∷ m) = ap (◌∷◌ (k, v)) (to_table-of_table m)

see : Value → View Value
see null_value = View.is_null
see (bool_value b) = View.is_bool b
see (int_value z) = View.is_int z
see (text_value t) = View.is_text t
see (array_value vs) = View.is_array (to_list vs)
see (object_value m) = View.is_object (to_table m)

abbrev values : JsonLib
unfolding see
values = record {
  Json = Value;
  null = null_value;
  of_bool = bool_value;
  of_int = int_value;
  of_text = text_value;
  array = λ js. array_value (of_list js);
  object = λ m. object_value (of_table m);
  view = see;
  view_null = refl;
  view_bool = λ b. refl;
  view_int = λ z. refl;
  view_text = λ t. refl;
  view_array = λ js. ap View.is_array (to_list-of_list js);
  view_object = λ m keyed. ap View.is_object (to_table-of_table m);
}

abbrev keeper : Holder
unfolding utf8
keeper = record {
  user_id = pos 7;
  username = utf8 "anna";
  since = pos 100;
  lightning_percent = pos 0;
  bolts = pos 0;
  banked = pos 3;
  counted_from = pos 50;
  lobsters = (2, utf8 "x") ∷ (11, utf8 "y") ∷ [];
}

abbrev scored : ConquisterState
unfolding empty_state utf8 keeper
scored = record empty_state {
  current = some keeper;
  scores = (utf8 "anna", pos 5) ∷ (utf8 "bruno", negsuc 2) ∷ [];
  knocks = record { raider = utf8 "bruno"; target = utf8 "anna"; at = pos 9 } ∷ [];
}

scored-IsKept : IsKept scored
unfolding scored lookup text_eq keeper IsKeptHolder
scored-IsKept = record {
  current = (omega arith, omega arith, (omega arith, omega arith, tt));
  scores = (refl, (refl, tt));
  quotes_added = tt;
  balloons = tt;
  cooldowns = tt;
  ids = tt;
  telegram_ids = tt;
  irc_names = tt;
  accounts = tt;
  display_names = tt;
  telegram_names = tt;
  irc_nicks = tt;
  link_requests = tt;
  quote_authors = tt;
  furniture = tt;
  debugging = tt;
  smeared = tt;
  welcomed = tt;
  frozen = tt;
  equipped = tt;
  pugliesi = tt;
  joined = tt;
  guided = tt;
  entered = tt;
  invited_by = tt;
  invite_days = tt;
  invite_last_day = tt;
  invite_paid = tt;
}

parse_state-state_to_json_example :
    parse_state values (pos 1000) (state_to_json values scored) ≡ some scored
parse_state-state_to_json_example = parse_state-state_to_json values (pos 1000) scored scored-IsKept

abbrev quotes_then_now : Loaded (List Text)
unfolding utf8
quotes_then_now = record { original = []; current = utf8 "ciao" ∷ [] }

abbrev state_then_now : Loaded ConquisterState
state_then_now = record { original = empty_state; current = scored }

abbrev no_files : Disk values
no_files = record { quotes_file = File.no_file; state_file = File.no_file }

-- The first write works and the others do not.
abbrev one_write : ℕ → Bool
one_write n = n == 0

save_atomic_example :
    let (fault, after) = save values one_write quotes_then_now state_then_now no_files in
    ((fault ≡ none)
      × (load_quotes values after.quotes_file ≡ some quotes_then_now.current)
      × (load_state values (pos 1) after.state_file ≡ some scored))
    ⊎ ((is_some fault ≡ true)
        × (load_state values (pos 1) after.state_file ≡ some empty_state)
        × ((load_quotes values after.quotes_file ≡ some []) ⊎ (one_write 2 ≡ false)))
unfolding load_quotes load_state quotes_then_now
save_atomic_example =
    save_atomic values one_write (pos 1) quotes_then_now state_then_now no_files tt (refl, tt)
      scored-IsKept refl refl

-- One line in the file, and one variable in the environment.
abbrev an_environment : Text → Option Text
unfolding text_eq utf8
an_environment name =
    if text_eq name (utf8 "NORELECBOT_DOG_PERCENT") then some (utf8 "25") else none

abbrev a_file : List Text
unfolding utf8
a_file = utf8 "NORELECBOT_LOOT_DIVISOR=7" ∷ []

-- The configuration that is read, or the one without any settings when none is.
abbrev a_config : AppConfig
a_config = value_or (load_config an_environment (some a_file)) fresh_config

load_config-IsBounded_example : IsBounded a_config
unfolding load_config settings text_eq utf8 find_index apply_in
load_config-IsBounded_example = load_config-IsBounded an_environment (some a_file) a_config refl
