-- ===== src/Storage/Keeping.antt =====
-- What is written is read back: the tables, and the records of the lists.
pub mod Lobsters
pub mod Whole
use norelecbot.Base.{
  All, Bool, List, Option, [], ap, append-nil, append_assoc, arith, false, map, not, refl, some,
  sym, true, ◌&&◌, ◌++◌, ◌∙◌, ◌∷◌, ◌≡◌,
}
use norelecbot.Base.Int.{ℤ}
use norelecbot.Storage.Json.{JsonLib, bool_in, emplace, int_in, read_or, text_in, ◌<*>◌}
use norelecbot.Storage.Sections.{array_of, object_of, parse_entries, parse_section}
use norelecbot.Storage.Tables.{
  add_ints, add_texts, ints_of, parse_authors, parse_counters, texts_of,
}
use norelecbot.Storage.Written.{ints_json, texts_json}
use norelecbot.Table.{Authors, Counters, Keyed, Table, contains, lookup}
use norelecbot.Table.Keyed.{All-weaken_absent}
use norelecbot.Text.{Text, text_eq, text_eq_iff}

-- Reads that give what was written, one after the other.
infixl 4 ◌⊛◌
pub ◌⊛◌ :
    {A B : Type 0} {o : Option (A → B)} {x : Option A} {f : A → B} {a : A}
    → o ≡ some f
    → x ≡ some a
    → (o <*> x) ≡ some (f a)
p ⊛ q = rw (p, q) refl

abbrev pub is_keyed {ℓ} : {V : Type ℓ} → Table V → Bool
is_keyed [] = true
is_keyed ((k, v) ∷ m) = not (contains k m) && is_keyed m

pub is_keyed-Keyed {ℓ} : {V : Type ℓ} (m : Table V) → is_keyed m ≡ true → Keyed m
is_keyed-Keyed [] h = tt
is_keyed-Keyed ((k, v) ∷ m) h = (ground arith, is_keyed-Keyed m (ground arith))

module _ {ℓ κ} {V : Type ℓ} {W : Type κ} (f : V → W) where
  abbrev pub map_values : Table V → Table W
  map_values m = map (λ e. (e.0, f e.1)) m

  contains-map_values : (k : Text) (m : Table V) → contains k (map_values m) ≡ contains k m
  unfolding lookup
  contains-map_values k [] = refl
  contains-map_values k ((j, v) ∷ m) = ground (arith, contains-map_values k m)

  pub map_values-Keyed : (m : Table V) → Keyed m → Keyed (map_values m)
  map_values-Keyed [] h = tt
  map_values-Keyed ((k, v) ∷ m) (new, keyed) =
      (contains-map_values k m ∙ new, map_values-Keyed m keyed)

module _ {ℓ} {V : Type ℓ} where
  contains-append :
      (j k : Text) (v : V) (m : Table V)
      → contains j m ≡ false
      → text_eq j k ≡ false
      → contains j (m ++ (k, v) ∷ []) ≡ false
  unfolding lookup
  contains-append j k v [] h ne = ground (arith, text_eq_iff j k, text_eq_iff k j)
  contains-append j k v ((i, w) ∷ m) h ne = ground (arith, contains-append j k v m)

  -- The keys that are new to a table stay new behind one of another name.
  still_new :
      (k : Text) (v w : V) (acc m : Table V)
      → Keyed ((k, w) ∷ m)
      → All (λ e. contains e.0 acc ≡ false) m
      → All (λ e. contains e.0 (acc ++ (k, v) ∷ []) ≡ false) m
  still_new k v w acc m (new, keyed) all =
      All-weaken_absent (λ e. contains e.0 acc ≡ false)
        (λ e. contains e.0 (acc ++ (k, v) ∷ []) ≡ false) k m new
        (λ e ne h. contains-append e.0 k v acc h ne) all

  All-new : (m : Table V) → All (λ e. contains {V = V} e.0 [] ≡ false) m
  unfolding lookup
  All-new [] = tt
  All-new (e ∷ m) = (refl, All-new m)

  emplace_new :
      (k : Text) (v : V) (m : Table V) → contains k m ≡ false → emplace k v m ≡ m ++ (k, v) ∷ []
  unfolding emplace
  emplace_new k v m new = rw new refl

module _ (L : JsonLib) where
  pub text_read : (t : Text) → text_in (L.view (L.of_text t)) ≡ some t
  unfolding text_in
  text_read t = rw (L.view_text t) refl

  pub int_read : (z : ℤ) → int_in (L.view (L.of_int z)) ≡ some z
  unfolding int_in
  int_read z = rw (L.view_int z) refl

  pub bool_read : (b : Bool) → bool_in (L.view (L.of_bool b)) ≡ some b
  unfolding bool_in
  bool_read b = rw (L.view_bool b) refl

  add_ints_next :
      (k : Text) (z : ℤ) (m : Table L.Json) (acc : Counters)
      → add_ints L ((k, L.of_int z) ∷ m) acc ≡ add_ints L m (emplace k z acc)
  unfolding add_ints
  add_ints_next k z m acc = rw (L.view_int z, add_ints) refl

  add_texts_next :
      (k t : Text) (m : Table L.Json) (acc : Authors)
      → add_texts L ((k, L.of_text t) ∷ m) acc ≡ add_texts L m (emplace k t acc)
  unfolding add_texts
  add_texts_next k t m acc = rw (L.view_text t, add_texts) refl

  add_ints-All :
      (m acc : Counters)
      → Keyed m
      → All (λ e. contains e.0 acc ≡ false) m
      → add_ints L (map_values L.of_int m) acc ≡ some (acc ++ m)
  unfolding add_ints
  add_ints-All [] acc keyed new = ap some (sym (append-nil acc))
  add_ints-All ((k, z) ∷ m) acc keyed (fresh, new) =
      add_ints_next k z (map_values L.of_int m) acc
      ∙ rw (emplace_new k z acc fresh) (
          add_ints-All m (acc ++ (k, z) ∷ []) keyed.1 (still_new k z z acc m keyed new)
          ∙ ap some (append_assoc acc ((k, z) ∷ []) m))

  add_texts-All :
      (m acc : Authors)
      → Keyed m
      → All (λ e. contains e.0 acc ≡ false) m
      → add_texts L (map_values L.of_text m) acc ≡ acc ++ m
  unfolding add_texts
  add_texts-All [] acc keyed new = sym (append-nil acc)
  add_texts-All ((k, t) ∷ m) acc keyed (fresh, new) =
      add_texts_next k t (map_values L.of_text m) acc
      ∙ rw (emplace_new k t acc fresh) (
          add_texts-All m (acc ++ (k, t) ∷ []) keyed.1 (still_new k t t acc m keyed new)
          ∙ append_assoc acc ((k, t) ∷ []) m)

  pub parse_counters-ints_json :
      (m : Counters) → Keyed m → parse_counters L (some (ints_json L m)) ≡ some m
  unfolding parse_counters ints_json read_or ints_of
  parse_counters-ints_json m keyed =
      rw (L.view_object (map_values L.of_int m) (map_values-Keyed L.of_int m keyed))
        (add_ints-All m [] keyed (All-new m))

  pub parse_authors-texts_json :
      (m : Authors) → Keyed m → parse_authors L (some (texts_json L m)) ≡ some m
  unfolding parse_authors texts_json texts_of
  parse_authors-texts_json m keyed =
      rw (L.view_object (map_values L.of_text m) (map_values-Keyed L.of_text m keyed))
        (ap some (add_texts-All m [] keyed (All-new m)))

  module _ {A : Type 0} (parse_one : (Text → Option L.Json) → Option A) where
    parse_entries_next :
        (m : Table L.Json) (js : List L.Json) (a : A)
        → Keyed m
        → parse_one (λ k. lookup k m) ≡ some a
        → parse_entries L parse_one (L.object m ∷ js)
          ≡ (some (◌∷◌ a) <*> parse_entries L parse_one js)
    unfolding parse_entries object_of
    parse_entries_next m js a keyed reads =
        rw (L.view_object m keyed, parse_entries) (rw reads refl)

    parse_entries_all :
        (fields : A → Table L.Json) (xs : List A)
        → ((a : A) → is_keyed (fields a) ≡ true)
        → ((a : A) → parse_one (λ k. lookup k (fields a)) ≡ some a)
        → parse_entries L parse_one (map (λ a. L.object (fields a)) xs) ≡ some xs
    unfolding parse_entries
    parse_entries_all fields [] keyed reads = refl
    parse_entries_all fields (x ∷ xs) keyed reads =
        parse_entries_next (fields x) (map (λ a. L.object (fields a)) xs) x
          (is_keyed-Keyed (fields x) (keyed x)) (reads x)
        ∙ (refl ⊛ parse_entries_all fields xs keyed reads)

    -- A list of records, each written as an object that reads back.
    pub parse_section_all :
        (fields : A → Table L.Json) (xs : List A)
        → ((a : A) → is_keyed (fields a) ≡ true)
        → ((a : A) → parse_one (λ k. lookup k (fields a)) ≡ some a)
        → parse_section L parse_one (some (L.array (map (λ a. L.object (fields a)) xs))) ≡ some xs
    unfolding parse_section array_of
    parse_section_all fields xs keyed reads =
        rw (L.view_array (map (λ a. L.object (fields a)) xs))
          (parse_entries_all fields xs keyed reads)
