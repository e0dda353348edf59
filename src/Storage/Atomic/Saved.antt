-- ===== src/Storage/Atomic/Saved.antt =====
-- A transaction that is saved is saved as a whole.
use norelecbot.Base.{
  All, Bool, List, [], ap, arith, false, inl, inr, is_some, map, none, refl, some, sym, true, ℕ,
  ◌∙◌, ◌∷◌, ◌≡◌, ◌⊎◌,
}
use norelecbot.Base.Int.{ℤ}
use norelecbot.State.{ConquisterState}
use norelecbot.Storage.Atomic.{
  Disk, File, Loaded, Quotes-discrete, State-discrete, differs, load_quotes, load_state, quotes_in,
  quotes_json, read_quotes, save, save_behind, save_documents, save_json,
}
use norelecbot.Storage.Json.{JsonLib}
use norelecbot.Storage.Keeping.{◌⊛◌}
use norelecbot.Storage.Keeping.Whole.{IsKept, parse_state-state_to_json}
use norelecbot.Storage.Written.{state_to_json}
use norelecbot.Text.{Text, is_empty}

module _ (L : JsonLib) where
  abbrev AreQuotes : List Text → Type 0
  AreQuotes quotes = All (λ t. is_empty t ≡ false) quotes

  read_quotes-written :
      (quotes : List Text) → AreQuotes quotes → read_quotes L (map L.of_text quotes) ≡ some quotes
  unfolding read_quotes
  read_quotes-written [] h = refl
  read_quotes-written (t ∷ quotes) (there, h) =
      rw (L.view_text t, read_quotes) (rw there (refl ⊛ read_quotes-written quotes h))

  load_quotes-quotes_json :
      (quotes : List Text)
      → AreQuotes quotes
      → load_quotes L (File.holds (quotes_json L quotes)) ≡ some quotes
  unfolding load_quotes quotes_json quotes_in
  load_quotes-quotes_json quotes h =
      rw (L.view_array (map L.of_text quotes)) (read_quotes-written quotes h)

-- What `!=` says.
differs-same : {A : Type 0} {a b : A} (d : Dec (a ≡ b)) → differs d ≡ false → a ≡ b
differs-same (yes e) h = e
differs-same (no n) h = absurd (ground arith)

module _ (L : JsonLib) (writes : ℕ → Bool) where
  -- The files after a save: both as they are to be, or the state as it was and the quotes as they were,
  -- or put back, or not put back because that write failed too.
  save_documents_cases :
      (quotes_changed state_changed : Bool) (quotes_doc quotes_back state_doc : L.Json)
      (disk : Disk L)
      → let (fault, after) =
          save_documents L writes quotes_changed state_changed quotes_doc quotes_back state_doc
            disk in
        ((fault ≡ none)
          × (((quotes_changed ≡ false) × (after.quotes_file ≡ disk.quotes_file))
              ⊎ (after.quotes_file ≡ File.holds quotes_doc))
          × (((state_changed ≡ false) × (after.state_file ≡ disk.state_file))
              ⊎ (after.state_file ≡ File.holds state_doc)))
        ⊎ ((is_some fault ≡ true)
            × (after.state_file ≡ disk.state_file)
            × ((after.quotes_file ≡ disk.quotes_file)
                ⊎ ((after.quotes_file ≡ File.holds quotes_back) ⊎ (writes 2 ≡ false))))
  unfolding save_documents save_behind save_json
  save_documents_cases quotes_changed state_changed quotes_doc quotes_back state_doc disk =
      ground arith

module _ (L : JsonLib) (writes : ℕ → Bool) (now : ℤ) where
  load_state-written :
      (state : ConquisterState)
      → IsKept state
      → load_state L now (File.holds (state_to_json L state)) ≡ some state
  unfolding load_state
  load_state-written state kept = parse_state-state_to_json L now state kept

  -- When the two files hold what the transaction has loaded, the quotes have words and the state is
  -- keyed: a save either fails nothing and leaves files that load as the quotes and the state are now,
  -- or fails, and the files load as they were before, unless the write that puts the quotes back fails.
  pub save_atomic :
      (quotes : Loaded (List Text)) (state : Loaded ConquisterState) (disk : Disk L)
      → AreQuotes L quotes.original
      → AreQuotes L quotes.current
      → IsKept state.current
      → load_quotes L disk.quotes_file ≡ some quotes.original
      → load_state L now disk.state_file ≡ some state.original
      → let (fault, after) = save L writes quotes state disk in
        ((fault ≡ none)
          × (load_quotes L after.quotes_file ≡ some quotes.current)
          × (load_state L now after.state_file ≡ some state.current))
        ⊎ ((is_some fault ≡ true)
            × (load_state L now after.state_file ≡ some state.original)
            × ((load_quotes L after.quotes_file ≡ some quotes.original) ⊎ (writes 2 ≡ false)))
  unfolding save
  save_atomic quotes state disk were are kept q s =
      let qd = Quotes-discrete quotes.current quotes.original in
      let sd = State-discrete state.current state.original in
      elim (save_documents_cases L writes (differs qd) (differs sd) (quotes_json L quotes.current)
        (quotes_json L quotes.original) (state_to_json L state.current) disk) [
          | inl (fine, quotes_now, state_now) ↦ inl (
            fine,
            elim quotes_now [
              | inl (same, file) ↦
                  ap (load_quotes L) file ∙ q ∙ ap some (sym (differs-same qd same))
              | inr file ↦ ap (load_quotes L) file ∙ load_quotes-quotes_json L quotes.current are
            ],
            elim state_now [
              | inl (same, file) ↦
                  ap (load_state L now) file ∙ s ∙ ap some (sym (differs-same sd same))
              | inr file ↦ ap (load_state L now) file ∙ load_state-written state.current kept
            ],
          )
          | inr (fault, state_file, quotes_file) ↦ inr (
            fault,
            ap (load_state L now) state_file ∙ s,
            elim quotes_file [
              | inl file ↦ inl (ap (load_quotes L) file ∙ q)
              | inr (inl file) ↦
                  inl (ap (load_quotes L) file ∙ load_quotes-quotes_json L quotes.original were)
              | inr (inr failed) ↦ inr failed
            ],
          )
        ]
