-- ===== src/Storage/Keeping/Whole.antt =====
-- A whole state, written and read back.
use norelecbot.Base.{List, Option, [], none, refl, some, true, ℕ, ◌∙◌, ◌∷◌, ◌≡◌}
use norelecbot.Base.Int.{ℤ}
use norelecbot.State.{Child, ConquisterState, Holder, Knock, Pregnancy, Raid}
use norelecbot.Storage.Document.{
  make_child, make_holder, make_knock, make_pregnancy, make_raid, make_state,
}
use norelecbot.Storage.Json.{JsonLib, find_in, read_at, read_or}
use norelecbot.Storage.Keeping.{
  bool_read, int_read, is_keyed, is_keyed-Keyed, parse_authors-texts_json, parse_counters-ints_json,
  parse_section_all, text_read, ◌⊛◌,
}
use norelecbot.Storage.Keeping.Lobsters.{IsAscending, lobsters_in-lobsters_json}
use norelecbot.Storage.Reading.{
  holder_in, lobsters_in, parse_fields, parse_hold, parse_holder, parse_lightning, parse_state,
}
use norelecbot.Storage.Sections.{object_of, parse_child, parse_knock, parse_pregnancy, parse_raid}
use norelecbot.Storage.Tables.{keep_shields, parse_balloons, parse_counters}
use norelecbot.Storage.Written.{
  child_fields, hold_fields, holder_json, ints_json, knock_fields, lobster_fields, pregnancy_fields,
  raid_fields, state_fields, state_to_json,
}
use norelecbot.Table.{Counters, Keyed, Table, lookup}
use norelecbot.Text.{Text, text_eq, utf8}

unfoldable pub IsKeptHolder : Option Holder → Type 0
IsKeptHolder none = Unit
IsKeptHolder (some h) = IsAscending h.lobsters

-- What the types of the source guarantee of a state: each table has each of its keys once, and the
-- lobsters stand in the order of their slots.
pub record IsKept (state : ConquisterState) : Type 0 where
  pub current : IsKeptHolder state.current
  pub scores : Keyed state.scores
  pub quotes_added : Keyed state.quotes_added
  pub balloons : Keyed state.balloons
  pub cooldowns : Keyed state.cooldowns
  pub ids : Keyed state.ids
  pub telegram_ids : Keyed state.telegram_ids
  pub irc_names : Keyed state.irc_names
  pub accounts : Keyed state.accounts
  pub display_names : Keyed state.display_names
  pub telegram_names : Keyed state.telegram_names
  pub irc_nicks : Keyed state.irc_nicks
  pub link_requests : Keyed state.link_requests
  pub quote_authors : Keyed state.quote_authors
  pub furniture : Keyed state.furniture
  pub debugging : Keyed state.debugging
  pub smeared : Keyed state.smeared
  pub welcomed : Keyed state.welcomed
  pub frozen : Keyed state.frozen
  pub equipped : Keyed state.equipped
  pub pugliesi : Keyed state.pugliesi
  pub joined : Keyed state.joined
  pub guided : Keyed state.guided
  pub entered : Keyed state.entered
  pub invited_by : Keyed state.invited_by
  pub invite_days : Keyed state.invite_days
  pub invite_last_day : Keyed state.invite_last_day
  pub invite_paid : Keyed state.invite_paid

module _ (L : JsonLib) where
  parse_raid-raid_fields : (r : Raid) → parse_raid L (λ k. lookup k (raid_fields L r)) ≡ some r
  unfolding parse_raid raid_fields lookup text_eq read_at read_or make_raid
  parse_raid-raid_fields r =
      refl
      ⊛ text_read L r.raider
      ⊛ text_read L r.target
      ⊛ int_read L r.arrive
      ⊛ int_read L r.back
      ⊛ bool_read L r.arrived
      ⊛ int_read L r.loot
      ⊛ int_read L r.gift
      ⊛ text_read L r.gift_emoji
      ⊛ bool_read L r.intact

  parse_pregnancy-pregnancy_fields :
      (p : Pregnancy) → parse_pregnancy L (λ k. lookup k (pregnancy_fields L p)) ≡ some p
  unfolding parse_pregnancy pregnancy_fields lookup text_eq read_at make_pregnancy
  parse_pregnancy-pregnancy_fields p =
      refl ⊛ text_read L p.mother ⊛ text_read L p.father ⊛ int_read L p.due

  parse_child-child_fields : (c : Child) → parse_child L (λ k. lookup k (child_fields L c)) ≡ some c
  unfolding parse_child child_fields lookup text_eq read_at read_or make_child
  parse_child-child_fields c =
      refl
      ⊛ text_read L c.owner
      ⊛ int_read L c.slot
      ⊛ bool_read L c.male
      ⊛ int_read L c.born
      ⊛ bool_read L c.courted

  parse_knock-knock_fields : (k : Knock) → parse_knock L (λ n. lookup n (knock_fields L k)) ≡ some k
  unfolding parse_knock knock_fields lookup text_eq read_at make_knock
  parse_knock-knock_fields k = refl ⊛ text_read L k.raider ⊛ text_read L k.target ⊛ int_read L k.at

  lobster_fields_read :
      (lobsters : List (ℕ × Text))
      → IsAscending lobsters
      → read_or L (lobsters_in L) [] (lookup (utf8 "lobsters") (lobster_fields L lobsters))
        ≡ some lobsters
  unfolding lobster_fields lookup text_eq read_or
  lobster_fields_read [] kept = refl
  lobster_fields_read (e ∷ lobsters) kept = lobsters_in-lobsters_json L (e ∷ lobsters) kept

  parse_hold-hold_fields :
      (h : Holder)
      → IsAscending h.lobsters
      → parse_hold L (λ k. lookup k (hold_fields L h)) ≡ some h
  unfolding parse_hold hold_fields lookup text_eq read_at read_or make_holder parse_lightning
  parse_hold-hold_fields h kept =
      refl
      ⊛ int_read L h.user_id
      ⊛ text_read L h.username
      ⊛ int_read L h.since
      ⊛ int_read L h.lightning_percent
      ⊛ int_read L h.bolts
      ⊛ int_read L h.banked
      ⊛ int_read L h.counted_from
      ⊛ lobster_fields_read h.lobsters kept

  hold_fields_keyed :
      (h : Holder) (lobsters : List (ℕ × Text))
      → is_keyed (hold_fields L (record h { lobsters = lobsters })) ≡ true
  unfolding hold_fields lobster_fields lookup text_eq
  hold_fields_keyed h [] = refl
  hold_fields_keyed h (e ∷ lobsters) = refl

  hold_fields-Keyed : (h : Holder) → Keyed (hold_fields L h)
  hold_fields-Keyed h = is_keyed-Keyed (hold_fields L h) (hold_fields_keyed h h.lobsters)

  parse_holder-holder_json :
      (current : Option Holder)
      → IsKeptHolder current
      → parse_holder L (some (holder_json L current)) ≡ some current
  unfolding parse_holder holder_json holder_in read_or IsKeptHolder find_in
  parse_holder-holder_json none kept = rw L.view_null refl
  parse_holder-holder_json (some h) kept =
      rw (L.view_object (hold_fields L h) (hold_fields-Keyed h))
        (refl ⊛ parse_hold-hold_fields h kept)

  parse_balloons-ints_json :
      (now : ℤ) (m : Counters) → Keyed m → parse_balloons L now (some (ints_json L m)) none ≡ some m
  unfolding parse_balloons keep_shields parse_counters read_or
  parse_balloons-ints_json now m keyed = (refl ⊛ parse_counters-ints_json L m keyed) ⊛ refl

  parse_fields-state_fields :
      (now : ℤ) (state : ConquisterState)
      → IsKept state
      → parse_fields L now (λ n. lookup n (state_fields L state)) ≡ some state
  unfolding parse_fields state_fields lookup text_eq read_or make_state
  parse_fields-state_fields now state k =
      refl
      ⊛ parse_holder-holder_json state.current k.current
      ⊛ parse_counters-ints_json L state.scores k.scores
      ⊛ parse_counters-ints_json L state.quotes_added k.quotes_added
      ⊛ parse_balloons-ints_json now state.balloons k.balloons
      ⊛ parse_counters-ints_json L state.cooldowns k.cooldowns
      ⊛ parse_counters-ints_json L state.ids k.ids
      ⊛ parse_counters-ints_json L state.telegram_ids k.telegram_ids
      ⊛ parse_counters-ints_json L state.irc_names k.irc_names
      ⊛ parse_authors-texts_json L state.accounts k.accounts
      ⊛ parse_authors-texts_json L state.display_names k.display_names
      ⊛ parse_authors-texts_json L state.telegram_names k.telegram_names
      ⊛ parse_authors-texts_json L state.irc_nicks k.irc_nicks
      ⊛ parse_authors-texts_json L state.link_requests k.link_requests
      ⊛ parse_section_all L (parse_raid L) (raid_fields L) state.raids (λ x. refl)
          parse_raid-raid_fields
      ⊛ parse_authors-texts_json L state.quote_authors k.quote_authors
      ⊛ parse_authors-texts_json L state.furniture k.furniture
      ⊛ parse_counters-ints_json L state.debugging k.debugging
      ⊛ parse_counters-ints_json L state.smeared k.smeared
      ⊛ parse_counters-ints_json L state.welcomed k.welcomed
      ⊛ parse_counters-ints_json L state.frozen k.frozen
      ⊛ parse_section_all L (parse_pregnancy L) (pregnancy_fields L) state.pregnancies (λ x. refl)
          parse_pregnancy-pregnancy_fields
      ⊛ parse_section_all L (parse_child L) (child_fields L) state.children (λ x. refl)
          parse_child-child_fields
      ⊛ int_read L state.eggs_at
      ⊛ parse_section_all L (parse_knock L) (knock_fields L) state.knocks (λ x. refl)
          parse_knock-knock_fields
      ⊛ parse_authors-texts_json L state.equipped k.equipped
      ⊛ bool_read L state.split
      ⊛ parse_counters-ints_json L state.pugliesi k.pugliesi
      ⊛ parse_counters-ints_json L state.joined k.joined
      ⊛ parse_counters-ints_json L state.guided k.guided
      ⊛ parse_counters-ints_json L state.entered k.entered
      ⊛ parse_authors-texts_json L state.invited_by k.invited_by
      ⊛ parse_counters-ints_json L state.invite_days k.invite_days
      ⊛ parse_counters-ints_json L state.invite_last_day k.invite_last_day
      ⊛ parse_counters-ints_json L state.invite_paid k.invite_paid

  state_fields_keyed : (state : ConquisterState) → is_keyed (state_fields L state) ≡ true
  unfolding state_fields lookup text_eq
  state_fields_keyed state = refl

  parse_state-object :
      (now : ℤ) (m : Table L.Json)
      → Keyed m
      → parse_state L now (L.object m) ≡ parse_fields L now (λ k. lookup k m)
  unfolding parse_state object_of
  parse_state-object now m keyed = rw (L.view_object m keyed, parse_state) refl

  -- With each table keyed and the lobsters in order, the state reads back from the document it is
  -- written as, at any time of the clock.
  pub parse_state-state_to_json :
      (now : ℤ) (state : ConquisterState)
      → IsKept state
      → parse_state L now (state_to_json L state) ≡ some state
  unfolding state_to_json
  parse_state-state_to_json now state k =
      parse_state-object now (state_fields L state)
        (is_keyed-Keyed (state_fields L state) (state_fields_keyed state))
      ∙ parse_fields-state_fields now state k
