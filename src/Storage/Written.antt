-- ===== src/Storage/Written.antt =====
-- `state_to_json` of src/storage.cpp.
use norelecbot.Base.{List, Option, [], map, none, some, ℕ, ◌∷◌}
use norelecbot.Base.Int.{pos}
use norelecbot.State.{Child, ConquisterState, Holder, Knock, Pregnancy, Raid}
use norelecbot.Storage.Json.{JsonLib}
use norelecbot.Table.{Authors, Counters, Table}
use norelecbot.Text.{Text, utf8}
use norelecbot.Text.Number.{to_string}

module _ (L : JsonLib) where
  open L use {Json}

  unfoldable pub ints_json : Counters → Json
  ints_json m = L.object (map (λ e. (e.0, L.of_int e.1)) m)

  unfoldable pub texts_json : Authors → Json
  texts_json m = L.object (map (λ e. (e.0, L.of_text e.1)) m)

  unfoldable pub raid_fields : Raid → Table Json
  unfolding utf8
  raid_fields r =
      (utf8 "raider", L.of_text r.raider)
      ∷ (utf8 "target", L.of_text r.target)
      ∷ (utf8 "arrive", L.of_int r.arrive)
      ∷ (utf8 "back", L.of_int r.back)
      ∷ (utf8 "arrived", L.of_bool r.arrived)
      ∷ (utf8 "loot", L.of_int r.loot)
      ∷ (utf8 "gift", L.of_int r.gift)
      ∷ (utf8 "gift_emoji", L.of_text r.gift_emoji)
      ∷ (utf8 "intact", L.of_bool r.intact)
      ∷ []

  unfoldable pub raid_json : Raid → Json
  unfolding raid_fields
  raid_json r = L.object (raid_fields r)

  unfoldable pub pregnancy_fields : Pregnancy → Table Json
  unfolding utf8
  pregnancy_fields p =
      (utf8 "mother", L.of_text p.mother)
      ∷ (utf8 "father", L.of_text p.father)
      ∷ (utf8 "due", L.of_int p.due)
      ∷ []

  unfoldable pub pregnancy_json : Pregnancy → Json
  unfolding pregnancy_fields
  pregnancy_json p = L.object (pregnancy_fields p)

  unfoldable pub child_fields : Child → Table Json
  unfolding utf8
  child_fields c =
      (utf8 "owner", L.of_text c.owner)
      ∷ (utf8 "slot", L.of_int c.slot)
      ∷ (utf8 "male", L.of_bool c.male)
      ∷ (utf8 "born", L.of_int c.born)
      ∷ (utf8 "courted", L.of_bool c.courted)
      ∷ []

  unfoldable pub child_json : Child → Json
  unfolding child_fields
  child_json c = L.object (child_fields c)

  unfoldable pub knock_fields : Knock → Table Json
  unfolding utf8
  knock_fields k =
      (utf8 "raider", L.of_text k.raider)
      ∷ (utf8 "target", L.of_text k.target)
      ∷ (utf8 "at", L.of_int k.at)
      ∷ []

  unfoldable pub knock_json : Knock → Json
  unfolding knock_fields
  knock_json k = L.object (knock_fields k)

  -- `lobsters[std::to_string(slot)] = emoji`, for slots in order.
  unfoldable pub lobsters_json : List (ℕ × Text) → Json
  unfolding to_string
  lobsters_json lobsters = L.object (map (λ e. (to_string (pos e.0), L.of_text e.1)) lobsters)

  -- No entry when there is none.
  unfoldable pub lobster_fields : List (ℕ × Text) → Table Json
  unfolding lobsters_json utf8
  lobster_fields [] = []
  lobster_fields (e ∷ lobsters) = (utf8 "lobsters", lobsters_json (e ∷ lobsters)) ∷ []

  unfoldable pub hold_fields : Holder → Table Json
  unfolding lobster_fields utf8
  hold_fields h =
      (utf8 "user_id", L.of_int h.user_id)
      ∷ (utf8 "username", L.of_text h.username)
      ∷ (utf8 "since", L.of_int h.since)
      ∷ (utf8 "lightning_percent", L.of_int h.lightning_percent)
      ∷ (utf8 "bolts", L.of_int h.bolts)
      ∷ (utf8 "banked", L.of_int h.banked)
      ∷ (utf8 "counted_from", L.of_int h.counted_from)
      ∷ lobster_fields h.lobsters

  unfoldable pub holder_json : Option Holder → Json
  unfolding hold_fields
  holder_json none = L.null
  holder_json (some h) = L.object (hold_fields h)

  unfoldable pub state_fields : ConquisterState → Table Json
  unfolding holder_json ints_json texts_json raid_json pregnancy_json child_json knock_json utf8
  state_fields state =
      (utf8 "current", holder_json state.current)
      ∷ (utf8 "scores", ints_json state.scores)
      ∷ (utf8 "quotes_added", ints_json state.quotes_added)
      ∷ (utf8 "balloons", ints_json state.balloons)
      ∷ (utf8 "cooldowns", ints_json state.cooldowns)
      ∷ (utf8 "ids", ints_json state.ids)
      ∷ (utf8 "telegram_ids", ints_json state.telegram_ids)
      ∷ (utf8 "irc_names", ints_json state.irc_names)
      ∷ (utf8 "accounts", texts_json state.accounts)
      ∷ (utf8 "display_names", texts_json state.display_names)
      ∷ (utf8 "telegram_names", texts_json state.telegram_names)
      ∷ (utf8 "irc_nicks", texts_json state.irc_nicks)
      ∷ (utf8 "link_requests", texts_json state.link_requests)
      ∷ (utf8 "raids", L.array (map raid_json state.raids))
      ∷ (utf8 "quote_authors", texts_json state.quote_authors)
      ∷ (utf8 "furniture", texts_json state.furniture)
      ∷ (utf8 "debugging", ints_json state.debugging)
      ∷ (utf8 "smeared", ints_json state.smeared)
      ∷ (utf8 "welcomed", ints_json state.welcomed)
      ∷ (utf8 "frozen", ints_json state.frozen)
      ∷ (utf8 "pregnancies", L.array (map pregnancy_json state.pregnancies))
      ∷ (utf8 "children", L.array (map child_json state.children))
      ∷ (utf8 "eggs_at", L.of_int state.eggs_at)
      ∷ (utf8 "knocks", L.array (map knock_json state.knocks))
      ∷ (utf8 "equipped", texts_json state.equipped)
      ∷ (utf8 "split", L.of_bool state.split)
      ∷ (utf8 "pugliesi", ints_json state.pugliesi)
      ∷ (utf8 "joined", ints_json state.joined)
      ∷ (utf8 "guided", ints_json state.guided)
      ∷ (utf8 "entered", ints_json state.entered)
      ∷ (utf8 "invited_by", texts_json state.invited_by)
      ∷ (utf8 "invite_days", ints_json state.invite_days)
      ∷ (utf8 "invite_last_day", ints_json state.invite_last_day)
      ∷ (utf8 "invite_paid", ints_json state.invite_paid)
      ∷ []

  unfoldable pub state_to_json : ConquisterState → Json
  unfolding state_fields
  state_to_json state = L.object (state_fields state)
