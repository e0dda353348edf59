-- ===== src/Pulse.antt =====
-- src/pulse.cpp and src/pulse.hpp: how many messages, how much laughter and which parts of the game come
-- up, five minutes at a time. A `std::map` by time is a list in the order of its keys.
pub mod Tally
use norelecbot.Base.{
  Bool, List, String, [], any_of, if◌then◌else◌, is_some, map, not, ◌&&◌, ◌++◌, ◌∷◌,
}
use norelecbot.Base.Int.{eqb_ℤ, ltb_ℤ, pos, ℤ, ◌*ℤ◌, ◌+ℤ◌, ◌-ℤ◌, ◌/ℤ◌}
use norelecbot.SortedMap.{at_key, put}
use norelecbot.Table.{Table}
use norelecbot.Text.{Text, find, is_empty, lower_name, utf8}

abbrev pub bucket_seconds : ℤ
bucket_seconds = pos 300

-- Ninety days.
abbrev pub kept_seconds : ℤ
kept_seconds = pos 7776000

pub record Pulse : Type 0 where
  pub buckets : List (ℤ × Table ℤ)

unfoldable pub fresh_pulse : Pulse
fresh_pulse = record { buckets = [] }

names_one : Text → Text → Bool
unfolding find
names_one low word = is_some (find low word)

unfoldable pub laughs : Text → Bool
unfolding lower_name names_one any_of utf8
laughs text = any_of (names_one (lower_name text)) (
    utf8 "ahah"
    ∷ utf8 "haha"
    ∷ utf8 "ahha"
    ∷ utf8 "jaja"
    ∷ utf8 "lol"
    ∷ utf8 "xd"
    ∷ utf8 "😂"
    ∷ utf8 "🤣"
    ∷ utf8 "😆"
    ∷ utf8 "😹"
    ∷ utf8 "💀"
    ∷ [])

pub record Topic : Type 0 where
  pub name : Text
  pub words : List Text

topic : String → String → String → String → String → Topic
unfolding utf8
topic name one two three four = record {
  name = utf8 name;
  words = utf8 one ∷ utf8 two ∷ utf8 three ∷ utf8 four ∷ [];
}

unfoldable pub named_topics : List Topic
unfolding topic
named_topics =
    topic "raid" "raid" "rubat" "rubar" "razzi"
    ∷ topic "conquister" "conquister" "posto" "entrat" "entrar"
    ∷ topic "balloon" "🎈" "palloncin" "pallonc" "bucat"
    ∷ topic "ice" "🧊" "ghiacci" "congel" "frozen"
    ∷ topic "bomb" "💣" "bomba" "esplos" "☢"
    ∷ topic "poo" "💩" "smerd" "cacca" "merda"
    ∷ topic "shop" "/buy" "compr" "negozio" "costa"
    ∷ topic "palle" "palle" "palla" "punti" "classifica"
    ∷ topic "children" "💦" "figli" "bambin" "nato"
    ∷ topic "zodiac" "zodiac" "segno" "oroscop" "pianet"
    ∷ topic "bot" "script" "automat" "bot " "barare"
    ∷ topic "rules" "regol" "aggiorn" "novità" "cambiat"
    ∷ []

unfoldable pub topics_among : Text → List Topic → List Text
unfolding names_one any_of
topics_among low [] = []
topics_among low (t ∷ ts) =
    let rest = topics_among low ts in
    if any_of (λ word. not (is_empty word) && names_one low word) t.words
    then t.name ∷ rest
    else rest

unfoldable pub topics : Text → List Text
unfolding lower_name topics_among named_topics
topics text = topics_among (lower_name text ++ 32 ∷ []) named_topics

unfoldable pub bucket_of : ℤ → ℤ
bucket_of now = (now /ℤ bucket_seconds) *ℤ bucket_seconds

-- `++buckets_[bucket][what]`
unfoldable pub bump : ℤ → Text → List (ℤ × Table ℤ) → List (ℤ × Table ℤ)
unfolding put at_key
bump bucket what [] = (bucket, (what, pos 1) ∷ []) ∷ []
bump bucket what ((c, counts) ∷ later) =
    let rest = bump bucket what later in
    if eqb_ℤ c bucket
    then (c, put what (at_key what (pos 0) counts +ℤ pos 1) counts) ∷ later
    else if ltb_ℤ bucket c
    then (bucket, (what, pos 1) ∷ []) ∷ (c, counts) ∷ later
    else (c, counts) ∷ rest

unfoldable pub drop_old : ℤ → List (ℤ × Table ℤ) → List (ℤ × Table ℤ)
drop_old oldest [] = []
drop_old oldest ((c, counts) ∷ later) =
    let rest = drop_old oldest later in if ltb_ℤ c oldest then rest else (c, counts) ∷ later

unfoldable pub count : Text → ℤ → Pulse → Pulse
unfolding bump drop_old bucket_of
count what now pulse = record {
  buckets = drop_old (now -ℤ kept_seconds) (bump (bucket_of now) what pulse.buckets);
}

unfoldable pub count_each : List Text → ℤ → Pulse → Pulse
unfolding count
count_each [] now pulse = pulse
count_each (what ∷ more) now pulse = count_each more now (count what now pulse)

-- What a message is counted as, in order.
unfoldable pub message_counts : Text → Text → List Text
unfolding laughs topics utf8
message_counts platform text =
    (utf8 "messages:" ++ platform) ∷ (if laughs text then (utf8 "laughs:" ++ platform) ∷ [] else [])
    ++ map (λ name. utf8 "topic:" ++ name) (topics text)

unfoldable pub message : Text → Text → ℤ → Pulse → Pulse
unfolding count_each message_counts
message platform text now pulse = count_each (message_counts platform text) now pulse

unfoldable pub event : Text → ℤ → Pulse → Pulse
unfolding count utf8
event kind now pulse = count (utf8 "event:" ++ kind) now pulse

unfoldable pub bucket_at : ℤ → List (ℤ × Table ℤ) → Table ℤ
bucket_at bucket [] = []
bucket_at bucket ((c, counts) ∷ later) =
    let rest = bucket_at bucket later in if eqb_ℤ c bucket then counts else rest

-- `at`: the counts of a stretch of five minutes.
unfoldable pub counts_at : ℤ → Pulse → Table ℤ
unfolding bucket_at bucket_of
counts_at now pulse = bucket_at (bucket_of now) pulse.buckets
