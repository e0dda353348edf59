-- ===== src/Power.antt =====
-- The emoji with a power: `PowerKind`, `Power`, the table and `is_power` of src/game.hpp and
-- src/game.cpp, and the tests built on them.
use norelecbot.Base.{
  Bool, List, Option, String, [], any_of, count_if, false, find_if, if◌then◌else◌, length, none,
  not, some, suc, true, zero, ℕ, ◌&&◌, ◌++◌, ◌-◌, ◌==◌, ◌||◌, ◌∷◌,
}
use norelecbot.Base.Int.{pos, ℤ}
use norelecbot.Text.{Text, is_empty, starts_with, text_eq, utf8}

pub data PowerKind : Type 0 where
  home carried thrown : PowerKind

pub record Power : Type 0 where
  pub emoji : Text
  pub kind : PowerKind
  pub untouchable : Bool
  pub also : List Text

power : String → PowerKind → Power
unfolding utf8
power e k = record { emoji = utf8 e; kind = k; untouchable = false; also = [] }

unfoldable pub pleading : Power
unfolding power
pleading = power "🥺" PowerKind.home

unfoldable pub rocket : Power
unfolding power
rocket = power "🚀" PowerKind.carried

unfoldable pub bolt : Power
unfolding power
bolt = power "⚡" PowerKind.carried

unfoldable pub lobster : Power
unfolding power
lobster = power "🦞" PowerKind.carried

unfoldable pub poo : Power
unfolding power
poo = record {
  emoji = utf8 "💩";
  kind = PowerKind.thrown;
  untouchable = false;
  also = utf8 "🇷🇺" ∷ utf8 "🇮🇱" ∷ [];
}

unfoldable pub bomb : Power
unfolding power
bomb = power "💣" PowerKind.thrown

-- The radiation sign with its variation selector; below, the black flag joined to the skull.
unfoldable pub nuke : Power
unfolding power
nuke = record (power "☢" PowerKind.thrown) { emoji = utf8 "☢" ++ 0xEF ∷ 0xB8 ∷ 0x8F ∷ [] }

unfoldable pub dog : Power
unfolding power
dog = power "🐶" PowerKind.home

unfoldable pub mailbox : Power
unfolding power
mailbox = power "📮" PowerKind.home

unfoldable pub ninja : Power
unfolding power
ninja = power "🥷" PowerKind.carried

unfoldable pub alarm : Power
unfolding power
alarm = power "🔊" PowerKind.home

unfoldable pub pirate : Power
unfolding power
pirate = record (power "🏴" PowerKind.carried) {
  emoji = utf8 "🏴" ++ (0xE2 ∷ 0x80 ∷ 0x8D ∷ utf8 "☠") ++ 0xEF ∷ 0xB8 ∷ 0x8F ∷ [];
}

unfoldable pub seed : Power
unfolding power
seed = power "💦" PowerKind.thrown

unfoldable pub hen : Power
unfolding power
hen = power "🐔" PowerKind.home

unfoldable pub dino : Power
unfolding power
dino = power "🦖" PowerKind.home

unfoldable pub salt_power : Power
unfolding power
salt_power = power "🧂" PowerKind.home

unfoldable pub ice : Power
unfolding power
ice = power "🧊" PowerKind.thrown

unfoldable pub fire_power : Power
unfolding power
fire_power = power "🔥" PowerKind.carried

unfoldable pub hourglass : Power
unfolding power
hourglass = power "⏳" PowerKind.carried

unfoldable pub balloon : Power
unfolding power
balloon = record (power "🎈" PowerKind.carried) { untouchable = true }

unfoldable pub powers : List Power
unfolding pleading rocket bolt lobster poo bomb nuke dog balloon mailbox ninja alarm pirate seed hen
    ice fire_power hourglass dino salt_power
powers =
    pleading ∷ rocket ∷ bolt ∷ lobster ∷ poo ∷ bomb ∷ nuke ∷ dog ∷ balloon ∷ mailbox ∷ ninja ∷ alarm
    ∷ pirate ∷ seed ∷ hen ∷ ice ∷ fire_power ∷ hourglass ∷ dino ∷ salt_power ∷ []

-- A walk that leaves out every stretch which the test measures; `skip` bytes are still to be left out.
strip_all : (Text → ℕ) → ℕ → Text → Text
strip_all width skip [] = []
strip_all width (suc k) (c ∷ s) = strip_all width k s
strip_all width zero (c ∷ s) =
    let w = width (c ∷ s) in
    let rest = strip_all width (w - 1) s in if w == 0 then c ∷ rest else rest

-- The two variation selectors, U+FE0F and U+FE0E.
variation_width : Text → ℕ
unfolding starts_with
variation_width s =
    if starts_with s (0xEF ∷ 0xB8 ∷ 0x8F ∷ []) || starts_with s (0xEF ∷ 0xB8 ∷ 0x8E ∷ [])
    then 3
    else 0

unfoldable pub without_variation : Text → Text
unfolding strip_all variation_width
without_variation = strip_all variation_width 0

tone_width : Text → Text → ℕ
unfolding starts_with
tone_width tone s = if starts_with s tone then length tone else 0

without_one_tone : Text → Text → Text
unfolding strip_all tone_width
without_one_tone s tone = strip_all (tone_width tone) 0 s

-- The five skin tones, one after the other.
unfoldable pub without_tone : Text → Text
unfolding without_one_tone utf8
without_tone s =
    without_one_tone
      (without_one_tone
        (without_one_tone (without_one_tone (without_one_tone s (utf8 "🏻")) (utf8 "🏼")) (utf8 "🏽"))
        (utf8 "🏾"))
      (utf8 "🏿")

unfoldable pub is_power : Text → Power → Bool
unfolding without_tone without_variation text_eq any_of
is_power e p =
    let bare = without_tone (without_variation e) in
    text_eq bare (without_tone (without_variation p.emoji))
    || any_of (λ also. not (is_empty also) && text_eq bare also) p.also

unfoldable pub power_of : Text → Option Power
unfolding find_if is_power powers
power_of e = find_if (λ p. is_power e p) powers

unfoldable pub same_emoji : Text → Text → Bool
unfolding without_variation text_eq
same_emoji a b = text_eq (without_variation a) (without_variation b)

unfoldable pub is_lobster : Text → Bool
is_lobster e = is_power e lobster

unfoldable pub is_thrown : Text → Bool
is_thrown e = elim (power_of e) [
  | none ↦ false
  | some p ↦ elim p.kind [ PowerKind.thrown ↦ true | _ ↦ false ]
]

unfoldable pub works_on_him : Text → Bool
works_on_him e = elim (power_of e) [
  | none ↦ false
  | some p ↦ elim p.kind [ PowerKind.carried ↦ true | _ ↦ false ]
]

unfoldable pub is_untouchable : Text → Bool
is_untouchable e = elim (power_of e) [ none ↦ false | some p ↦ p.untouchable ]

unfoldable pub count_power : List Text → Power → ℤ
unfolding count_if
count_power slots p = pos (count_if (λ slot. not (is_empty slot) && is_power slot p) slots)
