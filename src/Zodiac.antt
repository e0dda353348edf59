-- ===== src/Zodiac.antt =====
-- src/zodiac.cpp: signs, houses and what the day is worth. The clock's time zone is the system's:
-- `Zone` stands for what `std::chrono::current_zone` says of an instant.
use norelecbot.Base.{
  Bool, List, Option, String, [], bit_xor, false, find_if, get_or, if◌then◌else◌, length, none,
  some, suc, true, value_or, zero, ℕ, ◌%◌, ◌*◌, ◌^◌, ◌∷◌,
}
use norelecbot.Base.Int.{pos, pos_part, ℤ, ◌%ℤ◌, ◌+ℤ◌}
use norelecbot.Text.{Text, equals_ignore_case, is_empty, to_lower, utf8}

pub data Element : Type 0 where
  water fire air earth : Element

pub record Sign : Type 0 where
  pub name : Text
  pub symbol : Text
  pub element : Element

pub record Override : Type 0 where
  pub username : Text
  pub sign : Text

-- The local day number and the local hour of an instant.
pub record Zone : Type 0 where
  pub local_day : ℤ → ℤ
  pub local_hour : ℤ → ℤ

-- The overrides that a call is given, and the zone that the process runs in.
pub record Sky : Type 0 where
  pub overrides : List Override
  pub zone : Zone

sign : String → String → Element → Sign
unfolding utf8
sign n s e = record { name = utf8 n; symbol = utf8 s; element = e }

unfoldable pub signs : List Sign
unfolding sign
signs =
    sign "ariete" "♈" fire
    ∷ sign "toro" "♉" earth
    ∷ sign "gemelli" "♊" air
    ∷ sign "cancro" "♋" water
    ∷ sign "leone" "♌" fire
    ∷ sign "vergine" "♍" earth
    ∷ sign "bilancia" "♎" air
    ∷ sign "scorpione" "♏" water
    ∷ sign "sagittario" "♐" fire
    ∷ sign "capricorno" "♑" earth
    ∷ sign "acquario" "♒" air
    ∷ sign "pesci" "♓" water
    ∷ []

-- One round of FNV-1a on 64 bits.
digest_step : ℕ → ℕ → ℕ
unfolding to_lower
digest_step hash c = bit_xor hash (to_lower c) * 0x100000001b3 % 2 ^ 64

digest_from : ℕ → Text → ℕ
digest_from hash [] = hash
digest_from hash (c ∷ s) = digest_from (digest_step hash c) s

unfoldable pub digest : Text → ℕ
unfolding digest_from digest_step
digest s = digest_from 0xcbf29ce484222325 s

unfoldable pub sign_named : Text → Option Sign
unfolding find_if
sign_named n = find_if (λ s. equals_ignore_case s.name n) signs

-- Where `signs.at` is out of range the source throws; the index is below twelve.
sign_at : ℕ → Sign
unfolding sign
sign_at i = get_or signs i (sign "" "" earth)

unfoldable pub sign_of : Text → List Override → Sign
unfolding find_if sign_at
sign_of username overrides =
    let own = sign_at (digest username % length signs) in
    elim (find_if (λ o. equals_ignore_case o.username username) overrides) [
      | none ↦ own
      | some chosen ↦ value_or (sign_named chosen.sign) own
    ]

house : ℕ → Element
house zero = water
house (suc zero) = fire
house (suc (suc zero)) = air
house (suc (suc (suc n))) = earth

unfoldable pub element_of_day : Zone → ℤ → Element
unfolding house
element_of_day z now = house (pos_part ((z.local_day now %ℤ pos 4 +ℤ pos 4) %ℤ pos 4))

unfoldable pub element_name : Element → Text
unfolding utf8
element_name water = utf8 "acqua"
element_name fire = utf8 "fuoco"
element_name air = utf8 "vento"
element_name earth = utf8 "terra"

unfoldable pub opposed : Element → Element → Bool
opposed fire water = true
opposed water fire = true
opposed air earth = true
opposed earth air = true
opposed _ _ = false

unfoldable pub same_element : Element → Element → Bool
same_element water water = true
same_element fire fire = true
same_element air air = true
same_element earth earth = true
same_element _ _ = false

unfoldable pub percent_for : Text → ℤ → Sky → ℤ
percent_for username now sky =
    if is_empty username
    then pos 100
    else let today = element_of_day sky.zone now in
      let own = (sign_of username sky.overrides).element in
      if same_element own today then pos 125 else if opposed own today then pos 75 else pos 100

-- `zodiac_counts` and `day_percent` of src/game.hpp and src/game.cpp.
abbrev pub zodiac_counts : Bool
zodiac_counts = false

unfoldable pub day_percent : Text → ℤ → Sky → ℤ
day_percent username now sky = if zodiac_counts then percent_for username now sky else pos 100
