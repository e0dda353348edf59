-- ===== src/Hold/Pay.antt =====
-- What a hold is worth, and what settling it does.
use native.Mathlib.Nat.{div-lt_iff_lt-mul}
use norelecbot.Base.{
  Bool-cases, Option, ap, arith, false, inl, inr, none, refl, some, subst, sym, true, ℕ, ◌%◌, ◌&&◌,
  ◌*◌, ◌/◌, ◌∙◌, ◌≡◌, ◌⊎◌,
}
use norelecbot.Base.Int.{
  int64_max, int_laws, ltb_ℤ, max_ℤ, max_ℤ-le, negsuc, pos, pos_part, ℤ, ◌%ℤ◌, ◌*ℤ◌, ◌+ℤ◌, ◌-ℤ◌,
  ◌/ℤ◌, ◌<ℤ◌, ◌≤ℤ◌,
}
use norelecbot.Hold.{
  Settlement, held_seconds, hold_value, pay_hold, percent_of, settle_hold, with_lightning,
}
use norelecbot.Place.{display_name}
use norelecbot.Sentinel.Signs.{percent}
use norelecbot.State.{ConquisterState, Holder}
use norelecbot.Table.{counter, insert}
use norelecbot.Zodiac.{Sky, day_percent}

-- The seconds of a hold that still count: since he came in, or since it was last counted.
abbrev pub seconds_held : Holder → ℤ → ℤ
seconds_held hold now = max_ℤ (now -ℤ max_ℤ hold.since hold.counted_from) (pos 0)

-- A palla for a second, or what the lightning makes of it when it is worth more than a hundred percent.
abbrev pub worth : Holder → ℤ → ℤ
worth hold now = seconds_held hold now *ℤ max_ℤ hold.lightning_percent (pos 100) /ℤ pos 100

held_seconds_lem : (hold : Holder) (now : ℤ) → held_seconds hold now ≡ seconds_held hold now
unfolding held_seconds max_ℤ
held_seconds_lem hold now = grind int_laws

seconds_held-natural : (hold : Holder) (now : ℤ) → (n : ℕ) × (seconds_held hold now ≡ pos n)
seconds_held-natural hold now = (
  pos_part (seconds_held hold now),
  natural (seconds_held hold now) (max_ℤ-le (now -ℤ max_ℤ hold.since hold.counted_from) (pos 0)).1,
)
  where
    natural : (z : ℤ) → pos 0 ≤ℤ z → z ≡ pos (pos_part z)
    natural (pos n) h = refl
    natural (negsuc n) h = absurd (omega arith)

-- What the lightning makes of some seconds: the product, unless it does not fit.
abbrev Lights : ℤ → ℕ → Option (ℤ × ℤ) → Type 0
Lights percent n none = (pos 100 <ℤ percent) × (int64_max <ℤ pos n *ℤ percent)
Lights percent n (some (lightning, earned)) =
    (earned ≡ pos n *ℤ max_ℤ percent (pos 100) /ℤ pos 100)
    × ((percent ≤ℤ pos 100) ⊎ (pos n *ℤ percent ≤ℤ int64_max))

times_pos : (a b : ℕ) → pos a *ℤ pos b ≡ pos (a * b)
unfolding ◌*ℤ◌
times_pos a b = ground arith

hundred : (n : ℕ) → pos n ≡ pos n *ℤ pos 100 /ℤ pos 100
unfolding ◌/ℤ◌
hundred n = rw (times_pos n 100) (ap pos (omega arith))

-- The test of the source, by a quotient, is whether the product passes the largest number.
past_max :
    (percent : ℤ) (n : ℕ)
    → pos 100 <ℤ percent
    → (ltb_ℤ (int64_max /ℤ percent) (pos n) ≡ true → int64_max <ℤ pos n *ℤ percent)
      × (ltb_ℤ (int64_max /ℤ percent) (pos n) ≡ false → pos n *ℤ percent ≤ℤ int64_max)
unfolding ◌/ℤ◌
past_max (negsuc p) n high = absurd (omega arith)
past_max (pos p) n high =
    let quotient = div-lt_iff_lt-mul {k = p} {x = 9223372036854775807} {y = n} (omega arith) in
    rw (times_pos n p) (λ h. ground (arith, quotient), λ h. ground (arith, quotient))

with_lightning_lem : (percent : ℤ) (n : ℕ) → Lights percent n (with_lightning percent (pos n))
unfolding with_lightning
with_lightning_lem percent n = elim (Bool-cases (ltb_ℤ (pos 100) percent)) [
  | inr low ↦
      let most : max_ℤ percent (pos 100) ≡ pos 100 = at_most percent low in
      rw low (rw most (hundred n), inl (grind arith))
  | inl high ↦
      let most : max_ℤ percent (pos 100) ≡ percent = above percent high in
      let (past, fits) = past_max percent n (grind arith) in
      elim (Bool-cases (ltb_ℤ (int64_max /ℤ percent) (pos n))) [
        | inl over ↦ rw (high, over) (grind arith, past over)
        | inr under ↦ rw (high, under) (rw most refl, inr (fits under))
      ]
]
  where
    at_most : (z : ℤ) → ltb_ℤ (pos 100) z ≡ false → max_ℤ z (pos 100) ≡ pos 100
    at_most z h = unfold max_ℤ in grind int_laws

    above : (z : ℤ) → ltb_ℤ (pos 100) z ≡ true → max_ℤ z (pos 100) ≡ z
    above z h = unfold max_ℤ in grind int_laws

-- A hundred percent of a number that is not negative is the number.
percent_of-hundred : (z : ℤ) → pos 0 ≤ℤ z → percent_of z (pos 100) ≡ z
unfolding percent_of ◌/ℤ◌ ◌%ℤ◌
percent_of-hundred (negsuc n) h = absurd (omega arith)
percent_of-hundred (pos n) h =
    rw (times_pos (n / 100) 100, times_pos (n % 100) 100) (grind int_laws)

product_natural : (a b : ℤ) → pos 0 ≤ℤ a → pos 0 ≤ℤ b → pos 0 ≤ℤ a *ℤ b /ℤ pos 100
unfolding ◌/ℤ◌
product_natural (negsuc a) b h k = absurd (omega arith)
product_natural (pos a) (negsuc b) h k = absurd (omega arith)
product_natural (pos a) (pos b) h k = rw (times_pos a b) (omega arith)

worth_natural : (hold : Holder) (now : ℤ) → pos 0 ≤ℤ worth hold now
worth_natural hold now =
    product_natural (seconds_held hold now) (max_ℤ hold.lightning_percent (pos 100))
      (max_ℤ-le (now -ℤ max_ℤ hold.since hold.counted_from) (pos 0)).1
      (grind (arith, max_ℤ-le hold.lightning_percent (pos 100)))

-- Whether the worth of a hold fits 64 bits: the product with the lightning has to.
abbrev pub Valued : Holder → ℤ → Option Settlement → Type 0
Valued hold now none =
    (pos 100 <ℤ hold.lightning_percent)
    × (int64_max <ℤ seconds_held hold now *ℤ hold.lightning_percent)
Valued hold now (some v) =
    (v.earned ≡ worth hold now)
    × ((hold.lightning_percent ≤ℤ pos 100)
        ⊎ (seconds_held hold now *ℤ hold.lightning_percent ≤ℤ int64_max))

hold_value_lem :
    (state : ConquisterState) (hold : Holder) (now : ℤ) (sky : Sky)
    → Valued hold now (hold_value state hold now sky)
unfolding hold_value day_percent
hold_value_lem state hold now sky =
    let (n, natural) = seconds_held-natural hold now in
    subst (λ z. Valued hold now (valued_as (with_lightning hold.lightning_percent z)))
      (sym (held_seconds_lem hold now ∙ natural))
      (valued n natural (with_lightning hold.lightning_percent (pos n))
        (with_lightning_lem hold.lightning_percent n))
  where
    valued_as : Option (ℤ × ℤ) → Option Settlement
    valued_as lit = elim lit [
      | none ↦ none
      | some (lightning, earned) ↦ some (record {
        earned = percent_of earned (day_percent (display_name state hold.username) now sky);
        lightning = lightning;
        zodiac_percent = day_percent (display_name state hold.username) now sky;
      })
    ]

    valued :
        (n : ℕ)
        → seconds_held hold now ≡ pos n
        → (lit : Option (ℤ × ℤ)) → Lights hold.lightning_percent n lit
        → Valued hold now (valued_as lit)
    valued n natural none (high, past) =
        (high, subst (λ z. int64_max <ℤ z *ℤ hold.lightning_percent) (sym natural) past)
    valued n natural (some (lightning, earned)) (same, fits) =
        let earned_worth : earned ≡ worth hold now =
          same ∙ ap (λ z. z *ℤ max_ℤ hold.lightning_percent (pos 100) /ℤ pos 100) (sym natural) in
        (
          ap (λ z. percent_of z (pos 100)) earned_worth
              ∙ percent_of-hundred (worth hold now) (worth_natural hold now),
          elim fits [
            | inl low ↦ inl low
            | inr fitting ↦
                inr (subst (λ z. z *ℤ hold.lightning_percent ≤ℤ int64_max) (sym natural) fitting)
          ],
        )

-- What settling comes to: nothing, just when the product with the lightning does not fit, or a score above
-- zero would pass the largest number; else the worth and what was put aside go to the holder's score, and
-- to nobody else's, and nothing else changes.
abbrev pub Settles : ConquisterState → Holder → ℤ → Option (Settlement × ConquisterState) → Type 0
Settles state hold now none =
    ((pos 100 <ℤ hold.lightning_percent)
      × (int64_max <ℤ seconds_held hold now *ℤ hold.lightning_percent))
    ⊎ ((pos 0 <ℤ counter state.scores hold.username)
        × (int64_max <ℤ counter state.scores hold.username +ℤ (worth hold now +ℤ hold.banked)))
Settles state hold now (some (s, state')) =
    (s.earned ≡ worth hold now +ℤ hold.banked)
    × (state' ≡ record state {
      scores = insert hold.username (counter state.scores hold.username +ℤ s.earned) state.scores;
    })
    × ((hold.lightning_percent ≤ℤ pos 100)
        ⊎ (seconds_held hold now *ℤ hold.lightning_percent ≤ℤ int64_max))
    × ((counter state.scores hold.username ≤ℤ pos 0)
        ⊎ (counter state.scores hold.username +ℤ s.earned ≤ℤ int64_max))

pay_hold-Settles :
    (state : ConquisterState) (hold : Holder) (now : ℤ) (v : Settlement)
    → Valued hold now (some v)
    → Settles state hold now (pay_hold state hold v)
unfolding pay_hold
pay_hold-Settles state hold now v (earned, fits) =
    let score = counter state.scores hold.username in
    let paid = v.earned +ℤ hold.banked in
    elim (Bool-cases (ltb_ℤ (pos 0) score && ltb_ℤ (int64_max -ℤ score) paid)) [
      | inl over ↦ rw over (inr (grind int_laws, grind (int_laws, earned)))
      | inr under ↦ rw under (ap (λ z. z +ℤ hold.banked) earned, refl, fits, grind int_laws)
    ]

-- A hold is paid in full, its seconds times the lightning and what was put aside, on top of the holder's
-- score; when the product does not fit 64 bits, or a score above zero would pass the largest number, the
-- call throws instead, and only then.
pub settle_hold_pays :
    (state : ConquisterState) (hold : Holder) (now : ℤ) (sky : Sky)
    → Settles state hold now (settle_hold state hold now sky)
unfolding settle_hold
settle_hold_pays state hold now sky =
    settled (hold_value state hold now sky) (hold_value_lem state hold now sky)
  where
    settled :
        (value : Option Settlement)
        → Valued hold now value
        → Settles state hold now (elim value [ none ↦ none | some v ↦ pay_hold state hold v ])
    settled none (high, past) = inl (high, past)
    settled (some v) valued = pay_hold-Settles state hold now v valued
