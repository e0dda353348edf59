-- ===== src/Ranking/Order.antt =====
-- About the order of the leaderboard.
use mathlib.Core.List.{Perm}
use mathlib.Core.List.Perm
use norelecbot.Base.{
  Bool-cases, [], ap, arith, false, if◌then◌else◌, inl, inr, map, refl, subst, take, true, ℕ, ◌==◌,
  ◌∷◌, ◌≡◌, ◌⊎◌,
}
use norelecbot.Base.Int.{int_laws, ℤ, ◌<ℤ◌}
use norelecbot.Ranking.{
  LeaderboardEntry, conquister_leaderboard, rank_in, ranked_entry, ranks_before, sort_scores,
  text_less,
}
use norelecbot.State.{ConquisterState}
use norelecbot.Table.{Counters}
use norelecbot.Text.{Text}

text_less_asym : (a b : Text) → text_less a b ≡ true → text_less b a ≡ false
unfolding text_less
text_less_asym [] [] h = refl
text_less_asym [] (y ∷ b) h = refl
text_less_asym (x ∷ a) [] h = absurd (ground arith)
text_less_asym (x ∷ a) (y ∷ b) h = ground (arith, text_less_asym a b)

ranks_before_asym : (x y : Text × ℤ) → ranks_before x y ≡ true → ranks_before y x ≡ false
unfolding ranks_before
ranks_before_asym (a, m) (b, n) h = ground (arith, text_less_asym a b)

-- Nobody ranks before the one who stands just before him.
abbrev pub IsRanked : Counters → Type 0
IsRanked [] = Unit
IsRanked (x ∷ []) = Unit
IsRanked (x ∷ y ∷ m) = (ranks_before y x ≡ false) × IsRanked (y ∷ m)

rank_in-IsRanked : (x : Text × ℤ) (m : Counters) → IsRanked m → IsRanked (rank_in x m)
unfolding rank_in
rank_in-IsRanked x [] h = tt
rank_in-IsRanked x (y ∷ []) h = elim (Bool-cases (ranks_before x y)) [
  | inl e ↦ rw e (ranks_before_asym x y e, tt)
  | inr e ↦ rw e (e, tt)
]
rank_in-IsRanked x (y ∷ z ∷ m) (lo, h) =
    let later = rank_in-IsRanked x (z ∷ m) h in
    elim (Bool-cases (ranks_before x y)) [
      | inl e ↦ rw e (ranks_before_asym x y e, (lo, h))
      | inr e ↦ elim (Bool-cases (ranks_before x z)) [
        | inl f ↦ rw (e, f) (e, (ranks_before_asym x z f, h))
        | inr f ↦ rw (e, f) (lo, subst IsRanked (rank_later x z m f) later)
      ]
    ]
  where
    rank_later :
        (u v : Text × ℤ) (n : Counters)
        → ranks_before u v ≡ false
        → rank_in u (v ∷ n) ≡ v ∷ rank_in u n
    rank_later u v n f = rw f refl

sort_scores-IsRanked : (m : Counters) → IsRanked (sort_scores m)
unfolding sort_scores
sort_scores-IsRanked [] = tt
sort_scores-IsRanked (x ∷ m) = rank_in-IsRanked x (sort_scores m) (sort_scores-IsRanked m)

rank_in-perm : (x : Text × ℤ) (m : Counters) → Perm (rank_in x m) (x ∷ m)
unfolding rank_in
rank_in-perm x [] = Perm.refl (x ∷ [])
rank_in-perm x (y ∷ m) = elim (Bool-cases (ranks_before x y)) [
  | inl e ↦ rw e (Perm.refl (x ∷ y ∷ m))
  | inr e ↦ rw e (Perm.trans (Perm.cons y (rank_in-perm x m)) (Perm.swap x y m))
]

sort_scores-perm : (m : Counters) → Perm (sort_scores m) m
unfolding sort_scores
sort_scores-perm [] = Perm.refl []
sort_scores-perm (x ∷ m) =
    Perm.trans (rank_in-perm x (sort_scores m)) (Perm.cons x (sort_scores-perm m))

-- From the highest score to the lowest, and by name, byte by byte, where two are equal.
abbrev pub Descends : Counters → Type 0
Descends [] = Unit
Descends (x ∷ []) = Unit
Descends (x ∷ y ∷ m) =
    ((y.1 <ℤ x.1) ⊎ ((y.1 ≡ x.1) × (text_less y.0 x.0 ≡ false))) × Descends (y ∷ m)

IsRanked-Descends : (m : Counters) → IsRanked m → Descends m
unfolding ranks_before
IsRanked-Descends [] h = tt
IsRanked-Descends (x ∷ []) h = tt
IsRanked-Descends (x ∷ y ∷ m) (first, h) = (grind int_laws, IsRanked-Descends (y ∷ m) h)

abbrev pub ranked_as : LeaderboardEntry → Text × ℤ
ranked_as e = (e.player_key, e.score)

ranked_as-map : (st : ConquisterState) (m : Counters) → map ranked_as (map (ranked_entry st) m) ≡ m
unfolding ranked_entry
ranked_as-map st [] = refl
ranked_as-map st (x ∷ m) = ap (◌∷◌ x) (ranked_as-map st m)

-- All scores, in an order from the highest to the lowest and by name where two are equal: the leaderboard
-- shows them all, or as many of the first as the limit says.
pub conquister_leaderboard-Descends :
    (st : ConquisterState) (limit : ℕ)
    → (ranked : Counters) × Perm ranked st.scores
      × Descends ranked
      × (map ranked_as (conquister_leaderboard st limit).entries
          ≡ (if limit == 0 then ranked else take limit ranked))
unfolding conquister_leaderboard
conquister_leaderboard-Descends st limit =
    let ranked = sort_scores st.scores in
    (
      ranked,
      sort_scores-perm st.scores,
      IsRanked-Descends ranked (sort_scores-IsRanked st.scores),
      ranked_as-map st (if limit == 0 then ranked else take limit ranked),
    )
