-- ===== src/Sentinel/Timing.antt =====
-- src/sentinel.cpp: medians, reactions and the longest time at it, from the times an account acted.
use norelecbot.Base.{
  List, Option, [], erase_if, find_if, get_or, if◌then◌else◌, length, map, none, some, ◌/◌, ◌||◌,
  ◌∷◌,
}
use norelecbot.Base.Int.{eqb_ℤ, leb_ℤ, max_ℤ, pos, ℤ, ◌-ℤ◌}
use norelecbot.Sentinel.{Act, Watched}

-- `std::ranges::sort` on times: equal ones cannot be told apart.
unfoldable pub sort_in : ℤ → List ℤ → List ℤ
sort_in t [] = t ∷ []
sort_in t (u ∷ times) =
    let later = sort_in t times in if leb_ℤ t u then t ∷ u ∷ times else u ∷ later

unfoldable pub sort_times : List ℤ → List ℤ
unfolding sort_in
sort_times [] = []
sort_times (t ∷ times) = sort_in t (sort_times times)

unfoldable pub median : List ℤ → ℤ
unfolding sort_times
median values = get_or (sort_times values) (length values / 2) (pos 0)

unfoldable pub starts_of : Watched → List ℤ
unfolding erase_if
starts_of p = map (λ act. act.at) (erase_if (λ act. eqb_ℤ act.kind (pos 2)) p.acts)

-- `lower_bound` on the times of the rides, which stand in order: the first that is not before.
unfoldable pub first_from : ℤ → List ℤ → Option ℤ
unfolding find_if
first_from t starts = find_if (λ start. leb_ℤ t start) starts

unfoldable pub reactions : List ℤ → List ℤ → List ℤ
unfolding first_from
reactions [] starts = []
reactions (back ∷ backs) starts =
    let rest = reactions backs starts in
    elim (first_from back starts) [
      | none ↦ rest
      | some next ↦ if leb_ℤ (next -ℤ back) (pos 1800) then (next -ℤ back) ∷ rest else rest
    ]

-- The loop of `longest_sitting`: the longest so far, where this one began, and the last act.
unfoldable pub sitting_from : ℤ → ℤ → ℤ → List Act → ℤ
unfolding max_ℤ
sitting_from longest since last [] = longest
sitting_from longest since last (act ∷ acts) =
    let since' = if eqb_ℤ last (pos 0) || leb_ℤ (pos 900) (act.at -ℤ last) then act.at else since in
    sitting_from (max_ℤ longest (act.at -ℤ since')) since' act.at acts

unfoldable pub longest_sitting : Watched → ℤ
unfolding sitting_from
longest_sitting p = sitting_from (pos 0) (pos 0) (pos 0) p.acts
