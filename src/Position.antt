-- ===== src/Position.antt =====
-- src/position.hpp and src/position.cpp: where a player lives, how far apart two are and how long
-- the ride takes. `std::hypot` and `std::llround` on whole coordinates give the root of the sum of
-- the squares, rounded to the nearest: no such root lies half way between two whole numbers, and
-- below 2 * 10^10 a double tells it from the half.
pub mod Metric
use norelecbot.Base.{if◌then◌else◌, ltb, suc, zero, ℕ, ◌*◌, ◌+◌, ◌/◌}
use norelecbot.Base.Int.{leb_ℤ, max_ℤ, neg_part, pos, pos_part, ℤ, ◌%ℤ◌, ◌+ℤ◌, ◌-ℤ◌, ◌/ℤ◌}
use norelecbot.Identity.{id_count}

abbrev pub plane_side : ℕ
plane_side = 100000

abbrev pub shortest_travel : ℤ
shortest_travel = pos 5

pub record Point : Type 0 where
  pub x : ℤ
  pub y : ℤ

unfoldable pub coordinates_of : ℤ → Point
coordinates_of id =
    let place = (id %ℤ pos id_count +ℤ pos id_count) %ℤ pos id_count in
    record { x = place %ℤ pos plane_side; y = place /ℤ pos plane_side }

-- The root from below, two binary digits of the argument at a time; exact below 4 ^ fuel.
unfoldable pub root : ℕ → ℕ → ℕ
root zero n = 0
root (suc f) n = let r = 2 * root f (n / 4) in if ltb n ((r + 1) * (r + 1)) then r else r + 1

-- The nearest whole number to the root.
unfoldable pub round_root : ℕ → ℕ
round_root n = let r = root 64 n in if ltb (r * r + r) n then r + 1 else r

abbrev pub magnitude : ℤ → ℕ
magnitude z = pos_part z + neg_part z

unfoldable pub distance : Point → Point → ℤ
distance a b =
    let width = magnitude (a.x -ℤ b.x) in
    let height = magnitude (a.y -ℤ b.y) in pos (round_root (width * width + height * height))

unfoldable pub travel_seconds : ℤ → ℤ → ℤ
unfolding max_ℤ
travel_seconds d divisor =
    if leb_ℤ divisor (pos 0) then shortest_travel else max_ℤ shortest_travel (d /ℤ divisor)
