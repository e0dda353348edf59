-- ===== src/Position/Metric.antt =====
-- About the plane and the distances on it.
use native.Mathlib.Nat.{pow-suc}
use norelecbot.Base.{
  Bool-cases, ap, arith, if◌then◌else◌, inl, inr, ltb, ltb→lt, refl, subst, suc, zero, ℕ, ◌%◌, ◌*◌,
  ◌+◌, ◌-◌, ◌/◌, ◌<◌, ◌^◌, ◌↔◌, ◌≡◌, ◌≤◌,
}
use norelecbot.Base.Int.{pos, ◌%ℤ◌, ◌+ℤ◌, ◌-ℤ◌, ◌/ℤ◌}
use norelecbot.Identity.{id_count}
use norelecbot.Position.{coordinates_of, distance, magnitude, plane_side, root, round_root}

-- One more digit of the root keeps it the root from below.
root_step :
    (n r : ℕ)
    → r * r ≤ n / 4
    → n / 4 < (r + 1) * (r + 1)
    → let r' = if ltb n ((2 * r + 1) * (2 * r + 1)) then 2 * r else 2 * r + 1 in
      (r' * r' ≤ n) × (n < (r' + 1) * (r' + 1))
root_step n r lo hi = elim (Bool-cases (ltb n ((2 * r + 1) * (2 * r + 1)))) [
  | inl e ↦ rw e (omega arith, omega (arith, ltb→lt n ((2 * r + 1) * (2 * r + 1)) e))
  | inr e ↦ rw e (ground arith, omega arith)
]

-- The root from below, for every number that the fuel covers.
pub root_bounds :
    (f n : ℕ) → n < 4 ^ f → (root f n * root f n ≤ n) × (n < (root f n + 1) * (root f n + 1))
unfolding root
root_bounds zero n h = omega arith
root_bounds (suc f) n h =
    let below : n / 4 < 4 ^ f = omega (arith, pow-suc 4 f) in
    let (lo, hi) = root_bounds f (n / 4) below in root_step n (root f (n / 4)) lo hi

coordinates_plane :
    (n : ℕ)
    → n < id_count
    → let p = coordinates_of (pos n) in (p.x ≡ pos (n % plane_side)) × (p.y ≡ pos (n / plane_side))
unfolding coordinates_of ◌%ℤ◌ ◌/ℤ◌ ◌+ℤ◌
coordinates_plane n h = (ground arith, ground arith)

-- The whole number nearest to the root: twice the root lies between 2 q - 1 and 2 q + 1.
abbrev pub IsNearestRoot : ℕ → ℕ → Type 0
IsNearestRoot n q = ((2 * q - 1) * (2 * q - 1) ≤ 4 * n) × (4 * n ≤ (2 * q + 1) * (2 * q + 1))

odd_square : (r : ℕ) → (2 * r - 1) * (2 * r - 1) ≤ 4 * (r * r)
odd_square zero = omega arith
odd_square (suc r) = let e : 2 * suc r - 1 ≡ 2 * r + 1 = omega arith in rw e (omega arith)

round_root-nearest : (n : ℕ) → n < 4 ^ 64 → IsNearestRoot n (round_root n)
unfolding round_root
round_root-nearest n h =
    let r = root 64 n in
    let (lo, hi) = root_bounds 64 n h in
    elim (Bool-cases (ltb (r * r + r) n)) [
      | inl e ↦
          let odd : 2 * (r + 1) - 1 ≡ 2 * r + 1 = omega arith in
          rw (e, odd) (omega (arith, ltb→lt (r * r + r) n e))
      | inr e ↦ rw e (omega (arith, odd_square r), ground arith)
    ]

gap : ℕ → ℕ → ℕ
gap a b = magnitude (pos a -ℤ pos b)

gap_lem :
    (a b : ℕ)
    → a < plane_side
    → b < plane_side
    → (gap a b < plane_side) × (gap a b ≡ gap b a) × (gap a b ≡ 0 → a ≡ b) × (a ≡ b → gap a b ≡ 0)
unfolding gap ◌-ℤ◌
gap_lem a b h k = (ground arith, ground arith, λ e. ground arith, λ e. ground arith)

square_lt : (w : ℕ) → w < plane_side → w * w < plane_side * plane_side
square_lt w h = grind arith

zero_of_nearest : (n q : ℕ) → IsNearestRoot n q → ((q ≡ 0 → n ≡ 0) × (n ≡ 0 → q ≡ 0))
zero_of_nearest n zero (lo, hi) = (λ e. omega arith, λ e. refl)
zero_of_nearest n (suc q) (lo, hi) =
    let odd : 2 * suc q - 1 ≡ 2 * q + 1 = omega arith in
    let large : (2 * q + 1) * (2 * q + 1) ≤ 4 * n = subst (λ m. m * m ≤ 4 * n) odd lo in
    (λ e. absurd (omega arith), λ e. absurd (omega arith))

square_sum : {a b c d : ℕ} → a ≡ b → c ≡ d → a * a + c * c ≡ b * b + d * d
square_sum e f = rw (e, f) refl

zero_squares : (a b : ℕ) → a * a + b * b ≡ 0 → (a ≡ 0) × (b ≡ 0)
zero_squares zero zero e = (refl, refl)
zero_squares zero (suc b) e = absurd (omega arith)
zero_squares (suc a) b e = absurd (omega arith)

-- The distance between the homes of two identities, both below their number, is the whole number
-- nearest to the root of the sum of the squares, the same both ways, and zero only when they are one.
pub distance_nearest :
    (i j : ℕ)
    → i < id_count
    → j < id_count
    → let a = coordinates_of (pos i) in
      let b = coordinates_of (pos j) in
      let width = magnitude (a.x -ℤ b.x) in
      let height = magnitude (a.y -ℤ b.y) in
      (distance a b ≡ distance b a)
      × (q : ℕ) × (distance a b ≡ pos q)
      × IsNearestRoot (width * width + height * height) q
      × ((q ≡ 0) ↔ (i ≡ j))
unfolding distance gap
distance_nearest i j h k =
    let (ax, ay) = coordinates_plane i h in
    let (bx, by) = coordinates_plane j k in
    let (wide, wsym, wzero, wsame) =
      gap_lem (i % plane_side) (j % plane_side) (omega arith) (omega arith) in
    let (high, hsym, hzero, hsame) =
      gap_lem (i / plane_side) (j / plane_side) (omega arith) (omega arith) in
    let w = gap (i % plane_side) (j % plane_side) in
    let v = gap (i / plane_side) (j / plane_side) in
    let near =
      round_root-nearest (w * w + v * v) (omega (arith, square_lt w wide, square_lt v high)) in
    let q = round_root (w * w + v * v) in
    let (zero_root, root_zero) = zero_of_nearest (w * w + v * v) q near in
    rw (ax, ay, bx, by)
      (
        ap pos (ap round_root (square_sum wsym hsym)),
        q,
        refl,
        near,
        (
          λ e.
              let (w0, v0) = zero_squares w v (zero_root e) in
              let column = wzero w0 in let row = hzero v0 in omega arith,
          λ e.
              let w0 = wsame (ap (λ n. n % plane_side) e) in
              let v0 = hsame (ap (λ n. n / plane_side) e) in root_zero (rw (w0, v0) refl),
        ),
      )
