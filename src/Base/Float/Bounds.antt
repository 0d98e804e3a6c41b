-- ===== src/Base/Float/Bounds.antt =====
-- How far rounding to 53 bits goes up.
use sdcc_project.Base.Tests.{ltb, ◌==◌, Bool-cases, ltb→lt}
use sdcc_project.Base.Float.{nearest, round_from, round_ℕ}
use Prim.Native.Nat.{ℕ, zero, suc, ◌+◌, ◌*◌, ◌%◌, ◌^◌, ◌≤◌, ◌<◌}
use mathlib.Core.Path.{◌≡◌}
use mathlib.Core.Logic.{inl, inr}
use native.Mathlib.Omega.{arith}
use native.Mathlib.Nat.{mul-le-mul, mod-le, mod-one, mul-le-mul_left}

nearest_bound : (w n : ℕ) → 0 < w → n % w ≤ n → 2 * nearest w n ≤ 2 * n + w
nearest_bound w n h m = elim (Bool-cases (ltb w (2 * (n % w)))) [
  | inl a ↦ rw a (omega (arith, ltb→lt w (2 * (n % w)) a, m))
  | inr a ↦ rw a (elim (Bool-cases (2 * (n % w) == w)) [
    | inl b ↦ ground (arith, a, b, m)
    | inr b ↦ rw b (omega (arith, m))
  ])
]

nearest_one : (n : ℕ) → nearest 1 n ≡ n
nearest_one n = rw (mod-one n) (ground arith)

round_from_bound :
    (fuel w n : ℕ) → 0 < w → 2 ^ 52 * w ≤ n → 2 ^ 53 * round_from fuel w n ≤ (2 ^ 53 + 1) * n
unfolding round_from
round_from_bound zero w n h k = omega (arith)
round_from_bound (suc fuel) w n h k = elim (Bool-cases (ltb n (2 ^ 53 * w))) [
  | inl t ↦ rw (t, round_from) (omega (arith, nearest_bound w n h (mod-le n w), k))
  | inr t ↦ rw (t, round_from) (round_from_bound fuel (2 * w) n (omega arith) (grind arith))
]

pub round_ℕ_bound : (n : ℕ) → 2 ^ 53 * round_ℕ n ≤ (2 ^ 53 + 1) * n
unfolding round_ℕ
round_ℕ_bound n = elim (Bool-cases (ltb n (2 ^ 53 * 1))) [
  | inl t ↦ rw (t, round_from, nearest_one n) (omega arith)
  | inr t ↦ rw (t, round_from) (round_from_bound n 2 n (omega arith) (ground (arith, t)))
]

middle : (a b c d : ℕ) → (a * b) * (c * d) ≡ (a * c) * (b * d)
middle a b c d = grind arith

-- `x` exceeds `X` at most by the factor c / p.
module _ (p c x X : ℕ) (h : p * x ≤ c * X) where
  pub near_mul : (q d y Y : ℕ) → q * y ≤ d * Y → (p * q) * (x * y) ≤ (c * d) * (X * Y)
  near_mul q d y Y k = omega (arith, middle p x q y, middle c X d Y, mul-le-mul h k)

  pub near_add : (y Y : ℕ) → p * y ≤ c * Y → p * (x + y) ≤ c * (X + Y)
  near_add y Y k = grind arith

  pub near_round : (2 ^ 53 * p) * round_ℕ x ≤ ((2 ^ 53 + 1) * c) * X
  near_round = grind (arith, mul-le-mul_left p (round_ℕ_bound x), mul-le-mul_left (2 ^ 53 + 1) h)
