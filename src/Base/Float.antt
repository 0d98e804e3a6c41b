-- ===== src/Base/Float.antt =====
-- Go's float64 as far as it is used: a number is a numerator over a power of two, and an operation rounds the numerator
-- of the exact result to 53 bits, to nearest and to even. Infinities and subnormal numbers are not reached.
pub mod Bounds
use sdcc_project.Base.Tests.{ltb, leb, ◌==◌, if◌then◌else◌}
use sdcc_project.Base.Int.{ℤ, pos, negsuc, pos_part, neg_part, sub_ℕ}
use Prim.Native.Nat.{ℕ, zero, suc, ◌+◌, ◌-◌, ◌*◌, ◌/◌, ◌%◌, ◌^◌}
use mathlib.Core.Bool.{Bool, true, false, ◌||◌, ◌&&◌, not}

-- The multiple of `w` that is nearest, and of two equally near ones the even multiple.
abbrev pub goes_up : ℕ → ℕ → Bool
goes_up w n = ltb w (2 * (n % w)) || (2 * (n % w) == w && (n / w % 2 == 1))

abbrev pub nearest : ℕ → ℕ → ℕ
nearest w n = if goes_up w n then n - n % w + w else n - n % w

-- The weight of the last of 53 bits is doubled until the number fits.
unfoldable pub round_from : ℕ → ℕ → ℕ → ℕ
round_from zero w n = n
round_from (suc fuel) w n = elim (ltb n (2 ^ 53 * w)) [
  | true ↦ nearest w n
  | false ↦ round_from fuel (2 * w) n
]

unfoldable pub round_ℕ : ℕ → ℕ
unfolding round_from
round_ℕ n = round_from (suc n) 1 n

unfoldable pub round_ℤ : ℤ → ℤ
unfolding round_ℕ
round_ℤ (pos n) = pos (round_ℕ n)
round_ℤ (negsuc n) = sub_ℕ 0 (round_ℕ (suc n))

infixl 70 ◌*ℤ◌
unfoldable pub ◌*ℤ◌ : ℤ → ℤ → ℤ
a *ℤ b =
    sub_ℕ (pos_part a * pos_part b + neg_part a * neg_part b)
      (pos_part a * neg_part b + neg_part a * pos_part b)

-- `int(x)` of a quotient drops the fraction. Out of range it is what the conversion gives on amd64.
unfoldable pub truncate : ℤ → ℕ → ℤ
truncate (pos n) d = if ltb (n / d) (2 ^ 63) then pos (n / d) else negsuc (2 ^ 63 - 1)
truncate (negsuc n) d =
    if leb (suc n / d) (2 ^ 63) then sub_ℕ 0 (suc n / d) else negsuc (2 ^ 63 - 1)
