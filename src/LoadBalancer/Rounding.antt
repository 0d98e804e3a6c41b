-- ===== src/LoadBalancer/Rounding.antt =====
-- The weighted mean of Heartbeat (load_balancer/services/balancing_services.go) on numbers that are not negative.
use sdcc_project.Base.{ℕ, suc, ◌+◌, ◌-◌, ◌*◌, ◌^◌, ◌≤◌, ◌<◌, ◌≡◌, arith, sym, ap, ◌∙◌}
use sdcc_project.Base.Float.{round_ℕ}
use sdcc_project.Base.Float.Bounds.{round_ℕ_bound, near_mul, near_add, near_round}
use native.Mathlib.Nat.{mul-add, suc-mul, mul-le-mul_left, mul-le-mul_right}

-- The numerator of the mean over `d`, with the weight share / d.
abbrev pub rounded : ℕ → ℕ → ℕ → ℕ → ℕ
rounded d share a b =
    round_ℕ (round_ℕ (round_ℕ a * round_ℕ (d - share)) + round_ℕ (round_ℕ b * share))

exact_mean : (d share a b k : ℕ) → share ≤ d → a ≤ k → b ≤ k → a * (d - share) + b * share ≤ k * d
exact_mean d share a b k s p q =
    let parts : k * (d - share) + k * share ≡ k * d =
      sym (mul-add k (d - share) share) ∙ ap (λ z. k * z) (omega arith) in
    omega (arith, mul-le-mul_right (d - share) p, mul-le-mul_right share q, parts)

near_mean :
    (d share a b : ℕ)
    → (2 ^ 53) ^ 4 * rounded d share a b ≤ (2 ^ 53 + 1) ^ 4 * (a * (d - share) + b * share)
near_mean d share a b =
    let m : ℕ = 2 ^ 53 in
    let c : ℕ = 2 ^ 53 + 1 in
    let rest = d - share in
    let current =
      near_round (m * m) (c * c) (round_ℕ a * round_ℕ rest) (a * rest) (
        near_mul m c (round_ℕ a) a (round_ℕ_bound a) m c (round_ℕ rest) rest
          (round_ℕ_bound rest)) in
    let received =
      near_round (m * m) (c * c) (round_ℕ b * share) (b * share)
        (near_mul m c (round_ℕ b) b (round_ℕ_bound b) m c share share (omega arith)) in
    let x = round_ℕ (round_ℕ a * round_ℕ rest) in
    let y = round_ℕ (round_ℕ b * share) in
    near_round (m * (m * m)) (c * (c * c)) (x + y) (a * rest + b * share)
      (near_add (m * (m * m)) (c * (c * c)) x (a * rest) current y (b * share) received)

pub rounded_bound :
    (d share a b k : ℕ)
    → 0 < d
    → share ≤ d
    → a ≤ k
    → b ≤ k
    → k < 2 ^ 50
    → rounded d share a b < suc k * d
rounded_bound d share a b k h s p q lt = omega (
  arith,
  near_mean d share a b,
  mul-le-mul_left ((2 ^ 53 + 1) ^ 4) (exact_mean d share a b k s p q),
  mul-le-mul_right {m = k} {n = 2 ^ 50} d (omega arith),
  suc-mul k d,
)
