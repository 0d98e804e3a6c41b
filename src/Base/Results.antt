-- ===== src/Base/Results.antt =====
-- How a Go call ends: with a result, with an error value, with a run-time panic, or never, because
-- it waits for a mutex that its own goroutine holds.
use mathlib.Core.Path.{◌≡◌, refl}

pub data Outcome {ℓ κ} (E : Type κ) (A : Type ℓ) : Type (ℓ ⊔ κ) where
  ok : A → Outcome E A
  err : E → Outcome E A
  panic : Outcome E A
  deadlock : Outcome E A

infixl 5 ◌>>=◌
abbrev pub ◌>>=◌ {ℓ κ μ} :
    {E : Type κ} {A : Type ℓ} {B : Type μ} → Outcome E A → (A → Outcome E B) → Outcome E B
ok a >>= f = f a
err e >>= f = err e
panic >>= f = panic
deadlock >>= f = deadlock

-- A call that ends well goes through a first part that ends well.
module _ {ℓ κ μ} {E : Type κ} {A : Type ℓ} {B : Type μ} (next : A → Outcome E B) (r : B) where
  pub ok_inverts :
      (first : Outcome E A) → (first >>= next) ≡ ok r → (x : A) × (first ≡ ok x) × (next x ≡ ok r)
  ok_inverts panic e = cc
  ok_inverts deadlock e = cc
  ok_inverts (err x) e = cc
  ok_inverts (ok x) e = (x, refl, e)

pub ok-injective {ℓ κ} :
    {E : Type κ} {A : Type ℓ} {a b : A} → ◌≡◌ {A = Outcome E A} (ok a) (ok b) → a ≡ b
ok-injective e = cc
