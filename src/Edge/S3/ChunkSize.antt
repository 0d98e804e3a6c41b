-- ===== src/Edge/S3/ChunkSize.antt =====
-- The size of the parts of a transfer with S3: `getS3ChunkSize` (edge/s3_boundary/s3_interface.go).
use sdcc_project.Base.{
  ℕ, ◌*◌, ◌<◌, ◌≡◌, sym, subst, true, false, ltb, dec_lt, Bool-cases, ok, ok_inverts, ok-injective,
  ◌⊎◌, inl, inr, arith, if◌then◌else◌,
}
use sdcc_project.Base.Int.{
  ℤ, pos, negsuc, ltb_ℤ, wrap64, wrap64-IsInt64, wrap64_of_IsInt64, IsInt64, ◌≤ℤ◌,
}
use sdcc_project.Edge.S3.Interface.{get_s3_chunk_size, in_mb}
use sdcc_project.Edge.Utils.Config.{Config}
use sdcc_project.Edge.Utils.Text.{Text}
use sdcc_project.Edge.Utils.Numbers.{get_int64_environment_variable, variable-IsInt64}

abbrev of_variable : ℤ → ℤ
of_variable variable = if ltb_ℤ variable (pos 5) then pos 5242880 else wrap64 (in_mb variable)

abbrev pub Sized : ℤ → ℤ → Type 0
Sized variable size = IsInt64 size × ((pos 5242880 ≤ℤ size) ⊎ (pos 8796093022208 ≤ℤ variable))

in_range : (n : ℕ) → n < 8796093022208 → IsInt64 (pos (n * 1048576))
in_range n h = record { above = omega arith; below = omega arith }

of_large : (n : ℕ) → (ltb n 5 ≡ false) → Sized (pos n) (wrap64 (in_mb (pos n)))
of_large n h = elim (dec_lt n 8796093022208) [
  | yes small ↦ (
    wrap64-IsInt64 (in_mb (pos n)),
    inl (
        subst (λ a. pos 5242880 ≤ℤ a)
          (sym (wrap64_of_IsInt64 (pos (n * 1048576)) (in_range n small))) (ground arith)),
  )
  | no large ↦ (wrap64-IsInt64 (in_mb (pos n)), inr (omega arith))
]

five_mb : IsInt64 (pos 5242880)
five_mb = record { above = omega arith; below = omega arith }

of_variable-Sized : (variable : ℤ) → Sized variable (of_variable variable)
of_variable-Sized (pos n) = elim (Bool-cases (ltb_ℤ (pos n) (pos 5))) [
  | inl small ↦ rw small (five_mb, inl (omega arith))
  | inr large ↦ rw large (of_large n (ground arith))
]
of_variable-Sized (negsuc n) =
    let small : ltb_ℤ (negsuc n) (pos 5) ≡ true = ground arith in
    rw small (five_mb, inl (omega arith))

-- If getS3ChunkSize returns, the variable is a 64-bit number and the size is one too, and it is at least 5 MiB unless the
-- variable is 2 ^ 43 or more.
pub get_s3_chunk_size_bounds :
    (name : Text) (env : Config) (size : ℤ)
    → get_s3_chunk_size name env ≡ ok size
    → (variable : ℤ) × (get_int64_environment_variable name env ≡ ok variable)
      × IsInt64 variable
      × Sized variable size
unfolding get_s3_chunk_size
get_s3_chunk_size_bounds name env size h =
    let (variable, read, e) =
      ok_inverts (λ v. ok (of_variable v)) size (get_int64_environment_variable name env) h in
    (
      variable,
      read,
      variable-IsInt64 name env variable read,
      subst (Sized variable) (ok-injective e) (of_variable-Sized variable),
    )
