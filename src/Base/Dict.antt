-- ===== src/Base/Dict.antt =====
-- A Go map as an association list; the list's order is the order in which `range` meets the
-- entries, so a statement about every list is one about every order.
use mathlib.Core.Path.{◌≡◌, refl, subst, sym}
use mathlib.Core.Logic.{ite, if_pos, if_neg, inl, inr}
use mathlib.Core.Option.{Option, none, some}
use mathlib.Core.Bool.{Bool, true, false}
use mathlib.Core.List.{List, [], ◌∷◌, map}
unfoldable pub use mathlib.Core.List.{lookup}
use native.Mathlib.Omega.{arith}
use sdcc_project.Base.Lists.{All, All-mono, In}

abbrev pub is_some {ℓ} : {A : Type ℓ} → Option A → Bool
is_some none = false
is_some (some a) = true

module _ {ℓ} {K V : Type ℓ} (dec : Discrete K) where
  -- `m[k] = v`
  unfoldable pub insert : K → V → List (K × V) → List (K × V)
  insert k v [] = (k, v) ∷ []
  insert k v ((j, w) ∷ m) = ite (dec j k) ((k, v) ∷ m) ((j, w) ∷ insert k v m)

  -- `delete(m, k)`
  unfoldable pub erase : K → List (K × V) → List (K × V)
  erase k [] = []
  erase k ((j, w) ∷ m) = ite (dec j k) (erase k m) ((j, w) ∷ erase k m)

  abbrev pub has_key : K → List (K × V) → Bool
  has_key k m = is_some (lookup dec k m)

  -- No key stands twice.
  abbrev pub Unique : List (K × V) → Type ℓ
  Unique [] = Unit
  Unique ((k, v) ∷ m) = (lookup dec k m ≡ none) × Unique m

  pub lookup-insert :
      (k j : K) (v : V) (m : List (K × V))
      → lookup dec j (insert k v m) ≡ ite (dec k j) (some v) (lookup dec j m)
  unfolding lookup insert
  lookup-insert k j v [] = ground arith
  lookup-insert k j v ((i, w) ∷ m) = ground (arith, lookup-insert k j v m)

  pub lookup-erase :
      (k j : K) (m : List (K × V)) → lookup dec j (erase k m) ≡ ite (dec k j) none (lookup dec j m)
  unfolding lookup erase
  lookup-erase k j [] = ground arith
  lookup-erase k j ((i, w) ∷ m) = ground (arith, lookup-erase k j m)

  pub insert-Unique : (k : K) (v : V) (m : List (K × V)) → Unique m → Unique (insert k v m)
  unfolding insert lookup
  insert-Unique k v [] u = (refl, tt)
  insert-Unique k v ((j, w) ∷ m) u = elim (dec j k) [
    | yes p ↦ rw (if_pos _ p) (ground arith)
    | no p ↦ rw (if_neg _ p) (ground (arith, lookup-insert k j v m), insert-Unique k v m u.1)
  ]

  pub erase-Unique : (k : K) (m : List (K × V)) → Unique m → Unique (erase k m)
  unfolding erase
  erase-Unique k [] u = tt
  erase-Unique k ((j, w) ∷ m) u = elim (dec j k) [
    | yes p ↦ rw (if_pos _ p) (erase-Unique k m u.1)
    | no p ↦ rw (if_neg _ p) (ground (arith, lookup-erase k j m), erase-Unique k m u.1)
  ]

module _ {ℓ κ} {K V : Type ℓ} (dec : Discrete K) (P : K × V → Type κ) where
  pub All-insert :
      (k : K) (v : V) (m : List (K × V)) → P (k, v) → All P m → All P (insert dec k v m)
  unfolding insert
  All-insert k v [] p h = (p, tt)
  All-insert k v ((j, w) ∷ m) p h = elim (dec j k) [
    | yes e ↦ rw (if_pos _ e) (p, h.1)
    | no e ↦ rw (if_neg _ e) (h.0, All-insert k v m p h.1)
  ]

  pub All-erase : (k : K) (m : List (K × V)) → All P m → All P (erase dec k m)
  unfolding erase
  All-erase k [] h = tt
  All-erase k ((j, w) ∷ m) h = elim (dec j k) [
    | yes e ↦ rw (if_pos _ e) (All-erase k m h.1)
    | no e ↦ rw (if_neg _ e) (h.0, All-erase k m h.1)
  ]

  pub All-lookup : (k : K) {v : V} (m : List (K × V)) → All P m → lookup dec k m ≡ some v → P (k, v)
  unfolding lookup
  All-lookup k [] h e = absurd (ground arith)
  All-lookup k {v} ((j, w) ∷ m) h e = elim (dec k j) [
    | yes p ↦ subst P {x = (j, w)} {y = (k, v)} (ground arith) h.0
    | no p ↦ All-lookup k m h.1 (ground arith)
  ]

module _ {ℓ} {K V : Type ℓ} (dec : Discrete K) where
  lookup_below :
      (k : K) (v : V) (m : List (K × V)) (e : K × V)
      → lookup dec k m ≡ none
      → lookup dec e.0 m ≡ some e.1
      → lookup dec e.0 ((k, v) ∷ m) ≡ some e.1
  unfolding lookup
  lookup_below k v m e h p = elim (dec e.0 k) [
    | yes q ↦ absurd (ground arith)
    | no q ↦ ground arith
  ]

  -- What `range` meets is what the map holds.
  pub Unique-All-lookup :
      (m : List (K × V)) → Unique dec m → All (λ e. lookup dec e.0 m ≡ some e.1) m
  unfolding lookup
  Unique-All-lookup [] u = tt
  Unique-All-lookup ((k, v) ∷ m) u = (
    ground arith,
    All-mono (λ e. lookup dec e.0 m ≡ some e.1) (λ e. lookup dec e.0 ((k, v) ∷ m) ≡ some e.1) m
        (λ e h. lookup_below k v m e u.0 h) (Unique-All-lookup m u.1),
  )

module _ {K V : Type 0} (dec : Discrete K) where
  abbrev keys : List (K × V) → List K
  keys = map (λ e. e.0)

  pub In-has_key : (k : K) (m : List (K × V)) → In k (keys m) → has_key dec k m ≡ true
  unfolding lookup
  In-has_key k [] h = absurd h
  In-has_key k ((j, v) ∷ m) (inl e) = rw (if_pos (dec k j) e) refl
  In-has_key k ((j, v) ∷ m) (inr h) = elim (dec k j) [
    | yes e ↦ rw (if_pos (dec k j) e) refl
    | no n ↦ rw (if_neg (dec k j) n) (In-has_key k m h)
  ]

  pub has_key-In : (k : K) (m : List (K × V)) → has_key dec k m ≡ true → In k (keys m)
  unfolding lookup
  has_key-In k [] h = ground arith
  has_key-In k ((j, v) ∷ m) h = elim (dec k j) [
    | yes e ↦ inl e
    | no n ↦ inr (has_key-In k m (ground arith))
  ]

  -- A property of the keys that `range` meets holds of every key of the map.
  pub All-has_key :
      (P : K → Type 0) (k : K) (m : List (K × V))
      → All (λ e. P e.0) m
      → has_key dec k m ≡ true
      → P k
  unfolding lookup
  All-has_key P k [] h e = absurd (ground arith)
  All-has_key P k ((j, v) ∷ m) h e = elim (dec k j) [
    | yes p ↦ subst P (sym p) h.0
    | no n ↦ All-has_key P k m h.1 (ground arith)
  ]

  has_key_below :
      (k j : K) (v : V) (m : List (K × V))
      → has_key dec k m ≡ true
      → has_key dec k ((j, v) ∷ m) ≡ true
  unfolding lookup
  has_key_below k j v m h = ground arith

  has_key_head : (j : K) (v : V) (m : List (K × V)) → has_key dec j ((j, v) ∷ m) ≡ true
  unfolding lookup
  has_key_head j v m = ground arith

  pub keys_of_map : (m : List (K × V)) → All (λ e. has_key dec e.0 m ≡ true) m
  keys_of_map [] = tt
  keys_of_map ((j, v) ∷ m) = (
    has_key_head j v m,
    All-mono (λ e. has_key dec e.0 m ≡ true) (λ e. has_key dec e.0 ((j, v) ∷ m) ≡ true) m
        (λ e h. has_key_below e.0 j v m h) (keys_of_map m),
  )
