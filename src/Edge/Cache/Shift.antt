-- ===== src/Edge/Cache/Shift.antt =====
-- Lists of pointers less one entry, and what `append(list[:i], list[i+1:]...)` leaves of a slice
-- (removeFileFromQueue of edge/cache/cache.go).
use mathlib.Core.Option.{some-injective}
use sdcc_project.Base.{
  ℕ, zero, suc, ◌-◌, ◌≤◌, ◌<◌, ◌≡◌, ◌≢◌, refl, ◌∙◌, ap, sym, inl, inr, List, [], ◌∷◌, ◌++◌, some,
  length, get_elem?, take, drop, All, In, arith, length-append, subst,
}
use sdcc_project.Base.Lists.{length-take, length-drop}
use sdcc_project.Edge.Cache.{shift_out}
use sdcc_project.Edge.Cache.Valid.{Distinct}

-- The list less the entry at the index.
abbrev pub without : ℕ → List ℕ → List ℕ
without i l = take i l ++ drop (suc i) l

pub without-In : (i x : ℕ) (l : List ℕ) → In x (without i l) → In x l
without-In i x [] h = elim i as (λ j. In x (without j []) → ⊥) [ zero ↦ λ k. k | suc j ↦ λ k. k ] h
without-In zero x (y ∷ l) h = inr h
without-In (suc i) x (y ∷ l) (inl e) = inl e
without-In (suc i) x (y ∷ l) (inr h) = inr (without-In i x l h)

pub get-In : (i r : ℕ) (l : List ℕ) → get_elem? l i ≡ some r → In r l
get-In i r [] e = absurd (ground arith)
get-In zero r (y ∷ l) e = inl (sym (some-injective _ _ e))
get-In (suc i) r (y ∷ l) e = inr (get-In i r l e)

pub In-without :
    (i r x : ℕ) (l : List ℕ) → get_elem? l i ≡ some r → x ≢ r → In x l → In x (without i l)
In-without i r x [] e n h = absurd h
In-without zero r x (y ∷ l) e n (inl p) = absurd (n (p ∙ some-injective _ _ e))
In-without zero r x (y ∷ l) e n (inr h) = h
In-without (suc i) r x (y ∷ l) e n (inl p) = inl p
In-without (suc i) r x (y ∷ l) e n (inr h) = inr (In-without i r x l e n h)

pub gone-without :
    (i r x : ℕ) (l : List ℕ) → Distinct l → get_elem? l i ≡ some r → In x (without i l) → x ≢ r
gone-without i r x [] d e h p = absurd (ground arith)
gone-without zero r x (y ∷ l) d e h p = d.0 (subst (λ z. In z l) (p ∙ sym (some-injective _ _ e)) h)
gone-without (suc i) r x (y ∷ l) d e (inl q) p =
    d.0 (subst (λ z. In z l) (sym p ∙ q) (get-In i r l e))
gone-without (suc i) r x (y ∷ l) d e (inr h) p = gone-without i r x l d.1 e h p

pub Distinct-without : (i : ℕ) (l : List ℕ) → Distinct l → Distinct (without i l)
Distinct-without zero [] d = tt
Distinct-without (suc i) [] d = tt
Distinct-without zero (y ∷ l) d = d.1
Distinct-without (suc i) (y ∷ l) d = ((λ h. d.0 (without-In i y l h)), Distinct-without i l d.1)

pub In-All : (P : ℕ → Type 0) (l : List ℕ) → ((x : ℕ) → In x l → P x) → All P l
In-All P [] f = tt
In-All P (y ∷ l) f = (f y (inl refl), In-All P l (λ x h. f x (inr h)))

-- What `append(list[:i], list[i+1:]...)` leaves of the list.
pub take-front : (n : ℕ) (a r : List ℕ) → n ≤ length a → take n (take n a ++ r) ≡ take n a
take-front zero a r h = refl
take-front (suc n) [] r h = absurd (omega arith)
take-front (suc n) (y ∷ a) r h = ap (λ l. y ∷ l) (take-front n a r (omega arith))

pub shift-step :
    (i n y : ℕ) (a : List ℕ) → shift_out (suc i) (suc (suc n)) (y ∷ a) ≡ y ∷ shift_out i (suc n) a
unfolding shift_out
shift-step i n y a =
    let width : suc (suc n) - suc (suc i) ≡ suc n - suc i = omega arith in
    let last : suc (suc n) - 1 ≡ suc n = omega arith in
    let last' : suc n - 1 ≡ n = omega arith in rw (width, last, last') refl

pub shift-zero :
    (n y : ℕ) (a : List ℕ)
    → n ≤ length a
    → take (suc n - 1) (shift_out 0 (suc n) (y ∷ a)) ≡ take n a
unfolding shift_out
shift-zero n y a h =
    let last : suc n - 1 ≡ n = omega arith in rw last (take-front n a (drop n (y ∷ a)) h)

pub shift-without :
    (i n : ℕ) (a : List ℕ)
    → i < n
    → n ≤ length a
    → take (n - 1) (shift_out i n a) ≡ without i (take n a)
shift-without i zero a lt h = absurd (omega arith)
shift-without i (suc n) [] lt h = absurd (omega arith)
shift-without zero (suc n) (y ∷ a) lt h = shift-zero n y a (omega arith)
shift-without (suc i) (suc zero) (y ∷ a) lt h = absurd (omega arith)
shift-without (suc i) (suc (suc n)) (y ∷ a) lt h =
    let last : suc (suc n) - 1 ≡ suc n = omega arith in
    let last' : suc n - 1 ≡ n = omega arith in
    rw (shift-step i n y a, last)
      (ap (λ l. y ∷ l)
        (ap (λ k. take k (shift_out i (suc n) a)) (sym last')
          ∙ shift-without i (suc n) a (omega arith) (omega arith)))

pub get-length : (i r : ℕ) (l : List ℕ) → get_elem? l i ≡ some r → i < length l
get-length i r [] e = absurd (ground arith)
get-length zero r (y ∷ l) e = omega arith
get-length (suc i) r (y ∷ l) e = omega (arith, get-length i r l e)

pub shift-length : (i n : ℕ) (a : List ℕ) → i < n → n ≤ length a → n - 1 ≤ length (shift_out i n a)
unfolding shift_out
shift-length i n a lt h = omega (
  arith,
  length-append (take i a) (take (n - suc i) (drop (suc i) a) ++ drop (n - 1) a),
  length-append (take (n - suc i) (drop (suc i) a)) (drop (n - 1) a),
  length-take i a (omega arith),
  length-take (n - suc i) (drop (suc i) a) (omega (arith, length-drop (suc i) a)),
)
