-- ===== src/Edge/Utils/Text.antt =====
-- What edge/utils/utils.go uses of Go's `strings` and `bufio`, on texts as lists of code points.
use sdcc_project.Base.{
  ℕ, ◌+◌, Bool, ◌&&◌, ◌||◌, List, [], ◌∷◌, Option, none, some, ltb, leb, ◌==◌, if◌then◌else◌, ◌≡◌,
  refl, sym, ap, arith, ℕ_discrete,
}

abbrev pub Text : Type 0
Text = List ℕ

tail_of : Text → Text
tail_of [] = []
tail_of (x ∷ xs) = xs

pub cons_ne : (x : ℕ) (xs : Text) → ◌≡◌ {A = Text} [] (x ∷ xs) → ⊥
cons_ne x xs = cc

pub head_ne : (x y : ℕ) (xs ys : Text) → (x ≡ y → ⊥) → x ∷ xs ≡ y ∷ ys → ⊥
head_ne x y xs ys n e = ground (arith, n)

pub tail_ne : (x y : ℕ) (xs ys : Text) → (xs ≡ ys → ⊥) → x ∷ xs ≡ y ∷ ys → ⊥
unfolding tail_of
tail_ne x y xs ys n e = n (ap tail_of e)

pub cons_eq : (x y : ℕ) (xs ys : Text) → x ≡ y → xs ≡ ys → x ∷ xs ≡ y ∷ ys
cons_eq x y xs ys p q = cc

unfoldable pub text_discrete : Discrete Text
unfolding ℕ_discrete
text_discrete [] [] = yes refl
text_discrete [] (y ∷ ys) = no (cons_ne y ys)
text_discrete (x ∷ xs) [] = no (λ e. cons_ne x xs (sym e))
text_discrete (x ∷ xs) (y ∷ ys) = elim (ℕ_discrete x y) [
  | no n ↦ no (head_ne x y xs ys n)
  | yes p ↦ elim (text_discrete xs ys) [
    | no n ↦ no (tail_ne x y xs ys n)
    | yes q ↦ yes (cons_eq x y xs ys p q)
  ]
]

-- The bytes of a code point in UTF-8, and of a text.
abbrev width : ℕ → ℕ
width c = if ltb c 0x80 then 1 else if ltb c 0x800 then 2 else if ltb c 0x10000 then 3 else 4

abbrev pub byte_length : Text → ℕ
byte_length [] = 0
byte_length (c ∷ s) = width c + byte_length s

-- `unicode.IsSpace`
unfoldable pub is_space : ℕ → Bool
is_space c =
    (leb 9 c && leb c 13)
    || (c == 32)
    || (c == 0x85)
    || (c == 0xa0)
    || (c == 0x1680)
    || (leb 0x2000 c && leb c 0x200a)
    || (c == 0x2028)
    || (c == 0x2029)
    || (c == 0x202f)
    || (c == 0x205f)
    || (c == 0x3000)

unfoldable pub trim_left : Text → Text
trim_left [] = []
trim_left (c ∷ s) = if is_space c then trim_left s else c ∷ s

abbrev trim_last : ℕ → Text → Text
trim_last c [] = if is_space c then [] else c ∷ []
trim_last c (d ∷ s) = c ∷ d ∷ s

unfoldable pub trim_right : Text → Text
trim_right [] = []
trim_right (c ∷ s) = trim_last c (trim_right s)

-- `strings.TrimSpace`
abbrev pub trim_space : Text → Text
trim_space s = trim_right (trim_left s)

abbrev push_part : ℕ → Option (Text × Text) → Option (Text × Text)
push_part c none = none
push_part c (some (key, value)) = some (c ∷ key, value)

-- `strings.SplitN(line, "=", 2)`, if it gives two parts.
unfoldable pub split_at_equals : Text → Option (Text × Text)
split_at_equals [] = none
split_at_equals (c ∷ s) = if c == b'=' then some ([], s) else push_part c (split_at_equals s)

abbrev push_line : ℕ → List Text → List Text
push_line c [] = (c ∷ []) ∷ []
push_line c (l ∷ ls) = (c ∷ l) ∷ ls

-- The lines of a `bufio.Scanner`, a carriage return at their end included.
unfoldable pub lines : Text → List Text
lines [] = []
lines (c ∷ s) = if c == b'\n' then [] ∷ lines s else push_line c (lines s)

unfoldable pub drop_cr : Text → Text
drop_cr [] = []
drop_cr (c ∷ []) = if c == b'\r' then [] else c ∷ []
drop_cr (c ∷ d ∷ s) = c ∷ drop_cr (d ∷ s)
