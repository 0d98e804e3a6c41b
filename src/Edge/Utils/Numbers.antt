-- ===== src/Edge/Utils/Numbers.antt =====
-- The getters of edge/utils/utils.go for settings that are whole numbers, with what they use of `strconv`.
use sdcc_project.Base.{
  ℕ, ◌+◌, ◌-◌, ◌*◌, ◌^◌, ◌<◌, ◌≡◌, Bool, true, false, ◌&&◌, [], ◌∷◌, Option, none, some, String,
  Outcome, ok, panic, ◌>>=◌, ok_inverts, ltb, leb, ◌==◌, if◌then◌else◌, arith,
}
use sdcc_project.Base.Int.{ℤ, pos, IsInt64, sub_ℕ}
use sdcc_project.Edge.Utils.Text.{Text}
use sdcc_project.Edge.Utils.Config.{Config, get_environment_variable}

unfoldable pub parse_digits : ℕ → Text → Option ℕ
parse_digits n [] = some n
parse_digits n (c ∷ s) =
    let rest = parse_digits (n * 10 + (c - b'0')) s in
    if leb b'0' c && leb c b'9' then rest else none

abbrev pub below : ℕ → Option ℕ → Option ℕ
below limit none = none
below limit (some n) = if ltb n limit then some n else none

-- `strconv.ParseUint(s, 10, bits)`
unfoldable pub parse_uint : ℕ → Text → Option ℕ
unfolding parse_digits
parse_uint bits [] = none
parse_uint bits (c ∷ s) = below (2 ^ bits) (parse_digits 0 (c ∷ s))

abbrev pub signed : Bool → Option ℕ → Option ℤ
signed is_negative none = none
signed true (some n) = if leb n (2 ^ 63) then some (sub_ℕ 0 n) else none
signed false (some n) = if ltb n (2 ^ 63) then some (pos n) else none

-- `strconv.ParseInt(s, 10, 64)`
unfoldable pub parse_int : Text → Option ℤ
unfolding parse_uint
parse_int [] = none
parse_int (c ∷ s) =
    if c == b'-'
    then signed true (parse_uint 64 s)
    else if c == b'+'
    then signed false (parse_uint 64 s)
    else signed false (parse_uint 64 (c ∷ s))

-- `ExitOnError` on the error of a conversion.
abbrev pub converted {ℓ} : {A : Type ℓ} → Option A → Outcome String A
converted none = panic
converted (some a) = ok a

unfoldable pub get_int64_environment_variable : Text → Config → Outcome String ℤ
unfolding get_environment_variable parse_int
get_int64_environment_variable name env = do
  value ← get_environment_variable name env
  converted (parse_int value)

unfoldable pub get_int_environment_variable : Text → Config → Outcome String ℤ
unfolding get_environment_variable parse_int
get_int_environment_variable name env = do
  value ← get_environment_variable name env
  converted (parse_int value)

unfoldable pub get_uint8_environment_variable : Text → Config → Outcome String ℕ
unfolding get_environment_variable parse_uint
get_uint8_environment_variable name env = do
  value ← get_environment_variable name env
  converted (parse_uint 8 value)

unfoldable pub get_uint_environment_variable : Text → Config → Outcome String ℕ
unfolding get_environment_variable parse_uint
get_uint_environment_variable name env = do
  value ← get_environment_variable name env
  converted (parse_uint 32 value)

below-lt : (limit : ℕ) (o : Option ℕ) (n : ℕ) → below limit o ≡ some n → n < limit
below-lt limit none n e = absurd (ground arith)
below-lt limit (some k) n e = ground arith

pub parse_uint-lt : (bits : ℕ) (s : Text) (n : ℕ) → parse_uint bits s ≡ some n → n < 2 ^ bits
unfolding parse_uint
parse_uint-lt bits [] n e = absurd (ground arith)
parse_uint-lt bits (c ∷ s) n e = below-lt (2 ^ bits) (parse_digits 0 (c ∷ s)) n e

signed-IsInt64 :
    (is_negative : Bool) (o : Option ℕ) (a : ℤ) → signed is_negative o ≡ some a → IsInt64 a
signed-IsInt64 is_negative none a e = absurd (ground arith)
signed-IsInt64 true (some n) a e = ground arith
signed-IsInt64 false (some n) a e = ground arith

pub parse_int-IsInt64 : (s : Text) (a : ℤ) → parse_int s ≡ some a → IsInt64 a
unfolding parse_int
parse_int-IsInt64 [] a e = absurd (ground arith)
parse_int-IsInt64 (c ∷ s) a e = ground (
  arith,
  signed-IsInt64 true (parse_uint 64 s) a,
  signed-IsInt64 false (parse_uint 64 s) a,
  signed-IsInt64 false (parse_uint 64 (c ∷ s)) a,
)

converted-ok {ℓ} : {A : Type ℓ} (o : Option A) (a : A) → converted o ≡ ok a → o ≡ some a
converted-ok none a h = cc
converted-ok (some b) a h = cc

pub variable-IsInt64 :
    (name : Text) (env : Config) (a : ℤ)
    → get_int64_environment_variable name env ≡ ok a
    → IsInt64 a
unfolding get_int64_environment_variable
variable-IsInt64 name env a h =
    let (value, read, parsed) =
      ok_inverts (λ value. converted (parse_int value)) a (get_environment_variable name env) h in
    parse_int-IsInt64 value a (converted-ok (parse_int value) a parsed)
