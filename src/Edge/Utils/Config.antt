-- ===== src/Edge/Utils/Config.antt =====
-- ReadConfigFile, SetupEnvVariables and GetEnvironmentVariable of edge/utils/utils.go.
pub mod RoundTrip
use sdcc_project.Base.{
  ℕ, Bool, true, false, not, ◌&&◌, List, [], ◌∷◌, Option, none, some, String, Outcome, ok, err,
  panic, ◌>>=◌, ltb, ◌==◌, if◌then◌else◌,
}
use sdcc_project.Base.Dict.{insert, lookup}
use sdcc_project.Edge.Utils.Text.{
  Text, text_discrete, byte_length, trim_space, split_at_equals, lines, drop_cr,
}

abbrev pub Config : Type 0
Config = List (Text × Text)

abbrev pub put_parts : Option (Text × Text) → Config → Config
put_parts none config = config
put_parts (some (key, value)) config =
    insert text_discrete (trim_space key) (trim_space value) config

-- The body of the loop; a line with no equals sign is passed over.
unfoldable pub put_line : Text → Config → Config
put_line line config = put_parts (split_at_equals (drop_cr line)) config

-- A line that does not fit the scanner's buffer ends the loop with an error.
abbrev pub token_limit : ℕ
token_limit = 0x10000

unfoldable pub read_lines : List Text → Config → Outcome String Config
unfolding put_line
read_lines [] config = ok config
read_lines (line ∷ rest) config = elim (ltb (byte_length line) token_limit) [
  | true ↦ read_lines rest (put_line line config)
  | false ↦ err "bufio.Scanner: token too long"
]

-- `ReadConfigFile`: the content of the file, or why it cannot be opened and read.
unfoldable pub read_config_file : Outcome String Text → Outcome String Config
unfolding read_lines
read_config_file file = do content ← file; read_lines (lines content) []

-- What `os.Setenv` refuses: an empty key, an equals sign in the key, and a zero byte.
abbrev has_code : ℕ → Text → Bool
has_code x [] = false
has_code x (c ∷ s) = if c == x then true else has_code x s

abbrev is_empty : Text → Bool
is_empty [] = true
is_empty (c ∷ s) = false

abbrev pub can_set : Text → Text → Bool
can_set key value =
    not (is_empty key) && not (has_code b'=' key) && not (has_code 0 key) && not (has_code 0 value)

-- The loop of `SetupEnvVariables`; `ExitOnError` panics.
unfoldable pub set_all : Config → Config → Outcome String Config
set_all [] env = ok env
set_all ((key, value) ∷ rest) env = elim (can_set key value) [
  | true ↦ set_all rest (insert text_discrete key value env)
  | false ↦ panic
]

-- `ExitOnError` on what a call returns.
unfoldable pub exit_on_error {ℓ} : {A : Type ℓ} → Outcome String A → Outcome String A
exit_on_error (err e) = panic
exit_on_error other = other

unfoldable pub setup_env_variables : Outcome String Text → Config → Outcome String Config
unfolding read_config_file set_all exit_on_error
setup_env_variables file env = do config ← exit_on_error (read_config_file file); set_all config env

unfoldable pub get_environment_variable : Text → Config → Outcome String Text
get_environment_variable name env = elim (lookup text_discrete name env) [
  | some value ↦ ok value
  | none ↦ panic
]
