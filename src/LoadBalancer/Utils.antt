-- ===== src/LoadBalancer/Utils.antt =====
-- load_balancer/utils/balancing_utils.go. What it has in the words of edge/utils/utils.go is taken from the model of that file.
use sdcc_project.Base.{ℕ, ◌%◌, String, List, [], ◌∷◌, Option, none, some, Outcome, ◌>>=◌}
use sdcc_project.Base.Int.{ℤ, pos}
use sdcc_project.Edge.Utils.Text.{Text}
use sdcc_project.Edge.Utils.Config.{
  Config, read_config_file, exit_on_error, set_all, get_environment_variable,
}
use sdcc_project.Edge.Utils.Numbers.{parse_int, converted}
use sdcc_project.Edge.Utils.Network.{Address, suitable}

abbrev pub conf_properties : Text
conf_properties =
    b'c' ∷ b'o' ∷ b'n' ∷ b'f' ∷ b'.' ∷ b'p' ∷ b'r' ∷ b'o' ∷ b'p' ∷ b'e' ∷ b'r' ∷ b't' ∷ b'i' ∷ b'e'
    ∷ b's' ∷ []

-- `SetupEnvVariables`: the name that it is given is not read.
unfoldable pub setup_env_variables :
    (Text → Outcome String Text) → Text → Config → Outcome String Config
unfolding read_config_file exit_on_error set_all
setup_env_variables files file_name env = do
  config ← exit_on_error (read_config_file (files conf_properties))
  set_all config env

unfoldable pub get_int_environment_variable : Text → Config → Outcome String ℤ
unfolding get_environment_variable parse_int
get_int_environment_variable name env = do
  variable_string ← get_environment_variable name env
  converted (parse_int variable_string)

unfoldable pub get_my_ip_addr : Outcome String (List Address) → Outcome String String
unfolding suitable
get_my_ip_addr interfaces = do addresses ← interfaces; suitable addresses

-- `GenerateUniqueRandomID`: a number that the random source draws below the largest 64-bit integer, or zero.
unfoldable pub generate_unique_random_id : Option ℕ → ℤ
generate_unique_random_id none = pos 0
generate_unique_random_id (some drawn) = pos (drawn % 0x7fffffffffffffff)
