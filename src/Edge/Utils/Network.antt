-- ===== src/Edge/Utils/Network.antt =====
-- GetMyIPAddr, GenerateUniqueRandomID, stringInSlice, ConnectToNode and EnsureConnectionToTarget of edge/utils/utils.go.
-- What the network and the random source answer are arguments.
use sdcc_project.Base.{
  ℕ, zero, suc, ◌+◌, ◌-◌, ◌*◌, ◌/◌, ◌%◌, Bool, true, false, not, ◌&&◌, List, [], ◌∷◌, Option, none,
  some, String, Outcome, ok, err, panic, ◌>>=◌, ltb, ◌==◌, if◌then◌else◌, take, ite,
}
use sdcc_project.Edge.Utils.Text.{Text, text_discrete}

-- An address of `net.InterfaceAddrs`.
pub record Address : Type 0 where
  pub is_ip_net : Bool
  pub is_loopback : Bool
  pub is_v4 : Bool
  pub ip : String

unfoldable pub suitable : List Address → Outcome String String
suitable [] = err "no suitable IP address found"
suitable (a ∷ rest) =
    let later = suitable rest in
    if a.is_ip_net && not a.is_loopback then (if a.is_v4 then ok a.ip else later) else later

unfoldable pub get_my_ip_addr : Outcome String (List Address) → Outcome String String
unfolding suitable
get_my_ip_addr interfaces = do addresses ← interfaces; suitable addresses

-- A sextet in the alphabet of `base64.URLEncoding`.
abbrev pub sextet : ℕ → ℕ
sextet n =
    if ltb n 26
    then b'A' + n
    else if ltb n 52
    then b'a' + (n - 26)
    else if ltb n 62
    then b'0' + (n - 52)
    else if n == 62
    then b'-'
    else b'_'

unfoldable pub encode_to_string : List ℕ → Text
encode_to_string [] = []
encode_to_string (a ∷ []) = sextet (a / 4) ∷ sextet (a % 4 * 16) ∷ b'=' ∷ b'=' ∷ []
encode_to_string (a ∷ b ∷ []) =
    sextet (a / 4) ∷ sextet (a % 4 * 16 + b / 16) ∷ sextet (b % 16 * 4) ∷ b'=' ∷ []
encode_to_string (a ∷ b ∷ c ∷ rest) =
    sextet (a / 4)
    ∷ sextet (a % 4 * 16 + b / 16)
    ∷ sextet (b % 16 * 4 + c / 64)
    ∷ sextet (c % 64)
    ∷ encode_to_string rest

unfoldable pub string_in_slice : Text → List Text → Bool
string_in_slice str [] = false
string_in_slice str (s ∷ rest) =
    let later = string_in_slice str rest in ite (text_discrete s str) true later

abbrev pub random_id : List ℕ → Text
random_id random_bytes = take 16 (encode_to_string random_bytes)

-- `GenerateUniqueRandomID` from the round `i`, for a number of rounds; `none` if it goes on.
unfoldable pub generate_unique_random_id :
    ℕ → (ℕ → Outcome String (List ℕ)) → ℕ → List Text → Option (Outcome String Text)
unfolding encode_to_string string_in_slice
generate_unique_random_id zero source i existing_ids = none
generate_unique_random_id (suc rounds) source i existing_ids =
    let rest = generate_unique_random_id rounds source (suc i) existing_ids in
    elim (source i) [
      | ok random_bytes ↦
          if string_in_slice (random_id random_bytes) existing_ids
          then rest
          else some (ok (random_id random_bytes))
      | err e ↦ some (err e)
      | _ ↦ some panic
    ]

-- `ConnectToNode`
unfoldable pub connect_to_node {ℓ} :
    {Client : Type ℓ} → Outcome String Client → Outcome String Client
connect_to_node (err e) = err "errore Dial HTTP"
connect_to_node other = other

-- `EnsureConnectionToTarget`: the number of waits and the client, if one of the attempts answers.
unfoldable pub ensure_connection_to_target {ℓ} :
    {Client : Type ℓ} → List (Outcome String Client) → ℕ → Option (ℕ × Client)
unfolding connect_to_node
ensure_connection_to_target [] waits = none
ensure_connection_to_target (attempt ∷ later) waits = elim (connect_to_node attempt) [
  | ok client ↦ some (waits, client)
  | _ ↦ ensure_connection_to_target later (suc waits)
]
