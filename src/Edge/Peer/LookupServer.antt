-- ===== src/Edge/Peer/LookupServer.antt =====
-- edge/peer/lookup_server.go: the callback server to which the answers of a lookup are sent, as datagrams. The coding of an
-- answer as JSON and what the network answers are arguments.
pub mod Delivery
mod Tests
use sdcc_project.Base.{
  ℕ, String, Bool, true, false, List, [], ◌∷◌, ◌++◌, Option, none, some, Outcome, ok, err, panic,
  deadlock, ◌>>=◌, take, if◌then◌else◌,
}
use sdcc_project.Base.Int.{ℤ}
use sdcc_project.Edge.Peer.{EdgePeer}
use sdcc_project.Edge.Utils.Text.{Text}

pub record PeerFileServer : Type 0 where
  pub ip_addr : String

pub record FileLookupResponse : Type 0 where
  pub owner_edge : PeerFileServer
  pub file_size : ℤ

pub record LookupServer : Type 0 where
  pub udp_addr : Text
  pub closed : Bool

-- `CreateLookupServer`: the address of the node, the resolver, and the address at which the socket listens.
unfoldable pub create_lookup_server :
    Outcome String Text
    → (Text → Outcome String Text)
    → (Text → Outcome String Text)
    → Outcome String LookupServer
create_lookup_server my_ip_addr resolve listen = do
  ip_addr ← my_ip_addr
  udp_addr ← resolve (ip_addr ++ (b':' ∷ b'0' ∷ []))
  local_addr ← listen udp_addr
  ok (record { udp_addr = local_addr; closed = false })

-- `ConnectToLookupServer`
unfoldable pub connect_to_lookup_server :
    (Text → Outcome String Text)
    → (Text → Outcome String (Unit {0}))
    → Text
    → Outcome String LookupServer
connect_to_lookup_server resolve dial ip_addr = do
  udp_addr ← resolve ip_addr
  conn ← dial udp_addr
  ok (record { udp_addr = udp_addr; closed = false })

-- `CloseServer`
unfoldable pub close_server : LookupServer → LookupServer
close_server server = record server { closed = true }

-- What a read finds: a datagram, of which the buffer takes the first 128 bytes, or an error.
pub data Datagram : Type 0 where
  arrives : List ℕ → Datagram
  read_error : String → Datagram

-- `none` is a nil pointer.
abbrev decoded {ℓ} : {A : Type ℓ} → Option A → Outcome String (Option A)
decoded none = err "unmarshal"
decoded (some response) = ok (some response)

module _ {A : Type 0} where
  -- `readFromChannel`
  unfoldable pub read_from_channel :
      (List ℕ → Option A) → Bool → Datagram → Outcome String (Option A)
  read_from_channel unmarshal closed (arrives bytes) = decoded (unmarshal (take 128 bytes))
  read_from_channel unmarshal true (read_error e) = ok none
  read_from_channel unmarshal false (read_error e) = err e

  abbrev with_response : Outcome String (Option A) → List (Option A) → List (Option A)
  with_response (ok response) later = response ∷ later
  with_response (err e) later = later
  with_response panic later = later
  with_response deadlock later = later

  -- `ReadFromServer`: what goes over the callback channel, and whether it is closed. With each datagram comes whether the
  -- server has been closed by then.
  unfoldable pub read_from_server :
      (List ℕ → Option A) → List (Datagram × Bool) → List (Option A) × Bool
  unfolding read_from_channel
  read_from_server unmarshal [] = ([], false)
  read_from_server unmarshal ((datagram, closed) ∷ later) =
      let (responses, at_end) = read_from_server unmarshal later in
      if closed
      then ([], true)
      else (with_response (read_from_channel unmarshal closed datagram) responses, at_end)

  -- `SendToServer`: the datagram that is sent, or the error.
  unfoldable pub send_to_server :
      (A → Outcome String (List ℕ)) → (List ℕ → Option String) → A → Outcome String (List ℕ)
  send_to_server marshal write response = do
    json_data ← marshal response
    elim (write json_data) [ some e ↦ err e | none ↦ ok json_data ]
