-- ===== src/Edge/Peer.antt =====
-- edge/peer: an edge node as a peer of the others. This file holds the data of peer_services.go,
-- peer_utils.go and file_request_cache.go.
pub mod Requests
pub mod Lookup
pub mod Network
pub mod Join
pub mod Services
pub mod LookupServer
pub mod Calls
pub mod Transfer
pub mod Hops
mod Tests
pub mod Pings
pub mod Silence
pub mod Contacts
pub mod Stranger
use sdcc_project.Base.{◌≡◌, ap, String, string_discrete, ℕ, Bool, true, false, List}
use sdcc_project.Base.Int.{ℤ}

pub record EdgePeer : Type 0 where
  pub peer_addr : String

peer_eq : {s t : EdgePeer} → Dec (s.peer_addr ≡ t.peer_addr) → Dec (s ≡ t)
peer_eq (yes e) = yes (λ i. record { peer_addr = e i })
peer_eq (no n) = no (λ e. n (λ i. (e i).peer_addr))

unfoldable pub peer_discrete : Discrete EdgePeer
unfolding peer_eq
peer_discrete s t = peer_eq (string_discrete s.peer_addr t.peer_addr)

pub record FileRequest : Type 0 where
  pub file_name : String
  pub request_id : String
  pub forwarder_peer : EdgePeer

request_eq :
    {s t : FileRequest}
    → Dec (s.file_name ≡ t.file_name)
    → Dec (s.request_id ≡ t.request_id)
    → Dec (s.forwarder_peer ≡ t.forwarder_peer)
    → Dec (s ≡ t)
request_eq (yes a) (yes b) (yes c) =
    yes (λ i. record { file_name = a i; request_id = b i; forwarder_peer = c i })
request_eq (no n) _ _ = no (λ e. n (ap (λ r. r.file_name) e))
request_eq _ (no n) _ = no (λ e. n (ap (λ r. r.request_id) e))
request_eq _ _ (no n) = no (λ e. n (ap (λ r. r.forwarder_peer) e))

unfoldable pub request_discrete : Discrete FileRequest
unfolding request_eq
request_discrete s t =
    request_eq (string_discrete s.file_name t.file_name) (string_discrete s.request_id t.request_id)
      (peer_discrete s.forwarder_peer t.forwarder_peer)

pub record FileLookupMessage : Type 0 where
  pub request : FileRequest
  pub ttl : ℤ
  pub callback_server : String

-- A connection is a number.
pub record AdjConnection : Type 0 where
  pub peer_connection : ℕ
  pub missed_ping : ℤ
