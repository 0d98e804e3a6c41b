-- ===== src/Entry.antt =====
-- A peer enters the network: ActAsPeer of edge/peer/peer.go calls PeerEnter of registry/services/registry_services.go and joins
-- the neighbours of the answer. The two programs have records of their own for a peer, with the same field.
-- The loops that the node starts at the same time are left out.
pub mod Connected
mod Tests
use sdcc_project.Base.{
  ℕ, Bool, List, Option, none, some, Outcome, ok, err, panic, deadlock, if◌then◌else◌, map,
}
use sdcc_project.Registry
use sdcc_project.Registry.{RegistryService, Error, peer_enter}
use sdcc_project.Edge.Peer.{EdgePeer}
use sdcc_project.Edge.Peer.Calls.{CallAnswer, done, timed_out}
use sdcc_project.Edge.Peer.Join.{
  Fate, Joined, RegisterError, register_to_registry, connect_and_notify_your_adjacent,
}

-- What the coding of a message makes of a peer and of a map of peers.
abbrev pub edge_peer : Registry.EdgePeer → EdgePeer
edge_peer p = record { peer_addr = p.peer_addr }

abbrev pub told : List (Registry.EdgePeer × ℕ) → List (EdgePeer × ℕ)
told adj = map (λ e. (edge_peer e.0, e.1)) adj

-- What a dial between edge nodes gives, the fates of their calls, and whether the registry's answer comes in time.
pub record Links : Type 0 where
  pub reach : EdgePeer → EdgePeer → Option ℕ
  pub fate : EdgePeer → Fate
  pub in_time : Bool

module _ {Filter : Type 0} where
  -- `ActAsPeer` behind the registration: on an error the node exits.
  abbrev pub join_told :
      Links
      → EdgePeer
      → Outcome RegisterError (ℕ × List (EdgePeer × ℕ))
      → Joined Filter
      → Option (Joined Filter)
  join_told links self_peer (ok (client, adj)) joined =
      some (connect_and_notify_your_adjacent links.reach links.fate self_peer adj joined)
  join_told links self_peer (err e) joined = none
  join_told links self_peer panic joined = none
  join_told links self_peer deadlock joined = none

  abbrev pub after_enter :
      Links
      → EdgePeer
      → ℕ
      → RegistryService
      → Outcome Error (List (Registry.EdgePeer × ℕ) × RegistryService)
      → Joined Filter
      → RegistryService × Option (Joined Filter)
  after_enter links self_peer client r (ok (adj, r')) joined = (
    r',
    join_told links self_peer
        (register_to_registry (if links.in_time then done else timed_out) (told adj) client) joined,
  )
  after_enter links self_peer client r (err e) joined = (r, none)
  after_enter links self_peer client r panic joined = (r, none)
  after_enter links self_peer client r deadlock joined = (r, none)

  -- `ActAsPeer`, with the handler at the registry.
  unfoldable pub act_as_peer :
      (Registry.EdgePeer → Option ℕ)
      → (ℕ → Bool)
      → Links
      → Registry.EdgePeer
      → ℕ
      → ℕ
      → RegistryService
      → Joined Filter
      → RegistryService × Option (Joined Filter)
  unfolding peer_enter register_to_registry connect_and_notify_your_adjacent
  act_as_peer connect_to_node exists_edge links peer now client r joined =
      after_enter links (edge_peer peer) client r
        (peer_enter connect_to_node exists_edge peer now r) joined
