-- ===== src/Edge/Peer/Join.antt =====
-- How a peer joins the network: registerToRegistry and connectAndNotifyYourAdjacent of edge/peer/peer.go, with
-- CallAdjAddNeighbour of edge/peer/peer_utils.go, over the neighbours of all edge nodes. What a dial from one node to another
-- gives is an argument, and so is the fate of a call. The mutex that the caller holds is not the one of the node it calls; if
-- that is the caller itself, the handler gets it when the timer has expired.
pub mod Held
pub mod Symmetry
pub mod Dangling
mod Tests
use sdcc_project.Base.{
  String, ℕ, Bool, true, false, List, [], ◌∷◌, Option, none, some, Outcome, ok, err, ite,
  if◌then◌else◌, ◌&&◌,
}
use sdcc_project.Edge.Peer.{EdgePeer, peer_discrete}
use sdcc_project.Edge.Peer.Calls.{CallAnswer, done, call_failed, timed_out}
use sdcc_project.Edge.Peer.Network.{AdjacentPeers, connect_and_add_neighbour, add_neighbour}

-- `registerToRegistry`: the neighbours that the registry writes, over a connection that is made sooner or later.
pub data RegisterError : Type 0 where
  register_failed : String → RegisterError
  register_timeout : RegisterError

unfoldable pub register_to_registry :
    CallAnswer → List (EdgePeer × ℕ) → ℕ → Outcome RegisterError (ℕ × List (EdgePeer × ℕ))
register_to_registry done adj client = ok (client, adj)
register_to_registry (call_failed e) adj client = err (register_failed e)
register_to_registry timed_out adj client = err register_timeout

-- Whether the handler of a call runs, and whether its answer is in time.
pub data Fate : Type 0 where
  answered : Fate
  too_late : Fate
  lost : Fate

abbrev pub arrives : Fate → Bool
arrives answered = true
arrives too_late = true
arrives lost = false

abbrev pub in_time : Fate → Bool
in_time answered = true
in_time too_late = false
in_time lost = false

-- The neighbours of every node, and the connections that have been closed.
abbrev pub Net : Type 0 → Type 0
Net Filter = EdgePeer → AdjacentPeers Filter

pub record Joined (Filter : Type 0) : Type 0 where
  pub net : Net Filter
  pub closed : List ℕ

module _ {Filter : Type 0} where
  abbrev pub set_node : EdgePeer → AdjacentPeers Filter → Net Filter → Net Filter
  set_node x adj net y = ite (peer_discrete x y) adj (net y)

module _ {Filter : Type 0} (reach : EdgePeer → EdgePeer → Option ℕ) (fate : EdgePeer → Fate) where
  -- `CallAdjAddNeighbour`, with whether it returns nil: `AddNeighbour` runs at the node that is called.
  unfoldable pub call_adj_add_neighbour : EdgePeer → EdgePeer → Net Filter → Bool × Net Filter
  unfolding add_neighbour connect_and_add_neighbour
  call_adj_add_neighbour adj neighbour_peer net =
      let (added, adjacents) = add_neighbour (reach adj) neighbour_peer (net adj) in
      if arrives (fate adj)
      then (in_time (fate adj) && added, set_node adj adjacents net)
      else (false, net)

  -- The body of the loop: a connection to a neighbour that does not return nil is closed, and stays in the map.
  abbrev pub after_add : ℕ → Bool × Net Filter → Joined Filter → Joined Filter
  after_add client (added, net) joined = record joined {
    net = net;
    closed = if added then joined.closed else client ∷ joined.closed;
  }

  unfoldable pub join_one : EdgePeer → EdgePeer → Joined Filter → Joined Filter
  unfolding connect_and_add_neighbour call_adj_add_neighbour
  join_one self_peer adj_peer joined =
      elim (connect_and_add_neighbour (reach self_peer) adj_peer (joined.net self_peer)) [
        | none ↦ joined
        | some (client, adjacents) ↦
            after_add client
              (call_adj_add_neighbour adj_peer self_peer (set_node self_peer adjacents joined.net))
              joined
      ]

  -- `connectAndNotifyYourAdjacent`
  unfoldable pub connect_and_notify_your_adjacent :
      EdgePeer → List (EdgePeer × ℕ) → Joined Filter → Joined Filter
  unfolding join_one
  connect_and_notify_your_adjacent self_peer [] joined = joined
  connect_and_notify_your_adjacent self_peer ((adj_peer, flag) ∷ rest) joined =
      connect_and_notify_your_adjacent self_peer rest (join_one self_peer adj_peer joined)
