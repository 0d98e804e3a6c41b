-- ===== src/Registry/Graph.antt =====
-- registry/services/graph.go: the network's graph, as the registry builds it from the neighbours
-- that each peer reports. An adjacency map that is nil is `none`: reading it finds nothing, and
-- writing to it panics.
pub mod Symmetric
pub mod Nil
pub mod Build
use sdcc_project.Base.{
  ℕ, ◌≡◌, Bool, true, false, List, [], ◌∷◌, map, Option, none, some, Outcome, ok, panic, ◌>>=◌,
  if◌then◌else◌,
}
use sdcc_project.Base.Dict.{insert, erase, has_key, lookup}
use sdcc_project.Registry.{EdgePeer, peer_discrete, RegistryService, Error}

abbrev pub Adjs : Type 0
Adjs = List (EdgePeer × ℕ)

abbrev pub Graph : Type 0
Graph = List (EdgePeer × Option Adjs)

-- What the call of `GetNeighbours` ends with.
pub data Reply : Type 0 where
  answered : Adjs → Reply
  failed : Reply
  timed_out : Reply

-- `AddNodeAndConnections`
abbrev pub add_node_and_connections : EdgePeer → Option Adjs → Graph → Graph
add_node_and_connections node neighbours graph = insert peer_discrete node neighbours graph

-- The body of the first loop of `buildGraph`. After a failed call the map of the reply is nil.
unfoldable pub take_up : (EdgePeer → Reply) → RegistryService → EdgePeer → Graph → Graph
take_up get_neighbours r peer graph =
    if has_key peer_discrete peer r.heartbeats
    then (elim (get_neighbours peer) [
      | answered neighbours ↦ add_node_and_connections peer (some neighbours) graph
      | failed ↦ add_node_and_connections peer none graph
      | timed_out ↦ graph
    ])
    else graph

unfoldable pub collect : (EdgePeer → Reply) → RegistryService → List (EdgePeer × ℕ) → Graph → Graph
collect get_neighbours r [] graph = graph
collect get_neighbours r ((peer, _) ∷ rest) graph =
    collect get_neighbours r rest (take_up get_neighbours r peer graph)

-- The second loop: neighbours without a heartbeat are deleted.
unfoldable pub prune_adjs : RegistryService → Adjs → Adjs
prune_adjs r [] = []
prune_adjs r ((adj, byte) ∷ rest) =
    let kept = prune_adjs r rest in
    if has_key peer_discrete adj r.heartbeats then (adj, byte) ∷ kept else kept

unfoldable pub prune : RegistryService → Graph → Graph
unfolding prune_adjs
prune r [] = []
prune r ((node, none) ∷ rest) = (node, none) ∷ prune r rest
prune r ((node, some adjs) ∷ rest) = (node, some (prune_adjs r adjs)) ∷ prune r rest

-- `graph.graph[adj][node] = 0`, if `adj` is a node of the graph.
unfoldable pub link : EdgePeer → EdgePeer → Graph → Outcome Error Graph
link node adj graph = elim (lookup peer_discrete adj graph) [
  | none ↦ ok graph
  | some none ↦ panic
  | some (some adjs) ↦ ok (insert peer_discrete adj (some (insert peer_discrete node 0 adjs)) graph)
]

unfoldable pub link_all : EdgePeer → Adjs → Graph → Outcome Error Graph
link_all node [] graph = ok graph
link_all node ((adj, _) ∷ rest) graph = do graph' ← link node adj graph; link_all node rest graph'

-- The neighbours of a node; a nil map and a missing node have none.
abbrev pub adjs_of : EdgePeer → Graph → Adjs
adjs_of node graph = elim (lookup peer_discrete node graph) [
  | none ↦ []
  | some none ↦ []
  | some (some adjs) ↦ adjs
]

abbrev pub nodes : Graph → List EdgePeer
nodes graph = map (λ e. e.0) graph

-- The third loop: the directed graph is made undirected, node by node.
unfoldable pub undirect : List EdgePeer → Graph → Outcome Error Graph
unfolding link link_all
undirect [] graph = ok graph
undirect (node ∷ rest) graph = do
  graph' ← link_all node (adjs_of node graph) graph
  undirect rest graph'

unfoldable pub build_graph : (EdgePeer → Reply) → RegistryService → Outcome Error Graph
unfolding collect take_up prune undirect
build_graph get_neighbours r =
    let graph = prune r (collect get_neighbours r r.connections []) in undirect (nodes graph) graph
