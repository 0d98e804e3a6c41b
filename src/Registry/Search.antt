-- ===== src/Registry/Search.antt =====
-- `FindConnectedComponents` and its recursive search (registry/services/graph.go). The depth of the
-- recursion is the fuel; `none` means that it ran out.
pub mod Marks
pub mod Visit
pub mod Roots
pub mod Unique
use sdcc_project.Base.{
  ℕ, zero, suc, ◌≡◌, Bool, true, false, List, [], ◌∷◌, ◌++◌, map, Option, none, some, length,
}
use sdcc_project.Base.Dict.{insert, lookup}
use sdcc_project.Registry.{EdgePeer, peer_discrete}
use sdcc_project.Registry.Graph.{Graph, nodes, adjs_of}

abbrev pub Visited : Type 0
Visited = List (EdgePeer × Bool)

infixl 5 ◌>>=◌
abbrev pub ◌>>=◌ {ℓ κ} : {A : Type ℓ} {B : Type κ} → Option A → (A → Option B) → Option B
none >>= f = none
some a >>= f = f a

-- The names of a node's neighbours, in the order in which `range` meets them.
abbrev pub neighbours : Graph → EdgePeer → List EdgePeer
neighbours graph peer = map (λ e. e.0) (adjs_of peer graph)

-- The loop over the neighbours: it recurs into those that are nodes and not visited.
unfoldable pub visit_all :
    (EdgePeer → Visited → Option (List EdgePeer × Visited))
    → List EdgePeer
    → List EdgePeer
    → Visited
    → Option (List EdgePeer × Visited)
visit_all search [] found_peers visited_map = some (found_peers, visited_map)
visit_all search (neighbour ∷ rest) found_peers visited_map =
    elim (lookup peer_discrete neighbour visited_map) [
      | none ↦ visit_all search rest found_peers visited_map
      | some true ↦ visit_all search rest found_peers visited_map
      | some false ↦ do
        (neighbours_of_neighbour, visited_map') ← search neighbour visited_map
        visit_all search rest (found_peers ++ neighbours_of_neighbour) visited_map'
    ]

-- `recursiveConnectedComponentsResearch`
unfoldable pub search : Graph → ℕ → EdgePeer → Visited → Option (List EdgePeer × Visited)
search graph zero peer visited_map = none
search graph (suc fuel) peer visited_map =
    visit_all (search graph fuel) (neighbours graph peer) []
      (insert peer_discrete peer true visited_map)

-- The loop of `FindConnectedComponents`: the mark of a peer is read when its turn comes.
unfoldable pub components_from :
    Graph
    → ℕ
    → List EdgePeer
    → List (List EdgePeer)
    → Visited
    → Option (List (List EdgePeer) × Visited)
components_from graph fuel [] connected_components visited_map =
    some (connected_components, visited_map)
components_from graph fuel (peer ∷ rest) connected_components visited_map =
    elim (lookup peer_discrete peer visited_map) [
      | none ↦ components_from graph fuel rest connected_components visited_map
      | some true ↦ components_from graph fuel rest connected_components visited_map
      | some false ↦ do
        (found_peers, visited_map') ← search graph fuel peer visited_map
        components_from graph fuel rest
            (connected_components ++ ((found_peers ++ (peer ∷ [])) ∷ [])) visited_map'
    ]

unfoldable pub unvisited : List EdgePeer → Visited
unvisited [] = []
unvisited (edge ∷ rest) = insert peer_discrete edge false (unvisited rest)

-- One more than the number of nodes is fuel enough.
unfoldable pub find_connected_components : Graph → Option (List (List EdgePeer) × Visited)
unfolding components_from unvisited
find_connected_components graph =
    components_from graph (suc (length graph)) (nodes graph) [] (unvisited (nodes graph))
