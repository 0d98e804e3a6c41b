-- ===== src/Registry/Unify.antt =====
-- `solveNetworkPartitions`, `unifyNetwork` and `unifyTwoComponents`
-- (registry/services/network_monitor.go). The calls of `AddNeighbour` are the result: the pairs of
-- peers that the registry asks to become neighbours, in order. Whether one of the two calls of a pair
-- succeeds, and the draws of `existsEdge`, are arguments.
pub mod Bridges
use sdcc_project.Base.{
  ℕ, ◌+◌, ◌≡◌, Bool, true, false, not, ◌||◌, List, [], ◌∷◌, ◌++◌, Option, none, some, Outcome, ok,
  panic, err, deadlock, ltb, length, if◌then◌else◌,
}
use sdcc_project.Registry.{EdgePeer, RegistryService, Error}
use sdcc_project.Registry.Graph.{Graph, Reply, build_graph}
use sdcc_project.Registry.Search.{find_connected_components}

-- What the environment answers: the i-th draw of `existsEdge`, and whether a pair can be joined.
pub record Network : Type 0 where
  pub exists_edge : ℕ → Bool
  pub succeeds : EdgePeer → EdgePeer → Bool

-- `createdAnEdge`, the number of draws so far, and the calls so far.
pub record Progress : Type 0 where
  pub created_an_edge : Bool
  pub draws : ℕ
  pub calls : List (EdgePeer × EdgePeer)

module _ (net : Network) where
  -- The body of the inner loop.
  unfoldable pub try_edge : EdgePeer → EdgePeer → Progress → Progress
  try_edge first second p =
      if not p.created_an_edge || net.exists_edge p.draws
      then record {
        created_an_edge = p.created_an_edge || net.succeeds first second;
        draws = if p.created_an_edge then p.draws + 1 else p.draws;
        calls = p.calls ++ ((first, second) ∷ []);
      }
      else record p { draws = p.draws + 1 }

  unfoldable pub try_row : EdgePeer → List EdgePeer → Progress → Progress
  try_row first [] p = p
  try_row first (second ∷ rest) p = try_row first rest (try_edge first second p)

  unfoldable pub try_rows : List EdgePeer → List EdgePeer → Progress → Progress
  try_rows [] second_component p = p
  try_rows (first ∷ rest) second_component p =
      try_rows rest second_component (try_row first second_component p)

  unfoldable pub unify_two_components :
      List EdgePeer → List EdgePeer → ℕ → List (EdgePeer × EdgePeer) → Progress
  unify_two_components first_component second_component draws calls =
      try_rows first_component second_component
        (record { created_an_edge = false; draws = draws; calls = calls })

  -- The loop over consecutive components.
  unfoldable pub unify_network :
      List (List EdgePeer) → ℕ → List (EdgePeer × EdgePeer) → List (EdgePeer × EdgePeer)
  unify_network [] draws calls = calls
  unify_network (c ∷ []) draws calls = calls
  unify_network (c ∷ c' ∷ rest) draws calls =
      let p = unify_two_components c c' draws calls in unify_network (c' ∷ rest) p.draws p.calls

  -- The calls of one round of the monitor; `none` if the search ran out of fuel. PrintGraph, which prints the graph first,
  -- is taken to return.
  unfoldable pub solve_network_partitions :
      (EdgePeer → Reply) → RegistryService → Outcome Error (Option (List (EdgePeer × EdgePeer)))
  solve_network_partitions get_neighbours r = elim (build_graph get_neighbours r) [
    | ok graph ↦ ok (elim (find_connected_components graph) [
      | none ↦ none
      | some (connected_components, _) ↦ some (
          if ltb 1 (length connected_components)
          then unify_network connected_components 0 []
          else [])
    ])
    | err e ↦ err e
    | panic ↦ panic
    | deadlock ↦ deadlock
  ]
