-- ===== src/Registry/Tests.antt =====
-- Runs of the registry at concrete networks, and the theorems applied to them.
use sdcc_project.Base.Dict.{Unique}
use sdcc_project.Base.{ℕ, ◌≡◌, refl, true, false, List, [], ◌∷◌, some, ok, panic, arith, In, ite}
use sdcc_project.Base.Dict.{insert, erase, lookup}
use sdcc_project.Registry.{
  EdgePeer, RegistryService, peer_discrete, choose_neighbours, peer_enter, heartbeat,
  check_for_dead_peers,
}
use sdcc_project.Registry.Graph.{Graph, Reply, nodes, build_graph, answered, failed}
use sdcc_project.Registry.Graph.Symmetric.{Succeeds}
use sdcc_project.Registry.Graph.Build.{IsNetwork, build_graph-IsNetwork, build_graph_panics}
use sdcc_project.Registry.Search.{find_connected_components, search, visit_all}
use sdcc_project.Registry.Unify.{
  Network, solve_network_partitions, unify_network, unify_two_components, try_row, try_rows,
  try_edge,
}
use sdcc_project.Registry.Unify.Bridges.{Joined, solve_network_partitions-Solves}
use sdcc_project.Registry.Peers.{IsPaired, Message, run, run-IsPaired}

program : Unit {0}
unfolding insert erase lookup peer_discrete build_graph find_connected_components search visit_all
    solve_network_partitions unify_network unify_two_components try_row try_rows try_edge
    choose_neighbours check_for_dead_peers peer_enter heartbeat
program = tt

abbrev peer_a : EdgePeer
peer_a = record { peer_addr = "10.0.0.1:5000" }

abbrev peer_b : EdgePeer
peer_b = record { peer_addr = "10.0.0.2:5000" }

abbrev peer_c : EdgePeer
peer_c = record { peer_addr = "10.0.0.3:5000" }

abbrev registry : RegistryService
registry = record {
  connections = (peer_a, 1) ∷ (peer_b, 2) ∷ (peer_c, 3) ∷ [];
  heartbeat_check_time = 100_000_000_000;
  heartbeats = (peer_a, 90_000_000_000) ∷ (peer_b, 90_000_000_000) ∷ (peer_c, 50_000_000_000) ∷ [];
}

-- The first peer names the second; nobody names the third.
abbrev adjs_of_a : List (EdgePeer × ℕ)
adjs_of_a = (peer_b, 0) ∷ []

abbrev replies : EdgePeer → Reply
replies p = answered (ite (peer_discrete p peer_a) adjs_of_a [])

-- The call to the second peer fails.
abbrev faulty : EdgePeer → Reply
faulty p = elim (peer_discrete p peer_a) [
  | yes e ↦ answered adjs_of_a
  | no n ↦ elim (peer_discrete p peer_b) [ yes e ↦ failed | no m ↦ answered [] ]
]

abbrev two_parts : Graph
two_parts =
    (peer_a, some ((peer_b, 0) ∷ [])) ∷ (peer_b, some ((peer_a, 0) ∷ [])) ∷ (peer_c, some []) ∷ []

abbrev quiet : Network
quiet = record { exists_edge = λ i. false; succeeds = λ p q. true }

built : build_graph replies registry ≡ ok two_parts
unfolding program
built = refl

-- Each component is reported by its representative alone.
parts :
    find_connected_components two_parts
    ≡ some
        ((peer_a ∷ []) ∷ (peer_c ∷ []) ∷ [], (peer_c, true) ∷ (peer_b, true) ∷ (peer_a, true) ∷ [])
unfolding program
parts = refl

solved : solve_network_partitions quiet replies registry ≡ ok (some ((peer_a, peer_c) ∷ []))
unfolding program
solved = refl

build_graph-IsNetwork_example : Succeeds (IsNetwork replies registry) (build_graph replies registry)
unfolding program
build_graph-IsNetwork_example =
    build_graph-IsNetwork replies registry (refl, (refl, (refl, tt))) (λ p e. cc)

build_graph_panics_example : build_graph faulty registry ≡ panic
unfolding program
build_graph_panics_example =
    build_graph_panics faulty registry (refl, (refl, (refl, tt))) peer_a peer_b adjs_of_a refl refl
      refl refl refl

solve_network_partitions-Solves_example :
    (calls : List (EdgePeer × EdgePeer)) × (solve_network_partitions quiet replies registry
      ≡ ok (some calls))
    × ((x y : EdgePeer)
        → In x (nodes two_parts)
        → In y (nodes two_parts)
        → Joined two_parts calls x y)
unfolding program
solve_network_partitions-Solves_example =
    solve_network_partitions-Solves quiet replies registry two_parts built

registry-Unique :
    Unique peer_discrete registry.connections × Unique peer_discrete registry.heartbeats
unfolding program
registry-Unique = ((refl, (refl, (refl, tt))), (refl, (refl, (refl, tt))))

registry-IsPaired : IsPaired registry
unfolding lookup
registry-IsPaired = record {
  paired = λ p. ground arith;
  conns = registry-Unique.0;
  heard = registry-Unique.1;
}

run-IsPaired_example : IsPaired (
    run
      (λ p. some 4)
      (λ i. true)
      15
      registry
      (Message.checks 130_000_000_000 ∷ Message.beats peer_c 131_000_000_000 ∷ []))
run-IsPaired_example =
    run-IsPaired (λ p. some 4) (λ i. true) 15
      (Message.checks 130_000_000_000 ∷ Message.beats peer_c 131_000_000_000 ∷ []) registry
      registry-IsPaired
