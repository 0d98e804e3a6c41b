-- ===== src/Registry/Unify/Bridges.antt =====
-- What `solveNetworkPartitions` (registry/services/network_monitor.go) asks for: its calls join
-- everything.
use sdcc_project.Base.{
  ℕ, ◌≡◌, refl, inl, inr, List, [], ◌∷◌, ◌++◌, Option, none, some, ok, All, All-mono, All-In, In,
  arith, ltb, length, sym, ◌∙◌, if◌then◌else◌,
}
use mathlib.Core.List.{append_assoc, append-nil}
use sdcc_project.Registry.{EdgePeer, RegistryService}
use sdcc_project.Registry.Graph.{Graph, Reply, build_graph, nodes}
use sdcc_project.Registry.Search.{Visited, neighbours, find_connected_components}
use sdcc_project.Registry.Search.Marks.{Walk, here, via}
use sdcc_project.Registry.Search.Visit.{Returns, FromSome}
use sdcc_project.Registry.Search.Roots.{singles, IsPartition, find_connected_components-IsPartition}
use sdcc_project.Registry.Unify.{
  Network, try_edge, try_row, try_rows, unify_two_components, unify_network,
  solve_network_partitions,
}

-- Each list entry with the next.
abbrev pub consecutive : List EdgePeer → List (EdgePeer × EdgePeer)
consecutive [] = []
consecutive (p ∷ []) = []
consecutive (p ∷ q ∷ rest) = (p, q) ∷ consecutive (q ∷ rest)

-- Peers that edges of the graph and the pairs of the calls join, in either direction.
pub data Joined (graph : Graph) (calls : List (EdgePeer × EdgePeer))
    : EdgePeer → EdgePeer → Type 0 where
  same : {x : EdgePeer} → Joined graph calls x x
  edge : {x y : EdgePeer} → In y (neighbours graph x) → Joined graph calls x y
  call : {x y : EdgePeer} → In (x, y) calls → Joined graph calls x y
  back : {x y : EdgePeer} → Joined graph calls x y → Joined graph calls y x
  chain :
      {x y z : EdgePeer} → Joined graph calls x y → Joined graph calls y z → Joined graph calls x z

module _ (net : Network) where
  -- Two components that hold one peer each are asked to join through these.
  unify_two-singles :
      (p q : EdgePeer) (draws : ℕ) (calls : List (EdgePeer × EdgePeer))
      → unify_two_components net (p ∷ []) (q ∷ []) draws calls ≡ record {
        created_an_edge = net.succeeds p q;
        draws = draws;
        calls = calls ++ ((p, q) ∷ []);
      }
  unfolding unify_two_components try_rows try_row try_edge
  unify_two-singles p q draws calls = refl

  pub unify_network-singles :
      (roots : List EdgePeer) (draws : ℕ) (calls : List (EdgePeer × EdgePeer))
      → unify_network net (singles roots) draws calls ≡ calls ++ consecutive roots
  unfolding unify_network
  unify_network-singles [] draws calls = sym (append-nil calls)
  unify_network-singles (p ∷ []) draws calls = sym (append-nil calls)
  unify_network-singles (p ∷ q ∷ roots) draws calls = rw (unify_two-singles p q draws calls) (
      unify_network-singles (q ∷ roots) draws (calls ++ ((p, q) ∷ []))
      ∙ append_assoc calls ((p, q) ∷ []) (consecutive (q ∷ roots)))

calls_of :
    (net : Network) (roots : List EdgePeer) (comps : List (List EdgePeer))
    → comps ≡ singles roots
    → (if ltb 1 (length comps) then unify_network net comps 0 [] else []) ≡ consecutive roots
calls_of net [] comps e = rw e
calls_of net (p ∷ []) comps e = rw e
calls_of net (p ∷ q ∷ roots) comps e =
    rw e (ground (arith, unify_network-singles net (p ∷ q ∷ roots) 0 []))

module _ (graph : Graph) where
  Walk-Joined :
      {x y : EdgePeer} (calls : List (EdgePeer × EdgePeer))
      → Walk graph x y
      → Joined graph calls x y
  Walk-Joined calls here = same
  Walk-Joined calls (via at w) = chain (edge at) (Walk-Joined calls w)

  Joined-more :
      (c : EdgePeer × EdgePeer) (calls : List (EdgePeer × EdgePeer)) {x y : EdgePeer}
      → Joined graph calls x y
      → Joined graph (c ∷ calls) x y
  Joined-more c calls same = same
  Joined-more c calls (edge at) = edge at
  Joined-more c calls (call at) = call (inr at)
  Joined-more c calls (back j) = back (Joined-more c calls j)
  Joined-more c calls (chain j k) = chain (Joined-more c calls j) (Joined-more c calls k)

  roots-Joined :
      (p : EdgePeer) (roots : List EdgePeer)
      → All (Joined graph (consecutive (p ∷ roots)) p) (p ∷ roots)
  roots-Joined p [] = (same, tt)
  roots-Joined p (q ∷ roots) =
      let calls = consecutive (q ∷ roots) in
      (
        same,
        All-mono (Joined graph calls q) (Joined graph ((p, q) ∷ calls) p) (q ∷ roots)
            (λ r j. chain (call (inl refl)) (Joined-more (p, q) calls j)) (roots-Joined q roots),
      )

  all-Joined :
      (roots : List EdgePeer) (r s x y : EdgePeer)
      → In r roots
      → In s roots
      → Walk graph r x
      → Walk graph s y
      → Joined graph (consecutive roots) x y
  all-Joined [] r s x y hr hs v w = absurd hr
  all-Joined (p ∷ roots) r s x y hr hs v w =
      let calls = consecutive (p ∷ roots) in
      let to_r = All-In (Joined graph calls p) r (p ∷ roots) (roots-Joined p roots) hr in
      let to_s = All-In (Joined graph calls p) s (p ∷ roots) (roots-Joined p roots) hs in
      chain (back (chain to_r (Walk-Joined calls v))) (chain to_s (Walk-Joined calls w))

  -- The calls for what the search reports.
  abbrev Solves : List (EdgePeer × EdgePeer) → Type 0
  Solves calls = (x y : EdgePeer) → In x (nodes graph) → In y (nodes graph) → Joined graph calls x y

  partition-Solves :
      (net : Network) (roots : List EdgePeer) (r : List (List EdgePeer) × Visited)
      → IsPartition graph roots r
      → ((if ltb 1 (length r.0) then unify_network net r.0 0 [] else []) ≡ consecutive roots)
        × Solves (consecutive roots)
  partition-Solves net roots r h = (
    calls_of net roots r.0 h.components,
    λ x y hx hy.
        let (a, at_a, v) = All-In (FromSome graph roots) x (nodes graph) h.reached hx in
        let (b, at_b, w) = All-In (FromSome graph roots) y (nodes graph) h.reached hy in
        all-Joined roots a b x y at_a at_b v w,
  )

-- Whenever the graph can be built, a round of the monitor ends, and the pairs of peers that it asks
-- to become neighbours, the consecutive representatives of the components, join every two nodes of
-- the graph: if all of its calls succeed, the network is connected.
pub solve_network_partitions-Solves :
    (net : Network) (get_neighbours : EdgePeer → Reply) (r : RegistryService) (graph : Graph)
    → build_graph get_neighbours r ≡ ok graph
    → (calls : List (EdgePeer × EdgePeer)) × (solve_network_partitions net get_neighbours r
        ≡ ok (some calls))
      × ((x y : EdgePeer) → In x (nodes graph) → In y (nodes graph) → Joined graph calls x y)
unfolding solve_network_partitions
solve_network_partitions-Solves net get_neighbours r graph built =
    go (find_connected_components graph) refl (find_connected_components-IsPartition graph)
  where
    go :
        (o : Option (List (List EdgePeer) × Visited))
        → find_connected_components graph ≡ o
        → Returns (λ r. (roots : List EdgePeer) × IsPartition graph roots r) o
        → (calls : List (EdgePeer × EdgePeer)) × (solve_network_partitions net get_neighbours r
            ≡ ok (some calls))
          × ((x y : EdgePeer) → In x (nodes graph) → In y (nodes graph) → Joined graph calls x y)
    go none e h = absurd h
    go (some res) e (roots, h) =
        let (calls_eq, solves) = partition-Solves graph net roots res h in
        (consecutive roots, ground arith, solves)
