-- ===== src/Registry/Graph/Build.antt =====
-- `buildGraph` (registry/services/graph.go) as a whole: from the replies of the peers to the graph.
use sdcc_project.Registry.Graph.Symmetric.{
  is_node, has_edge, HasNoNil, Succeeds, Succeeds-mono, IsUndirected, undirect-IsUndirected,
}
use sdcc_project.Registry.Graph.Nil.{Reports, undirect_panics}
use sdcc_project.Base.{
  ℕ, ◌≡◌, ◌≢◌, refl, ◌⊎◌, inl, inr, ◌&&◌, List, [], ◌∷◌, Option, none, some, arith, sym,
  if◌then◌else◌, subst, if_pos, if_neg, ◌∙◌, true, Bool, false, ap, panic, ◌↔◌,
}
use sdcc_project.Base.Dict.{lookup, lookup-insert, has_key, Unique, has_key-In}
use sdcc_project.Registry.{EdgePeer, peer_discrete, RegistryService}
use sdcc_project.Registry.Graph.{
  Graph, Adjs, Reply, answered, failed, timed_out, collect, prune_adjs, prune, take_up, build_graph,
  nodes,
}

-- What the first loop stores for a peer.
abbrev pub stored : Reply → Option (Option Adjs) → Option (Option Adjs)
stored (answered ns) old = some (some ns)
stored failed old = some none
stored timed_out old = old

module _ (get_neighbours : EdgePeer → Reply) (r : RegistryService) where
  reply_cases : (q : Reply) → ((ns : Adjs) × (q ≡ answered ns)) ⊎ ((q ≡ failed) ⊎ (q ≡ timed_out))
  reply_cases (answered ns) = inl (ns, refl)
  reply_cases failed = inr (inl refl)
  reply_cases timed_out = inr (inr refl)

  take_up-lookup_self :
      (p : EdgePeer) (g : Graph)
      → lookup peer_discrete p (take_up get_neighbours r p g) ≡ (
          if has_key peer_discrete p r.heartbeats
          then stored (get_neighbours p) (lookup peer_discrete p g)
          else lookup peer_discrete p g)
  unfolding take_up
  take_up-lookup_self p g = elim (reply_cases (get_neighbours p)) [
    | inl (ns, e) ↦ rw (e, take_up) (ground (arith, lookup-insert peer_discrete p p (some ns) g))
    | inr (inl e) ↦ rw (e, take_up) (ground (arith, lookup-insert peer_discrete p p none g))
    | inr (inr e) ↦ rw (e, take_up) (ground arith)
  ]

  take_up-lookup_ne :
      (p q : EdgePeer) (g : Graph)
      → p ≢ q
      → lookup peer_discrete p (take_up get_neighbours r q g) ≡ lookup peer_discrete p g
  unfolding take_up
  take_up-lookup_ne p q g n = elim (reply_cases (get_neighbours q)) [
    | inl (ns, e) ↦ rw (e, take_up) (ground (arith, lookup-insert peer_discrete q p (some ns) g))
    | inr (inl e) ↦ rw (e, take_up) (ground (arith, lookup-insert peer_discrete q p none g))
    | inr (inr e) ↦ rw (e, take_up) (ground arith)
  ]

  collect-lookup :
      (p : EdgePeer) (l : List (EdgePeer × ℕ)) (g : Graph)
      → Unique peer_discrete l
      → lookup peer_discrete p (collect get_neighbours r l g) ≡ (
          if has_key peer_discrete p l && has_key peer_discrete p r.heartbeats
          then stored (get_neighbours p) (lookup peer_discrete p g)
          else lookup peer_discrete p g)
  unfolding collect lookup
  collect-lookup p [] g u = refl
  collect-lookup p ((q, t) ∷ l) g u = elim (peer_discrete p q) [
    | yes e ↦
        let gone : lookup peer_discrete p l ≡ none =
          subst (λ x. lookup peer_discrete x l ≡ none) (sym e) u.0 in
        let self =
          subst
            (λ x. lookup peer_discrete p (take_up get_neighbours r x g) ≡ (
              if has_key peer_discrete p r.heartbeats
              then stored (get_neighbours p) (lookup peer_discrete p g)
              else lookup peer_discrete p g))
            e (take_up-lookup_self p g) in
        rw
          (
            if_pos (peer_discrete p q) e,
            collect-lookup p l (take_up get_neighbours r q g) u.1,
            gone,
          )
          self
    | no n ↦
        rw
          (
            if_neg (peer_discrete p q) n,
            collect-lookup p l (take_up get_neighbours r q g) u.1,
            take_up-lookup_ne p q g n,
          )
          refl
  ]

has_key-prune :
    (r : RegistryService) (p : EdgePeer) (adjs : Adjs)
    → has_key peer_discrete p (prune_adjs r adjs)
      ≡ (has_key peer_discrete p adjs && has_key peer_discrete p r.heartbeats)
unfolding prune_adjs lookup
has_key-prune r p [] = refl
has_key-prune r p ((q, b) ∷ adjs) = ground (arith, has_key-prune r p adjs)

abbrev pruned : RegistryService → Option (Option Adjs) → Option (Option Adjs)
pruned r none = none
pruned r (some none) = some none
pruned r (some (some adjs)) = some (some (prune_adjs r adjs))

prune-lookup :
    (r : RegistryService) (p : EdgePeer) (g : Graph)
    → lookup peer_discrete p (prune r g) ≡ pruned r (lookup peer_discrete p g)
unfolding prune lookup
prune-lookup r p [] = refl
prune-lookup r p ((q, none) ∷ g) = ground (arith, prune-lookup r p g)
prune-lookup r p ((q, some adjs) ∷ g) = ground (arith, prune-lookup r p g)

abbrev pub reported : (EdgePeer → Reply) → RegistryService → Graph
reported get_neighbours r = prune r (collect get_neighbours r r.connections [])

-- The peer is connected, and a heartbeat of it is known.
abbrev pub is_listed : RegistryService → EdgePeer → Bool
is_listed r p = has_key peer_discrete p r.connections && has_key peer_discrete p r.heartbeats

module _ (get_neighbours : EdgePeer → Reply) (r : RegistryService)
    (unique : Unique peer_discrete r.connections) where
  reported-lookup :
      (p : EdgePeer)
      → lookup peer_discrete p (reported get_neighbours r)
        ≡ pruned r (if is_listed r p then stored (get_neighbours p) none else none)
  unfolding lookup
  reported-lookup p =
      prune-lookup r p (collect get_neighbours r r.connections [])
      ∙ ap (pruned r) (collect-lookup get_neighbours r p r.connections [] unique)

  -- If no peer stands twice in the map, a listed peer names another listed peer as its neighbour, and the call of `GetNeighbours` to that one
  -- fails, then building the graph panics, and with it the registry.
  pub build_graph_panics :
      (u v : EdgePeer) (ns : Adjs)
      → is_listed r u ≡ true
      → is_listed r v ≡ true
      → get_neighbours u ≡ answered ns
      → has_key peer_discrete v ns ≡ true
      → get_neighbours v ≡ failed
      → build_graph get_neighbours r ≡ panic
  unfolding build_graph
  build_graph_panics u v ns lu lv eu named ev =
      let g = reported get_neighbours r in
      let at_u : lookup peer_discrete u g ≡ some (some (prune_adjs r ns)) =
        ground (arith, reported-lookup u) in
      let at_v : lookup peer_discrete v g ≡ some none = ground (arith, reported-lookup v) in
      let reports : Reports u v g = record {
        edge = ground (arith, has_key-prune r v ns);
        nil = at_v;
      } in
      undirect_panics u v (nodes g) g reports (has_key-In peer_discrete u g (ground arith))

abbrev pub answer_of : Reply → Adjs
answer_of (answered ns) = ns
answer_of _ = []

abbrev pub is_answered : Reply → Bool
is_answered (answered ns) = true
is_answered _ = false

-- The network as the replies describe it: its nodes are the listed peers that answer, and two of them are
-- neighbours of one another exactly if one of them names the other.
pub record IsNetwork (get_neighbours : EdgePeer → Reply) (r : RegistryService) (g : Graph)
    : Type 0 where
  pub node : (p : EdgePeer) → is_node p g ≡ (is_listed r p && is_answered (get_neighbours p))
  pub edges :
      (x y : EdgePeer)
      → is_node x g ≡ true
      → is_node y g ≡ true
      → (has_edge g x y ≡ true) ↔ (
          (has_key peer_discrete y (answer_of (get_neighbours x)) ≡ true)
          ⊎ (has_key peer_discrete x (answer_of (get_neighbours y)) ≡ true))

module _ (get_neighbours : EdgePeer → Reply) (r : RegistryService)
    (unique : Unique peer_discrete r.connections)
    (no_failure : (p : EdgePeer) → get_neighbours p ≢ failed) where
  reported-node :
      (p : EdgePeer)
      → is_node p (reported get_neighbours r) ≡ (is_listed r p && is_answered (get_neighbours p))
  reported-node p = elim (reply_cases get_neighbours r (get_neighbours p)) [
    | inl (ns, e) ↦ ground (arith, reported-lookup get_neighbours r unique p, e)
    | inr (inl e) ↦ absurd (no_failure p e)
    | inr (inr e) ↦ ground (arith, reported-lookup get_neighbours r unique p, e)
  ]

  reported-edge :
      (x y : EdgePeer)
      → is_listed r x ≡ true
      → is_listed r y ≡ true
      → has_edge (reported get_neighbours r) x y
        ≡ has_key peer_discrete y (answer_of (get_neighbours x))
  reported-edge x y lx ly = elim (reply_cases get_neighbours r (get_neighbours x)) [
    | inl (ns, e) ↦
        ground (arith, reported-lookup get_neighbours r unique x, e, has_key-prune r y ns)
    | inr (inl e) ↦ absurd (no_failure x e)
    | inr (inr e) ↦ ground (arith, reported-lookup get_neighbours r unique x, e)
  ]

  reported-HasNoNil : HasNoNil (reported get_neighbours r)
  reported-HasNoNil p h = elim (reply_cases get_neighbours r (get_neighbours p)) [
    | inl (ns, e) ↦ ground (arith, reported-lookup get_neighbours r unique p, e)
    | inr (inl e) ↦ no_failure p e
    | inr (inr e) ↦ ground (arith, reported-lookup get_neighbours r unique p, e)
  ]

  undirected-IsNetwork :
      (g : Graph) → IsUndirected (reported get_neighbours r) g → IsNetwork get_neighbours r g
  undirected-IsNetwork g h = record {
    node = λ p. h.nodes_same p ∙ reported-node p;
    edges = λ x y nx ny.
        let rx = sym (h.nodes_same x) ∙ nx in
        let ry = sym (h.nodes_same y) ∙ ny in
        let lx : is_listed r x ≡ true = ground (arith, reported-node x) in
        let ly : is_listed r y ≡ true = ground (arith, reported-node y) in
        let forth = reported-edge x y lx ly in
        let back = reported-edge y x ly lx in
        (
          λ e. elim ((h.edges x y rx ry).0 e) [
            | inl a ↦ inl (sym forth ∙ a)
            | inr b ↦ inr (sym back ∙ b)
          ],
          λ s. (h.edges x y rx ry).1 (elim s [ inl a ↦ inl (forth ∙ a) | inr b ↦ inr (back ∙ b) ]),
        );
  }

  -- If no peer stands twice in the map and no call of `GetNeighbours` fails, though some may time out, the
  -- graph is built without a panic and is the network that the replies describe.
  pub build_graph-IsNetwork : Succeeds (IsNetwork get_neighbours r) (build_graph get_neighbours r)
  unfolding build_graph
  build_graph-IsNetwork =
      Succeeds-mono (IsUndirected (reported get_neighbours r)) (IsNetwork get_neighbours r) _
        undirected-IsNetwork (undirect-IsUndirected (reported get_neighbours r) reported-HasNoNil)
