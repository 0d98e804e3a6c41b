-- ===== src/Registry/Graph/Nil.antt =====
-- The third loop of `buildGraph` (registry/services/graph.go) at a nil adjacency map, which the first loop
-- stores for a peer whose `GetNeighbours` call fails.
use sdcc_project.Base.{
  ◌≡◌, refl, ◌⊎◌, inl, inr, true, List, [], ◌∷◌, map, none, some, Outcome, ok, panic, ◌>>=◌, In,
  arith,
}
use sdcc_project.Base.Dict.{insert, lookup, lookup-insert, has_key-In}
use sdcc_project.Registry.{EdgePeer, peer_discrete, Error}
use sdcc_project.Registry.Graph.{Graph, Adjs, adjs_of, link, link_all, undirect}
use sdcc_project.Registry.Graph.Symmetric.{has_edge, has_edge-insert_kept}

module _ (u v : EdgePeer) where
  -- One node reports another, whose own map is nil.
  pub record Reports (g : Graph) : Type 0 where
    pub edge : has_edge g u v ≡ true
    pub nil : lookup peer_discrete v g ≡ some none

  -- A step panics, or leaves the nil map and the edge as they were.
  abbrev Doomed : Outcome Error Graph → Type 0
  Doomed o = (o ≡ panic) ⊎ ((g : Graph) × (o ≡ ok g) × Reports g)

  insert-Reports :
      (g : Graph) (node adj : EdgePeer) (adjs : Adjs)
      → lookup peer_discrete adj g ≡ some (some adjs)
      → Reports g
      → Reports (insert peer_discrete adj (some (insert peer_discrete node 0 adjs)) g)
  insert-Reports g node adj adjs e r = record {
    edge = has_edge-insert_kept g node adj u v adjs e r.edge;
    nil = ground (
      arith,
      r.nil,
      lookup-insert peer_discrete adj v (some (insert peer_discrete node 0 adjs)) g,
    );
  }

  link-Doomed : (node adj : EdgePeer) (g : Graph) → Reports g → Doomed (link node adj g)
  unfolding link
  link-Doomed node adj g r =
      elim (lookup peer_discrete adj g)
          as (λ o.
            lookup peer_discrete adj g ≡ o
            → Doomed (elim o [
              | none ↦ ok g
              | some none ↦ panic
              | some (some adjs) ↦
                  ok (insert peer_discrete adj (some (insert peer_discrete node 0 adjs)) g)
            ])) [
              | none ↦ λ e. inr (g, refl, r)
              | some none ↦ λ e. inl refl
              | some (some adjs) ↦ λ e. inr (_, refl, insert-Reports g node adj adjs e r)
            ]
        refl

  bind-Doomed :
      (o : Outcome Error Graph) (k : Graph → Outcome Error Graph)
      → Doomed o
      → ((g : Graph) → Reports g → Doomed (k g))
      → Doomed (o >>= k)
  bind-Doomed o k (inl p) f = inl (rw p)
  bind-Doomed o k (inr (g, e, r)) f = rw e (f g r)

  bind_panics :
      (o : Outcome Error Graph) (k : Graph → Outcome Error Graph)
      → Doomed o
      → ((g : Graph) → Reports g → k g ≡ panic)
      → (o >>= k) ≡ panic
  bind_panics o k (inl p) f = rw p
  bind_panics o k (inr (g, e, r)) f = rw e (f g r)

  link_all-Doomed :
      (node : EdgePeer) (l : Adjs) (g : Graph) → Reports g → Doomed (link_all node l g)
  unfolding link_all
  link_all-Doomed node [] g r = inr (g, refl, r)
  link_all-Doomed node ((adj, byte) ∷ l) g r =
      bind-Doomed (link node adj g) (link_all node l) (link-Doomed node adj g r)
        (λ g' r'. link_all-Doomed node l g' r')

  link_nil : (g : Graph) → Reports g → link u v g ≡ panic
  unfolding link
  link_nil g r = rw (r.nil, link)

  link_all_panics :
      (l : Adjs) (g : Graph) → Reports g → In v (map (λ e. e.0) l) → link_all u l g ≡ panic
  unfolding link_all
  link_all_panics [] g r at = absurd at
  link_all_panics ((adj, byte) ∷ l) g r (inl e) = rw (← e, link_nil g r)
  link_all_panics ((adj, byte) ∷ l) g r (inr at) =
      bind_panics (link u adj g) (link_all u l) (link-Doomed u adj g r)
        (λ g' r'. link_all_panics l g' r' at)

  -- If the loop comes to a node that reports a neighbour whose own map is nil, the registry panics: it writes to the
  -- nil map.
  pub undirect_panics : (l : List EdgePeer) (g : Graph) → Reports g → In u l → undirect l g ≡ panic
  unfolding undirect
  undirect_panics [] g r at = absurd at
  undirect_panics (node ∷ l) g r (inl e) =
      rw (← e, link_all_panics (adjs_of u g) g r (has_key-In peer_discrete v (adjs_of u g) r.edge))
  undirect_panics (node ∷ l) g r (inr at) =
      bind_panics (link_all node (adjs_of node g) g) (undirect l)
        (link_all-Doomed node (adjs_of node g) g r) (λ g' r'. undirect_panics l g' r' at)
