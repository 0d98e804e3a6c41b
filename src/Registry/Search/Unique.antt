-- ===== src/Registry/Search/Unique.antt =====
-- The representatives of `FindConnectedComponents` (registry/services/graph.go) in an undirected
-- graph: each node has exactly one, so that their number is the number of connected components.
use sdcc_project.Base.{◌≡◌, ◌⊎◌, inl, inr, true, List, [], ◌∷◌, All-In, In, subst, sym, arith}
use sdcc_project.Base.Dict.{has_key-In, In-has_key, lookup}
use sdcc_project.Registry.{EdgePeer, peer_discrete}
use sdcc_project.Registry.Graph.{Graph, nodes, adjs_of}
use sdcc_project.Registry.Graph.Symmetric.{has_edge, is_node}
use sdcc_project.Registry.Search.Marks.{Walk, here, via}
use sdcc_project.Registry.Search.Roots.{Apart}

module _ (graph : Graph) where
  -- Neighbours that are nodes are neighbours of one another.
  abbrev pub IsSymmetric : Type 0
  IsSymmetric =
      (x y : EdgePeer)
      → has_edge graph x y ≡ true
      → is_node y graph ≡ true
      → has_edge graph y x ≡ true

  Walk-trans : {x y z : EdgePeer} → Walk graph x y → Walk graph y z → Walk graph x z
  Walk-trans here w = w
  Walk-trans (via at v) w = via at (Walk-trans v w)

  edge_node : (x y : EdgePeer) → has_edge graph x y ≡ true → is_node x graph ≡ true
  unfolding lookup
  edge_node x y h = ground arith

  Walk-node : {x y : EdgePeer} → Walk graph x y → is_node y graph ≡ true → is_node x graph ≡ true
  Walk-node here n = n
  Walk-node (via {x = x} {y = y} at w) n =
      edge_node x y (In-has_key peer_discrete y (adjs_of x graph) at)

  Walk-back :
      {x y : EdgePeer} → IsSymmetric → Walk graph x y → is_node y graph ≡ true → Walk graph y x
  Walk-back s here n = here
  Walk-back s (via {x = x} {y = y} at w) n =
      let forth = In-has_key peer_discrete y (adjs_of x graph) at in
      let back = has_key-In peer_discrete x (adjs_of y graph) (s x y forth (Walk-node w n)) in
      Walk-trans (Walk-back s w n) (via back here)

  Apart-cases :
      (p q : EdgePeer) (roots : List EdgePeer)
      → Apart graph roots
      → In p roots
      → In q roots
      → (p ≡ q) ⊎ ((¬ Walk graph p q) ⊎ (¬ Walk graph q p))
  Apart-cases p q [] a hp hq = absurd hp
  Apart-cases p q (r ∷ roots) a (inl ep) (inl eq) = inl (ground arith)
  Apart-cases p q (r ∷ roots) a (inl ep) (inr hq) =
      inr (
        inl
          (subst (λ t. ¬ Walk graph t q) (sym ep) (All-In (λ s. ¬ Walk graph r s) q roots a.0 hq)))
  Apart-cases p q (r ∷ roots) a (inr hp) (inl eq) =
      inr (
        inr
          (subst (λ t. ¬ Walk graph t p) (sym eq) (All-In (λ s. ¬ Walk graph r s) p roots a.0 hp)))
  Apart-cases p q (r ∷ roots) a (inr hp) (inr hq) = Apart-cases p q roots a.1 hp hq

  -- In an undirected graph a node can be walked to from one representative only.
  pub one_root :
      (roots : List EdgePeer) (p q x : EdgePeer)
      → IsSymmetric
      → Apart graph roots
      → In p roots
      → In q roots
      → In x (nodes graph)
      → Walk graph p x
      → Walk graph q x
      → p ≡ q
  one_root roots p q x s a hp hq hx v w =
      let n = In-has_key peer_discrete x graph hx in
      elim (Apart-cases p q roots a hp hq) [
        | inl e ↦ e
        | inr (inl no_walk) ↦ absurd (no_walk (Walk-trans v (Walk-back s w n)))
        | inr (inr no_walk) ↦ absurd (no_walk (Walk-trans w (Walk-back s v n)))
      ]

  -- The node has one representative among the roots, and no other.
  abbrev pub HasOneRoot : List EdgePeer → EdgePeer → Type 0
  HasOneRoot roots x =
      (p : EdgePeer) × In p roots
      × Walk graph p x
      × ((q : EdgePeer) → In q roots → Walk graph q x → p ≡ q)
