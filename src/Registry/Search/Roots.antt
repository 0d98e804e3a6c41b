-- ===== src/Registry/Search/Roots.antt =====
-- `FindConnectedComponents` (registry/services/graph.go) as a whole: one representative of each
-- connected component.
use sdcc_project.Base.{
  ℕ, suc, ◌≤◌, ◌≡◌, refl, ◌⊎◌, inl, inr, false, List, [], ◌∷◌, ◌++◌, map, none, All, All-mono,
  All-In, In, arith, subst, sym, ◌∙◌, ap, length,
}
use mathlib.Core.List.{append-nil, append_assoc}
use sdcc_project.Base.Dict.{lookup, lookup-insert}
use sdcc_project.Registry.{EdgePeer, peer_discrete}
use sdcc_project.Registry.Graph.{Graph, nodes, adjs_of}
use sdcc_project.Registry.Search.{
  Visited, neighbours, search, components_from, unvisited, find_connected_components,
}
use sdcc_project.Registry.Search.Marks.{
  Walk, here, via, IsVisited, IsPending, IsDone, mark_cases, pending, pending-unvisited, Grows,
  Grows-refl, Grows-trans, Grows-IsDone,
}
use sdcc_project.Registry.Search.Visit.{
  Returns, Returns-mono, bind-Returns, IsClosed, IsClosed-mono, FromSome, Searches, search-Searches,
}

abbrev pub singles : List EdgePeer → List (List EdgePeer)
singles = map (λ r. r ∷ [])

Grows-IsPending : {v w : Visited} (x : EdgePeer) → Grows v w → IsPending w x → IsPending v x
Grows-IsPending {v} x g h = elim (mark_cases (lookup peer_discrete x v)) [
  | inl absent ↦ absurd (ground (arith, g.absent x absent))
  | inr (inl visited) ↦ absurd (ground (arith, g.visited x visited))
  | inr (inr waits) ↦ waits
]

done_not_pending : (v : Visited) (x : EdgePeer) → IsDone v x → IsPending v x → ⊥
done_not_pending v x d p = ground arith

module _ (graph : Graph) where
  -- No walk leads from an earlier root to a later one.
  abbrev pub Apart : List EdgePeer → Type 0
  Apart [] = Unit
  Apart (r ∷ rs) = All (λ s. ¬ Walk graph r s) rs × Apart rs

  -- Marks between two searches: no visited peer has a pending neighbour, and only nodes have
  -- neighbours.
  pub record IsSettled (v : Visited) : Type 0 where
    pub closed : (x : EdgePeer) → IsVisited v x → IsClosed graph v x
    pub covers : (x : EdgePeer) → lookup peer_discrete x v ≡ none → neighbours graph x ≡ []

  Walk-IsDone :
      {v : Visited} {x y : EdgePeer} → IsSettled v → Walk graph x y → IsDone v x → IsDone v y
  Walk-IsDone s here d = d
  Walk-IsDone s (via {x = a} {y = b} at w) (inl absent) =
      absurd (subst (In b) (s.covers a absent) at)
  Walk-IsDone {v} s (via {x = a} {y = b} {z = c} at w) (inr visited) =
      Walk-IsDone s w (All-In (IsDone v) b (neighbours graph a) (s.closed a visited) at)

  search-IsSettled :
      (p : EdgePeer) (v : Visited) (a : List EdgePeer × Visited)
      → IsSettled v
      → Searches graph p v a
      → IsSettled a.1
  search-IsSettled p v a s h = record {
    closed = λ x k. elim (h.closed x k) [
      | inl old ↦ IsClosed-mono graph x h.grows (s.closed x old)
      | inr c ↦ c
    ];
    covers = λ x k. s.covers x (h.grows.present x k);
  }

  -- What the loop over the peers `l` makes of marks and components.
  pub record Roots (l roots : List EdgePeer) (comps : List (List EdgePeer)) (v : Visited)
      (r : List (List EdgePeer) × Visited) : Type 0 where
    pub components : r.0 ≡ comps ++ singles roots
    pub grows : Grows v r.1
    pub done : All (IsDone r.1) l
    pub walks : (x : EdgePeer) → IsVisited r.1 x → IsVisited v x ⊎ FromSome graph roots x
    pub apart : Apart roots
    pub waiting : All (IsPending v) roots

  abbrev HasRoots :
      List EdgePeer → List (List EdgePeer) → Visited → List (List EdgePeer) × Visited → Type 0
  HasRoots l comps v r = (roots : List EdgePeer) × Roots l roots comps v r

  skip-Roots :
      (p : EdgePeer) (l : List EdgePeer) (comps : List (List EdgePeer)) (v : Visited)
      (r : List (List EdgePeer) × Visited)
      → IsDone v p
      → HasRoots l comps v r
      → HasRoots (p ∷ l) comps v r
  skip-Roots p l comps v r d (roots, h) = (
    roots,
    record {
      components = h.components;
      grows = h.grows;
      done = (Grows-IsDone p h.grows d, h.done);
      walks = h.walks;
      apart = h.apart;
      waiting = h.waiting;
    },
  )

  join-Roots :
      (p : EdgePeer) (l : List EdgePeer) (comps : List (List EdgePeer)) (v : Visited)
      (a : List EdgePeer × Visited) (r : List (List EdgePeer) × Visited)
      → IsSettled v
      → IsPending v p
      → Searches graph p v a
      → HasRoots l (comps ++ ((a.0 ++ (p ∷ [])) ∷ [])) a.1 r
      → HasRoots (p ∷ l) comps v r
  join-Roots p l comps v a r settled waits s (roots, h) = (
    p ∷ roots,
    record {
      components =
          h.components
          ∙ (append_assoc comps ((a.0 ++ (p ∷ [])) ∷ []) (singles roots)
              ∙ ap (λ f. comps ++ ((f ++ (p ∷ [])) ∷ singles roots)) s.found_none);
      grows = Grows-trans s.grows h.grows;
      done = (inr (h.grows.visited p s.start), h.done);
      walks = λ x k. elim (h.walks x k) [
        | inl before ↦ elim (s.walks x before) [ inl old ↦ inl old | inr w ↦ inr (p, inl refl, w) ]
        | inr (m, at, w) ↦ inr (m, inr at, w)
      ];
      apart = (
        All-mono (IsPending a.1) (λ q. ¬ Walk graph p q) roots
            (λ q k w.
              done_not_pending a.1 q
                (Walk-IsDone (search-IsSettled p v a settled s) w (inr s.start)) k)
            h.waiting,
        h.apart,
      );
      waiting = (
        waits,
        All-mono (IsPending a.1) (IsPending v) roots (λ q k. Grows-IsPending q s.grows k) h.waiting,
      );
    },
  )

  components_from-Roots :
      (fuel : ℕ) (l : List EdgePeer) (comps : List (List EdgePeer)) (v : Visited)
      → IsSettled v
      → pending v ≤ fuel
      → Returns (HasRoots l comps v) (components_from graph fuel l comps v)
  unfolding components_from
  components_from-Roots fuel [] comps v settled le = (
    [],
    record {
      components = sym (append-nil comps);
      grows = Grows-refl v;
      done = tt;
      walks = λ x h. inl h;
      apart = tt;
      waiting = tt;
    },
  )
  components_from-Roots fuel (p ∷ l) comps v settled le =
      elim (mark_cases (lookup peer_discrete p v)) [
        | inl absent ↦
            rw (absent, components_from)
              (Returns-mono (HasRoots l comps v) (HasRoots (p ∷ l) comps v) _
                (λ r h. skip-Roots p l comps v r (inl absent) h)
                (components_from-Roots fuel l comps v settled le))
        | inr (inl visited) ↦
            rw (visited, components_from)
              (Returns-mono (HasRoots l comps v) (HasRoots (p ∷ l) comps v) _
                (λ r h. skip-Roots p l comps v r (inr visited) h)
                (components_from-Roots fuel l comps v settled le))
        | inr (inr waits) ↦
            rw (waits, components_from)
              (bind-Returns (Searches graph p v) (HasRoots (p ∷ l) comps v) (search graph fuel p v)
                _ (search-Searches graph fuel p v waits le)
                (λ a s.
                  Returns-mono (HasRoots l (comps ++ ((a.0 ++ (p ∷ [])) ∷ [])) a.1)
                    (HasRoots (p ∷ l) comps v) _
                    (λ r h. join-Roots p l comps v a r settled waits s h)
                    (components_from-Roots fuel l (comps ++ ((a.0 ++ (p ∷ [])) ∷ [])) a.1
                      (search-IsSettled p v a settled s) (omega (arith, s.grows.fewer)))))
      ]

unvisited-mark :
    (x : EdgePeer) (l : List EdgePeer)
    → (lookup peer_discrete x (unvisited l) ≡ none) ⊎ IsPending (unvisited l) x
unfolding unvisited lookup
unvisited-mark x [] = inl refl
unvisited-mark x (y ∷ l) =
    ground (arith, lookup-insert peer_discrete y x false (unvisited l), unvisited-mark x l)

unvisited-In : (x : EdgePeer) (l : List EdgePeer) → In x l → IsPending (unvisited l) x
unfolding unvisited
unvisited-In x [] h = absurd h
unvisited-In x (y ∷ l) (inl e) = ground (arith, lookup-insert peer_discrete y x false (unvisited l))
unvisited-In x (y ∷ l) (inr h) =
    ground (arith, lookup-insert peer_discrete y x false (unvisited l), unvisited-In x l h)

unvisited-none :
    (x : EdgePeer) (graph : Graph)
    → lookup peer_discrete x (unvisited (nodes graph)) ≡ none
    → lookup peer_discrete x graph ≡ none
unfolding unvisited lookup
unvisited-none x [] h = refl
unvisited-none x ((y, a) ∷ graph) h =
    ground (
      arith,
      lookup-insert peer_discrete y x false (unvisited (nodes graph)),
      unvisited-none x graph,
    )

no_adjs :
    (x : EdgePeer) (graph : Graph) → lookup peer_discrete x graph ≡ none → adjs_of x graph ≡ []
no_adjs x graph h = ground arith

unvisited-IsSettled : (graph : Graph) → IsSettled graph (unvisited (nodes graph))
unvisited-IsSettled graph = record {
  closed = λ x h. absurd (ground (arith, unvisited-mark x (nodes graph)));
  covers = λ x h. ap (map (λ e. e.0)) (no_adjs x graph (unvisited-none x graph h));
}

unvisited_pending_In : (x : EdgePeer) (l : List EdgePeer) → IsPending (unvisited l) x → In x l
unfolding unvisited lookup
unvisited_pending_In x [] h = ground arith
unvisited_pending_In x (y ∷ l) h = elim (peer_discrete y x) [
  | yes e ↦ inl (sym e)
  | no n ↦ inr (
      unvisited_pending_In x l
        (ground (arith, lookup-insert peer_discrete y x false (unvisited l))))
]

-- The components that a search may report: one list for each of some representatives, which holds
-- the representative alone.
pub record IsPartition (graph : Graph) (roots : List EdgePeer) (r : List (List EdgePeer) × Visited)
    : Type 0 where
  pub components : r.0 ≡ singles roots
  pub reached : All (FromSome graph roots) (nodes graph)
  pub apart : Apart graph roots
  pub are_nodes : All (λ p. In p (nodes graph)) roots

pub list_members : (l : List EdgePeer) → All (λ x. In x l) l
list_members [] = tt
list_members (x ∷ l) =
    (inl refl, All-mono (λ y. In y l) (λ y. In y (x ∷ l)) l (λ y h. inr h) (list_members l))

All-both :
    (P Q : EdgePeer → Type 0) (l : List EdgePeer) → All P l → All Q l → All (λ x. P x × Q x) l
All-both P Q [] h k = tt
All-both P Q (x ∷ l) h k = ((h.0, k.0), All-both P Q l h.1 k.1)

reached-FromSome :
    (graph : Graph) (roots : List EdgePeer) (v : Visited) (x : EdgePeer)
    → Grows (unvisited (nodes graph)) v
    → ((y : EdgePeer)
        → IsVisited v y
        → IsVisited (unvisited (nodes graph)) y ⊎ FromSome graph roots y)
    → IsDone v x
    → In x (nodes graph)
    → FromSome graph roots x
reached-FromSome graph roots v x grows walks (inl absent) at =
    absurd (ground (arith, grows.present x absent, unvisited-In x (nodes graph) at))
reached-FromSome graph roots v x grows walks (inr visited) at = elim (walks x visited) [
  | inl old ↦ absurd (ground (arith, unvisited-mark x (nodes graph)))
  | inr w ↦ w
]

length-nodes : (graph : Graph) → length (nodes graph) ≡ length graph
length-nodes [] = refl
length-nodes (e ∷ graph) = ap suc (length-nodes graph)

roots-IsPartition :
    (graph : Graph) (r : List (List EdgePeer) × Visited)
    → HasRoots graph (nodes graph) [] (unvisited (nodes graph)) r
    → (roots : List EdgePeer) × IsPartition graph roots r
roots-IsPartition graph r (roots, h) = (
  roots,
  record {
    components = h.components;
    reached =
        All-mono (λ x. IsDone r.1 x × In x (nodes graph)) (FromSome graph roots) (nodes graph)
          (λ x k. reached-FromSome graph roots r.1 x h.grows h.walks k.0 k.1)
          (All-both (IsDone r.1) (λ x. In x (nodes graph)) (nodes graph) h.done
            (list_members (nodes graph)));
    apart = h.apart;
    are_nodes =
        All-mono (IsPending (unvisited (nodes graph))) (λ p. In p (nodes graph)) roots
          (λ p k. unvisited_pending_In p (nodes graph) k) h.waiting;
  },
)

-- `FindConnectedComponents` always ends, and reports one component for each of some nodes, its
-- representatives: every node can be walked to from one of them, and no walk leads from an earlier
-- one to a later one. Each component that it reports holds its representative and nothing else.
pub find_connected_components-IsPartition :
    (graph : Graph)
    → Returns
        (λ r. (roots : List EdgePeer) × IsPartition graph roots r)
        (find_connected_components graph)
unfolding find_connected_components
find_connected_components-IsPartition graph =
    Returns-mono (HasRoots graph (nodes graph) [] (unvisited (nodes graph)))
      (λ r. (roots : List EdgePeer) × IsPartition graph roots r) _ (roots-IsPartition graph)
      (components_from-Roots graph (suc (length graph)) (nodes graph) [] (unvisited (nodes graph))
        (unvisited-IsSettled graph)
        (omega (arith, pending-unvisited (nodes graph), length-nodes graph)))
