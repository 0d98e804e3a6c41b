-- ===== src/Registry/Graph/Symmetric.antt =====
-- The third loop of `buildGraph` (registry/services/graph.go): when it makes the graph undirected,
-- and when it panics.
use sdcc_project.Base.{
  ◌≡◌, refl, ◌≢◌, ◌⊎◌, ◌↔◌, inl, inr, Bool, true, List, [], ◌∷◌, none, some, Outcome, ok, err,
  panic, deadlock, ◌>>=◌, All, All-mono, All-In, arith,
}
use sdcc_project.Base.Dict.{
  insert, lookup, lookup-insert, has_key, keys_of_map, has_key-In, All-has_key,
}
use sdcc_project.Registry.{EdgePeer, peer_discrete, Error}
use sdcc_project.Registry.Graph.{Graph, Adjs, adjs_of, nodes, link, link_all, undirect}

abbrev pub is_node : EdgePeer → Graph → Bool
is_node x graph = has_key peer_discrete x graph

abbrev pub has_edge : Graph → EdgePeer → EdgePeer → Bool
has_edge graph x y = has_key peer_discrete y (adjs_of x graph)

abbrev pub Succeeds {ℓ} : {A : Type ℓ} → (A → Type 0) → Outcome Error A → Type 0
Succeeds P (ok a) = P a
Succeeds P _ = ⊥

abbrev pub HasNoNil : Graph → Type 0
HasNoNil graph = (x : EdgePeer) → lookup peer_discrete x graph ≢ some none

-- How the loop may change the graph: the nodes stay, edges stay, and a new edge turns one round.
pub record Turns (g g' : Graph) : Type 0 where
  pub nodes_same : (x : EdgePeer) → is_node x g' ≡ is_node x g
  pub no_nil : HasNoNil g'
  pub kept : (x y : EdgePeer) → has_edge g x y ≡ true → has_edge g' x y ≡ true
  pub turned :
      (x y : EdgePeer) → has_edge g' x y ≡ true → (has_edge g x y ≡ true) ⊎ (has_edge g y x ≡ true)

Turns-refl : (g : Graph) → HasNoNil g → Turns g g
Turns-refl g n = record {
  nodes_same = λ x. refl;
  no_nil = n;
  kept = λ x y h. h;
  turned = λ x y h. inl h;
}

swap : {A B : Type 0} → A ⊎ B → B ⊎ A
swap (inl a) = inr a
swap (inr b) = inl b

Turns-trans : {f g h : Graph} → Turns f g → Turns g h → Turns f h
Turns-trans t u = record {
  nodes_same = λ x. ground (arith, t.nodes_same x, u.nodes_same x);
  no_nil = u.no_nil;
  kept = λ x y e. u.kept x y (t.kept x y e);
  turned =
      λ x y e. elim (u.turned x y e) [ inl a ↦ t.turned x y a | inr b ↦ swap (t.turned y x b) ];
}

has_edge-insert :
    (g : Graph) (node adj x y : EdgePeer) (adjs : Adjs)
    → lookup peer_discrete adj g ≡ some (some adjs)
    → (has_edge (insert peer_discrete adj (some (insert peer_discrete node 0 adjs)) g) x y ≡ true)
    → (has_edge g x y ≡ true) ⊎ ((x ≡ adj) × (y ≡ node))
has_edge-insert g node adj x y adjs e = ground (
  arith,
  lookup-insert peer_discrete adj x (some (insert peer_discrete node 0 adjs)) g,
  lookup-insert peer_discrete node y 0 adjs,
)

pub has_edge-insert_kept :
    (g : Graph) (node adj x y : EdgePeer) (adjs : Adjs)
    → lookup peer_discrete adj g ≡ some (some adjs)
    → has_edge g x y ≡ true
    → has_edge (insert peer_discrete adj (some (insert peer_discrete node 0 adjs)) g) x y ≡ true
has_edge-insert_kept g node adj x y adjs e = ground (
  arith,
  lookup-insert peer_discrete adj x (some (insert peer_discrete node 0 adjs)) g,
  lookup-insert peer_discrete node y 0 adjs,
)

has_edge-insert_new :
    (g : Graph) (node adj : EdgePeer) (adjs : Adjs)
    → has_edge (insert peer_discrete adj (some (insert peer_discrete node 0 adjs)) g) adj node
      ≡ true
has_edge-insert_new g node adj adjs = ground (
  arith,
  lookup-insert peer_discrete adj adj (some (insert peer_discrete node 0 adjs)) g,
  lookup-insert peer_discrete node node 0 adjs,
)

insert-Turns :
    (g : Graph) (node adj : EdgePeer) (adjs : Adjs)
    → HasNoNil g
    → lookup peer_discrete adj g ≡ some (some adjs)
    → has_edge g node adj ≡ true
    → Turns g (insert peer_discrete adj (some (insert peer_discrete node 0 adjs)) g)
insert-Turns g node adj adjs n e h = record {
  nodes_same = λ x.
      ground (arith, lookup-insert peer_discrete adj x (some (insert peer_discrete node 0 adjs)) g);
  no_nil = λ x k.
      ground
        (arith, n x, lookup-insert peer_discrete adj x (some (insert peer_discrete node 0 adjs)) g);
  kept = λ x y k. has_edge-insert_kept g node adj x y adjs e k;
  turned = λ x y k. elim (has_edge-insert g node adj x y adjs e k) [
    | inl old ↦ inl old
    | inr (p, q) ↦ inr (ground arith)
  ];
}

-- The edges of one node, turned round: to each of its neighbours that is a node.
abbrev Back : Graph → EdgePeer → EdgePeer → Type 0
Back g node adj = is_node adj g ≡ true → has_edge g adj node ≡ true

link-Turns :
    (g : Graph) (node adj : EdgePeer)
    → HasNoNil g
    → has_edge g node adj ≡ true
    → Succeeds (λ g'. Turns g g' × Back g' node adj) (link node adj g)
unfolding link
link-Turns g node adj n h =
    elim (lookup peer_discrete adj g)
        as (λ o.
          lookup peer_discrete adj g ≡ o
          → Succeeds (λ g'. Turns g g' × Back g' node adj)
              (elim o [
                | none ↦ ok g
                | some none ↦ panic
                | some (some adjs) ↦
                    ok (insert peer_discrete adj (some (insert peer_discrete node 0 adjs)) g)
              ])) [
                | none ↦ λ e. (Turns-refl g n, λ k. ground arith)
                | some none ↦ λ e. n adj e
                | some (some adjs) ↦ λ e.
                    (insert-Turns g node adj adjs n e h, λ k. has_edge-insert_new g node adj adjs)
              ]
      refl

bind-Succeeds {ℓ κ} :
    {A : Type ℓ} {B : Type κ} (P : A → Type 0) (Q : B → Type 0) (o : Outcome Error A)
    (k : A → Outcome Error B)
    → Succeeds P o
    → ((a : A) → P a → Succeeds Q (k a))
    → Succeeds Q (o >>= k)
bind-Succeeds P Q (ok a) k h f = f a h
bind-Succeeds P Q (err e) k h f = absurd h
bind-Succeeds P Q panic k h f = absurd h
bind-Succeeds P Q deadlock k h f = absurd h

pub Succeeds-mono {ℓ} :
    {A : Type ℓ} (P Q : A → Type 0) (o : Outcome Error A)
    → ((a : A) → P a → Q a)
    → Succeeds P o
    → Succeeds Q o
Succeeds-mono P Q (ok a) f h = f a h
Succeeds-mono P Q (err e) f h = h
Succeeds-mono P Q panic f h = h
Succeeds-mono P Q deadlock f h = h

abbrev EdgesFrom : Graph → EdgePeer → Adjs → Type 0
EdgesFrom g node l = All (λ e. has_edge g node e.0 ≡ true) l

Back-kept : (g g' : Graph) (node adj : EdgePeer) → Turns g g' → Back g node adj → Back g' node adj
Back-kept g g' node adj t b k = t.kept adj node (b (ground (arith, t.nodes_same adj)))

-- What the inner loop makes of the neighbours `l` of a node.
abbrev LinksAll : Graph → EdgePeer → Adjs → Graph → Type 0
LinksAll g node l g' = Turns g g' × All (λ e. Back g' node e.0) l

link_all-Turns :
    (node : EdgePeer) (l : Adjs) (g : Graph)
    → HasNoNil g
    → EdgesFrom g node l
    → Succeeds (LinksAll g node l) (link_all node l g)
unfolding link_all
link_all-Turns node [] g n h = (Turns-refl g n, tt)
link_all-Turns node ((adj, byte) ∷ l) g n h =
    bind-Succeeds (λ g'. Turns g g' × Back g' node adj) (LinksAll g node ((adj, byte) ∷ l))
      (link node adj g) (link_all node l) (link-Turns g node adj n h.0)
      λ g' tb.
        Succeeds-mono (LinksAll g' node l) (LinksAll g node ((adj, byte) ∷ l)) (link_all node l g')
          (λ g'' ub. (Turns-trans tb.0 ub.0, (Back-kept g' g'' node adj ub.0 tb.1, ub.1)))
          (link_all-Turns node l g' tb.0.no_nil (
            All-mono (λ e. has_edge g node e.0 ≡ true) (λ e. has_edge g' node e.0 ≡ true) l
              (λ e k. tb.0.kept node e.0 k) h.1))

-- What the outer loop makes of the nodes `l`.
abbrev Undirects : Graph → List EdgePeer → Graph → Type 0
Undirects g l g' = Turns g g' × All (λ n. (y : EdgePeer) → has_edge g n y ≡ true → Back g' n y) l

undirect-Turns :
    (l : List EdgePeer) (g : Graph) → HasNoNil g → Succeeds (Undirects g l) (undirect l g)
unfolding undirect
undirect-Turns [] g n = (Turns-refl g n, tt)
undirect-Turns (node ∷ l) g n =
    bind-Succeeds (LinksAll g node (adjs_of node g)) (Undirects g (node ∷ l))
      (link_all node (adjs_of node g) g) (undirect l)
      (link_all-Turns node (adjs_of node g) g n (keys_of_map peer_discrete (adjs_of node g)))
      λ g' tb.
        Succeeds-mono (Undirects g' l) (Undirects g (node ∷ l)) (undirect l g')
          (λ g'' uc. (
            Turns-trans tb.0 uc.0,
            (
              λ y e.
                  Back-kept g' g'' node y uc.0
                    (All-has_key peer_discrete (Back g' node) y (adjs_of node g) tb.1 e),
              All-mono (λ m. (y : EdgePeer) → has_edge g' m y ≡ true → Back g'' m y)
                  (λ m. (y : EdgePeer) → has_edge g m y ≡ true → Back g'' m y) l
                  (λ m c y e. c y (tb.0.kept m y e)) uc.1,
            ),
          ))
          (undirect-Turns l g' tb.0.no_nil)

-- In the graph `g'` two nodes are neighbours of one another exactly if one of them reported the
-- other in `g`; the nodes are the same.
pub record IsUndirected (g g' : Graph) : Type 0 where
  pub nodes_same : (x : EdgePeer) → is_node x g' ≡ is_node x g
  pub edges :
      (x y : EdgePeer)
      → is_node x g ≡ true
      → is_node y g ≡ true
      → (has_edge g' x y ≡ true) ↔ ((has_edge g x y ≡ true) ⊎ (has_edge g y x ≡ true))

-- If every `GetNeighbours` that the registry takes up succeeded, so that no adjacency map is nil,
-- then the third loop of `buildGraph` ends without a panic in the undirected graph of the reported
-- neighbours.
pub undirect-IsUndirected :
    (g : Graph) → HasNoNil g → Succeeds (IsUndirected g) (undirect (nodes g) g)
undirect-IsUndirected g n =
    Succeeds-mono (Undirects g (nodes g)) (IsUndirected g) (undirect (nodes g) g)
      (λ g' h. record {
        nodes_same = h.0.nodes_same;
        edges = λ x y kx ky. (
          λ e. h.0.turned x y e,
          λ s. elim s [
            | inl e ↦ h.0.kept x y e
            | inr e ↦
                All-In (λ m. (z : EdgePeer) → has_edge g m z ≡ true → Back g' m z) y (nodes g) h.1
                  (has_key-In peer_discrete y g ky) x e (ground (arith, h.0.nodes_same x))
          ],
        );
      })
      (undirect-Turns (nodes g) g n)
