-- ===== src/Registry/Search/Marks.antt =====
-- The marks of the search of registry/services/graph.go: which peers are visited, how many are
-- still pending, and what a call of the search may do to them.
use sdcc_project.Base.{
  ℕ, suc, ◌≤◌, ◌≡◌, refl, ◌⊎◌, inl, inr, Bool, true, false, List, [], ◌∷◌, Option, none, some, In,
  arith, length, sym,
}
use sdcc_project.Base.Dict.{insert, lookup, lookup-insert}
use sdcc_project.Registry.{EdgePeer, peer_discrete}
use sdcc_project.Registry.Graph.{Graph}
use sdcc_project.Registry.Search.{Visited, neighbours, unvisited}

-- A walk along edges of the graph.
pub data Walk (graph : Graph) : EdgePeer → EdgePeer → Type 0 where
  here : {x : EdgePeer} → Walk graph x x
  via : {x y z : EdgePeer} → In y (neighbours graph x) → Walk graph y z → Walk graph x z

abbrev pub IsVisited : Visited → EdgePeer → Type 0
IsVisited v x = lookup peer_discrete x v ≡ some true

abbrev pub IsPending : Visited → EdgePeer → Type 0
IsPending v x = lookup peer_discrete x v ≡ some false

-- Nothing is left to do at a peer: it is visited, or it is no node.
abbrev pub IsDone : Visited → EdgePeer → Type 0
IsDone v x = (lookup peer_discrete x v ≡ none) ⊎ IsVisited v x

pub mark_cases : (o : Option Bool) → (o ≡ none) ⊎ ((o ≡ some true) ⊎ (o ≡ some false))
mark_cases none = inl refl
mark_cases (some true) = inr (inl refl)
mark_cases (some false) = inr (inr refl)

pub pending : Visited → ℕ
pending [] = 0
pending ((x, true) ∷ v) = pending v
pending ((x, false) ∷ v) = suc (pending v)

pub pending-mark :
    (p : EdgePeer) (v : Visited)
    → IsPending v p
    → suc (pending (insert peer_discrete p true v)) ≡ pending v
unfolding pending insert lookup
pending-mark p [] h = absurd (ground arith)
pending-mark p ((x, true) ∷ v) h = ground (arith, pending-mark p v)
pending-mark p ((x, false) ∷ v) h = ground (arith, pending-mark p v)

pub pending-pos : (p : EdgePeer) (v : Visited) → IsPending v p → suc 0 ≤ pending v
pending-pos p v h = omega (arith, pending-mark p v h)

-- How marks may change: a mark stays, and no peer is added or lost.
pub record Grows (v v' : Visited) : Type 0 where
  pub visited : (x : EdgePeer) → IsVisited v x → IsVisited v' x
  pub absent : (x : EdgePeer) → lookup peer_discrete x v ≡ none → lookup peer_discrete x v' ≡ none
  pub present : (x : EdgePeer) → lookup peer_discrete x v' ≡ none → lookup peer_discrete x v ≡ none
  pub fewer : pending v' ≤ pending v

pub Grows-refl : (v : Visited) → Grows v v
Grows-refl v = record {
  visited = λ x h. h;
  absent = λ x h. h;
  present = λ x h. h;
  fewer = omega arith;
}

pub Grows-trans : {u v w : Visited} → Grows u v → Grows v w → Grows u w
Grows-trans g h = record {
  visited = λ x k. h.visited x (g.visited x k);
  absent = λ x k. h.absent x (g.absent x k);
  present = λ x k. g.present x (h.present x k);
  fewer = omega (arith, g.fewer, h.fewer);
}

pub Grows-IsDone : {v w : Visited} (x : EdgePeer) → Grows v w → IsDone v x → IsDone w x
Grows-IsDone x g (inl h) = inl (g.absent x h)
Grows-IsDone x g (inr h) = inr (g.visited x h)

-- To mark a pending peer.
pub Grows-mark :
    (p : EdgePeer) (v : Visited) → IsPending v p → Grows v (insert peer_discrete p true v)
Grows-mark p v h = record {
  visited = λ x k. ground (arith, lookup-insert peer_discrete p x true v);
  absent = λ x k. ground (arith, lookup-insert peer_discrete p x true v);
  present = λ x k. ground (arith, lookup-insert peer_discrete p x true v);
  fewer = omega (arith, pending-mark p v h);
}

-- The peer that was marked, and no other, is new.
pub mark_cases_insert :
    (p x : EdgePeer) (v : Visited)
    → IsVisited (insert peer_discrete p true v) x
    → (x ≡ p) ⊎ IsVisited v x
mark_cases_insert p x v h = elim (peer_discrete p x) [
  | yes e ↦ inl (sym e)
  | no n ↦ inr (ground (arith, lookup-insert peer_discrete p x true v))
]

pub mark-IsVisited : (p : EdgePeer) (v : Visited) → IsVisited (insert peer_discrete p true v) p
mark-IsVisited p v = ground (arith, lookup-insert peer_discrete p p true v)

pending-unmark :
    (p : EdgePeer) (v : Visited) → pending (insert peer_discrete p false v) ≤ suc (pending v)
unfolding pending insert
pending-unmark p [] = omega arith
pending-unmark p ((x, true) ∷ v) = ground (arith, pending-unmark p v)
pending-unmark p ((x, false) ∷ v) = ground (arith, pending-unmark p v)

pub pending-unvisited : (l : List EdgePeer) → pending (unvisited l) ≤ length l
unfolding unvisited pending
pending-unvisited [] = omega arith
pending-unvisited (x ∷ l) = omega (arith, pending-unmark x (unvisited l), pending-unvisited l)
