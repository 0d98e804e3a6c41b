-- ===== src/Edge/Peer/Join/Held.antt =====
-- What connectAndNotifyYourAdjacent (edge/peer/peer.go) leaves of the neighbours of every edge node.
use sdcc_project.Base.{
  ◌≡◌, refl, ◌∙◌, ap, ℕ, Bool, true, false, ◌&&◌, ◌||◌, List, [], ◌∷◌, Option, some, ite,
  Option-cases, Bool-cases, inl, inr,
}
use sdcc_project.Base.Int.{pos}
use sdcc_project.Base.Dict.{lookup, has_key, lookup-insert, is_some}
use sdcc_project.Edge.Peer.{EdgePeer, peer_discrete, AdjConnection}
use sdcc_project.Edge.Peer.Network.{
  AdjacentPeers, connected, connect_and_add_neighbour, add_neighbour,
}
use sdcc_project.Edge.Peer.Join.{
  Fate, arrives, Net, Joined, set_node, call_adj_add_neighbour, join_one,
  connect_and_notify_your_adjacent,
}

abbrev pub same : EdgePeer → EdgePeer → Bool
same p q = ite (peer_discrete p q) true false

abbrev pub reached : (EdgePeer → EdgePeer → Option ℕ) → EdgePeer → EdgePeer → Bool
reached reach x y = is_some (reach x y)

kept_or_new :
    {q y : EdgePeer} (c : AdjConnection) (d : Dec (q ≡ y)) (o : Option AdjConnection)
    → is_some (ite d (some c) o) ≡ (ite d true false || is_some o)
kept_or_new c (yes e) o = refl
kept_or_new c (no n) o = refl

module _ {Filter : Type 0} where
  -- Whether the node has a connection to `y`.
  abbrev pub holds : EdgePeer → AdjacentPeers Filter → Bool
  holds y adj = has_key peer_discrete y adj.peer_conns

  connected-holds :
      (q y : EdgePeer) (c : ℕ) (adj : AdjacentPeers Filter)
      → holds y (connected q c adj) ≡ (same q y || holds y adj)
  connected-holds q y c adj =
      ap is_some (
        lookup-insert peer_discrete q y (record { peer_connection = c; missed_ping = pos 0 })
          adj.peer_conns)
      ∙ kept_or_new (record { peer_connection = c; missed_ping = pos 0 }) (peer_discrete q y)
          (lookup peer_discrete y adj.peer_conns)

  set_node_if :
      {q x : EdgePeer} (d : Dec (q ≡ x)) (y : EdgePeer) (b : Bool) (adj : AdjacentPeers Filter)
      (net : Net Filter)
      → holds y adj ≡ (b || holds y (net q))
      → holds y (ite d adj (net x)) ≡ (ite d true false && b || holds y (net x))
  set_node_if (yes e) y b adj net h = h ∙ ap (λ z. b || holds y (net z)) e
  set_node_if (no n) y b adj net h = refl

pub or_true : (b : Bool) → (b || true) ≡ true
or_true true = refl
or_true false = refl

pub and_none : (b : Bool) → (b && false) ≡ false
and_none true = refl
and_none false = refl

or_swap : (a b c : Bool) → (a || (b || c)) ≡ ((b || a) || c)
or_swap a true c = rw (or_true a) refl
or_swap a false c = refl

-- The loop: `p` to a listed peer, and that peer to `p`.
module _ (reach : EdgePeer → EdgePeer → Option ℕ) (fate : EdgePeer → Fate) where
  -- What one round of the loop adds: `p` to `q` and, if the call arrives and `q` can dial back, `q` to `p`.
  abbrev pub added : EdgePeer → EdgePeer → EdgePeer → EdgePeer → Bool
  added p q x y =
      reached reach p q
      && (same p x && same q y || same q x && (arrives (fate q) && (reached reach q p && same p y)))

  abbrev pub joins : EdgePeer → List (EdgePeer × ℕ) → EdgePeer → EdgePeer → Bool
  joins p [] x y = false
  joins p ((q, flag) ∷ l) x y = added p q x y || joins p l x y

module _ {Filter : Type 0} (reach : EdgePeer → EdgePeer → Option ℕ) (fate : EdgePeer → Fate) where
  add_neighbour-holds :
      (x p y : EdgePeer) (adj : AdjacentPeers Filter)
      → holds y (add_neighbour (reach x) p adj).1 ≡ (reached reach x p && same p y || holds y adj)
  unfolding add_neighbour connect_and_add_neighbour
  add_neighbour-holds x p y adj = elim (Option-cases (reach x p)) [
    | inl e ↦ rw (e, add_neighbour, connect_and_add_neighbour) refl
    | inr (c, e) ↦ rw (e, add_neighbour, connect_and_add_neighbour) (connected-holds p y c adj)
  ]

  -- What the call at `q` adds, seen from any node.
  call-holds :
      (p q x y : EdgePeer) (net : Net Filter)
      → holds y ((call_adj_add_neighbour reach fate q p net).1 x)
        ≡ (same q x && (arrives (fate q) && (reached reach q p && same p y)) || holds y (net x))
  unfolding call_adj_add_neighbour
  call-holds p q x y net = elim (Bool-cases (arrives (fate q))) [
    | inl a ↦ rw a (
        set_node_if (peer_discrete q x) y (reached reach q p && same p y)
          (add_neighbour (reach q) p (net q)).1 net (add_neighbour-holds q p y (net q)))
    | inr a ↦ rw (a, and_none (same q x)) refl
  ]

  join_one-holds :
      (p q x y : EdgePeer) (joined : Joined Filter)
      → holds y ((join_one reach fate p q joined).net x)
        ≡ (added reach fate p q x y || holds y (joined.net x))
  unfolding join_one connect_and_add_neighbour
  join_one-holds p q x y joined = elim (Option-cases (reach p q)) [
    | inl e ↦ rw (e, join_one, connect_and_add_neighbour) refl
    | inr (c, e) ↦
        rw (e, join_one, connect_and_add_neighbour)
          (call-holds p q x y (set_node p (connected q c (joined.net p)) joined.net)
            ∙ ap (λ z. same q x && (arrives (fate q) && (reached reach q p && same p y)) || z)
                (set_node_if (peer_discrete p x) y (same q y) (connected q c (joined.net p))
                  joined.net (connected-holds q y c (joined.net p)))
            ∙ or_swap (same q x && (arrives (fate q) && (reached reach q p && same p y)))
                (same p x && same q y) (holds y (joined.net x)))
  ]

  pub loop-holds :
      (p x y : EdgePeer) (l : List (EdgePeer × ℕ)) (joined : Joined Filter)
      → holds y ((connect_and_notify_your_adjacent reach fate p l joined).net x)
        ≡ (joins reach fate p l x y || holds y (joined.net x))
  unfolding connect_and_notify_your_adjacent
  loop-holds p x y [] joined = refl
  loop-holds p x y ((q, flag) ∷ l) joined =
      loop-holds p x y l (join_one reach fate p q joined)
      ∙ ap (λ z. joins reach fate p l x y || z) (join_one-holds p q x y joined)
      ∙ or_swap (joins reach fate p l x y) (added reach fate p q x y) (holds y (joined.net x))
