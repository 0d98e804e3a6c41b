-- ===== src/Edge/Peer/Join/Symmetry.antt =====
-- Whether the neighbours of edge nodes know each other when a peer has joined (edge/peer/peer.go): the registry takes the
-- network as an undirected graph.
use sdcc_project.Base.{
  ◌≡◌, refl, ◌∙◌, sym, ℕ, Bool, true, ◌&&◌, ◌||◌, List, [], ◌∷◌, Option, Option-cases, Bool-cases,
  inl, inr, All, arith, ap,
}
use sdcc_project.Base.Dict.{is_some}
use sdcc_project.Edge.Peer.{EdgePeer}
use sdcc_project.Edge.Peer.Network.{connect_and_add_neighbour, add_neighbour, connected}
use sdcc_project.Edge.Peer.Join.{
  Fate, arrives, answered, too_late, lost, in_time, call_adj_add_neighbour, join_one, set_node, Net,
  Joined, connect_and_notify_your_adjacent,
}
use sdcc_project.Edge.Peer.Join.Held.{same, holds, reached, added, joins, loop-holds}

module _ {Filter : Type 0} where
  abbrev pub IsSymmetric : Net Filter → Type 0
  IsSymmetric net = (x y : EdgePeer) → holds y (net x) ≡ holds x (net y)

crossed : (a b c d : Bool) → ((a && b) || (c && d)) ≡ ((d && c) || (b && a))
crossed a b c d = ground arith

timely : (f : Fate) → in_time f ≡ true → arrives f ≡ true
timely answered h = refl
timely too_late h = absurd (ground arith)
timely lost h = absurd (ground arith)

module _ (reach : EdgePeer → EdgePeer → Option ℕ) (fate : EdgePeer → Fate) where
  -- A peer that is dialed can dial back, and its answer to the call is in time.
  pub record Answers (p q : EdgePeer) : Type 0 where
    pub dials_back : reached reach p q ≡ true → reached reach q p ≡ true
    pub gets : in_time (fate q) ≡ true

  added-symmetric :
      (p q x y : EdgePeer) → Answers p q → added reach fate p q x y ≡ added reach fate p q y x
  added-symmetric p q x y h = elim (Bool-cases (reached reach p q)) [
    | inl e ↦
        rw (e, timely (fate q) h.gets, h.dials_back e)
          (crossed (same p x) (same q y) (same q x) (same p y))
    | inr e ↦ rw e refl
  ]

  joins-symmetric :
      (p x y : EdgePeer) (l : List (EdgePeer × ℕ))
      → All (λ e. Answers p e.0) l
      → joins reach fate p l x y ≡ joins reach fate p l y x
  joins-symmetric p x y [] h = refl
  joins-symmetric p x y ((q, flag) ∷ l) h =
      rw (added-symmetric p q x y h.0, joins-symmetric p x y l h.1) refl

module _ {Filter : Type 0} (reach : EdgePeer → EdgePeer → Option ℕ) (fate : EdgePeer → Fate) where
  call_returns :
      (p q : EdgePeer) (net : Net Filter)
      → in_time (fate q) ≡ true
      → reached reach q p ≡ true
      → (call_adj_add_neighbour reach fate q p net).0 ≡ true
  unfolding call_adj_add_neighbour add_neighbour connect_and_add_neighbour
  call_returns p q net t b = elim (Option-cases (reach q p)) [
    | inl e ↦ absurd (ground (arith, e))
    | inr (c, e) ↦ rw (timely (fate q) t, t, e, add_neighbour, connect_and_add_neighbour) refl
  ]

  step-keeps :
      (p q : EdgePeer) (joined : Joined Filter)
      → Answers reach fate p q
      → (join_one reach fate p q joined).closed ≡ joined.closed
  unfolding join_one connect_and_add_neighbour
  step-keeps p q joined h = elim (Option-cases (reach p q)) [
    | inl e ↦ rw (e, join_one, connect_and_add_neighbour) refl
    | inr (c, e) ↦
        rw
          (
            e,
            join_one,
            connect_and_add_neighbour,
            call_returns p q (set_node p (connected q c (joined.net p)) joined.net) h.gets
                (h.dials_back (ap is_some e)),
          )
          refl
  ]

  loop-keeps :
      (p : EdgePeer) (l : List (EdgePeer × ℕ)) (joined : Joined Filter)
      → All (λ e. Answers reach fate p e.0) l
      → (connect_and_notify_your_adjacent reach fate p l joined).closed ≡ joined.closed
  unfolding connect_and_notify_your_adjacent
  loop-keeps p [] joined h = refl
  loop-keeps p ((q, flag) ∷ l) joined h =
      loop-keeps p l (join_one reach fate p q joined) h.1 ∙ step-keeps p q joined h.0

  -- If the maps of connections are symmetric, and every listed neighbour that the new peer dials can dial back and answers the
  -- call in time, then joining closes no connection and leaves the maps symmetric: a node has an entry for another
  -- exactly if that one has an entry for it.
  pub connect_and_notify_your_adjacent-IsSymmetric :
      (p : EdgePeer) (l : List (EdgePeer × ℕ)) (joined : Joined Filter)
      → All (λ e. Answers reach fate p e.0) l
      → IsSymmetric joined.net
      → ((connect_and_notify_your_adjacent reach fate p l joined).closed ≡ joined.closed)
        × IsSymmetric (connect_and_notify_your_adjacent reach fate p l joined).net
  connect_and_notify_your_adjacent-IsSymmetric p l joined h s = (
    loop-keeps p l joined h,
    λ x y.
        loop-holds reach fate p x y l joined
        ∙ rw (joins-symmetric reach fate p x y l h, s x y) refl
        ∙ sym (loop-holds reach fate p y x l joined),
  )
