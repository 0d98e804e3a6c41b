-- ===== src/Edge/Peer/Join/Dangling.antt =====
-- A neighbour that is dialed and does not add the new peer (connectAndNotifyYourAdjacent, edge/peer/peer.go).
use sdcc_project.Base.{
  ◌≡◌, ◌≢◌, refl, ◌∙◌, ap, subst, ℕ, Bool, true, false, ◌&&◌, ◌||◌, List, [], ◌∷◌, Option, none,
  some, if◌then◌else◌, Option-cases, Bool-cases, inl, inr, map, In, if_pos, if_neg, ite,
}
use sdcc_project.Edge.Peer.{EdgePeer, peer_discrete}
use sdcc_project.Edge.Peer.Network.{connect_and_add_neighbour, add_neighbour, connected}
use sdcc_project.Edge.Peer.Join.{
  Fate, arrives, in_time, Net, Joined, call_adj_add_neighbour, join_one,
  connect_and_notify_your_adjacent, set_node,
}
use sdcc_project.Edge.Peer.Join.Held.{
  same, holds, reached, added, joins, loop-holds, and_none, or_true,
}

module _ (reach : EdgePeer → EdgePeer → Option ℕ) (fate : EdgePeer → Fate) where
  pub data Refuses (p q : EdgePeer) : Type 0 where
    no_dial : reach q p ≡ none → Refuses p q
    no_call : arrives (fate q) ≡ false → Refuses p q

  not_added :
      (p q : EdgePeer) → Refuses p q → (arrives (fate q) && (reached reach q p && same p p)) ≡ false
  not_added p q (no_dial e) = rw e (and_none (arrives (fate q)))
  not_added p q (no_call e) = rw e refl

  back_none :
      (p q r : EdgePeer) (d : Dec (r ≡ q))
      → Refuses p q
      → (ite d true false && (arrives (fate r) && (reached reach r p && same p p))) ≡ false
  back_none p q r (yes e) h =
      ap (λ z. arrives (fate z) && (reached reach z p && same p p)) e ∙ not_added p q h
  back_none p q r (no n) h = refl

  joins_back :
      (p q : EdgePeer) (l : List (EdgePeer × ℕ))
      → p ≢ q
      → Refuses p q
      → joins reach fate p l q p ≡ false
  joins_back p q [] n h = refl
  joins_back p q ((r, flag) ∷ l) n h =
      rw (if_neg (peer_discrete p q) n, joins_back p q l n h, back_none p q r (peer_discrete r q) h)
        (ap (λ b. b || false) (and_none (reached reach p r)))

  pub joins_to :
      (p q : EdgePeer) (c : ℕ) (l : List (EdgePeer × ℕ))
      → reach p q ≡ some c
      → In q (map (λ e. e.0) l)
      → joins reach fate p l p q ≡ true
  joins_to p q c [] e i = absurd i
  joins_to p q c ((r, flag) ∷ l) e (inl s) =
      subst (λ z. joins reach fate p ((z, flag) ∷ l) p q ≡ true) s
        (rw (e, if_pos (peer_discrete p p) refl, if_pos (peer_discrete q q) refl) refl)
  joins_to p q c ((r, flag) ∷ l) e (inr i) =
      rw (joins_to p q c l e i) (or_true (added reach fate p r p q))

module _ {Filter : Type 0} where
  -- The new peer has a connection to `q` that is closed, and `q` has none to it.
  pub record IsDangling (p q : EdgePeer) (client : ℕ) (joined : Joined Filter) : Type 0 where
    pub kept : holds q (joined.net p) ≡ true
    pub closed : In client joined.closed
    pub unknown : holds p (joined.net q) ≡ false

stays : (c d : ℕ) (l : List ℕ) (b : Bool) → In c l → In c (if b then l else d ∷ l)
stays c d l true h = h
stays c d l false h = inr h

module _ {Filter : Type 0} (reach : EdgePeer → EdgePeer → Option ℕ) (fate : EdgePeer → Fate) where
  call_refused :
      (p q : EdgePeer) (net : Net Filter)
      → Refuses reach fate p q
      → (call_adj_add_neighbour reach fate q p net).0 ≡ false
  unfolding call_adj_add_neighbour add_neighbour connect_and_add_neighbour
  call_refused p q net (no_dial e) = elim (Bool-cases (arrives (fate q))) [
    | inl a ↦ rw (a, e, add_neighbour, connect_and_add_neighbour) (and_none (in_time (fate q)))
    | inr a ↦ rw a refl
  ]
  call_refused p q net (no_call e) = rw e refl

  -- What is closed stays closed.
  step-closed :
      (p q : EdgePeer) (c : ℕ) (joined : Joined Filter)
      → In c joined.closed
      → In c (join_one reach fate p q joined).closed
  unfolding join_one connect_and_add_neighbour
  step-closed p q c joined h = elim (Option-cases (reach p q)) [
    | inl e ↦ rw (e, join_one, connect_and_add_neighbour) h
    | inr (d, e) ↦
        rw (e, join_one, connect_and_add_neighbour)
          (stays c d joined.closed
            (call_adj_add_neighbour reach fate q p
              (set_node p (connected q d (joined.net p)) joined.net)).0
            h)
  ]

  step_refused :
      (p q : EdgePeer) (c : ℕ) (joined : Joined Filter)
      → reach p q ≡ some c
      → Refuses reach fate p q
      → In c (join_one reach fate p q joined).closed
  unfolding join_one connect_and_add_neighbour
  step_refused p q c joined e h =
      rw
        (
          e,
          join_one,
          connect_and_add_neighbour,
          call_refused p q (set_node p (connected q c (joined.net p)) joined.net) h,
        )
        (inl refl)

  loop-closed :
      (p : EdgePeer) (c : ℕ) (l : List (EdgePeer × ℕ)) (joined : Joined Filter)
      → In c joined.closed
      → In c (connect_and_notify_your_adjacent reach fate p l joined).closed
  unfolding connect_and_notify_your_adjacent
  loop-closed p c [] joined h = h
  loop-closed p c ((q, flag) ∷ l) joined h =
      loop-closed p c l (join_one reach fate p q joined) (step-closed p q c joined h)

  closed_of_refused :
      (p q : EdgePeer) (c : ℕ) (l : List (EdgePeer × ℕ)) (joined : Joined Filter)
      → reach p q ≡ some c
      → Refuses reach fate p q
      → In q (map (λ e. e.0) l)
      → In c (connect_and_notify_your_adjacent reach fate p l joined).closed
  unfolding connect_and_notify_your_adjacent
  closed_of_refused p q c [] joined e h i = absurd i
  closed_of_refused p q c ((r, flag) ∷ l) joined e h (inl s) =
      loop-closed p c l (join_one reach fate p r joined) (
        subst (λ z. In c (join_one reach fate p z joined).closed) s (step_refused p q c joined e h))
  closed_of_refused p q c ((r, flag) ∷ l) joined e h (inr i) =
      closed_of_refused p q c l (join_one reach fate p r joined) e h i

  -- If a listed neighbour, another peer than the new one, is dialed, has no connection to the new peer, and cannot dial it back
  -- or does not get the call, then the new peer closes its connection to it but keeps it in its map, and the neighbour has none.
  pub connect_and_notify_your_adjacent-IsDangling :
      (p q : EdgePeer) (client : ℕ) (l : List (EdgePeer × ℕ)) (joined : Joined Filter)
      → p ≢ q
      → In q (map (λ e. e.0) l)
      → reach p q ≡ some client
      → Refuses reach fate p q
      → holds p (joined.net q) ≡ false
      → IsDangling p q client (connect_and_notify_your_adjacent reach fate p l joined)
  connect_and_notify_your_adjacent-IsDangling p q client l joined n i e h u = record {
    kept = loop-holds reach fate p p q l joined ∙ rw (joins_to reach fate p q client l e i) refl;
    closed = closed_of_refused p q client l joined e h i;
    unknown = loop-holds reach fate p q p l joined ∙ rw (joins_back reach fate p q l n h) u;
  }
