-- ===== src/Edge/Peer/Stranger.antt =====
-- A Bloom filter from a peer without a connection (NotifyBloomFilter, edge/peer/peer_services.go), and a lookup behind it
-- (neighboursFileLookup, edge/peer/peer.go).
use sdcc_project.Base.{
  ℕ, suc, ◌<◌, ◌≡◌, ◌≢◌, ◌∙◌, ap, sym, refl, String, Bool, false, List, [], ◌∷◌, Option, some, In,
  inl, inr, arith, length, get_elem?, panic, if_pos, if_neg, subst, Bool-cases,
}
use sdcc_project.Base.Dict.{insert, has_key}
use sdcc_project.Edge.Peer.{EdgePeer, peer_discrete}
use sdcc_project.Edge.Peer.Lookup.{
  contact_positive, find_false_adjacents_filter, neighbours_file_lookup,
}
use sdcc_project.Edge.Peer.Network.{AdjacentPeers, notify_bloom_filter}
use sdcc_project.Edge.Peer.Contacts.{neighbours_file_lookup_panics}
use native.Mathlib.Nat.{mod-eq_of_lt}

place_of :
    {A : Type 0} (x : A) (l : List A) → In x l → (i : ℕ) × (i < length l) × (get_elem? l i ≡ some x)
place_of x [] h = absurd h
place_of x (y ∷ l) (inl e) = (0, omega arith, ap (λ z. some z) (sym e))
place_of x (y ∷ l) (inr h) = let (i, lt, at) = place_of x l h in (suc i, omega (arith, lt), at)

module _ {Filter : Type 0} (test : Filter → String → Bool) (file_name : String) where
  -- A peer with a filter that has not the file is a candidate.
  candidate :
      (q : EdgePeer) (f : Filter) (m : List (EdgePeer × Filter))
      → test f file_name ≡ false
      → In q (find_false_adjacents_filter test (insert peer_discrete q f m) file_name)
  unfolding find_false_adjacents_filter insert
  candidate q f [] h = rw h (inl refl)
  candidate q f ((j, g) ∷ m) h = elim (peer_discrete j q) [
    | yes e ↦ rw (if_pos (peer_discrete j q) e, h) (inl refl)
    | no n ↦ rw (if_neg (peer_discrete j q) n) (elim (Bool-cases (test g file_name)) [
      | inl t ↦ rw t (candidate q f m h)
      | inr t ↦ rw t (inr (candidate q f m h))
    ])
  ]

  stored :
      (gob_decode : List ℕ → Option Filter) (q : EdgePeer) (bytes : List ℕ) (f : Filter)
      (adj : AdjacentPeers Filter)
      → gob_decode bytes ≡ some f
      → (notify_bloom_filter gob_decode q bytes adj).1
        ≡ record adj { filter_map = insert peer_discrete q f adj.filter_map }
  unfolding notify_bloom_filter
  stored gob_decode q bytes f adj e = rw (e, notify_bloom_filter) refl

  -- The neighbours with a positive filter leave a place.
  abbrev pub HasPlace : EdgePeer → ℕ → AdjacentPeers Filter → Type 0
  HasPlace forwarder max adj =
      length (contact_positive test adj.filter_map file_name forwarder max adj.peer_conns 0) < max

  abbrev pub PanicsAt : EdgePeer → ℕ → AdjacentPeers Filter → Type 0
  PanicsAt forwarder max adj =
      (draw : ℕ → ℕ) × (neighbours_file_lookup test draw adj.peer_conns adj.filter_map file_name
          forwarder max
        ≡ panic)

  drawn_panics :
      (q forwarder : EdgePeer) (adj : AdjacentPeers Filter) (max : ℕ)
      → In q (find_false_adjacents_filter test adj.filter_map file_name)
      → has_key peer_discrete q adj.peer_conns ≡ false
      → q ≢ forwarder
      → HasPlace forwarder max adj
      → PanicsAt forwarder max adj
  drawn_panics q forwarder adj max here lost other place =
      let candidates = find_false_adjacents_filter test adj.filter_map file_name in
      let (i, lt, at) = place_of q candidates here in
      (
        λ round. i,
        neighbours_file_lookup_panics test (λ round. i) adj.peer_conns adj.filter_map file_name
            forwarder max q place (ap (get_elem? candidates) (mod-eq_of_lt lt) ∙ at) other lost,
      )

  -- If a peer without a connection sends a filter, of which the test says that it has not the file, then behind it some
  -- draw makes a lookup for the file panic, as long as the neighbours with a positive filter leave a place and the lookup
  -- does not come from that peer.
  pub notify_bloom_filter-lookup_panics :
      (gob_decode : List ℕ → Option Filter) (q forwarder : EdgePeer) (bytes : List ℕ) (f : Filter)
      (adj : AdjacentPeers Filter) (max : ℕ)
      → gob_decode bytes ≡ some f
      → test f file_name ≡ false
      → has_key peer_discrete q adj.peer_conns ≡ false
      → q ≢ forwarder
      → HasPlace forwarder max (notify_bloom_filter gob_decode q bytes adj).1
      → PanicsAt forwarder max (notify_bloom_filter gob_decode q bytes adj).1
  notify_bloom_filter-lookup_panics gob_decode q forwarder bytes f adj max decoded negative lost
        other place =
      let after = stored gob_decode q bytes f adj decoded in
      let adj' : AdjacentPeers Filter = record adj {
        filter_map = insert peer_discrete q f adj.filter_map;
      } in
      subst (PanicsAt forwarder max) (sym after) (
        drawn_panics q forwarder adj' max (candidate q f adj.filter_map negative) lost other
          (subst (HasPlace forwarder max) after place))
