-- ===== src/Entry/Connected.antt =====
-- What a peer that enters finds (edge/peer/peer.go, registry/services/registry_services.go).
use sdcc_project.Base.{
  ◌≡◌, ◌≢◌, refl, ◌∙◌, ap, sym, if_neg, ℕ, ◌<◌, Bool, true, List, [], ◌∷◌, Option, some, All,
  All-mono, In, inl, length, map, arith,
}
use sdcc_project.Base.Dict.{
  insert, lookup, has_key, lookup-insert, keys_of_map, is_some, In-has_key,
}
use sdcc_project.Registry
use sdcc_project.Registry.{RegistryService, peer_enter, find_neighbours_for_peer}
use sdcc_project.Registry.Peers.{find_neighbours_for_peer_lem}
use sdcc_project.Edge.Peer.{EdgePeer}
use sdcc_project.Edge.Peer.Join.{Joined, register_to_registry, connect_and_notify_your_adjacent}
use sdcc_project.Edge.Peer.Join.Held.{holds, loop-holds}
use sdcc_project.Edge.Peer.Join.Symmetry.{
  IsSymmetric, Answers, connect_and_notify_your_adjacent-IsSymmetric,
}
use sdcc_project.Edge.Peer.Join.Dangling.{joins_to}
use sdcc_project.Entry.{edge_peer, told, Links, act_as_peer}

told-All :
    (P : EdgePeer → Type 0) (l : List (Registry.EdgePeer × ℕ))
    → All (λ e. P (edge_peer e.0)) l
    → All (λ e. P e.0) (told l)
told-All P [] h = tt
told-All P (e ∷ l) h = (h.0, told-All P l h.1)

-- A peer with a heartbeat that can be dialed, dials back and answers the call in time.
pub record IsReady (links : Links) (p q : EdgePeer) : Type 0 where
  pub dialed : (c : ℕ) × (links.reach p q ≡ some c)
  pub answers : Answers links.reach links.fate p q

-- The first listed peer, if there is one.
first_listed :
    (l : List (Registry.EdgePeer × ℕ))
    → 0 < length l
    → (q : Registry.EdgePeer) × In (edge_peer q) (map (λ e. e.0) (told l)) × In q (map (λ e. e.0) l)
first_listed [] h = absurd (omega arith)
first_listed ((q, n) ∷ l) h = (q, inl refl, inl refl)

module _ (r : RegistryService) (exists_edge : ℕ → Bool) (peer : Registry.EdgePeer)
    (conn now : ℕ) where
  abbrev entered : RegistryService
  entered = record r {
    connections = insert Registry.peer_discrete peer conn r.connections;
    heartbeats = insert Registry.peer_discrete peer now r.heartbeats;
  }

  abbrev ns : List (Registry.EdgePeer × ℕ)
  ns = find_neighbours_for_peer exists_edge peer entered

  other_key :
      (q : Registry.EdgePeer)
      → q ≢ peer
      → has_key Registry.peer_discrete q entered.heartbeats
        ≡ has_key Registry.peer_discrete q r.heartbeats
  other_key q n = ap is_some (
      lookup-insert Registry.peer_discrete peer q now r.heartbeats
      ∙ if_neg (Registry.peer_discrete peer q) (λ e. n (sym e)) (some now)
          (lookup Registry.peer_discrete q r.heartbeats))

  -- Who is listed had a heartbeat before, and is another peer.
  listed_known :
      (q : Registry.EdgePeer)
      → has_key Registry.peer_discrete q ns ≡ true
      → (has_key Registry.peer_discrete q r.heartbeats ≡ true) × (q ≢ peer)
  listed_known q h =
      let (known, n) = (find_neighbours_for_peer_lem exists_edge peer entered q).0 h in
      (sym (other_key q n) ∙ known, n)

  some_listed :
      (q : Registry.EdgePeer)
      → has_key Registry.peer_discrete q r.heartbeats ≡ true
      → q ≢ peer
      → 0 < length ns
  some_listed q h n =
      (find_neighbours_for_peer_lem exists_edge peer entered q).1 (other_key q n ∙ h) n

  ready_listed :
      (links : Links)
      → ((s : Registry.EdgePeer)
          → has_key Registry.peer_discrete s r.heartbeats ≡ true
          → s ≢ peer
          → IsReady links (edge_peer peer) (edge_peer s))
      → All (λ e. Answers links.reach links.fate (edge_peer peer) e.0) (told ns)
  ready_listed links h = told-All (Answers links.reach links.fate (edge_peer peer)) ns (
      All-mono (λ e. has_key Registry.peer_discrete e.0 ns ≡ true)
        (λ e. Answers links.reach links.fate (edge_peer peer) (edge_peer e.0)) ns
        (λ e k. let (known, n) = listed_known e.0 k in (h e.0 known n).answers)
        (keys_of_map Registry.peer_discrete ns))

module _ {Filter : Type 0} where
  -- The peer has an entry for another one that was known to the registry, and back; no connection has been
  -- closed, and the maps are symmetric.
  pub record IsConnected (r : RegistryService) (peer : Registry.EdgePeer)
      (before joined : Joined Filter) : Type 0 where
    pub neighbour : Registry.EdgePeer
    pub known : has_key Registry.peer_discrete neighbour r.heartbeats ≡ true
    pub other : neighbour ≢ peer
    pub to_it : holds (edge_peer neighbour) (joined.net (edge_peer peer)) ≡ true
    pub from_it : holds (edge_peer peer) (joined.net (edge_peer neighbour)) ≡ true
    pub all_open : joined.closed ≡ before.closed
    pub undirected : IsSymmetric joined.net

  joined-IsConnected :
      (exists_edge : ℕ → Bool) (links : Links) (peer q : Registry.EdgePeer) (conn now : ℕ)
      (r : RegistryService) (joined : Joined Filter)
      → has_key Registry.peer_discrete q r.heartbeats ≡ true
      → q ≢ peer
      → ((s : Registry.EdgePeer)
          → has_key Registry.peer_discrete s r.heartbeats ≡ true
          → s ≢ peer
          → IsReady links (edge_peer peer) (edge_peer s))
      → IsSymmetric joined.net
      → IsConnected r peer joined (
          connect_and_notify_your_adjacent links.reach links.fate
            (edge_peer peer)
            (told (ns r exists_edge peer conn now))
            joined)
  joined-IsConnected exists_edge links peer q conn now r joined known other ready s =
      let l = ns r exists_edge peer conn now in
      let (nb, here, member) =
        first_listed l (some_listed r exists_edge peer conn now q known other) in
      let (nb_known, nb_other) =
        listed_known r exists_edge peer conn now nb
          (In-has_key Registry.peer_discrete nb l member) in
      let (c, reached_nb) = (ready nb nb_known nb_other).dialed in
      let (all_open, undirected) =
        connect_and_notify_your_adjacent-IsSymmetric links.reach links.fate (edge_peer peer)
          (told l) joined (ready_listed r exists_edge peer conn now links ready) s in
      let to_it =
        loop-holds links.reach links.fate (edge_peer peer) (edge_peer peer) (edge_peer nb) (told l)
          joined
        ∙ rw
            (joins_to links.reach links.fate (edge_peer peer) (edge_peer nb) c (told l) reached_nb
              here)
            refl in
      record {
        neighbour = nb;
        known = nb_known;
        other = nb_other;
        to_it = to_it;
        from_it = sym (undirected (edge_peer peer) (edge_peer nb)) ∙ to_it;
        all_open = all_open;
        undirected = undirected;
      }

  -- If the registry can dial a peer that enters and its answer comes in time, it knows another peer, every other peer that it
  -- knows can be dialed from the new one, dials back and answers the call in time, and the maps of connections were symmetric,
  -- then the new peer joins and closes no connection: it and some other peer that the registry knew have entries for
  -- each other in their maps, and the maps are symmetric.
  pub act_as_peer-IsConnected :
      (connect_to_node : Registry.EdgePeer → Option ℕ) (exists_edge : ℕ → Bool) (links : Links)
      (peer q : Registry.EdgePeer) (conn now client : ℕ) (r : RegistryService)
      (joined : Joined Filter)
      → connect_to_node peer ≡ some conn
      → links.in_time ≡ true
      → has_key Registry.peer_discrete q r.heartbeats ≡ true
      → q ≢ peer
      → ((s : Registry.EdgePeer)
          → has_key Registry.peer_discrete s r.heartbeats ≡ true
          → s ≢ peer
          → IsReady links (edge_peer peer) (edge_peer s))
      → IsSymmetric joined.net
      → (joined' : Joined Filter) × ((act_as_peer connect_to_node exists_edge links peer now client
            r joined).1
          ≡ some joined')
        × IsConnected r peer joined joined'
  unfolding act_as_peer register_to_registry
  act_as_peer-IsConnected connect_to_node exists_edge links peer q conn now client r joined dialed
        time known other ready s =
      (
        connect_and_notify_your_adjacent links.reach links.fate (edge_peer peer)
            (told (ns r exists_edge peer conn now)) joined,
        rw (dialed, time, peer_enter, register_to_registry) refl,
        joined-IsConnected exists_edge links peer q conn now r joined known other ready s,
      )
