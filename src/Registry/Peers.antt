-- ===== src/Registry/Peers.antt =====
-- Peers that enter, send heartbeats and die (registry/services/registry_services.go and
-- network_monitor.go).
use sdcc_project.Base.{
  ℕ, ◌+◌, ◌<◌, ◌≡◌, ◌≢◌, ◌⊎◌, inl, inr, Bool, true, false, not, ◌||◌, List, [], ◌∷◌, Option,
  Outcome, ok, length, arith, if◌then◌else◌, Option-cases, Bool-cases,
}
use sdcc_project.Base.Dict.{
  insert, lookup, lookup-insert, lookup-erase, has_key, Unique, insert-Unique, erase-Unique,
}
use sdcc_project.Registry.{
  EdgePeer, peer_discrete, RegistryService, Error, choose_neighbours, find_neighbours_for_peer,
  peer_enter, heartbeat, is_dead, remove_peer, drop_dead, check_for_dead_peers,
}

length-insert-pos :
    (p : EdgePeer) (m : List (EdgePeer × ℕ)) → 0 < length (insert peer_discrete p 0 m)
unfolding insert
length-insert-pos p [] = omega arith
length-insert-pos p ((q, n) ∷ m) = ground arith

module _ (exists_edge : ℕ → Bool) (self : EdgePeer) where
  choose_neighbours_from :
      (l : List (EdgePeer × ℕ)) (draw : ℕ) (created : Bool) (ns : List (EdgePeer × ℕ))
      (p : EdgePeer)
      → has_key peer_discrete p (choose_neighbours exists_edge self l draw created ns) ≡ true
      → (has_key peer_discrete p ns ≡ true) ⊎ ((has_key peer_discrete p l ≡ true) × (p ≢ self))
  unfolding choose_neighbours lookup
  choose_neighbours_from [] draw created ns p h = inl h
  choose_neighbours_from ((q, t) ∷ l) draw created ns p h = ground (
    arith,
    choose_neighbours_from l draw created ns p,
    choose_neighbours_from l (if created then draw + 1 else draw)
        (created || (not created || exists_edge draw))
        (if not created || exists_edge draw then insert peer_discrete q 0 ns else ns) p,
    lookup-insert peer_discrete q p 0 ns,
  )

  choose_neighbours_nonempty :
      (l : List (EdgePeer × ℕ)) (draw : ℕ) (created : Bool) (ns : List (EdgePeer × ℕ))
      → 0 < length ns
      → 0 < length (choose_neighbours exists_edge self l draw created ns)
  unfolding choose_neighbours
  choose_neighbours_nonempty [] draw created ns h = h
  choose_neighbours_nonempty ((q, t) ∷ l) draw created ns h = ground (
    arith,
    choose_neighbours_nonempty l draw created ns h,
    choose_neighbours_nonempty l (if created then draw + 1 else draw)
        (created || (not created || exists_edge draw))
        (if not created || exists_edge draw then insert peer_discrete q 0 ns else ns),
    length-insert-pos q ns,
  )

  choose_neighbours_some :
      (l : List (EdgePeer × ℕ)) (draw : ℕ) (p : EdgePeer)
      → has_key peer_discrete p l ≡ true
      → p ≢ self
      → 0 < length (choose_neighbours exists_edge self l draw false [])
  unfolding choose_neighbours lookup
  choose_neighbours_some [] draw p h n = ground arith
  choose_neighbours_some ((q, t) ∷ l) draw p h n = ground (
    arith,
    choose_neighbours_some l draw p,
    choose_neighbours_nonempty l draw true (insert peer_discrete q 0 []),
    length-insert-pos q [],
  )

  -- A peer that enters is told of other peers only, all of them known by a heartbeat, and of at
  -- least one if there is any.
  pub find_neighbours_for_peer_lem :
      (r : RegistryService) (p : EdgePeer)
      → let ns = find_neighbours_for_peer exists_edge self r in
        (has_key peer_discrete p ns ≡ true
          → (has_key peer_discrete p r.heartbeats ≡ true) × (p ≢ self))
        × (has_key peer_discrete p r.heartbeats ≡ true → p ≢ self → 0 < length ns)
  unfolding lookup
  find_neighbours_for_peer_lem r p = (
    λ h. elim (choose_neighbours_from r.heartbeats 0 false [] p h) [
      | inl none_yet ↦ absurd (ground arith)
      | inr known ↦ known
    ],
    λ h n. choose_neighbours_some r.heartbeats 0 p h n,
  )

-- Every peer with a heartbeat has a connection, and the other way round; no peer stands twice.
pub record IsPaired (r : RegistryService) : Type 0 where
  pub paired :
      (p : EdgePeer) → has_key peer_discrete p r.connections ≡ has_key peer_discrete p r.heartbeats
  pub conns : Unique peer_discrete r.connections
  pub heard : Unique peer_discrete r.heartbeats

enter-IsPaired :
    (peer : EdgePeer) (conn now : ℕ) (r : RegistryService)
    → IsPaired r
    → IsPaired (record r {
      connections = insert peer_discrete peer conn r.connections;
      heartbeats = insert peer_discrete peer now r.heartbeats;
    })
enter-IsPaired peer conn now r v = record {
  paired = λ p. ground (
    arith,
    v.paired p,
    lookup-insert peer_discrete peer p conn r.connections,
    lookup-insert peer_discrete peer p now r.heartbeats,
  );
  conns = insert-Unique peer_discrete peer conn r.connections v.conns;
  heard = insert-Unique peer_discrete peer now r.heartbeats v.heard;
}

refresh-IsPaired :
    (peer : EdgePeer) (now : ℕ) (r : RegistryService)
    → IsPaired r
    → has_key peer_discrete peer r.heartbeats ≡ true
    → IsPaired (record r { heartbeats = insert peer_discrete peer now r.heartbeats })
refresh-IsPaired peer now r v h = record {
  paired = λ p. ground (arith, v.paired p, h, lookup-insert peer_discrete peer p now r.heartbeats);
  conns = v.conns;
  heard = insert-Unique peer_discrete peer now r.heartbeats v.heard;
}

remove_peer-IsPaired :
    (peer : EdgePeer) (r : RegistryService) → IsPaired r → IsPaired (remove_peer peer r)
unfolding remove_peer
remove_peer-IsPaired peer r v = record {
  paired = λ p. ground (
    arith,
    v.paired p,
    lookup-erase peer_discrete peer p r.connections,
    lookup-erase peer_discrete peer p r.heartbeats,
  );
  conns = ground (arith, v.conns, erase-Unique peer_discrete peer r.connections v.conns);
  heard = erase-Unique peer_discrete peer r.heartbeats v.heard;
}

drop_dead-IsPaired :
    (thr last : ℕ) (l : List (EdgePeer × ℕ)) (r : RegistryService)
    → IsPaired r
    → IsPaired (drop_dead thr last l r)
unfolding drop_dead
drop_dead-IsPaired thr last [] r v = v
drop_dead-IsPaired thr last ((p, t) ∷ l) r v = elim (Bool-cases (is_dead thr last t)) [
  | inl dead ↦
      rw dead (drop_dead-IsPaired thr last l (remove_peer p r) (remove_peer-IsPaired p r v))
  | inr alive ↦ rw alive (drop_dead-IsPaired thr last l r v)
]

-- What reaches the registry, with the time at which it is handled.
pub data Message : Type 0 where
  enters : EdgePeer → ℕ → Message
  beats : EdgePeer → ℕ → Message
  checks : ℕ → Message

module _ (connect_to_node : EdgePeer → Option ℕ) (exists_edge : ℕ → Bool) (thr : ℕ) where
  -- An error leaves the state as it was.
  abbrev after_enter :
      RegistryService → Outcome Error (List (EdgePeer × ℕ) × RegistryService) → RegistryService
  after_enter r (ok (_, r')) = r'
  after_enter r _ = r

  abbrev after_beat : RegistryService → Outcome Error RegistryService → RegistryService
  after_beat r (ok r') = r'
  after_beat r _ = r

  unfoldable pub step : RegistryService → Message → RegistryService
  step r (enters peer now) = after_enter r (peer_enter connect_to_node exists_edge peer now r)
  step r (beats peer now) = after_beat r (heartbeat connect_to_node peer now r)
  step r (checks now) = check_for_dead_peers thr now r

  -- Whatever reaches the registry, also a peer that cannot be dialled, every peer with a heartbeat keeps
  -- a connection and the other way round, so that the monitor never calls through a missing client.
  pub step-IsPaired : (r : RegistryService) (m : Message) → IsPaired r → IsPaired (step r m)
  unfolding step peer_enter heartbeat check_for_dead_peers
  step-IsPaired r (enters peer now) v = elim (Option-cases (connect_to_node peer)) [
    | inl fails ↦ rw (fails, peer_enter) v
    | inr (conn, dialled) ↦ rw (dialled, peer_enter) (enter-IsPaired peer conn now r v)
  ]
  step-IsPaired r (beats peer now) v = elim (Bool-cases (has_key peer_discrete peer r.heartbeats)) [
    | inl known ↦ rw known (refresh-IsPaired peer now r v known)
    | inr unknown ↦ elim (Option-cases (connect_to_node peer)) [
      | inl fails ↦ rw (unknown, fails, heartbeat) v
      | inr (conn, dialled) ↦ rw (unknown, dialled, heartbeat) (enter-IsPaired peer conn now r v)
    ]
  ]
  step-IsPaired r (checks now) v =
      let v' = drop_dead-IsPaired thr r.heartbeat_check_time r.heartbeats r v in
      record { paired = v'.paired; conns = v'.conns; heard = v'.heard }

  unfoldable pub run : RegistryService → List Message → RegistryService
  run r [] = r
  run r (m ∷ ms) = run (step r m) ms

  -- If every peer with a heartbeat has a connection, and the other way round, and no peer stands twice in
  -- either map, then this holds after any sequence of entries, heartbeats and checks too.
  pub run-IsPaired : (ms : List Message) (r : RegistryService) → IsPaired r → IsPaired (run r ms)
  unfolding run
  run-IsPaired [] r v = v
  run-IsPaired (m ∷ ms) r v = run-IsPaired ms (step r m) (step-IsPaired r m v)
