-- ===== src/Registry.antt =====
-- registry/services (registry_services.go, registry_structs.go, network_monitor.go): the state of the
-- registry and its handlers for peers that enter, send heartbeats or die. Each handler runs under
-- the registry's mutex, which every path releases. An RPC client is a number, and what a dial
-- answers is an argument.
pub mod Utils
pub mod Graph
pub mod Search
pub mod Unify
pub mod Peers
mod Tests
use sdcc_project.Base.{
  ℕ, ◌+◌, ◌*◌, ◌≡◌, String, string_discrete, Bool, true, false, not, ◌||◌, List, [], ◌∷◌, Option,
  none, some, Outcome, ok, err, ltb, if◌then◌else◌, ite,
}
use sdcc_project.Base.Dict.{insert, erase, has_key, lookup}

pub record EdgePeer : Type 0 where
  pub peer_addr : String

peer_eq : {s t : EdgePeer} → Dec (s.peer_addr ≡ t.peer_addr) → Dec (s ≡ t)
peer_eq (yes p) = yes (λ i. record { peer_addr = p i })
peer_eq (no p) = no (λ e. p (λ i. (e i).peer_addr))

-- `==` on peers, also as keys of the maps.
unfoldable pub peer_discrete : Discrete EdgePeer
unfolding peer_eq string_discrete
peer_discrete s t = peer_eq (string_discrete s.peer_addr t.peer_addr)

pub record RegistryService : Type 0 where
  pub connections : List (EdgePeer × ℕ)
  pub heartbeat_check_time : ℕ
  pub heartbeats : List (EdgePeer × ℕ)

pub data Error : Type 0 where
  unreachable : Error

-- The loop of `findNeighboursForPeer`. `exists_edge i` is the i-th draw of `existsEdge`.
unfoldable pub choose_neighbours :
    (ℕ → Bool)
    → EdgePeer
    → List (EdgePeer × ℕ)
    → ℕ
    → Bool
    → List (EdgePeer × ℕ)
    → List (EdgePeer × ℕ)
choose_neighbours exists_edge self [] draw created_edge neighbours = neighbours
choose_neighbours exists_edge self ((peer, _) ∷ rest) draw created_edge neighbours =
    elim (peer_discrete peer self) [
      | yes same ↦ choose_neighbours exists_edge self rest draw created_edge neighbours
      | no other ↦
          choose_neighbours exists_edge self rest (if created_edge then draw + 1 else draw)
            (created_edge || (not created_edge || exists_edge draw))
            (if not created_edge || exists_edge draw
              then insert peer_discrete peer 0 neighbours
              else neighbours)
    ]

abbrev pub find_neighbours_for_peer : (ℕ → Bool) → EdgePeer → RegistryService → List (EdgePeer × ℕ)
find_neighbours_for_peer exists_edge self r =
    choose_neighbours exists_edge self r.heartbeats 0 false []

-- `connectToNode`: the client, or an error.
unfoldable pub peer_enter :
    (EdgePeer → Option ℕ)
    → (ℕ → Bool)
    → EdgePeer
    → ℕ
    → RegistryService
    → Outcome Error (List (EdgePeer × ℕ) × RegistryService)
peer_enter connect_to_node exists_edge peer now r = elim (connect_to_node peer) [
  | none ↦ err unreachable
  | some peer_connection ↦
      let r' : RegistryService = record r {
        connections = insert peer_discrete peer peer_connection r.connections;
        heartbeats = insert peer_discrete peer now r.heartbeats;
      } in
      ok (find_neighbours_for_peer exists_edge peer r', r')
]

unfoldable pub heartbeat :
    (EdgePeer → Option ℕ) → EdgePeer → ℕ → RegistryService → Outcome Error RegistryService
heartbeat connect_to_node peer now r =
    if has_key peer_discrete peer r.heartbeats
    then ok (record r { heartbeats = insert peer_discrete peer now r.heartbeats })
    else (elim (connect_to_node peer) [
      | none ↦ err unreachable
      | some peer_conn ↦ ok (record r {
        connections = insert peer_discrete peer peer_conn r.connections;
        heartbeats = insert peer_discrete peer now r.heartbeats;
      })
    ])

abbrev pub second : ℕ
second = 1_000_000_000

abbrev pub is_dead : ℕ → ℕ → ℕ → Bool
is_dead heartbeat_thr last_check_time last_heartbeat_time =
    ltb (last_heartbeat_time + heartbeat_thr * second) last_check_time

-- The body of the loop of `checkForDeadPeers`, for a peer that is dead.
unfoldable pub remove_peer : EdgePeer → RegistryService → RegistryService
remove_peer peer r = record r {
  connections =
      if has_key peer_discrete peer r.connections
      then erase peer_discrete peer r.connections
      else r.connections;
  heartbeats = erase peer_discrete peer r.heartbeats;
}

unfoldable pub drop_dead : ℕ → ℕ → List (EdgePeer × ℕ) → RegistryService → RegistryService
drop_dead thr last [] r = r
drop_dead thr last ((peer, time) ∷ rest) r =
    drop_dead thr last rest (if is_dead thr last time then remove_peer peer r else r)

unfoldable pub check_for_dead_peers : ℕ → ℕ → RegistryService → RegistryService
unfolding drop_dead remove_peer
check_for_dead_peers heartbeat_thr now r =
    record (drop_dead heartbeat_thr r.heartbeat_check_time r.heartbeats r) {
      heartbeat_check_time = now;
    }
