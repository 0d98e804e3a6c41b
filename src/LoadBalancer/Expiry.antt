-- ===== src/LoadBalancer/Expiry.antt =====
-- `checkForDeadServers` (load_balancer/services/balancing.go): which servers a check removes.
use sdcc_project.Base.{ℕ, ◌≡◌, refl, List, [], ◌∷◌, Option, none, some, arith, if◌then◌else◌}
use sdcc_project.Base.Dict.{lookup, lookup-erase, Unique}
use sdcc_project.LoadBalancer.{
  EdgeServer, Balancer, server_discrete, is_dead, remove_server, drop_dead, check_for_dead_servers,
}

-- What is left of a value whose server last sent a heartbeat at the given time.
abbrev pub outlives {ℓ} : {V : Type ℓ} → ℕ → ℕ → Option ℕ → Option V → Option V
outlives thr last none v = v
outlives thr last (some time) v = if is_dead thr last time then none else v

module _ (thr last : ℕ) (s : EdgeServer) where
  drop_dead-heartbeats :
      (l : List (EdgeServer × ℕ)) (b : Balancer)
      → Unique server_discrete l
      → lookup server_discrete s (drop_dead thr last l b).heartbeats
        ≡ outlives thr last (lookup server_discrete s l) (lookup server_discrete s b.heartbeats)
  unfolding drop_dead remove_server lookup
  drop_dead-heartbeats [] b u = refl
  drop_dead-heartbeats ((j, t) ∷ r) b u = ground (
    arith,
    drop_dead-heartbeats r (if is_dead thr last t then remove_server j b else b) u.1,
    lookup-erase server_discrete j s b.heartbeats,
  )

  drop_dead-loads :
      (l : List (EdgeServer × ℕ)) (b : Balancer)
      → Unique server_discrete l
      → lookup server_discrete s (drop_dead thr last l b).edge_server_map
        ≡ outlives thr last
            (lookup server_discrete s l)
            (lookup server_discrete s b.edge_server_map)
  unfolding drop_dead remove_server lookup
  drop_dead-loads [] b u = refl
  drop_dead-loads ((j, t) ∷ r) b u = ground (
    arith,
    drop_dead-loads r (if is_dead thr last t then remove_server j b else b) u.1,
    lookup-erase server_discrete j s b.edge_server_map,
  )

-- If no server stands twice in the map of heartbeats, a check removes from both maps exactly the servers whose last heartbeat is more than the threshold
-- older than the previous check, leaves every other entry as it was, and notes its own time.
pub check_for_dead_servers_lem :
    (heartbeat_thr now : ℕ) (b : Balancer) (s : EdgeServer)
    → Unique server_discrete b.heartbeats
    → let b' = check_for_dead_servers heartbeat_thr now b in
      let last = b.heartbeat_check_time in
      let heard = lookup server_discrete s b.heartbeats in
      (lookup server_discrete s b'.heartbeats ≡ outlives heartbeat_thr last heard heard)
      × (lookup server_discrete s b'.edge_server_map
          ≡ outlives heartbeat_thr last heard (lookup server_discrete s b.edge_server_map))
      × (b'.heartbeat_check_time ≡ now)
unfolding check_for_dead_servers
check_for_dead_servers_lem thr now b s u = (
  drop_dead-heartbeats thr b.heartbeat_check_time s b.heartbeats b u,
  drop_dead-loads thr b.heartbeat_check_time s b.heartbeats b u,
  refl,
)
