-- ===== src/LoadBalancer.antt =====
-- load_balancer/services (balancing.go, balancing_services.go, balancing_structs.go), login and
-- redisDB: the state of the load balancer and one function for each of its operations.
-- Each handler runs under the mutexes of the server, which every path releases, so that a handler
-- is one step. Loads and the sequence number are 64-bit integers, times are nanoseconds.
pub mod Utils
pub mod Pick
pub mod Expiry
pub mod Rounding
pub mod Loads
pub mod Requests
pub mod Race
mod Tests
use sdcc_project.Base.{
  ℕ, ◌+◌, ◌-◌, ◌*◌, ◌/◌, ◌%◌, ◌^◌, ◌<◌, ◌≡◌, String, string_discrete, Bool, true, false, ◌&&◌, List,
  [], ◌∷◌, ◌++◌, Option, none, some, Outcome, ok, err, ◌>>=◌, ite, ltb, if◌then◌else◌, length,
  get_elem?,
}
use sdcc_project.Base.Int.{
  ℤ, pos, negsuc, pos_part, neg_part, sub_ℕ, ◌+ℤ◌, ◌-ℤ◌, ltb_ℤ, eqb_ℤ, int_max, wrap64, rem_ℤ,
  index,
}
use sdcc_project.Base.Float.{round_ℤ, ◌*ℤ◌, truncate}
use sdcc_project.Base.Dict.{insert, erase, has_key, lookup}

pub record EdgeServer : Type 0 where
  pub server_addr : String

server_eq : {s t : EdgeServer} → Dec (s.server_addr ≡ t.server_addr) → Dec (s ≡ t)
server_eq (yes p) = yes (λ i. record { server_addr = p i })
server_eq (no p) = no (λ e. p (λ i. (e i).server_addr))

-- `==` on keys of the maps.
unfoldable pub server_discrete : Discrete EdgeServer
unfolding server_eq string_discrete
server_discrete s t = server_eq (string_discrete s.server_addr t.server_addr)

pub record HeartbeatMessage : Type 0 where
  pub edge_server : EdgeServer
  pub current_load : ℤ

pub record Balancer : Type 0 where
  pub edge_server_map : List (EdgeServer × ℤ)
  pub heartbeat_check_time : ℕ
  pub heartbeats : List (EdgeServer × ℕ)
  pub sequence_number : ℤ

pub data Error : Type 0 where
  no_server_available unauthenticated : Error

-- The state after a call; one that fails leaves the state as it was.
abbrev pub after {ℓ} : {A : Type ℓ} → Balancer → Outcome Error (A × Balancer) → Balancer
after b (ok (a, b')) = b'
after b _ = b

-- `GetFromRedis`: the stored password, or an error. The database is a parameter.
abbrev pub Redis : Type 0
Redis = String → Option String

unfoldable pub user_login : Redis → String → String → Bool
unfolding string_discrete
user_login get_from_redis user_name passwd = elim (get_from_redis user_name) [
  | none ↦ false
  | some redis_passwd ↦ ite (string_discrete passwd redis_passwd) true false
]

-- The loop of `pickEdgeServer`: the least load so far, and the servers that have it.
unfoldable pub min_load : List (EdgeServer × ℤ) → ℤ → List EdgeServer → List EdgeServer
min_load [] min_value min_slice = min_slice
min_load ((server, load) ∷ rest) min_value min_slice =
    min_load rest (if ltb_ℤ load min_value then load else min_value) (
      if ltb_ℤ load min_value
      then server ∷ []
      else if eqb_ℤ load min_value
      then min_slice ++ (server ∷ [])
      else min_slice)

-- A missing key reads as zero.
abbrev pub load_of : EdgeServer → List (EdgeServer × ℤ) → ℤ
load_of s m = elim (lookup server_discrete s m) [ none ↦ pos 0 | some l ↦ l ]

-- `minLoadEdgeSlice[sequenceNumber % int64(len(minLoadEdgeSlice))]`
abbrev pub choose : ℤ → List EdgeServer → Outcome Error EdgeServer
choose sequence_number slice = index slice (rem_ℤ sequence_number (length slice))

unfoldable pub pick_edge_server : Balancer → Outcome Error (String × Balancer)
unfolding min_load
pick_edge_server b = if ltb (length b.edge_server_map) 1 then err no_server_available else do
  server ← choose b.sequence_number (min_load b.edge_server_map int_max [])
  let load = load_of server b.edge_server_map
  ok (
    server.server_addr,
    record b {
      edge_server_map = insert server_discrete server (wrap64 (load +ℤ pos 1)) b.edge_server_map;
    },
  )

-- The address and the request id, whose decimal text the code sends.
unfoldable pub get_edge :
    Redis → String → String → Balancer → Outcome Error ((String × ℤ) × Balancer)
unfolding user_login pick_edge_server
get_edge redis user_name passwd b =
    if user_login redis user_name passwd
    then (do
      (edge_ip_addr, b') ← pick_edge_server b
      ok (
        (edge_ip_addr, b'.sequence_number),
        record b' { sequence_number = wrap64 (b'.sequence_number +ℤ pos 1) },
      ))
    else err unauthenticated

unfoldable pub notify_job_end : EdgeServer → Balancer → Balancer
notify_job_end server b = elim (lookup server_discrete server b.edge_server_map) [
  | none ↦ b
  | some value ↦
      if ltb_ℤ (pos 0) value
      then record b {
        edge_server_map =
            insert server_discrete server (wrap64 (value +ℤ negsuc 0)) b.edge_server_map;
      }
      else b
]

-- `RECEIVED_WORKLOAD_WEIGHT`, a float64: numerator / 2 ^ scale.
pub record Weight : Type 0 where
  pub numerator : ℤ
  pub scale : ℕ

-- `float64(current) * (1 - w) + float64(received) * w` as an `int`; each operation rounds. All numerators stand over the same
-- power of two, save those of the two loads, which stand over one.
unfoldable pub weighted_load : Weight → ℤ → ℤ → ℤ
unfolding ◌+ℤ◌ ◌-ℤ◌ ◌*ℤ◌ round_ℤ truncate
weighted_load w current received =
    let one_minus = round_ℤ (pos (2 ^ w.scale) -ℤ w.numerator) in
    let weighted_current = round_ℤ (round_ℤ current *ℤ one_minus) in
    let weighted_received = round_ℤ (round_ℤ received *ℤ w.numerator) in
    truncate (round_ℤ (weighted_current +ℤ weighted_received)) (2 ^ w.scale)

unfoldable pub heartbeat : Weight → HeartbeatMessage → ℕ → Balancer → Balancer
heartbeat w message now b = record b {
  edge_server_map =
      insert server_discrete message.edge_server
        (if has_key server_discrete message.edge_server b.heartbeats
          then weighted_load w (load_of message.edge_server b.edge_server_map) message.current_load
          else message.current_load)
        b.edge_server_map;
  heartbeats = insert server_discrete message.edge_server now b.heartbeats;
}

abbrev pub second : ℕ
second = 1_000_000_000

-- The body of the loop of `checkForDeadServers`, for a server that is dead.
unfoldable pub remove_server : EdgeServer → Balancer → Balancer
remove_server server b = record b {
  edge_server_map =
      if has_key server_discrete server b.edge_server_map
      then erase server_discrete server b.edge_server_map
      else b.edge_server_map;
  heartbeats = erase server_discrete server b.heartbeats;
}

abbrev pub is_dead : ℕ → ℕ → ℕ → Bool
is_dead heartbeat_thr last_check_time last_heartbeat_time =
    ltb (last_heartbeat_time + heartbeat_thr * second) last_check_time

unfoldable pub drop_dead : ℕ → ℕ → List (EdgeServer × ℕ) → Balancer → Balancer
drop_dead thr last [] b = b
drop_dead thr last ((server, time) ∷ rest) b =
    drop_dead thr last rest (if is_dead thr last time then remove_server server b else b)

unfoldable pub check_for_dead_servers : ℕ → ℕ → Balancer → Balancer
unfolding drop_dead remove_server
check_for_dead_servers heartbeat_thr now b =
    record (drop_dead heartbeat_thr b.heartbeat_check_time b.heartbeats b) {
      heartbeat_check_time = now;
    }
