-- ===== src/LoadBalancer/Loads.antt =====
-- What the handlers of load_balancer/services do to the recorded loads: bounds, and the invariant
-- of any sequence of requests.
use native.Mathlib.Nat.{div-lt_iff_lt-mul, two-pow-succ}
use sdcc_project.Base.{
  ◌-◌, zero, lt→ltb, ℕ, suc, ◌+◌, ◌*◌, ◌/◌, ◌^◌, ◌≤◌, ◌<◌, ◌≡◌, String, Bool, true, false, List, [],
  ◌∷◌, Outcome, ok, err, panic, deadlock, All, All-mono, length, arith, ltb, ◌>>=◌, if◌then◌else◌,
  Bool-cases, Option-cases, inl, inr, ap, ◌∙◌,
}
use sdcc_project.Base.Int.{ℤ, pos, negsuc, ◌+ℤ◌, ◌≤ℤ◌, ltb_ℤ, wrap64, int_max, ◌-ℤ◌}
use sdcc_project.Base.Float.{round_ℕ, round_ℤ, ◌*ℤ◌, truncate}
use sdcc_project.LoadBalancer.Rounding.{rounded, rounded_bound}
use sdcc_project.Base.Dict.{
  insert, lookup, Unique, has_key, insert-Unique, erase-Unique, All-insert, All-erase, All-lookup,
}
use sdcc_project.LoadBalancer.{
  after, EdgeServer, HeartbeatMessage, Balancer, Weight, Redis, Error, server_discrete, user_login,
  min_load, load_of, is_dead, remove_server, drop_dead, check_for_dead_servers, choose,
  pick_edge_server, get_edge, notify_job_end, weighted_load, heartbeat,
}

if_elim {ℓ κ} :
    {A : Type ℓ} (P : A → Type κ) (c : Bool) {x y : A} → P x → P y → P (if c then x else y)
if_elim P true px py = px
if_elim P false px py = py

-- A load from zero to the bound.
abbrev pub Within : ℕ → ℤ → Type 0
Within k l = (pos 0 ≤ℤ l) × (l ≤ℤ pos k)

-- A weight from zero to one.
pub record IsShare (w : Weight) : Type 0 where
  pub share : ℕ
  pub is_share : w.numerator ≡ pos share
  pub at_most_one : share ≤ 2 ^ w.scale

pos_minus : (d s : ℕ) → s ≤ d → pos d -ℤ pos s ≡ pos (d - s)
unfolding ◌-ℤ◌
pos_minus d s h = ground arith

pos_plus : (a b : ℕ) → pos a +ℤ pos b ≡ pos (a + b)
unfolding ◌+ℤ◌
pos_plus a b = ground arith

pos_times : (a b : ℕ) → pos a *ℤ pos b ≡ pos (a * b)
unfolding ◌*ℤ◌
pos_times a b = grind arith

-- On loads that are not negative all numbers on the way are not negative.
weighted_load_pos :
    (w : Weight) (share a b : ℕ)
    → w.numerator ≡ pos share
    → share ≤ 2 ^ w.scale
    → weighted_load w (pos a) (pos b)
      ≡ truncate (pos (rounded (2 ^ w.scale) share a b)) (2 ^ w.scale)
unfolding weighted_load round_ℤ
weighted_load_pos w share a b e le =
    let d = 2 ^ w.scale in
    let mean : ℤ → ℤ = λ z. truncate (round_ℤ z) d in
    let x = round_ℕ (round_ℕ a * round_ℕ (d - share)) in
    ap (λ n. weighted_load (record w { numerator = n }) (pos a) (pos b)) e
    ∙ ap
        (λ z.
          mean (round_ℤ (pos (round_ℕ a) *ℤ round_ℤ z) +ℤ round_ℤ (pos (round_ℕ b) *ℤ pos share)))
        (pos_minus d share le)
    ∙ ap (λ z. mean (round_ℤ z +ℤ round_ℤ (pos (round_ℕ b) *ℤ pos share)))
        (pos_times (round_ℕ a) (round_ℕ (d - share)))
    ∙ ap (λ z. mean (pos x +ℤ round_ℤ z)) (pos_times (round_ℕ b) share)
    ∙ ap mean (pos_plus x (round_ℕ (round_ℕ b * share)))

two_pow_pos : (n : ℕ) → 0 < 2 ^ n
two_pow_pos zero = omega arith
two_pow_pos (suc n) = omega (arith, two-pow-succ n, two_pow_pos n)

truncate-Within : (k n d : ℕ) → 0 < d → k < 2 ^ 50 → n < suc k * d → Within k (truncate (pos n) d)
unfolding truncate
truncate-Within k n d pos_d lt h =
    let q : n / d < suc k = (div-lt_iff_lt-mul pos_d).1 h in
    rw (lt→ltb (n / d) (2 ^ 63) (omega arith)) (omega arith, omega (arith, q))

-- With a weight from zero to one, an old load and a reported load from zero to `k`, below 2^50, give a recorded load
-- from zero to `k`: the rounding errors do not add up to one.
pub weighted_load_bounds :
    (w : Weight) (current received : ℤ) (k : ℕ)
    → IsShare w
    → k < 2 ^ 50
    → Within k current
    → Within k received
    → Within k (weighted_load w current received)
weighted_load_bounds w (pos a) (pos b) k h lt p q =
    let d = 2 ^ w.scale in
    rw (weighted_load_pos w h.share a b h.is_share h.at_most_one) (
      truncate-Within k (rounded d h.share a b) d (two_pow_pos w.scale) lt (
        rounded_bound d h.share a b k (two_pow_pos w.scale) h.at_most_one (omega arith)
          (omega arith) lt))
weighted_load_bounds w (negsuc a) b k h lt p q = absurd (omega arith)
weighted_load_bounds w (pos a) (negsuc b) k h lt p q = absurd (omega arith)

bump_Within : (k : ℕ) (l : ℤ) → Within k l → suc k < 2 ^ 63 → Within (suc k) (wrap64 (l +ℤ pos 1))
unfolding ◌+ℤ◌ wrap64
bump_Within k (pos n) h r = ground arith
bump_Within k (negsuc n) h r = absurd (omega arith)

drop_Within :
    (k : ℕ) (l : ℤ)
    → Within k l
    → ltb_ℤ (pos 0) l ≡ true
    → k < 2 ^ 63
    → Within k (wrap64 (l +ℤ negsuc 0))
unfolding ◌+ℤ◌ wrap64
drop_Within k (pos n) h t r = ground arith
drop_Within k (negsuc n) h t r = absurd (omega arith)

Within-mono : (k j : ℕ) (l : ℤ) → k ≤ j → Within k l → Within j l
Within-mono k j l h w = omega arith

-- The loads of a map within a bound; no server stands twice in either map.
pub record Sound (k : ℕ) (b : Balancer) : Type 0 where
  pub loads : All (λ e. Within k e.1) b.edge_server_map
  pub servers : Unique server_discrete b.edge_server_map
  pub heard : Unique server_discrete b.heartbeats

load_of-Within :
    (k : ℕ) (s : EdgeServer) (m : List (EdgeServer × ℤ))
    → All (λ e. Within k e.1) m
    → Within k (load_of s m)
load_of-Within k s m h = elim (Option-cases (lookup server_discrete s m)) [
  | inl missing ↦ rw (missing, load_of) (omega arith)
  | inr (l, found) ↦
      rw (found, load_of) (All-lookup server_discrete (λ e. Within k e.1) s m h found)
]

pub Sound-mono : (k j : ℕ) (b : Balancer) → k ≤ j → Sound k b → Sound j b
Sound-mono k j b h v = record {
  loads =
      All-mono (λ e. Within k e.1) (λ e. Within j e.1) b.edge_server_map
        (λ e. Within-mono k j e.1 h) v.loads;
  servers = v.servers;
  heard = v.heard;
}

-- A write of a load within the bound.
write-Sound :
    (k : ℕ) (b : Balancer) (s : EdgeServer) (l : ℤ)
    → Sound k b
    → Within k l
    → Sound k (record b { edge_server_map = insert server_discrete s l b.edge_server_map })
write-Sound k b s l v w = record {
  loads = All-insert server_discrete (λ e. Within k e.1) s l b.edge_server_map w v.loads;
  servers = insert-Unique server_discrete s l b.edge_server_map v.servers;
  heard = v.heard;
}

-- `NotifyJobEnd` never takes a load below zero.
pub notify_job_end-Sound :
    (k : ℕ) (s : EdgeServer) (b : Balancer) → k < 2 ^ 63 → Sound k b → Sound k (notify_job_end s b)
unfolding notify_job_end
notify_job_end-Sound k s b r v = elim (Option-cases (lookup server_discrete s b.edge_server_map)) [
  | inl missing ↦ rw (missing, notify_job_end) v
  | inr (l, found) ↦ elim (Bool-cases (ltb_ℤ (pos 0) l)) [
    | inl positive ↦
        let w = All-lookup server_discrete (λ e. Within k e.1) s b.edge_server_map v.loads found in
        rw (found, notify_job_end, positive) (write-Sound k b s _ v (drop_Within k l w positive r))
    | inr idle ↦ rw (found, notify_job_end, idle) v
  ]
]

pub heartbeat-Sound :
    (w : Weight) (message : HeartbeatMessage) (now k : ℕ) (b : Balancer)
    → IsShare w
    → k < 2 ^ 50
    → Within k message.current_load
    → Sound k b
    → Sound k (heartbeat w message now b)
unfolding heartbeat
heartbeat-Sound w message now k b h lt r v =
    let old = load_of-Within k message.edge_server b.edge_server_map v.loads in
    let new = weighted_load_bounds w _ _ k h lt old r in
    let v' =
      write-Sound k b message.edge_server _ v
        (if_elim (Within k) (has_key server_discrete message.edge_server b.heartbeats) new r) in
    record {
      loads = v'.loads;
      servers = v'.servers;
      heard = insert-Unique server_discrete message.edge_server now b.heartbeats v.heard;
    }

remove_server-Sound :
    (k : ℕ) (s : EdgeServer) (b : Balancer) → Sound k b → Sound k (remove_server s b)
unfolding remove_server
remove_server-Sound k s b v = record {
  loads =
      if_elim (All (λ e. Within k e.1)) (has_key server_discrete s b.edge_server_map)
        (All-erase server_discrete (λ e. Within k e.1) s b.edge_server_map v.loads) v.loads;
  servers =
      if_elim (Unique server_discrete) (has_key server_discrete s b.edge_server_map)
        (erase-Unique server_discrete s b.edge_server_map v.servers) v.servers;
  heard = erase-Unique server_discrete s b.heartbeats v.heard;
}

drop_dead-Sound :
    (k thr last : ℕ) (l : List (EdgeServer × ℕ)) (b : Balancer)
    → Sound k b
    → Sound k (drop_dead thr last l b)
unfolding drop_dead
drop_dead-Sound k thr last [] b v = v
drop_dead-Sound k thr last ((s, t) ∷ r) b v =
    drop_dead-Sound k thr last r _
      (if_elim (Sound k) (is_dead thr last t) (remove_server-Sound k s b v) v)

pub check_for_dead_servers-Sound :
    (k thr now : ℕ) (b : Balancer) → Sound k b → Sound k (check_for_dead_servers thr now b)
unfolding check_for_dead_servers
check_for_dead_servers-Sound k thr now b v =
    let v' = drop_dead-Sound k thr b.heartbeat_check_time b.heartbeats b v in
    record { loads = v'.loads; servers = v'.servers; heard = v'.heard }

-- What `pickEdgeServer` leaves, for the server it chose.
abbrev picked : EdgeServer → Balancer → Balancer
picked s b = record b {
  edge_server_map =
      insert server_discrete s (wrap64 (load_of s b.edge_server_map +ℤ pos 1)) b.edge_server_map;
}

-- A property of every state that `pickEdgeServer` can leave holds of the state that a successful
-- `GetEdge` leaves, up to the sequence number.
module _ {ℓ} (P : Balancer → Type ℓ) (b : Balancer) (same : P b) where
  abbrev numbered : Outcome Error (String × Balancer) → Outcome Error ((String × ℤ) × Balancer)
  numbered o = do
    (edge_ip_addr, b') ← o
    ok (
      (edge_ip_addr, b'.sequence_number),
      record b' { sequence_number = wrap64 (b'.sequence_number +ℤ pos 1) },
    )

  get_edge_cases :
      (redis : Redis) (u p : String)
      → ((s : EdgeServer) (n : ℤ) → P (record (picked s b) { sequence_number = n }))
      → P (after b (get_edge redis u p b))
  unfolding get_edge pick_edge_server
  get_edge_cases redis u p h = elim (Bool-cases (user_login redis u p)) [
    | inl granted ↦ elim (Bool-cases (ltb (length b.edge_server_map) 1)) [
      | inl empty ↦ rw (granted, empty) same
      | inr some_server ↦
          rw (granted, some_server)
            (go (choose b.sequence_number (min_load b.edge_server_map int_max [])))
    ]
    | inr refused ↦ rw refused same
  ]
    where
      go :
          (o : Outcome Error EdgeServer)
          → P (
              after b (
                numbered (do
                  server ← o
                  let load = load_of server b.edge_server_map
                  ok (
                    server.server_addr,
                    record b {
                      edge_server_map =
                          insert server_discrete server (wrap64 (load +ℤ pos 1)) b.edge_server_map;
                    },
                  ))))
      go (ok s) = h s _
      go (err e) = same
      go panic = same
      go deadlock = same

pub get_edge-Sound :
    (k : ℕ) (redis : Redis) (u p : String) (b : Balancer)
    → suc k < 2 ^ 63
    → Sound k b
    → Sound (suc k) (after b (get_edge redis u p b))
get_edge-Sound k redis u p b r v =
    let v' = Sound-mono k (suc k) b (omega arith) v in
    get_edge_cases (Sound (suc k)) b v' redis u p λ s n.
      let old = load_of-Within k s b.edge_server_map v.loads in
      let w = write-Sound (suc k) b s _ v' (bump_Within k _ old r) in
      record { loads = w.loads; servers = w.servers; heard = w.heard }
