-- ===== src/LoadBalancer/Requests.antt =====
-- `GetEdge` and sequences of requests (load_balancer/services/balancing_services.go).
use sdcc_project.Base.{
  ℕ, suc, ◌+◌, ◌^◌, ◌≤◌, ◌<◌, ◌≡◌, refl, String, List, [], ◌∷◌, ◌++◌, ◌⊎◌, ◌∙◌, Outcome, ok, All,
  length, arith, if◌then◌else◌, inl, inr,
}
use sdcc_project.Base.Int.{ℤ, pos, ◌+ℤ◌, wrap64}
use sdcc_project.LoadBalancer.Loads.{
  Within, IsShare, Sound, Sound-mono, get_edge-Sound, notify_job_end-Sound, heartbeat-Sound,
  check_for_dead_servers-Sound,
}
use sdcc_project.LoadBalancer.{
  after, is_dead, remove_server, drop_dead, EdgeServer, HeartbeatMessage, Balancer, Weight, Redis,
  Error, pick_edge_server, get_edge, notify_job_end, heartbeat, check_for_dead_servers,
}

-- A request to the balancer, with the time at which it is handled.
pub data Request : Type 0 where
  gets : String → String → Request
  ends : EdgeServer → Request
  beats : HeartbeatMessage → ℕ → Request
  checks : ℕ → Request

notify_job_end-sequence :
    (s : EdgeServer) (b : Balancer) → (notify_job_end s b).sequence_number ≡ b.sequence_number
unfolding notify_job_end
notify_job_end-sequence s b = ground arith

drop_dead-sequence :
    (thr last : ℕ) (l : List (EdgeServer × ℕ)) (b : Balancer)
    → (drop_dead thr last l b).sequence_number ≡ b.sequence_number
unfolding drop_dead remove_server
drop_dead-sequence thr last [] b = refl
drop_dead-sequence thr last ((s, t) ∷ r) b =
    ground
      (arith, drop_dead-sequence thr last r (if is_dead thr last t then remove_server s b else b))

-- One request hands out no id and keeps the number, or hands out the number and adds one.
Advances : ℤ → Balancer → List ℤ → Type 0
Advances i b' is =
    ((is ≡ []) × (b'.sequence_number ≡ i))
    ⊎ ((is ≡ i ∷ []) × (b'.sequence_number ≡ wrap64 (i +ℤ pos 1)))

-- The id of the answer, if the request is a `GetEdge` that succeeds.
abbrev pub id_of {ℓ} : {A : Type ℓ} → Outcome Error ((A × ℤ) × Balancer) → List ℤ
id_of (ok ((a, i), b')) = i ∷ []
id_of _ = []

get_edge-Advances :
    (redis : Redis) (u p : String) (b : Balancer)
    → Advances b.sequence_number (after b (get_edge redis u p b)) (id_of (get_edge redis u p b))
unfolding get_edge pick_edge_server Advances
get_edge-Advances redis u p b = ground arith

next_number : (n : ℕ) (i : ℤ) → i ≡ pos n → suc n < 2 ^ 63 → wrap64 (i +ℤ pos 1) ≡ pos (suc n)
unfolding ◌+ℤ◌ wrap64
next_number n i e h = ground arith

-- Heartbeats report loads from zero to the bound.
abbrev pub Reports : ℕ → Request → Type 0
Reports k (beats message now) = Within k message.current_load
Reports k _ = Unit

-- The ids count up from a number.
abbrev pub Numbered : ℕ → List ℤ → Type 0
Numbered n [] = Unit
Numbered n (i ∷ is) = (i ≡ pos n) × Numbered (suc n) is

module _ (redis : Redis) (w : Weight) (thr : ℕ) where
  unfoldable pub step : Balancer → Request → Balancer
  step b (gets user_name passwd) = after b (get_edge redis user_name passwd b)
  step b (ends server) = notify_job_end server b
  step b (beats message now) = heartbeat w message now b
  step b (checks now) = check_for_dead_servers thr now b

  unfoldable pub run : Balancer → List Request → Balancer
  run b [] = b
  run b (c ∷ cs) = run (step b c) cs

  step-Sound :
      (k r : ℕ) (b : Balancer) (c : Request)
      → IsShare w
      → r ≤ k
      → suc k < 2 ^ 50
      → Reports r c
      → Sound k b
      → Sound (suc k) (step b c)
  unfolding step
  step-Sound k r b (gets u p) h le lt rep v = get_edge-Sound k redis u p b (omega arith) v
  step-Sound k r b (ends s) h le lt rep v =
      Sound-mono k (suc k) _ (omega arith) (notify_job_end-Sound k s b (omega arith) v)
  step-Sound k r b (beats message now) h le lt rep v =
      Sound-mono k (suc k) _ (omega arith)
        (heartbeat-Sound w message now k b h (omega arith) (omega arith) v)
  step-Sound k r b (checks now) h le lt rep v =
      Sound-mono k (suc k) _ (omega arith) (check_for_dead_servers-Sound k thr now b v)

  -- If heartbeats report loads from zero to `r` and the balancer starts with loads from zero to `k`, `r ≤ k`, no server
  -- twice in a map and a weight from zero to one, then after any sequence of requests whose length keeps the sum
  -- below 2^50 every recorded load lies between zero and `k` plus the number of requests, and no server stands
  -- twice in a map. The arithmetic is that of float64, with its rounding.
  pub run-Sound :
      (cs : List Request) (k r : ℕ) (b : Balancer)
      → IsShare w
      → r ≤ k
      → length cs + k < 2 ^ 50
      → All (Reports r) cs
      → Sound k b
      → Sound (length cs + k) (run b cs)
  unfolding run
  run-Sound [] k r b h le lt reps v = Sound-mono k (0 + k) b (omega arith) v
  run-Sound (c ∷ cs) k r b h le lt reps v =
      let v' = step-Sound k r b c h le (omega arith) reps.0 v in
      Sound-mono (length cs + suc k) (suc (length cs) + k) _ (omega arith)
        (run-Sound cs (suc k) r (step b c) h (omega arith) (omega arith) reps.1 v')

  unfoldable pub answer : Balancer → Request → List ℤ
  answer b (gets user_name passwd) = id_of (get_edge redis user_name passwd b)
  answer b _ = []

  -- The request ids that a sequence of requests hands out.
  unfoldable pub answers : Balancer → List Request → List ℤ
  answers b [] = []
  answers b (c ∷ cs) = answer b c ++ answers (step b c) cs

  step-Advances : (b : Balancer) (c : Request) → Advances b.sequence_number (step b c) (answer b c)
  unfolding step answer Advances heartbeat check_for_dead_servers
  step-Advances b (gets u p) = get_edge-Advances redis u p b
  step-Advances b (ends s) = inl (refl, notify_job_end-sequence s b)
  step-Advances b (beats message now) = inl (refl, refl)
  step-Advances b (checks now) =
      inl (refl, drop_dead-sequence thr b.heartbeat_check_time b.heartbeats b)

  -- From a sequence number that is not negative, the ids that a sequence of requests hands out are consecutive, so no two
  -- requests get the same id, as long as the number does not wrap.
  pub answers-Numbered :
      (cs : List Request) (n : ℕ) (b : Balancer)
      → b.sequence_number ≡ pos n
      → length cs + n < 2 ^ 63
      → Numbered n (answers b cs)
  unfolding answers Advances
  answers-Numbered [] n b e lt = tt
  answers-Numbered (c ∷ cs) n b e lt = elim (step-Advances b c) [
    | inl (no_id, kept) ↦ rw no_id (answers-Numbered cs n (step b c) (kept ∙ e) (omega arith))
    | inr (one, next) ↦ rw (one) (
      e,
      answers-Numbered cs (suc n) (step b c)
          (next ∙ next_number n b.sequence_number e (omega arith)) (omega arith),
    )
  ]
