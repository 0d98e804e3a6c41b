-- ===== src/LoadBalancer/Race.antt =====
-- `GetEdge` (load_balancer/services/balancing_services.go) of two clients at once. After the choice
-- of a server the handler reads the sequence number without a lock, and adds one to it under a lock of its own.
use sdcc_project.Base.{◌≡◌, refl, String}
use sdcc_project.Base.Int.{ℤ, pos, ◌+ℤ◌, wrap64}
use sdcc_project.LoadBalancer.{Balancer}

-- Where a handler stands: it has chosen a server, it has read its request id too, or it has answered.
pub data Handler : Type 0 where
  chosen : String → Handler
  numbered : String → ℤ → Handler
  answered : String → ℤ → Handler

pub record System : Type 0 where
  pub balancer : Balancer
  pub first : Handler
  pub second : Handler

-- The steps of one handler: the read, and the increment that comes before the answer.
pub data Progress (b : Balancer) : Handler → Balancer → Handler → Type 0 where
  read : {addr : String} → Progress b (chosen addr) b (numbered addr b.sequence_number)
  increment :
      {addr : String} {i : ℤ} {b' : Balancer}
      → b' ≡ record b { sequence_number = wrap64 (b.sequence_number +ℤ pos 1) }
      → Progress b (numbered addr i) b' (answered addr i)

pub data Step : System → System → Type 0 where
  first_runs :
      {b b' : Balancer} {g h h' : Handler}
      → Progress b h b' h'
      → Step
          (record { balancer = b; first = h; second = g })
          (record { balancer = b'; first = h'; second = g })
  second_runs :
      {b b' : Balancer} {g h h' : Handler}
      → Progress b h b' h'
      → Step
          (record { balancer = b; first = g; second = h })
          (record { balancer = b'; first = g; second = h' })

pub data Reach (s : System) : System → Type 0 where
  here : Reach s s
  next : {t u : System} → Reach s t → Step t u → Reach s u

-- From every state two handlers that have chosen their servers can both answer with the same
-- request id: the current sequence number.
pub same_id_reachable :
    (b : Balancer) (addr addr' : String)
    → (s : System) × Reach (record { balancer = b; first = chosen addr; second = chosen addr' }) s
      × (s.first ≡ answered addr b.sequence_number)
      × (s.second ≡ answered addr' b.sequence_number)
same_id_reachable b addr addr' = (
  _,
  next (next (next (next here (first_runs read)) (second_runs read)) (first_runs (increment refl)))
      (second_runs (increment refl)),
  refl,
  refl,
)
