-- ===== src/LoadBalancer/Tests.antt =====
-- Runs of the load balancer's handlers at concrete states, and the theorems applied to them.
use sdcc_project.Base.{◌^◌, ◌-◌, ◌≡◌, refl, List, [], ◌∷◌, none, some, ok, arith}
use sdcc_project.Base.Int.{ℤ, pos, negsuc, int_max, ◌-ℤ◌, ◌+ℤ◌, ◌≤ℤ◌, wrap64}
use sdcc_project.Base.Float.{round_ℤ, truncate, ◌*ℤ◌}
use sdcc_project.Base.Dict.{insert, erase, lookup}
use sdcc_project.LoadBalancer.{
  EdgeServer, Balancer, Weight, Redis, server_discrete, pick_edge_server, get_edge, notify_job_end,
  heartbeat, weighted_load, check_for_dead_servers,
}
use sdcc_project.LoadBalancer.Pick.{pick_edge_server-least}
use sdcc_project.LoadBalancer.Expiry.{check_for_dead_servers_lem}
use sdcc_project.LoadBalancer.Loads.{IsShare, Sound}
use sdcc_project.LoadBalancer.Requests.{Request, run, step, answer, answers, run-Sound}
use sdcc_project.LoadBalancer.Race

program : Unit {0}
unfolding round_ℤ truncate ◌*ℤ◌ ◌-ℤ◌ pick_edge_server get_edge notify_job_end heartbeat
    weighted_load check_for_dead_servers insert erase lookup server_discrete ◌+ℤ◌ wrap64
program = tt

abbrev edge_a : EdgeServer
edge_a = record { server_addr = "10.0.0.1:4000" }

abbrev edge_b : EdgeServer
edge_b = record { server_addr = "10.0.0.2:4000" }

abbrev half : Weight
half = record { numerator = pos 1; scale = 1 }

abbrev balancer : Balancer
balancer = record {
  edge_server_map = (edge_a, pos 3) ∷ (edge_b, pos 1) ∷ [];
  heartbeat_check_time = 60_000_000_000;
  heartbeats = (edge_a, 50_000_000_000) ∷ (edge_b, 10_000_000_000) ∷ [];
  sequence_number = pos 41;
}

abbrev redis : Redis
redis user_name = some user_name

abbrev requests : List Request
requests =
    Request.gets "test" "test"
    ∷ Request.ends edge_a
    ∷ Request.gets "test" "wrong"
    ∷ Request.beats (record { edge_server = edge_a; current_load = pos 0 }) 61_000_000_000
    ∷ Request.gets "simone" "simone"
    ∷ []

pick_b :
    pick_edge_server balancer
    ≡ ok (
      "10.0.0.2:4000",
      record balancer { edge_server_map = (edge_a, pos 3) ∷ (edge_b, pos 2) ∷ [] },
    )
unfolding program
pick_b = refl

ids : answers redis half 15 balancer requests ≡ pos 41 ∷ pos 42 ∷ []
unfolding program answers step answer
ids = refl

b_removed :
    (check_for_dead_servers 15 61_000_000_000 balancer).heartbeats ≡ (edge_a, 50_000_000_000) ∷ []
unfolding program
b_removed = refl

pick_edge_server-least_example :
    (s : EdgeServer) × (l : ℤ) × (lookup server_discrete s balancer.edge_server_map ≡ some l)
    × ((t : EdgeServer) (k : ℤ)
        → lookup server_discrete t balancer.edge_server_map ≡ some k
        → l ≤ℤ k)
    × (pick_edge_server balancer
        ≡ ok (
          s.server_addr,
          record balancer {
            edge_server_map =
                insert server_discrete s (wrap64 (l +ℤ pos 1)) balancer.edge_server_map;
          },
        ))
unfolding program
pick_edge_server-least_example =
    pick_edge_server-least balancer 41 (omega arith) (refl, (refl, tt)) (omega arith) refl

check_for_dead_servers_example :
    lookup server_discrete edge_b (check_for_dead_servers 15 61_000_000_000 balancer).heartbeats
    ≡ none
unfolding program
check_for_dead_servers_example =
    (check_for_dead_servers_lem 15 61_000_000_000 balancer edge_b (refl, (refl, tt))).0

balancer-Sound : Sound 3 balancer
unfolding program
balancer-Sound = record {
  loads = omega arith;
  servers = (refl, (refl, tt));
  heard = (refl, (refl, tt));
}

half-IsShare : IsShare half
half-IsShare = record { share = 1; is_share = refl; at_most_one = omega arith }

-- Half of 3 and half of 2.
means : weighted_load half (pos 3) (pos 2) ≡ pos 2
unfolding program
means = refl

-- At the end of the range the rounded mean is too large for an `int`.
overflows : weighted_load half int_max int_max ≡ negsuc (2 ^ 63 - 1)
unfolding program
overflows = refl

run-Sound_example : Sound 8 (run redis half 15 balancer requests)
run-Sound_example =
    run-Sound redis half 15 requests 3 0 balancer half-IsShare (omega arith) (omega arith)
      (omega arith) balancer-Sound

same_id_reachable_example :
    (s : Race.System) × Race.Reach
      (record {
        balancer = balancer;
        first = Race.Handler.chosen "10.0.0.1:4000";
        second = Race.Handler.chosen "10.0.0.2:4000";
      })
      s
    × (s.first ≡ Race.Handler.answered "10.0.0.1:4000" (pos 41))
    × (s.second ≡ Race.Handler.answered "10.0.0.2:4000" (pos 41))
same_id_reachable_example = Race.same_id_reachable balancer "10.0.0.1:4000" "10.0.0.2:4000"
