-- ===== src/Edge/Peer/Calls.antt =====
-- Calls that an edge node makes on its own: the heartbeats and the end of a job (edge/peer/network.go, edge/server/server.go),
-- and the notification of Bloom filters (edge/peer/peer.go). Reading the error of a call that has not ended panics.
use sdcc_project.Base.{ℕ, String, List, [], ◌∷◌, Option, none, some, Outcome, ok, err, panic}
use sdcc_project.Edge.Peer.{EdgePeer, AdjConnection}

-- How a call ends before the timer, or that it does not.
pub data CallAnswer : Type 0 where
  done : CallAnswer
  call_failed : String → CallAnswer
  timed_out : CallAnswer

-- The `select` behind a call; the connection is dropped on an error.
unfoldable pub after_call : ℕ → CallAnswer → Outcome ⊥ (Option ℕ)
after_call client done = ok (some client)
after_call client (call_failed e) = ok none
after_call client timed_out = panic

-- A call over the connection, or over a new one if one can be made.
abbrev pub call_or_connect : Option ℕ → Option ℕ → CallAnswer → Outcome ⊥ (Option ℕ)
call_or_connect (some client) connect answer = after_call client answer
call_or_connect none (some client) answer = after_call client answer
call_or_connect none none answer = ok none

-- `heartbeatFunction` of a peer: the connection to the registry that it leaves.
unfoldable pub registry_heartbeat : Option ℕ → Option ℕ → CallAnswer → Outcome ⊥ (Option ℕ)
unfolding after_call
registry_heartbeat registry_client connect answer = call_or_connect registry_client connect answer

-- `heartbeatFunction` of the file server, with the connection that EnsureConnectionToTarget makes.
unfoldable pub balancer_heartbeat : Option ℕ → ℕ → CallAnswer → Outcome ⊥ (Option ℕ)
unfolding after_call
balancer_heartbeat balancer_connection ensured answer =
    call_or_connect balancer_connection (some ensured) answer

-- `notifyJobEnd`
unfoldable pub notify_job_end : Option ℕ → Option ℕ → CallAnswer → Outcome ⊥ (Option ℕ)
unfolding after_call
notify_job_end balancer_connection connect answer =
    call_or_connect balancer_connection connect answer

-- How `notifyBloomFiltersToAdjacents` ends.
pub data NotifyEnd : Type 0 where
  all_notified : NotifyEnd
  encode_failed : String → NotifyEnd
  notify_failed : EdgePeer → String → NotifyEnd
  notify_timeout : EdgePeer → NotifyEnd

-- The loop, with the peers that were called.
unfoldable pub notify_each :
    (EdgePeer → CallAnswer) → List (EdgePeer × AdjConnection) → List EdgePeer × NotifyEnd
notify_each answer [] = ([], all_notified)
notify_each answer ((peer, conn) ∷ rest) =
    let (called, at_end) = notify_each answer rest in
    elim (answer peer) [
      | done ↦ (peer ∷ called, at_end)
      | call_failed e ↦ (peer ∷ [], notify_failed peer e)
      | timed_out ↦ (peer ∷ [], notify_timeout peer)
    ]

unfoldable pub notify_bloom_filters_to_adjacents :
    Outcome String (List ℕ)
    → (EdgePeer → CallAnswer)
    → List (EdgePeer × AdjConnection)
    → List EdgePeer × NotifyEnd
unfolding notify_each
notify_bloom_filters_to_adjacents (err e) answer peer_conns = ([], encode_failed e)
notify_bloom_filters_to_adjacents filter_encode answer peer_conns = notify_each answer peer_conns
