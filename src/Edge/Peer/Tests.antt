-- ===== src/Edge/Peer/Tests.antt =====
-- The peer part of an edge node (edge/peer) on concrete neighbours and requests.
use sdcc_project.Base.Int.{wrap64, ◌+ℤ◌}
use sdcc_project.Edge.Cache.{is_file_in_cache}
use sdcc_project.Base.{◌≤◌, ◌-◌}
use sdcc_project.Edge.Peer.Services.{Answer, passed_on}
use sdcc_project.Edge.Peer.Hops.{hop, start, Chain, Chain-bound}
use sdcc_project.Base.{
  Option, some, ℕ, ◌-◌, ◌≡◌, ◌≢◌, ◌↔◌, ◌≤◌, refl, ap, String, string_discrete, List, [], ◌∷◌, none,
  Outcome, ok, Bool, true, false, length, arith,
}
use sdcc_project.Base.Int.{pos}
use sdcc_project.Base.Dict.{lookup}
use sdcc_project.Edge.Cache.{World}
use sdcc_project.Edge.Peer.{
  EdgePeer, peer_discrete, FileRequest, request_discrete, FileLookupMessage, AdjConnection,
}
use sdcc_project.Edge.Peer.Requests.{
  RequestMap, is_request_already_served, kept_time, Fresh, is_request_already_served-lookup,
  is_request_already_served-Fresh,
}
use sdcc_project.Edge.Peer.Lookup.{contact_positive, neighbours_file_lookup}
use sdcc_project.Edge.Peer.Stranger.{PanicsAt, notify_bloom_filter-lookup_panics}
use sdcc_project.Edge.Peer.Contacts.{Bounded, first_contacts, neighbours_file_lookup-Bounded}
use sdcc_project.Edge.Peer.Network.{
  AdjacentPeers, PingAnswer, replied, failed, timed_out, ping_function, notify_bloom_filter,
}
use sdcc_project.Edge.Peer.Pings.{conn_of, pinged, ping_function-conn}
use sdcc_project.Edge.Peer.Silence.{rounds, rounds-Silent}
use sdcc_project.Edge.Peer.Services.{Setting, Peer, passed_on, file_lookup, Answer}
use sdcc_project.Edge.Peer.Hops.{Chain, start, hop, Chain-bound}

abbrev peer_a : EdgePeer
peer_a = record { peer_addr = "a" }

abbrev peer_b : EdgePeer
peer_b = record { peer_addr = "b" }

abbrev peer_c : EdgePeer
peer_c = record { peer_addr = "c" }

abbrev request : FileRequest
request = record { file_name = "f"; request_id = "1"; forwarder_peer = peer_a }

abbrev same_from_b : FileRequest
same_from_b = record { file_name = "f"; request_id = "1"; forwarder_peer = peer_b }

abbrev old : RequestMap
old = (request, 0) ∷ []

-- The entry that the call has just refreshed is deleted, since it had expired.
is_request_already_served-lookup_example :
    lookup request_discrete request (is_request_already_served 1 5_000_000_000 request old).1
    ≡ kept_time 1 5_000_000_000 request request old
unfolding lookup
is_request_already_served-lookup_example =
    is_request_already_served-lookup 1 5_000_000_000 request request old (refl, tt)

forgotten : kept_time 1 5_000_000_000 request request old ≡ none
unfolding lookup request_discrete peer_discrete string_discrete
forgotten = refl

is_request_already_served-Fresh_example :
    ((is_request_already_served 1 7 same_from_b old).0 ≡ true) ↔ Fresh 1 7 same_from_b old
unfolding lookup
is_request_already_served-Fresh_example =
    is_request_already_served-Fresh 1 7 same_from_b old (refl, tt)

abbrev idle : AdjConnection
idle = record { peer_connection = 3; missed_ping = pos 1 }

abbrev connections : List (EdgePeer × AdjConnection)
connections = (peer_a, idle) ∷ (peer_b, idle) ∷ (peer_c, idle) ∷ []

-- A filter is what it answers.
abbrev answers : Bool → String → Bool
answers b name = b

abbrev filters : List (EdgePeer × Bool)
filters = (peer_b, true) ∷ (peer_c, false) ∷ []

neighbours_file_lookup-Bounded_example :
    Bounded connections peer_a 2
      (length (first_contacts answers (λ i. 0) connections filters "f" peer_a 2))
      (neighbours_file_lookup answers (λ i. 0) connections filters "f" peer_a 2)
unfolding lookup peer_discrete string_discrete
neighbours_file_lookup-Bounded_example =
    neighbours_file_lookup-Bounded answers (λ i. 0) connections filters "f" peer_a 2 (omega arith)
      (refl, (refl, tt))

abbrev is_a : String → Bool
is_a s = elim (string_discrete s "a") [ yes e ↦ true | no n ↦ false ]

b_is_not_a : peer_b ≢ peer_a
unfolding string_discrete
b_is_not_a e = ground (arith, ap (λ p. is_a p.peer_addr) e)

-- A node that knows nobody gets a filter from b.
abbrev unknown : AdjacentPeers Bool
unknown = record { peer_conns = []; filter_map = [] }

abbrev gob_decode : List ℕ → Option Bool
gob_decode bytes = some false

notify_bloom_filter-lookup_panics_example :
    PanicsAt answers "f" peer_a 2 (notify_bloom_filter gob_decode peer_b [] unknown).1
unfolding lookup contact_positive notify_bloom_filter
notify_bloom_filter-lookup_panics_example =
    notify_bloom_filter-lookup_panics answers "f" gob_decode peer_b peer_a [] false unknown 2 refl
      refl refl b_is_not_a (omega arith)

abbrev adjacents : AdjacentPeers Bool
adjacents = record { peer_conns = connections; filter_map = filters }

abbrev only_b : EdgePeer → PingAnswer
only_b p = elim (peer_discrete p peer_b) [ yes e ↦ replied | no n ↦ timed_out ]

ping_function-conn_example :
    conn_of peer_b (ping_function (pos 3) only_b adjacents)
    ≡ pinged (pos 3) (only_b peer_b) (conn_of peer_b adjacents)
unfolding lookup peer_discrete string_discrete
ping_function-conn_example =
    ping_function-conn (pos 3) only_b peer_b adjacents (refl, (refl, (refl, tt)))

abbrev never : EdgePeer → PingAnswer
never p = failed

never_replies : never peer_b ≢ replied
never_replies e = ground arith

rounds-Silent_example :
    lookup peer_discrete peer_b (rounds (pos 3) (never ∷ never ∷ []) adjacents).peer_conns ≡ none
unfolding lookup peer_discrete string_discrete
rounds-Silent_example =
    rounds-Silent 3 (omega arith) peer_b (never ∷ never ∷ []) 1 idle adjacents
      (refl, (refl, (refl, tt))) refl refl (omega arith) (never_replies, (never_replies, tt))

abbrev nothing_cached : World
nothing_cached = record {
  cache = record { array = []; count = 0; caching_map = []; heap = []; cache_mutex = false };
  disk = [];
}

abbrev peer : Peer Bool
peer = record { requests = []; adjacents = adjacents; world = nothing_cached }

abbrev setting : Setting
setting = record {
  draw = λ i. 0;
  now = 5;
  request_cache_ttl = 1;
  max_contactable = 2;
  self_peer = peer_c;
  connects = λ name. true;
  sends = λ name. true;
}

abbrev message : FileLookupMessage
message = record { request = request; ttl = pos 3; callback_server = "d" }

abbrev look_up : FileLookupMessage → Outcome ⊥ (Answer × Peer Bool)
look_up m = file_lookup answers setting m peer

abbrev peer_after : Outcome ⊥ (Answer × Peer Bool) → Peer Bool
peer_after (ok (a, q)) = q
peer_after _ = peer

passes : look_up message ≡ ok (passed_on (peer_b ∷ peer_c ∷ []), peer_after (look_up message))
unfolding file_lookup is_request_already_served is_file_in_cache lookup wrap64 ◌+ℤ◌
    neighbours_file_lookup peer_discrete string_discrete
passes = refl

one_hop : Chain answers 1 message
one_hop = hop setting peer (peer_after (look_up message)) (peer_b ∷ peer_c ∷ []) passes start

Chain-bound_example : 1 ≤ 3 - 1
Chain-bound_example = Chain-bound answers 1 3 message refl (omega arith) one_hop
