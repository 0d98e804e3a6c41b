-- ===== src/Edge/Peer/Network.antt =====
-- The neighbours of a peer: edge/peer/network.go, edge/peer/peer_utils.go and the handlers of edge/peer/peer_services.go
-- that change them. What a dial and a ping answer is an argument; so is the decoder of Bloom filters.
use sdcc_project.Base.{ℕ, Bool, true, false, List, [], ◌∷◌, Option, none, some, if◌then◌else◌, map}
use sdcc_project.Base.Int.{ℤ, pos, ◌+ℤ◌, leb_ℤ, wrap64}
use sdcc_project.Base.Dict.{insert, erase, lookup, has_key}
use sdcc_project.Edge.Peer.{EdgePeer, peer_discrete, AdjConnection}

pub record AdjacentPeers (Filter : Type 0) : Type 0 where
  pub peer_conns : List (EdgePeer × AdjConnection)
  pub filter_map : List (EdgePeer × Filter)

pub data PingAnswer : Type 0 where
  replied : PingAnswer
  failed : PingAnswer
  timed_out : PingAnswer

module _ {Filter : Type 0} where
  abbrev pub connected : EdgePeer → ℕ → AdjacentPeers Filter → AdjacentPeers Filter
  connected peer client adj = record adj {
    peer_conns =
        insert peer_discrete peer (record { peer_connection = client; missed_ping = pos 0 })
          (adj.peer_conns);
  }

  -- `connectAndAddNeighbour`
  unfoldable pub connect_and_add_neighbour :
      (EdgePeer → Option ℕ) → EdgePeer → AdjacentPeers Filter → Option (ℕ × AdjacentPeers Filter)
  connect_and_add_neighbour connect_to_node peer adj = elim (connect_to_node peer) [
    | none ↦ none
    | some client ↦ some (client, connected peer client adj)
  ]

  -- `Ping`, with whether it returns no error.
  unfoldable pub ping :
      (EdgePeer → Option ℕ) → EdgePeer → AdjacentPeers Filter → Bool × AdjacentPeers Filter
  ping connect_to_node peer adj =
      if has_key peer_discrete peer adj.peer_conns
      then (true, adj)
      else (elim (connect_to_node peer) [
        | none ↦ (false, adj)
        | some client ↦ (true, connected peer client adj)
      ])

  -- `NotifyBloomFilter`
  unfoldable pub notify_bloom_filter :
      (List ℕ → Option Filter)
      → EdgePeer
      → List ℕ
      → AdjacentPeers Filter
      → Bool × AdjacentPeers Filter
  notify_bloom_filter gob_decode peer bloom_filter adj = elim (gob_decode bloom_filter) [
    | none ↦ (false, adj)
    | some edge_filter ↦
        (true, record adj { filter_map = insert peer_discrete peer edge_filter (adj.filter_map) })
  ]

  -- `AddNeighbour`
  unfoldable pub add_neighbour :
      (EdgePeer → Option ℕ) → EdgePeer → AdjacentPeers Filter → Bool × AdjacentPeers Filter
  unfolding connect_and_add_neighbour
  add_neighbour connect_to_node peer adj =
      elim (connect_and_add_neighbour connect_to_node peer adj) [
        | none ↦ (false, adj)
        | some (client, adj') ↦ (true, adj')
      ]

  -- `GetNeighbours`
  unfoldable pub get_neighbours : AdjacentPeers Filter → List (EdgePeer × ℕ)
  get_neighbours adj = map (λ e. (e.0, 0)) adj.peer_conns

  -- `removeBloomFilter`
  abbrev pub remove_bloom_filter : EdgePeer → AdjacentPeers Filter → AdjacentPeers Filter
  remove_bloom_filter peer adj = record adj {
    filter_map = erase peer_discrete peer (adj.filter_map);
  }

  -- `timeoutAction`
  abbrev pub remove_neighbour : EdgePeer → AdjacentPeers Filter → AdjacentPeers Filter
  remove_neighbour peer adj =
      remove_bloom_filter peer
        (record adj { peer_conns = erase peer_discrete peer (adj.peer_conns) })

  abbrev pub count_missed :
      ℤ → EdgePeer → Option AdjConnection → AdjacentPeers Filter → AdjacentPeers Filter
  count_missed max_missed_ping peer none adj = adj
  count_missed max_missed_ping peer (some connection) adj =
      let missed = wrap64 (connection.missed_ping +ℤ pos 1) in
      let adj' = record adj {
        peer_conns =
            insert peer_discrete peer (record connection { missed_ping = missed }) (adj.peer_conns);
      } in
      if leb_ℤ max_missed_ping missed then remove_neighbour peer adj' else adj'

  unfoldable pub timeout_action : ℤ → EdgePeer → AdjacentPeers Filter → AdjacentPeers Filter
  timeout_action max_missed_ping peer adj =
      count_missed max_missed_ping peer (lookup peer_discrete peer adj.peer_conns) adj

  -- The body of the loop of `pingFunction`.
  abbrev pub reset_missed :
      EdgePeer → Option AdjConnection → AdjacentPeers Filter → AdjacentPeers Filter
  reset_missed peer none adj = adj
  reset_missed peer (some connection) adj = record adj {
    peer_conns =
        insert peer_discrete peer (record connection { missed_ping = pos 0 }) (adj.peer_conns);
  }

  unfoldable pub ping_one : ℤ → PingAnswer → EdgePeer → AdjacentPeers Filter → AdjacentPeers Filter
  unfolding timeout_action
  ping_one max_missed_ping replied peer adj =
      reset_missed peer (lookup peer_discrete peer adj.peer_conns) adj
  ping_one max_missed_ping failed peer adj = timeout_action max_missed_ping peer adj
  ping_one max_missed_ping timed_out peer adj = timeout_action max_missed_ping peer adj

  -- `pingFunction` goes over a copy of the connections.
  unfoldable pub ping_all :
      ℤ
      → (EdgePeer → PingAnswer)
      → List (EdgePeer × AdjConnection)
      → AdjacentPeers Filter
      → AdjacentPeers Filter
  unfolding ping_one
  ping_all max_missed_ping answer [] adj = adj
  ping_all max_missed_ping answer ((peer, conn) ∷ rest) adj =
      ping_all max_missed_ping answer rest (ping_one max_missed_ping (answer peer) peer adj)

  unfoldable pub ping_function :
      ℤ → (EdgePeer → PingAnswer) → AdjacentPeers Filter → AdjacentPeers Filter
  unfolding ping_all
  ping_function max_missed_ping answer adj = ping_all max_missed_ping answer adj.peer_conns adj
