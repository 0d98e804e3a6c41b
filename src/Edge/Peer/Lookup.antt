-- ===== src/Edge/Peer/Lookup.antt =====
-- edge/peer/peer.go and peer_services.go: how a peer passes a lookup or a deletion on to its neighbours.
-- A Bloom filter is a value of any type, with the test of the library as an argument.
use sdcc_project.Base.{
  ℕ, zero, suc, ◌-◌, ◌%◌, String, Bool, false, List, [], ◌∷◌, ◌++◌, none, some, Outcome, ok, panic,
  ◌>>=◌, ltb, ◌==◌, if◌then◌else◌, length, get_elem?, take, drop, ite,
}
use sdcc_project.Base.Dict.{lookup, has_key}
use sdcc_project.Edge.Peer.{EdgePeer, peer_discrete, AdjConnection}

-- The peers that were called, in order.
abbrev pub Contacts : Type 0
Contacts = Outcome ⊥ (List EdgePeer)

-- The loop over the neighbours without the file; each round takes one of them by the draw of that round. A neighbour with
-- a filter and no connection has no client, and the call panics. `left` bounds the number of rounds.
unfoldable pub complement :
    (ℕ → ℕ) → List (EdgePeer × AdjConnection) → EdgePeer → ℕ → ℕ → ℕ → ℕ → List EdgePeer → Contacts
complement draw conns forwarder max_contactable zero i contacted_num candidates = ok []
complement draw conns forwarder max_contactable (suc left) i contacted_num candidates =
    let r = draw i % length candidates in
    let others = take r candidates ++ drop (suc r) candidates in
    let go_on = complement draw conns forwarder max_contactable left (suc i) contacted_num others in
    let go_on' =
      complement draw conns forwarder max_contactable left (suc i) (suc contacted_num) others in
    if ltb i (max_contactable - contacted_num)
    then (elim (get_elem? candidates r) [
      | none ↦ ok []
      | some neigh ↦ ite (peer_discrete neigh forwarder) go_on (
          if has_key peer_discrete neigh conns
          then (do rest ← go_on'; ok (neigh ∷ rest))
          else panic)
    ])
    else ok []

module _ {Filter : Type 0} (test : Filter → String → Bool) where
  abbrev pub is_positive : List (EdgePeer × Filter) → String → EdgePeer → Bool
  is_positive filter_map file_name adj = elim (lookup peer_discrete adj filter_map) [
    | none ↦ false
    | some adj_filter ↦ test adj_filter file_name
  ]

  -- The loop of `neighboursFileLookup` over the connections: the neighbours whose filter has the file, but not
  -- the forwarder, until `max_contactable` are contacted.
  unfoldable pub contact_positive :
      List (EdgePeer × Filter)
      → String
      → EdgePeer
      → ℕ
      → List (EdgePeer × AdjConnection)
      → ℕ
      → List EdgePeer
  contact_positive filter_map file_name forwarder max_contactable [] contacted_num = []
  contact_positive filter_map file_name forwarder max_contactable ((adj, conn) ∷ rest)
        contacted_num =
      let skip =
        contact_positive filter_map file_name forwarder max_contactable rest contacted_num in
      let go_on =
        contact_positive filter_map file_name forwarder max_contactable rest (suc contacted_num) in
      if is_positive filter_map file_name adj
      then ite (peer_discrete adj forwarder) skip
          (adj ∷ (if suc contacted_num == max_contactable then [] else go_on))
      else skip

  -- `findFalseAdjacentsFilter`
  unfoldable pub find_false_adjacents_filter : List (EdgePeer × Filter) → String → List EdgePeer
  find_false_adjacents_filter [] file_name = []
  find_false_adjacents_filter ((adj, adj_filter) ∷ rest) file_name =
      if test adj_filter file_name
      then find_false_adjacents_filter rest file_name
      else adj ∷ find_false_adjacents_filter rest file_name

  -- `neighboursFileLookup`
  unfoldable pub neighbours_file_lookup :
      (ℕ → ℕ)
      → List (EdgePeer × AdjConnection)
      → List (EdgePeer × Filter)
      → String
      → EdgePeer
      → ℕ
      → Contacts
  unfolding contact_positive find_false_adjacents_filter complement
  neighbours_file_lookup draw conns filter_map file_name forwarder max_contactable =
      let first = contact_positive filter_map file_name forwarder max_contactable conns 0 in
      let candidates = find_false_adjacents_filter filter_map file_name in
      if ltb (length first) max_contactable
      then (do
        rest ←
            complement draw conns forwarder max_contactable (length candidates) 0 (length first)
              candidates
        ok (first ++ rest))
      else ok first
