-- ===== src/Edge/Peer/Services.antt =====
-- The handlers of edge/peer/peer_services.go for lookups and deletions, with NeighboursFileLookup and notifyFileDeletion of
-- edge/peer/peer.go. The mutexes are those of other structures, each released before the call ends.
use sdcc_project.Base.{ℕ, String, Bool, List, [], ◌∷◌, Outcome, ok, ◌>>=◌, if◌then◌else◌, ite}
use sdcc_project.Base.Int.{ℤ, pos, negsuc, ◌+ℤ◌, ltb_ℤ, wrap64}
use sdcc_project.Edge.Cache.{World, System, is_file_in_cache, get_file_size, remove_file_from_cache}
use sdcc_project.Edge.Peer.{EdgePeer, peer_discrete, FileRequest, FileLookupMessage, AdjConnection}
use sdcc_project.Edge.Peer.Requests.{RequestMap, add_request_in_cache, is_request_already_served}
use sdcc_project.Edge.Peer.Lookup.{is_positive, neighbours_file_lookup}
use sdcc_project.Edge.Peer.Network.{AdjacentPeers}

-- What the environment gives to a lookup: the draws, the time, the two configured numbers, the address of
-- the peer, and whether the callback server can be reached and takes the answer.
pub record Setting : Type 0 where
  pub draw : ℕ → ℕ
  pub now : ℕ
  pub request_cache_ttl : ℕ
  pub max_contactable : ℕ
  pub self_peer : EdgePeer
  pub connects : String → Bool
  pub sends : String → Bool

pub record Peer (Filter : Type 0) : Type 0 where
  pub requests : RequestMap
  pub adjacents : AdjacentPeers Filter
  pub world : World

-- How a lookup ends at a peer: it is refused, it is passed on to the peers of the list, it is at its end, the callback
-- server fails, or the size of the file is sent.
pub data Answer : Type 0 where
  already_served : Answer
  passed_on : List EdgePeer → Answer
  not_found : Answer
  callback_failed : Answer
  sent : ℤ → Answer

-- The message that goes to the peers of the list.
abbrev pub forward : EdgePeer → FileLookupMessage → FileLookupMessage
forward self_peer message = record message {
  request = record (message.request) { forwarder_peer = self_peer };
  ttl = wrap64 (message.ttl +ℤ negsuc 0);
}

module _ {Filter : Type 0} (test : Filter → String → Bool) where
  abbrev note : ℕ → FileRequest → Peer Filter → Peer Filter
  note now request peer = record peer { requests = add_request_in_cache now request peer.requests }

  -- `neighboursFileLookup`, which notes the request first.
  unfoldable pub note_and_look_up :
      Setting → FileRequest → Peer Filter → Outcome ⊥ (List EdgePeer × Peer Filter)
  note_and_look_up s request peer = do
    contacted ←
        neighbours_file_lookup test s.draw (peer.adjacents.peer_conns) (peer.adjacents.filter_map)
          request.file_name request.forwarder_peer s.max_contactable
    ok (contacted, note s.now request peer)

  abbrev answer_callback : Setting → FileLookupMessage → Peer Filter → Answer
  answer_callback s message peer =
      if s.connects message.callback_server
      then if s.sends message.callback_server
        then sent (get_file_size (message.request.file_name) (peer.world.cache))
        else callback_failed
      else callback_failed

  -- The handler once the request is known to be new.
  unfoldable pub serve_lookup :
      Setting → FileLookupMessage → Peer Filter → Outcome ⊥ (Answer × Peer Filter)
  unfolding note_and_look_up
  serve_lookup s message peer = do
    (hit, c) ← is_file_in_cache (message.request.file_name) (peer.world.cache)
    let peer' : Peer Filter = record peer { world = record (peer.world) { cache = c } }
    if hit
        then (let noted = note s.now (message.request) peer' in
            ok (answer_callback s message noted, noted))
        else (if ltb_ℤ (pos 0) (wrap64 (message.ttl +ℤ negsuc 0))
            then (do
              (contacted, peer'') ← note_and_look_up s (message.request) peer'
              ok (passed_on contacted, peer''))
            else ok (not_found, peer'))

  -- `FileLookup`
  unfoldable pub file_lookup :
      Setting → FileLookupMessage → Peer Filter → Outcome ⊥ (Answer × Peer Filter)
  unfolding serve_lookup
  file_lookup s message peer =
      let (served, requests) =
        is_request_already_served s.request_cache_ttl s.now (message.request) (peer.requests) in
      let peer' : Peer Filter = record peer { requests = requests } in
      if served then ok (already_served, peer') else serve_lookup s message peer'

  -- `notifyFileDeletion`: the neighbours to which the deletion goes.
  unfoldable pub deletion_contacts :
      List (EdgePeer × Filter) → String → EdgePeer → List (EdgePeer × AdjConnection) → List EdgePeer
  deletion_contacts filter_map file_name forwarder [] = []
  deletion_contacts filter_map file_name forwarder ((adj, conn) ∷ rest) =
      let others = deletion_contacts filter_map file_name forwarder rest in
      if is_positive test filter_map file_name adj
      then ite (peer_discrete adj forwarder) others (adj ∷ others)
      else others

  unfoldable pub notify_file_deletion : ℕ → FileRequest → Peer Filter → List EdgePeer × Peer Filter
  unfolding deletion_contacts
  notify_file_deletion now request peer = (
    deletion_contacts (peer.adjacents.filter_map) request.file_name request.forwarder_peer
        (peer.adjacents.peer_conns),
    note now request peer,
  )

  -- `DeleteFile`
  unfoldable pub delete_file :
      System → ℕ → FileRequest → Peer Filter → Outcome ⊥ (List EdgePeer × Peer Filter)
  unfolding notify_file_deletion
  delete_file sys now request peer = do
    (hit, c) ← is_file_in_cache request.file_name (peer.world.cache)
    let w : World = record (peer.world) { cache = c }
    w' ← (if hit then remove_file_from_cache sys now request.file_name w else ok w)
    ok (notify_file_deletion now request (record peer { world = w' }))
