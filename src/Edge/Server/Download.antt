-- ===== src/Edge/Server/Download.antt =====
-- `doDownload` and what it calls (edge/server/server_services.go). The file comes from the local cache, from another edge
-- node or from S3; the client's stream gets what each attempt sends, one after the other. `none` means that it still waits.
pub mod Streams
pub mod Attempts
pub mod Delivered
mod Tests
use sdcc_project.Base.{
  ℕ, String, Bool, true, false, ◌&&◌, List, [], ◌∷◌, ◌++◌, Option, none, some, Outcome, ok, err,
  panic, deadlock, if◌then◌else◌,
}
use sdcc_project.Base.Int.{ℤ, ltb_ℤ}
use sdcc_project.Edge.Channel.{Message}
use sdcc_project.Edge.Cache.{Cache, is_file_in_cache}
use sdcc_project.Edge.Cache.Eviction.{is_file_cacheable}
use sdcc_project.Edge.Peer.{EdgePeer, FileRequest}
use sdcc_project.Edge.Peer.Services.{Setting, Peer, note_and_look_up}
use sdcc_project.Edge.S3.{Notice}
use sdcc_project.Edge.S3.Interface.{Service, Sent, get_file_size, send_from_s3}
use sdcc_project.Edge.Server.{redirect_stream_to_client}
use sdcc_project.Edge.Server.LocalCache.{LocalRead, read_from_local_cache}
use sdcc_project.Edge.Server.OtherEdge.{OwnerEdge, Channels, download_from_other_edge}
use sdcc_project.Edge.Server.Requests.{CustomError, file_not_found, request_failed, passed_on}

-- The chunks that the client is sent, with their numbers.
abbrev pub Chunks : Type 0
Chunks = List (List ℕ × ℕ)

-- What an attempt sent, and its error.
abbrev pub Attempt : Type 0
Attempt = Option (Outcome ⊥ (Chunks × Option String))

-- The answer to a lookup: the size of the file, how its owner behaves, and which sends to the client fail.
pub record Offer : Type 0 where
  pub file_size : ℤ
  pub owner : OwnerEdge
  pub send : ℕ → Option String

abbrev pub redirected : (ℕ → Option String) → Option (Outcome ⊥ Channels) → Attempt
redirected send none = none
redirected send (some (ok c)) = some (ok (redirect_stream_to_client send c.client_messages))
redirected send (some (err e)) = absurd e
redirected send (some panic) = some panic
redirected send (some deadlock) = some deadlock

-- `sendFromOtherEdge`
unfoldable pub send_from_other_edge : ℤ → Offer → Attempt
unfolding is_file_cacheable download_from_other_edge
send_from_other_edge max_size offer =
    redirected offer.send
      (download_from_other_edge (is_file_cacheable max_size offer.file_size) offer.owner)

abbrev pub Tries : Type 0
Tries = Option (Outcome ⊥ (Chunks × Bool))

-- Behind a failed attempt come the later ones.
abbrev pub behind : Chunks → Tries → Tries
behind chunks none = none
behind chunks (some (ok (later, found))) = some (ok (chunks ++ later, found))
behind chunks (some (err e)) = absurd e
behind chunks (some panic) = some panic
behind chunks (some deadlock) = some deadlock

abbrev pub after_attempt : Attempt → Tries → Tries
after_attempt none later = none
after_attempt (some (ok (chunks, none))) later = some (ok (chunks, true))
after_attempt (some (ok (chunks, some e))) later = behind chunks later
after_attempt (some (err e)) later = absurd e
after_attempt (some panic) later = some panic
after_attempt (some deadlock) later = some deadlock

-- `tryToSendFromOtherEdge`: the answers that arrive before the timer.
unfoldable pub try_to_send_from_other_edge : ℤ → List Offer → Tries
unfolding send_from_other_edge
try_to_send_from_other_edge max_size [] = some (ok ([], false))
try_to_send_from_other_edge max_size (offer ∷ later) =
    after_attempt (send_from_other_edge max_size offer) (try_to_send_from_other_edge max_size later)

-- How S3 behaves in a download, and which sends to the client fail.
pub record Bucket : Type 0 where
  pub service : Service
  pub grow : ℕ → ℕ → ℕ
  pub describe : String → String
  pub notices : ℕ → Notice
  pub flush_size : ℕ
  pub parts : List (List ℕ)
  pub failure : Option String
  pub send : ℕ → Option String

-- The cache is only used if the size is known.
abbrev pub is_file_cachable : ℤ → ℤ × Option String → Bool
is_file_cachable max_size (file_size, none) = is_file_cacheable max_size file_size
is_file_cachable max_size (file_size, some e) = false

abbrev pub object_messages : ℤ → String → Bucket → Outcome ⊥ Sent
object_messages max_size file_name bucket =
    send_from_s3 bucket.grow bucket.describe bucket.notices
      (is_file_cachable max_size (get_file_size bucket.service file_name)) bucket.flush_size
      bucket.parts bucket.failure

abbrev pub from_sent : (ℕ → Option String) → Outcome ⊥ Sent → Outcome ⊥ (Chunks × Option String)
from_sent send (ok s) = ok (redirect_stream_to_client send s.client_messages)
from_sent send (err e) = absurd e
from_sent send panic = panic
from_sent send deadlock = deadlock

-- `redirectFromS3`
unfoldable pub redirect_from_s3 : ℤ → String → Bucket → Outcome ⊥ (Chunks × Option String)
unfolding is_file_cacheable send_from_s3 get_file_size
redirect_from_s3 max_size file_name bucket =
    from_sent bucket.send (object_messages max_size file_name bucket)

-- What a download meets: how the local file is read, the error of the lookup server, the answers and S3.
pub record Surroundings : Type 0 where
  pub max_size : ℤ
  pub local_read : LocalRead
  pub local_send : ℕ → Option String
  pub lookup_server : Option String
  pub offers : List Offer
  pub bucket : Bucket

abbrev pub Reply : Type 0
Reply = Option (Outcome ⊥ (Chunks × Option CustomError))

abbrev pub after_s3 : Chunks → Outcome ⊥ (Chunks × Option String) → Reply
after_s3 before (ok (chunks, none)) = some (ok (before ++ chunks, none))
after_s3 before (ok (chunks, some e)) = some (ok (before ++ chunks, some (file_not_found e)))
after_s3 before (err e) = absurd e
after_s3 before panic = some panic
after_s3 before deadlock = some deadlock

abbrev pub ask_s3 : Outcome ⊥ (Chunks × Option String) → Tries → Reply
ask_s3 s3 none = none
ask_s3 s3 (some (ok (chunks, true))) = some (ok (chunks, none))
ask_s3 s3 (some (ok (chunks, false))) = after_s3 chunks s3
ask_s3 s3 (some (err e)) = absurd e
ask_s3 s3 (some panic) = some panic
ask_s3 s3 (some deadlock) = some deadlock

abbrev pub local_error : Option String → Option CustomError
local_error none = none
local_error (some e) = some (passed_on e)

-- What the client has got from the local file. It waits if more is to come and no send has failed.
abbrev pub local_reply : (ℕ → Option String) → Option (List Message × Bool) → Reply
local_reply send none = none
local_reply send (some (messages, true)) =
    let (chunks, returned) = redirect_stream_to_client send messages in
    some (ok (chunks, local_error returned))
local_reply send (some (messages, false)) =
    let (chunks, returned) = redirect_stream_to_client send messages in
    elim returned [ none ↦ none | some e ↦ some (ok (chunks, some (passed_on e))) ]

-- `sendFromLocalCache`
unfoldable pub send_from_local_cache : Surroundings → Reply
unfolding read_from_local_cache
send_from_local_cache s = local_reply s.local_send (read_from_local_cache s.local_read)

module _ {Filter : Type 0} (test : Filter → String → Bool) where
  -- `lookupFileInNetwork`: the lookup starts at this node.
  unfoldable pub lookup_file_in_network :
      Setting → String → String → Peer Filter → Outcome ⊥ (List EdgePeer × Peer Filter)
  unfolding note_and_look_up
  lookup_file_in_network setting file_name request_id peer =
      note_and_look_up test setting
        (record {
          file_name = file_name;
          request_id = request_id;
          forwarder_peer = setting.self_peer;
        })
        peer

  abbrev with_cache : Cache → Peer Filter → Peer Filter
  with_cache c peer = record peer { world = record (peer.world) { cache = c } }

  abbrev pub after_lookup :
      Surroundings → String → Outcome ⊥ (List EdgePeer × Peer Filter) → Reply × Option (Peer Filter)
  after_lookup s file_name (ok (contacted, peer)) = (
    ask_s3 (redirect_from_s3 s.max_size file_name s.bucket)
        (try_to_send_from_other_edge s.max_size s.offers),
    some peer,
  )
  after_lookup s file_name (err e) = absurd e
  after_lookup s file_name panic = (some panic, none)
  after_lookup s file_name deadlock = (some deadlock, none)

  abbrev pub missed :
      Surroundings
      → Setting
      → String
      → String
      → Peer Filter
      → Option String
      → Reply × Option (Peer Filter)
  missed s setting file_name request_id peer (some e) =
      (some (ok ([], some (request_failed e))), some peer)
  missed s setting file_name request_id peer none =
      after_lookup s file_name (lookup_file_in_network setting file_name request_id peer)

  abbrev pub after_cache :
      Surroundings
      → Setting
      → String
      → String
      → Peer Filter
      → Outcome ⊥ (Bool × Cache)
      → Reply × Option (Peer Filter)
  after_cache s setting file_name request_id peer (ok (true, c)) =
      (send_from_local_cache s, some (with_cache c peer))
  after_cache s setting file_name request_id peer (ok (false, c)) =
      missed s setting file_name request_id (with_cache c peer) (s.lookup_server)
  after_cache s setting file_name request_id peer (err e) = absurd e
  after_cache s setting file_name request_id peer panic = (some panic, none)
  after_cache s setting file_name request_id peer deadlock = (some deadlock, none)

  -- `doDownload`: what the client gets, and the state of the node if no call panics.
  unfoldable pub do_download :
      Surroundings → Setting → String → String → Peer Filter → Reply × Option (Peer Filter)
  unfolding is_file_in_cache send_from_local_cache lookup_file_in_network redirect_from_s3
      try_to_send_from_other_edge
  do_download s setting file_name request_id peer =
      after_cache s setting file_name request_id peer (is_file_in_cache file_name peer.world.cache)
