-- ===== src/Edge/Server/Delete.antt =====
-- `doDelete` (edge/server/server_services.go) and NotifyFileDeletion (edge/peer/peer.go).
pub mod Removed
mod Tests
use sdcc_project.Base.{
  ℕ, String, string_discrete, Bool, List, [], Option, none, some, Outcome, ok, ◌>>=◌, if◌then◌else◌,
  ite,
}
use sdcc_project.Edge.Cache.{World, System, is_file_in_cache, remove_file_from_cache}
use sdcc_project.Edge.Peer.{EdgePeer, FileRequest}
use sdcc_project.Edge.Peer.Services.{Peer, notify_file_deletion}
use sdcc_project.Edge.S3.Interface.{Service, delete_from_s3}
use sdcc_project.Edge.Server.Requests.{CustomError, file_not_found, s3_error}

-- The message of NotifyFileDeletion names no forwarder.
abbrev pub deletion_request : String → String → FileRequest
deletion_request file_name request_id = record {
  file_name = file_name;
  request_id = request_id;
  forwarder_peer = record { peer_addr = "" };
}

module _ {Filter : Type 0} (test : Filter → String → Bool) where
  -- The end of the handler, behind the answer of S3: its error, and the neighbours that are told.
  abbrev pub finish_delete :
      ℕ
      → FileRequest
      → Peer Filter
      → Option String
      → Option CustomError × List EdgePeer × Peer Filter
  finish_delete now request peer (some e) =
      (some (ite (string_discrete e "NotFound") (file_not_found e) (s3_error e)), [], peer)
  finish_delete now request peer none =
      let (contacted, peer') = notify_file_deletion test now request peer in
      (none, contacted, peer')

  -- `doDelete`
  unfoldable pub do_delete :
      System
      → ℕ
      → Service
      → String
      → String
      → Peer Filter
      → Outcome ⊥ (Option CustomError × List EdgePeer × Peer Filter)
  unfolding is_file_in_cache remove_file_from_cache delete_from_s3 notify_file_deletion
  do_delete sys now s3 file_name request_id peer = do
    (hit, c) ← is_file_in_cache file_name (peer.world.cache)
    let w : World = record (peer.world) { cache = c }
    w' ← (if hit then remove_file_from_cache sys now file_name w else ok w)
    answer ← delete_from_s3 s3 file_name
    ok (
        finish_delete now (deletion_request file_name request_id) (record peer { world = w' })
          answer)
