-- ===== src/Edge/Server/RoundTrip.antt =====
-- An upload and then a download of the file from S3 (edge/server/server_services.go, edge/s3_boundary/s3_interface.go).
mod Tests
use sdcc_project.Base.{
  ℕ, suc, ◌≤◌, ◌≡◌, refl, ◌∙◌, ap, String, Bool, false, List, [], ◌∷◌, ◌++◌, Option, none, some, ok,
  length, All, ok-injective,
}
use sdcc_project.Base.Int.{ℤ}
use sdcc_project.Edge.Cache.{Cache, is_file_in_cache}
use sdcc_project.Edge.Channel.{Message}
use sdcc_project.Edge.Peer.{EdgePeer}
use sdcc_project.Edge.Peer.Services.{Setting, Peer}
use sdcc_project.Edge.Peer.Transfer.Complete.{bytes_sent}
use sdcc_project.Edge.S3.{nothing}
use sdcc_project.Edge.S3.Upload.{bodies}
use sdcc_project.Edge.S3.Download.{concat}
use sdcc_project.Edge.S3.Interface.{upload_body, get_file_size, send_from_s3}
use sdcc_project.Edge.S3.Delivery.{send_from_s3-delivers}
use sdcc_project.Edge.Server.{Event, Redirect, redirect_stream_to_client}
use sdcc_project.Edge.Server.Redirection.{chunks}
use sdcc_project.Edge.Server.Requests.{Metadata}
use sdcc_project.Edge.Server.Upload.{ended, do_upload}
use sdcc_project.Edge.Server.Upload.Stored.{do_upload-stored}
use sdcc_project.Edge.Server.Download.{
  Chunks, Bucket, is_file_cachable, from_sent, redirect_from_s3, Surroundings, after_s3, ask_s3,
  after_lookup, missed, after_cache, try_to_send_from_other_edge, lookup_file_in_network,
  do_download,
}
use sdcc_project.Edge.Server.Download.Streams.{numbered, stream_whole, stream_total}
use sdcc_project.Edge.Utils.Text.{Text}

bytes-numbered : (n : ℕ) (ms : List Message) → bytes_sent (numbered n ms) ≡ bodies ms
bytes-numbered n [] = refl
bytes-numbered n (m ∷ ms) = ap (λ l. m.body ++ l) (bytes-numbered (suc n) ms)

-- S3 delivers the content in parts that fit; no redirection complains and no send to the client fails.
pub record Serves (bucket : Bucket) (content : List ℕ) : Type 0 where
  pub grows : (c n : ℕ) → n ≤ bucket.grow c n
  pub no_notices : bucket.notices ≡ (λ n. nothing)
  pub no_failure : bucket.failure ≡ none
  pub sends : (n : ℕ) → bucket.send n ≡ none
  pub small : All (λ part. length part ≤ bucket.flush_size) bucket.parts
  pub whole : concat bucket.parts ≡ content

s3_delivers :
    (max_size : ℤ) (file_name : String) (bucket : Bucket) (content : List ℕ)
    → Serves bucket content
    → (sent : Chunks) × (redirect_from_s3 max_size file_name bucket ≡ ok (sent, none))
      × (bytes_sent sent ≡ content)
unfolding redirect_from_s3
s3_delivers max_size file_name bucket content v =
    let b = is_file_cachable max_size (get_file_size bucket.service file_name) in
    let (s, e, returned, sound, same, cached) =
      send_from_s3-delivers bucket.grow v.grows b bucket.describe bucket.flush_size bucket.parts
        v.small in
    let stream = redirect_stream_to_client bucket.send s.client_messages in
    let at_end = stream_total bucket.send 0 s.client_messages v.sends sound in
    let (_, all) = stream_whole bucket.send 0 s.client_messages at_end in
    (
      stream.0,
      ap
            (λ n. from_sent bucket.send (
              send_from_s3 bucket.grow bucket.describe n b bucket.flush_size bucket.parts
                bucket.failure))
            v.no_notices
          ∙ ap
              (λ f. from_sent bucket.send (
                send_from_s3 bucket.grow bucket.describe (λ n. nothing) b bucket.flush_size
                  bucket.parts f))
              v.no_failure
          ∙ ap (from_sent bucket.send) e
          ∙ ap (λ x. ok (stream.0, x)) at_end,
      ap bytes_sent all ∙ bytes-numbered 0 s.client_messages ∙ same ∙ v.whole,
    )

module _ {Filter : Type 0} (test : Filter → String → Bool) (s : Surroundings) (setting : Setting)
    (file_name request_id : String) (peer : Peer Filter) where
  -- The cache does not have the file, the lookup server is made, the lookup ends without a panic, and no other edge
  -- node answers.
  pub record OnlyOnS3 : Type 0 where
    pub left_cache : Cache
    pub not_cached : is_file_in_cache file_name peer.world.cache ≡ ok (false, left_cache)
    pub server_made : s.lookup_server ≡ none
    pub contacted : List EdgePeer
    pub left_peer : Peer Filter
    pub looked_up :
        lookup_file_in_network test setting file_name request_id
          (record peer { world = record (peer.world) { cache = left_cache } })
        ≡ ok (contacted, left_peer)
    pub nobody_answers : s.offers ≡ []

  asks_s3 :
      OnlyOnS3
      → (do_download test s setting file_name request_id peer).0
        ≡ after_s3 [] (redirect_from_s3 s.max_size file_name s.bucket)
  unfolding do_download
  asks_s3 k =
      let peer' : Peer Filter = record peer {
        world = record (peer.world) { cache = k.left_cache };
      } in
      ap (λ o. (after_cache test s setting file_name request_id peer o).0) k.not_cached
      ∙ ap (λ o. (missed test s setting file_name request_id peer' o).0) k.server_made
      ∙ ap (λ o. (after_lookup test s file_name o).0) k.looked_up
      ∙ ap
          (λ l.
            ask_s3 (redirect_from_s3 s.max_size file_name s.bucket)
              (try_to_send_from_other_edge s.max_size l))
          k.nobody_answers

  -- If an upload returns nil, its uploader has read the body to the end, S3 keeps what the uploader got under the name of the
  -- upload, and the download is for the same name; if S3 serves what it keeps under that name in parts that fit and without
  -- an error, no redirection complains and no send to the client fails; and if the file is not cached, the lookup server is
  -- made, the lookup ends without a panic and nobody answers before the timer: then the download returns nil, and the
  -- client gets the bytes of all chunks of the upload, in order.
  pub do_upload-download :
      (max_size : ℤ) (md : Option Metadata) (events : List Event) (last close : Option String)
      (name : Text) (size : ℤ) (r : Redirect) (rooms : List ℕ) (content : List ℕ)
      → do_upload max_size md events last close ≡ ok (ended none name size r)
      → upload_body rooms (record { residual_chunk = []; message_channel = r.main_channel })
        ≡ some (ok content)
      → (key : String → Text) (objects : Text → Option (List ℕ)) → objects name ≡ some content
      → key file_name ≡ name
      → ((kept : List ℕ) → objects (key file_name) ≡ some kept → Serves s.bucket kept)
      → OnlyOnS3
      → (sent : Chunks) × ((do_download test s setting file_name request_id peer).0
          ≡ some (ok (sent, none)))
        × (bytes_sent sent ≡ bodies (chunks events))
  do_upload-download max_size md events last close name size r rooms content up body key objects put
        same serves k =
      let v = serves content (ap objects same ∙ put) in
      let stored =
        do_upload-stored max_size md events last close name size r rooms (ok content) up body in
      let (sent, e, bytes) = s3_delivers s.max_size file_name s.bucket content v in
      (sent, asks_s3 k ∙ ap (after_s3 []) e, bytes ∙ ok-injective stored.2)
