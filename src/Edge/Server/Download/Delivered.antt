-- ===== src/Edge/Server/Download/Delivered.antt =====
-- What a client has got when its download returns nil (edge/server/server_services.go).
use sdcc_project.Base.{
  ℕ, ◌≡◌, refl, ◌∙◌, ap, sym, subst, String, Bool, true, false, List, [], ◌++◌, Option, none, some,
  Outcome, ok, err, panic, deadlock, arith, ◌⊎◌, inl, inr,
}
use sdcc_project.Base.Int.{ℤ}
use sdcc_project.Edge.Channel.{Message}
use sdcc_project.Edge.Cache.{Cache, is_file_in_cache}
use sdcc_project.Edge.Peer.{EdgePeer}
use sdcc_project.Edge.Peer.Services.{Setting, Peer, passed_on}
use sdcc_project.Edge.S3.Upload.{IsSound}
use sdcc_project.Edge.S3.Interface.{Sent}
use sdcc_project.Edge.Server.{redirect_stream_to_client}
use sdcc_project.Edge.Server.LocalCache.{read_from_local_cache}
use sdcc_project.Edge.Server.LocalCache.Whole.{FromLocal, read_whole}
use sdcc_project.Edge.Server.Requests.{passed_on}
use sdcc_project.Edge.Server.Download.{
  local_reply, Chunks, Tries, try_to_send_from_other_edge, Bucket, object_messages, from_sent,
  redirect_from_s3, Surroundings, Reply, after_s3, ask_s3, local_error, lookup_file_in_network,
  after_lookup, missed, after_cache, do_download, send_from_local_cache, read_from_local_cache,
  local_reply,
}
use sdcc_project.Edge.Server.Download.Streams.{numbered, stream_whole, offers-AllQuiet}
use sdcc_project.Edge.Server.Download.Attempts.{
  Delivers, FromOne, try_whole, try_fails, all_failed, none_failed,
}

s3_whole :
    (send : ℕ → Option String) (o : Outcome ⊥ Sent) (chunks : Chunks)
    → from_sent send o ≡ ok (chunks, none)
    → (s : Sent) × (o ≡ ok s) × IsSound s.client_messages × (chunks ≡ numbered 0 s.client_messages)
s3_whole send (err e) chunks h = absurd e
s3_whole send panic chunks h = absurd (ground arith)
s3_whole send deadlock chunks h = absurd (ground arith)
s3_whole send (ok s) chunks h =
    let (sound, whole) = stream_whole send 0 s.client_messages (ground arith) in
    (s, refl, sound, ground (arith, whole))

-- Where a whole stream can come from.
abbrev pub FromObject : ℤ → String → Bucket → List Message → Type 0
FromObject max_size file_name bucket messages =
    (s : Sent) × (object_messages max_size file_name bucket ≡ ok s) × (messages ≡ s.client_messages)

module _ (s : Surroundings) (file_name : String) where
  abbrev pub IsSource : List Message → Type 0
  IsSource messages =
      FromLocal s.local_read messages
      ⊎ (FromOne s.max_size s.offers messages ⊎ FromObject s.max_size file_name s.bucket messages)

  abbrev pub Gets : Chunks → Type 0
  Gets = Delivers s.max_size s.offers IsSource

  s3_step :
      (before : Chunks) (o : Outcome ⊥ (Chunks × Option String)) (chunks : Chunks)
      → try_to_send_from_other_edge s.max_size s.offers ≡ some (ok (before, false))
      → redirect_from_s3 s.max_size file_name s.bucket ≡ o
      → after_s3 before o ≡ some (ok (chunks, none))
      → Gets chunks
  unfolding redirect_from_s3
  s3_step before (err e) chunks t k h = absurd e
  s3_step before panic chunks t k h = absurd (ground arith)
  s3_step before deadlock chunks t k h = absurd (ground arith)
  s3_step before (ok (sent, some e)) chunks t k h = absurd (ground arith)
  s3_step before (ok (sent, none)) chunks t k h =
      let (object, from, sound, whole) =
        s3_whole s.bucket.send (object_messages s.max_size file_name s.bucket) sent k in
      let same : before ++ sent ≡ chunks = ground arith in
      (
        before,
        object.client_messages,
        sym same ∙ ap (λ l. before ++ l) whole,
        sound,
        inr (inr (object, from, refl)),
        all_failed s.max_size s.offers before t,
        λ q. try_fails s.max_size s.offers before (offers-AllQuiet s.max_size s.offers q) t,
      )

  ask_step :
      (tries : Tries) (chunks : Chunks)
      → try_to_send_from_other_edge s.max_size s.offers ≡ tries
      → ask_s3 (redirect_from_s3 s.max_size file_name s.bucket) tries ≡ some (ok (chunks, none))
      → Gets chunks
  ask_step none chunks t h = absurd (ground arith)
  ask_step (some (err e)) chunks t h = absurd e
  ask_step (some panic) chunks t h = absurd (ground arith)
  ask_step (some deadlock) chunks t h = absurd (ground arith)
  ask_step (some (ok (sent, false))) chunks t h =
      s3_step sent (redirect_from_s3 s.max_size file_name s.bucket) chunks t refl h
  ask_step (some (ok (sent, true))) chunks t h =
      let same : sent ≡ chunks = ground arith in
      let (before, messages, whole, sound, from, failed, quiet) =
        subst (Delivers s.max_size s.offers (FromOne s.max_size s.offers)) same
          (try_whole s.max_size s.offers sent t) in
      (before, messages, whole, sound, inr (inl from), failed, quiet)

  stream_step :
      (chunks : Chunks) (messages : List Message) (sent : Chunks × Option String)
      → read_from_local_cache s.local_read ≡ some (messages, true)
      → redirect_stream_to_client s.local_send messages ≡ sent
      → ◌≡◌ {A = Reply} (some (ok (sent.0, local_error sent.1))) (some (ok (chunks, none)))
      → Gets chunks
  stream_step chunks messages (sent, some e) r k h = absurd (ground arith)
  stream_step chunks messages (sent, none) r k h =
      let (sound, whole) = stream_whole s.local_send 0 messages (ap (λ p. p.1) k) in
      (
        [],
        messages,
        sym (ground arith) ∙ ap (λ p. p.0) (sym k) ∙ whole,
        sound,
        inl (read_whole s.local_read messages sound r),
        none_failed s.max_size s.offers,
        λ q. refl,
      )

  unfinished :
      (sent : Chunks × Option String) (chunks : Chunks)
      → ◌≡◌ {A = Reply}
          (elim (sent.1) [ none ↦ none | some e ↦ some (ok (sent.0, some (passed_on e))) ])
          (some (ok (chunks, none)))
      → ⊥
  unfinished (sent, none) chunks h = ground arith
  unfinished (sent, some e) chunks h = ground arith

  local_step :
      (chunks : Chunks) (o : Option (List Message × Bool))
      → read_from_local_cache s.local_read ≡ o
      → local_reply s.local_send o ≡ some (ok (chunks, none))
      → Gets chunks
  local_step chunks none r h = absurd (ground arith)
  local_step chunks (some (messages, true)) r h =
      stream_step chunks messages (redirect_stream_to_client s.local_send messages) r refl h
  local_step chunks (some (messages, false)) r h =
      absurd (unfinished (redirect_stream_to_client s.local_send messages) chunks h)

module _ {Filter : Type 0} (test : Filter → String → Bool) (s : Surroundings) (setting : Setting)
    (file_name request_id : String) where
  lookup_step :
      (o : Outcome ⊥ (List EdgePeer × Peer Filter)) (chunks : Chunks)
      → (after_lookup test s file_name o).0 ≡ some (ok (chunks, none))
      → Gets s file_name chunks
  lookup_step (err e) chunks h = absurd e
  lookup_step panic chunks h = absurd (ground arith)
  lookup_step deadlock chunks h = absurd (ground arith)
  lookup_step (ok (contacted, peer)) chunks h =
      ask_step s file_name (try_to_send_from_other_edge s.max_size s.offers) chunks refl h

  miss_step :
      (peer : Peer Filter) (server : Option String) (chunks : Chunks)
      → (missed test s setting file_name request_id peer server).0 ≡ some (ok (chunks, none))
      → Gets s file_name chunks
  miss_step peer (some e) chunks h = absurd (ground arith)
  miss_step peer none chunks h =
      lookup_step (lookup_file_in_network test setting file_name request_id peer) chunks h

  cache_step :
      (peer : Peer Filter) (o : Outcome ⊥ (Bool × Cache)) (chunks : Chunks)
      → (after_cache test s setting file_name request_id peer o).0 ≡ some (ok (chunks, none))
      → Gets s file_name chunks
  unfolding send_from_local_cache
  cache_step peer (err e) chunks h = absurd e
  cache_step peer panic chunks h = absurd (ground arith)
  cache_step peer deadlock chunks h = absurd (ground arith)
  cache_step peer (ok (true, c)) chunks h =
      local_step s file_name chunks (read_from_local_cache s.local_read) refl h
  cache_step peer (ok (false, c)) chunks h =
      miss_step (record peer { world = record (peer.world) { cache = c } }) s.lookup_server chunks h

  -- If a download returns nil, the client has got all messages of one stream, numbered from zero and none with an error: those
  -- that a run of readFromLocalCache to the end of the local file put through the channel, with as many bytes as the file has;
  -- those of an edge node that answered; or those of S3. What it has got before them is what the first few attempts with
  -- other edge nodes, which all failed, had sent, and nothing if no send to the client has failed in an attempt.
  pub do_download-Delivers :
      (peer : Peer Filter) (chunks : Chunks)
      → (do_download test s setting file_name request_id peer).0 ≡ some (ok (chunks, none))
      → Gets s file_name chunks
  unfolding do_download send_from_local_cache
  do_download-Delivers peer chunks h =
      cache_step peer (is_file_in_cache file_name peer.world.cache) chunks h
