-- ===== src/Edge/S3.antt =====
-- edge/s3_boundary/s3_streams.go: the streams between a redirection and S3. A channel is the list of the
-- messages that are still to come before it is closed, or of those that were sent.
pub mod Upload
pub mod Download
pub mod Interface
pub mod ChunkSize
pub mod Delivery
mod Tests
use sdcc_project.Base.{
  ℕ, ◌+◌, ◌-◌, String, Bool, true, false, List, [], ◌∷◌, ◌++◌, Option, none, some, Outcome, ok,
  panic, ◌>>=◌, ltb, leb, if◌then◌else◌, length, take, drop,
}
use sdcc_project.Edge.Channel.{Message}

pub record UploadStream : Type 0 where
  pub residual_chunk : List ℕ
  pub message_channel : List Message

-- What `Read` puts into the destination, or its error.
pub data ReadResult : Type 0 where
  bytes : List ℕ → ReadResult
  failed : String → ReadResult
  eof : ReadResult

-- The part of `Read` after the chunk is chosen.
abbrev pub copy_out : ℕ → List ℕ → List Message → ReadResult × UploadStream
copy_out dest_len file_chunk incoming =
    if ltb (length file_chunk) dest_len
    then (bytes file_chunk, record { residual_chunk = []; message_channel = incoming })
    else (
      bytes (take dest_len file_chunk),
      record { residual_chunk = drop dest_len file_chunk; message_channel = incoming },
    )

unfoldable pub read : ℕ → UploadStream → ReadResult × UploadStream
read dest_len u = elim (u.residual_chunk) [
  | (x ∷ xs) ↦ copy_out dest_len (u.residual_chunk) (u.message_channel)
  | [] ↦ elim (u.message_channel) [
    | [] ↦ (eof, u)
    | (m ∷ rest) ↦ elim (m.failure) [
      | some e ↦ (failed e, record u { message_channel = rest })
      | none ↦ copy_out dest_len (m.body) rest
    ]
  ]
]

-- What the `select` at the start of `WriteAt` finds on the return channels.
pub data Notice : Type 0 where
  from_client : Option String → Notice
  from_cache : Notice
  nothing : Notice

-- The buffer with its capacity, and what went over the two channels.
pub record DownloadStream : Type 0 where
  pub is_file_cacheable : Bool
  pub download_buffer : List ℕ
  pub buffer_cap : ℕ
  pub flush_size : ℕ
  pub client_channel : List (List ℕ)
  pub cache_channel : List (List ℕ)

-- `writeAndRedirectBuffer`
unfoldable pub write_and_redirect_buffer : DownloadStream → DownloadStream
write_and_redirect_buffer d = record d {
  client_channel = d.client_channel ++ (d.download_buffer ∷ []);
  cache_channel =
      if d.is_file_cacheable then d.cache_channel ++ (d.download_buffer ∷ []) else d.cache_channel;
}

-- `append` on the buffer. How far the run time grows a capacity that is too small is an argument.
abbrev pub append_bytes : (ℕ → ℕ → ℕ) → List ℕ → DownloadStream → DownloadStream
append_bytes grow bs d =
    let needed = length d.download_buffer + length bs in
    record d {
      download_buffer = d.download_buffer ++ bs;
      buffer_cap = if leb needed d.buffer_cap then d.buffer_cap else grow d.buffer_cap needed;
    }

-- The rest of the source moves to the front of the buffer, which is not grown.
abbrev pub refill : List ℕ → DownloadStream → Outcome ⊥ DownloadStream
refill rest d =
    if leb (length rest) d.buffer_cap then ok (record d { download_buffer = rest }) else panic

-- `WriteAt` once the client has not complained. A slice up to a negative bound panics.
unfoldable pub buffer_source : (ℕ → ℕ → ℕ) → List ℕ → DownloadStream → Outcome ⊥ DownloadStream
unfolding write_and_redirect_buffer
buffer_source grow source d =
    if leb (length d.download_buffer + length source) d.flush_size
    then ok (append_bytes grow source d)
    else if ltb d.flush_size (length d.download_buffer)
    then panic
    else (let fit_size = d.flush_size - length d.download_buffer in
        refill (drop fit_size source)
          (write_and_redirect_buffer (append_bytes grow (take fit_size source) d)))

pub data Wrote : Type 0 where
  all_of : ℕ → Wrote
  refused : Option String → Wrote

unfoldable pub write_at :
    (ℕ → ℕ → ℕ) → Notice → List ℕ → DownloadStream → Outcome ⊥ (Wrote × DownloadStream)
unfolding buffer_source
write_at grow (from_client e) source d = ok (refused e, d)
write_at grow from_cache source d = do
  d' ← buffer_source grow source (record d { is_file_cacheable = false })
  ok (all_of (length source), d')
write_at grow nothing source d = do
  d' ← buffer_source grow source d
  ok (all_of (length source), d')

-- `Flush`; it does not empty the buffer.
unfoldable pub flush : DownloadStream → ℕ × DownloadStream
unfolding write_and_redirect_buffer
flush d =
    if ltb 0 (length d.download_buffer)
    then (length d.download_buffer, write_and_redirect_buffer d)
    else (0, d)
