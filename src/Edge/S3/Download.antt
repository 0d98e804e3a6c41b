-- ===== src/Edge/S3/Download.antt =====
-- What `DownloadStream.WriteAt` and `Flush` (edge/s3_boundary/s3_streams.go) pass on.
use mathlib.Core.List.{append_assoc, append-nil}
use sdcc_project.Edge.S3.{write_at, nothing}
use sdcc_project.Base.{◌>>=◌, All-mono}
use sdcc_project.Base.{
  ℕ, ◌+◌, ◌-◌, ◌≤◌, ◌<◌, ◌≡◌, refl, ◌∙◌, ap, sym, true, false, List, [], ◌∷◌, ◌++◌, Outcome, ok,
  ltb, leb, length, take, drop, All, All-append, arith, Bool-cases, inl, inr, length-append,
}
use sdcc_project.Base.Lists.{take-append-drop, length-take, length-drop}
use sdcc_project.Edge.S3.{
  DownloadStream, write_and_redirect_buffer, append_bytes, refill, buffer_source, flush,
}

abbrev pub concat : List (List ℕ) → List ℕ
concat [] = []
concat (c ∷ cs) = c ++ concat cs

pub concat-append : (cs ds : List (List ℕ)) → concat (cs ++ ds) ≡ concat cs ++ concat ds
concat-append [] ds = refl
concat-append (c ∷ cs) ds =
    ap (λ l. c ++ l) (concat-append cs ds) ∙ sym (append_assoc c (concat cs) (concat ds))

one_chunk : (cs : List (List ℕ)) (c : List ℕ) → concat (cs ++ (c ∷ [])) ≡ concat cs ++ c
one_chunk cs c = concat-append cs (c ∷ []) ∙ ap (λ l. concat cs ++ l) (append-nil c)

split_bytes :
    (cs : List (List ℕ)) (b h t : List ℕ)
    → concat (cs ++ ((b ++ h) ∷ [])) ++ t ≡ (concat cs ++ b) ++ (h ++ t)
split_bytes cs b h t =
    ap (λ l. l ++ t) (one_chunk cs (b ++ h) ∙ sym (append_assoc (concat cs) b h))
    ∙ append_assoc (concat cs ++ b) h t

-- All that a stream has taken: what went to the client, and what is in the buffer.
abbrev pub taken : DownloadStream → List ℕ
taken d = concat d.client_channel ++ d.download_buffer

-- The buffer never holds more than a chunk, and every chunk for the client is full.
pub record IsChunked (d : DownloadStream) : Type 0 where
  pub fits : length d.download_buffer ≤ d.flush_size
  pub full : All (λ c. length c ≡ d.flush_size) d.client_channel

-- The outcome of a write: all bytes are taken in order and the stream stays chunked.
abbrev pub Takes : List ℕ → DownloadStream → Outcome ⊥ DownloadStream → Type 0
Takes source d o =
    (d' : DownloadStream) × (o ≡ ok d')
    × (d'.flush_size ≡ d.flush_size)
    × (taken d' ≡ taken d ++ source)
    × IsChunked d'

-- Writes that the client does not complain of, then the flush.
unfoldable pub download : (ℕ → ℕ → ℕ) → List (List ℕ) → DownloadStream → Outcome ⊥ DownloadStream
download grow [] d = ok (flush d).1
download grow (source ∷ rest) d = do
  (wrote, d') ← write_at grow nothing source d
  download grow rest d'

empty : (l : List ℕ) → ltb 0 (length l) ≡ false → l ≡ []
empty [] h = refl
empty (x ∷ xs) h = absurd (ground arith)

pub flush-taken : (d : DownloadStream) → concat (flush d).1.client_channel ≡ taken d
unfolding flush write_and_redirect_buffer
flush-taken d = elim (Bool-cases (ltb 0 (length d.download_buffer))) [
  | inl more ↦ rw more (one_chunk d.client_channel d.download_buffer)
  | inr none_left ↦ rw none_left (
      sym (
        ap (λ b. concat d.client_channel ++ b) (empty d.download_buffer none_left)
        ∙ append-nil (concat d.client_channel)))
]

module _ (grow : ℕ → ℕ → ℕ) (grows : (c n : ℕ) → n ≤ grow c n) where
  cap_enough :
      (bs : List ℕ) (d : DownloadStream)
      → length d.download_buffer + length bs ≤ (append_bytes grow bs d).buffer_cap
  cap_enough bs d = elim (Bool-cases (leb (length d.download_buffer + length bs) d.buffer_cap)) [
    | inl fits ↦ rw fits (ground arith)
    | inr small ↦ rw small (grows d.buffer_cap (length d.download_buffer + length bs))
  ]

  buffered :
      (source : List ℕ) (d : DownloadStream)
      → IsChunked d
      → length d.download_buffer + length source ≤ d.flush_size
      → Takes source d (ok (append_bytes grow source d))
  buffered source d v h = (
    append_bytes grow source d,
    refl,
    refl,
    sym (append_assoc (concat d.client_channel) d.download_buffer source),
    record { fits = omega (arith, length-append d.download_buffer source); full = v.full },
  )

  -- The state after the full buffer is sent.
  abbrev sent : List ℕ → DownloadStream → DownloadStream
  sent source d =
      write_and_redirect_buffer
        (append_bytes grow (take (d.flush_size - length d.download_buffer) source) d)

  redirected :
      (source : List ℕ) (d : DownloadStream)
      → IsChunked d
      → d.flush_size < length d.download_buffer + length source
      → length source ≤ d.flush_size
      → Takes source d
          (refill (drop (d.flush_size - length d.download_buffer) source) (sent source d))
  unfolding write_and_redirect_buffer
  redirected source d v over small =
      let fit = d.flush_size - length d.download_buffer in
      let head = take fit source in
      let n = length-take fit source (omega arith) in
      let room : leb (length (drop fit source)) (append_bytes grow head d).buffer_cap ≡ true =
        ground (arith, cap_enough head d, length-drop fit source, n, v.fits) in
      rw room (
        _,
        refl,
        refl,
        split_bytes d.client_channel d.download_buffer head (drop fit source)
            ∙ ap (λ l. taken d ++ l) (take-append-drop fit source),
        record {
          fits = omega (arith, length-drop fit source);
          full =
              All-append (λ c. length c ≡ d.flush_size) d.client_channel
                ((d.download_buffer ++ head) ∷ []) v.full
                (omega (arith, length-append d.download_buffer head, n, v.fits), tt);
        },
      )

  -- If the buffer holds at most a chunk and all that was sent are full chunks, a source is no longer than a chunk and
  -- the run time grows a capacity as far as it must, then WriteAt, once it has found no
  -- complaint of the client, takes all of the source without a panic: what is sent to the client and what is
  -- in the buffer are the bytes written so far, in order, and every chunk that is sent is full.
  pub buffer_source-Takes :
      (source : List ℕ) (d : DownloadStream)
      → IsChunked d
      → length source ≤ d.flush_size
      → Takes source d (buffer_source grow source d)
  unfolding buffer_source
  buffer_source-Takes source d v small =
      elim (Bool-cases (leb (length d.download_buffer + length source) d.flush_size)) [
        | inl fits ↦ rw fits (buffered source d v (ground arith))
        | inr over ↦
            let within : ltb d.flush_size (length d.download_buffer) ≡ false =
              ground (arith, v.fits) in
            rw (over, within) (redirected source d v (ground arith) small)
      ]

  -- If the buffer holds at most a chunk and all that was sent are full chunks, no source is longer than a chunk, the
  -- run time grows a capacity as far as it must, and the client never complains, then
  -- any sequence of calls of WriteAt with a Flush at the end sends to the client all the bytes, in order.
  pub download-delivers :
      (sources : List (List ℕ)) (d : DownloadStream)
      → IsChunked d
      → All (λ source. length source ≤ d.flush_size) sources
      → (d' : DownloadStream) × (download grow sources d ≡ ok d')
        × (concat d'.client_channel ≡ taken d ++ concat sources)
  unfolding download write_at
  download-delivers [] d v h = ((flush d).1, refl, flush-taken d ∙ sym (append-nil (taken d)))
  download-delivers (source ∷ rest) d v h =
      let (d', e, same, t, v') = buffer_source-Takes source d v h.0 in
      let (last, f, all) = download-delivers rest d' v' (
        All-mono (λ s. length s ≤ d.flush_size) (λ s. length s ≤ d'.flush_size) rest
          (λ s k. omega arith) h.1) in
      (
        last,
        rw e f,
        all ∙ ap (λ l. l ++ concat rest) t ∙ append_assoc (taken d) source (concat rest),
      )
