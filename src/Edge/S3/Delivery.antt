-- ===== src/Edge/S3/Delivery.antt =====
-- What SendFromS3 passes on and what SendToS3 stores (edge/s3_boundary/s3_interface.go).
use mathlib.Core.List.{append_assoc, append-nil}
use mathlib.Core.Option.{some-injective}
use sdcc_project.Base.{
  ℕ, suc, ◌+◌, ◌-◌, ◌≤◌, ◌≡◌, refl, ◌∙◌, ap, sym, subst, String, Bool, true, false, List, [], ◌∷◌,
  ◌++◌, Option, none, some, Outcome, ok, err, panic, deadlock, ltb, leb, length, take, drop, All,
  All-mono, arith, Bool-cases, inl, inr, if◌then◌else◌, map,
}
use sdcc_project.Edge.Channel.{Message}
use sdcc_project.Edge.S3.{
  UploadStream, ReadResult, bytes, failed, eof, read, DownloadStream, flush, nothing, write_at,
  buffer_source, write_and_redirect_buffer, append_bytes,
}
use sdcc_project.Edge.S3.Upload.{
  bodies, pending, IsSound, bytes_of, read-Hands, read_fields-IsSound,
}
use sdcc_project.Edge.S3.Download.{concat, taken, IsChunked, flush-taken, buffer_source-Takes}
use sdcc_project.Edge.S3.Interface.{
  Sent, chunk_message, fresh_stream, write_parts, send_from_s3, upload_body, behind, after_read,
}

pub bodies-chunk_message : (cs : List (List ℕ)) → bodies (map chunk_message cs) ≡ concat cs
bodies-chunk_message [] = refl
bodies-chunk_message (c ∷ cs) = ap (λ l. c ++ l) (bodies-chunk_message cs)

pub chunk_message-IsSound : (cs : List (List ℕ)) → IsSound (map chunk_message cs)
chunk_message-IsSound [] = tt
chunk_message-IsSound (c ∷ cs) = (refl, chunk_message-IsSound cs)

-- The cache is sent what the client is sent, or nothing.
pub record IsTwin (b : Bool) (d : DownloadStream) : Type 0 where
  pub same_flag : d.is_file_cacheable ≡ b
  pub same_chunks : d.cache_channel ≡ (if b then d.client_channel else [])

abbrev Twins : Bool → Outcome ⊥ DownloadStream → Type 0
Twins b (ok d) = IsTwin b d
Twins b (err e) = Unit
Twins b panic = Unit
Twins b deadlock = Unit

write_and_redirect-IsTwin :
    (b : Bool) (d : DownloadStream) → IsTwin b d → IsTwin b (write_and_redirect_buffer d)
unfolding write_and_redirect_buffer
write_and_redirect-IsTwin true d t = ground arith
write_and_redirect-IsTwin false d t = ground arith

if-Twins :
    (b test : Bool) (x y : Outcome ⊥ DownloadStream)
    → Twins b x
    → Twins b y
    → Twins b (if test then x else y)
if-Twins b true x y p q = p
if-Twins b false x y p q = q

buffer_source-Twins :
    (grow : ℕ → ℕ → ℕ) (source : List ℕ) (b : Bool) (d : DownloadStream)
    → IsTwin b d
    → Twins b (buffer_source grow source d)
unfolding buffer_source write_and_redirect_buffer
buffer_source-Twins grow source b d t =
    let fit = d.flush_size - length d.download_buffer in
    let sent =
      write_and_redirect-IsTwin b (append_bytes grow (take fit source) d)
        (record { same_flag = t.same_flag; same_chunks = t.same_chunks }) in
    if-Twins b (leb (length d.download_buffer + length source) d.flush_size) _ _
      (record { same_flag = t.same_flag; same_chunks = t.same_chunks })
      (if-Twins b (ltb d.flush_size (length d.download_buffer)) _ _ tt (
        if-Twins b
          (leb (length (drop fit source)) (append_bytes grow (take fit source) d).buffer_cap) _ _
          (record { same_flag = sent.same_flag; same_chunks = sent.same_chunks }) tt))

flush-IsTwin : (b : Bool) (d : DownloadStream) → IsTwin b d → IsTwin b (flush d).1
unfolding flush
flush-IsTwin b d t = elim (Bool-cases (ltb 0 (length d.download_buffer))) [
  | inl more ↦ rw more (write_and_redirect-IsTwin b d t)
  | inr less ↦ rw less t
]

nothing_yet : (b : Bool) → ◌≡◌ {A = List (List ℕ)} [] (if b then [] else [])
nothing_yet true = refl
nothing_yet false = refl

map_if :
    (b : Bool) (cs : List (List ℕ))
    → map chunk_message (if b then cs else []) ≡ (if b then map chunk_message cs else [])
map_if true cs = refl
map_if false cs = refl

module _ (grow : ℕ → ℕ → ℕ) (grows : (c n : ℕ) → n ≤ grow c n) (b : Bool) where
  write_parts-takes :
      (i : ℕ) (parts : List (List ℕ)) (d : DownloadStream)
      → IsChunked d
      → IsTwin b d
      → All (λ part. length part ≤ d.flush_size) parts
      → (d' : DownloadStream) × (write_parts grow (λ n. nothing) i parts none d ≡ ok (none, d'))
        × (taken d' ≡ taken d ++ concat parts)
        × IsTwin b d'
  unfolding write_parts write_at
  write_parts-takes i [] d v t h = (d, refl, sym (append-nil (taken d)), t)
  write_parts-takes i (part ∷ parts) d v t h =
      let (d', e, same, k, v') = buffer_source-Takes grow grows part d v h.0 in
      let t' : IsTwin b d' = subst (Twins b) e (buffer_source-Twins grow part b d t) in
      let (last, f, all, t'') = write_parts-takes (suc i) parts d' v' t' (
        All-mono (λ s. length s ≤ d.flush_size) (λ s. length s ≤ d'.flush_size) parts
          (λ s k. omega arith) h.1) in
      (
        last,
        rw e f,
        all ∙ ap (λ l. l ++ concat parts) k ∙ append_assoc (taken d) part (concat parts),
        t'',
      )

  pub send_from_s3-delivers :
      (describe : String → String) (flush_size : ℕ) (parts : List (List ℕ))
      → All (λ part. length part ≤ flush_size) parts
      → (s : Sent) × (send_from_s3 grow describe (λ n. nothing) b flush_size parts none ≡ ok s)
        × (s.returned ≡ none)
        × IsSound s.client_messages
        × (bodies s.client_messages ≡ concat parts)
        × (s.cache_messages ≡ (if b then s.client_messages else []))
  unfolding send_from_s3
  send_from_s3-delivers describe flush_size parts h =
      let d0 = fresh_stream b flush_size in
      let (d, e, k, t) =
        write_parts-takes 0 parts d0 (record { fits = omega arith; full = tt })
          (record { same_flag = refl; same_chunks = nothing_yet b }) h in
      let twin = flush-IsTwin b d t in
      (
        record {
          client_messages = map chunk_message (flush d).1.client_channel;
          cache_messages = map chunk_message (flush d).1.cache_channel;
          returned = none;
        },
        rw e refl,
        refl,
        chunk_message-IsSound (flush d).1.client_channel,
        bodies-chunk_message (flush d).1.client_channel ∙ flush-taken d ∙ k,
        ap (map chunk_message) twin.same_chunks ∙ map_if b (flush d).1.client_channel,
      )

read_never_fails :
    (room : ℕ) (residual : List ℕ) (incoming : List Message) (e : String)
    → IsSound incoming
    → (read room (record { residual_chunk = residual; message_channel = incoming })).0 ≡ failed e
    → ⊥
unfolding read
read_never_fails room (x ∷ xs) incoming e s h = ground arith
read_never_fails room [] [] e s h = ground arith
read_never_fails room [] (m ∷ ms) e s h = ground (arith, s.0)

behind-ok :
    (bs after : List ℕ) (rest : Option (Outcome String (List ℕ))) (o : Outcome String (List ℕ))
    → ((o' : Outcome String (List ℕ)) → rest ≡ some o' → o' ≡ ok after)
    → behind bs rest ≡ some o
    → o ≡ ok (bs ++ after)
behind-ok bs after none o ih h = absurd (ground arith)
behind-ok bs after (some (ok l)) o ih h = ground (arith, ih (ok l) refl)
behind-ok bs after (some (err e)) o ih h = absurd (ground (arith, ih (err e) refl))
behind-ok bs after (some panic) o ih h = absurd (ground (arith, ih panic refl))
behind-ok bs after (some deadlock) o ih h = absurd (ground (arith, ih deadlock refl))

read_then :
    (r : ReadResult) (before after : List ℕ) (rest : Option (Outcome String (List ℕ)))
    (o : Outcome String (List ℕ))
    → bytes_of r ++ after ≡ before
    → (r ≡ eof → after ≡ [])
    → ((e : String) → r ≡ failed e → ⊥)
    → ((o' : Outcome String (List ℕ)) → rest ≡ some o' → o' ≡ ok after)
    → after_read r rest ≡ some o
    → o ≡ ok before
read_then (bytes bs) before after rest o h end no_failure ih run =
    behind-ok bs after rest o ih run ∙ ap (λ l. ok l) h
read_then (failed e) before after rest o h end no_failure ih run = absurd (no_failure e refl)
read_then eof before after rest o h end no_failure ih run =
    sym (some-injective _ _ run) ∙ ap (λ l. ok l) (sym (end refl) ∙ h)

-- If no message carries an error, an uploader that reads the body to its end gets the pending bytes, in order.
pub upload_body-pending :
    (rooms : List ℕ) (u : UploadStream) (o : Outcome String (List ℕ))
    → IsSound u.message_channel
    → upload_body rooms u ≡ some o
    → o ≡ ok (pending u)
unfolding upload_body
upload_body-pending [] u o s h = absurd (ground arith)
upload_body-pending (room ∷ rooms) u o s h =
    let hands = read-Hands room u s in
    let u' = (read room u).1 in
    read_then (read room u).0 (pending u) (pending u') (upload_body rooms u') o hands.0 hands.1.1
      (λ e k. read_never_fails room u.residual_chunk u.message_channel e s k)
      (λ o' k.
        upload_body-pending rooms u' o'
          (read_fields-IsSound room u.residual_chunk u.message_channel s) k)
      h
