-- ===== src/Edge/S3/Upload.antt =====
-- What `UploadStream.Read` (edge/s3_boundary/s3_streams.go) hands out.
use mathlib.Core.List.{append_assoc}
use sdcc_project.Base.{
  ℕ, ◌≤◌, ◌≡◌, refl, ◌∙◌, ap, sym, List, [], ◌∷◌, ◌++◌, none, ltb, length, take, drop, All, arith,
  Bool-cases, inl, inr,
}
use sdcc_project.Base.Lists.{take-append-drop, length-take}
use sdcc_project.Edge.Channel.{Message}
use sdcc_project.Edge.S3.{UploadStream, ReadResult, bytes, eof, copy_out, read}

abbrev pub bodies : List Message → List ℕ
bodies [] = []
bodies (m ∷ ms) = m.body ++ bodies ms

-- The bytes that are still to be handed out.
abbrev pub pending : UploadStream → List ℕ
pending u = u.residual_chunk ++ bodies u.message_channel

abbrev pub bytes_of : ReadResult → List ℕ
bytes_of (bytes bs) = bs
bytes_of _ = []

-- A call hands out the next bytes, no more than there is room for, and keeps the rest; the end of the stream comes after the last one.
abbrev pub Hands : ℕ → List ℕ → ReadResult × UploadStream → Type 0
Hands room before (r, u) =
    (bytes_of r ++ pending u ≡ before) × ((length (bytes_of r) ≤ room) × (r ≡ eof → pending u ≡ []))

copy_out-Hands :
    (room : ℕ) (chunk : List ℕ) (incoming : List Message)
    → Hands room (chunk ++ bodies incoming) (copy_out room chunk incoming)
copy_out-Hands room chunk incoming = elim (Bool-cases (ltb (length chunk) room)) [
  | inl small ↦ rw small (refl, (ground arith, λ e. ground arith))
  | inr large ↦ rw large (
    sym (append_assoc (take room chunk) (drop room chunk) (bodies incoming))
        ∙ ap (λ l. l ++ bodies incoming) (take-append-drop room chunk),
    (omega (arith, length-take room chunk (ground arith)), λ e. ground arith),
  )
]

-- No message of the channel carries an error.
abbrev pub IsSound : List Message → Type 0
IsSound = All (λ m. m.failure ≡ none)

read_fields-Hands :
    (room : ℕ) (residual : List ℕ) (incoming : List Message)
    → IsSound incoming
    → Hands room
        (residual ++ bodies incoming)
        (read room (record { residual_chunk = residual; message_channel = incoming }))
unfolding read
read_fields-Hands room (x ∷ xs) incoming h = copy_out-Hands room (x ∷ xs) incoming
read_fields-Hands room [] [] h = (refl, (omega arith, λ e. refl))
read_fields-Hands room [] (m ∷ ms) h = rw h.0 (copy_out-Hands room m.body ms)

copy_out-IsSound :
    (room : ℕ) (chunk : List ℕ) (incoming : List Message)
    → IsSound incoming
    → IsSound (copy_out room chunk incoming).1.message_channel
copy_out-IsSound room chunk incoming h = elim (Bool-cases (ltb (length chunk) room)) [
  | inl small ↦ rw small h
  | inr large ↦ rw large h
]

pub read_fields-IsSound :
    (room : ℕ) (residual : List ℕ) (incoming : List Message)
    → IsSound incoming
    → IsSound
        (read room
          (record { residual_chunk = residual; message_channel = incoming })).1.message_channel
unfolding read
read_fields-IsSound room (x ∷ xs) incoming h = copy_out-IsSound room (x ∷ xs) incoming h
read_fields-IsSound room [] [] h = tt
read_fields-IsSound room [] (m ∷ ms) h = rw h.0 (copy_out-IsSound room m.body ms h.1)

-- If no message carries an error, a call of Read hands out the next of the bytes that are pending, no more than there is
-- room for, and the others stay pending; it reports the end of the stream only when none is left.
pub read-Hands :
    (room : ℕ) (u : UploadStream) → IsSound u.message_channel → Hands room (pending u) (read room u)
read-Hands room u h = read_fields-Hands room u.residual_chunk u.message_channel h

-- Calls with the given room, and all that they hand out.
unfoldable pub read_all : List ℕ → UploadStream → List ℕ × UploadStream
read_all [] u = ([], u)
read_all (room ∷ rooms) u =
    let (r, u') = read room u in let (rest, u'') = read_all rooms u' in (bytes_of r ++ rest, u'')

-- If no message carries an error, any sequence of calls of Read hands out the pending bytes in order: what was handed
-- out, followed by what is still pending, is what was pending at first.
pub read_all-pending :
    (rooms : List ℕ) (u : UploadStream)
    → IsSound u.message_channel
    → (read_all rooms u).0 ++ pending (read_all rooms u).1 ≡ pending u
unfolding read_all
read_all-pending [] u h = refl
read_all-pending (room ∷ rooms) u h =
    let u' = (read room u).1 in
    let ih =
      read_all-pending rooms u' (read_fields-IsSound room u.residual_chunk u.message_channel h) in
    append_assoc (bytes_of (read room u).0) (read_all rooms u').0 (pending (read_all rooms u').1)
    ∙ ap (λ l. bytes_of (read room u).0 ++ l) ih
    ∙ (read-Hands room u h).0
