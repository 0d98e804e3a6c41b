-- ===== src/Edge/S3/Tests.antt =====
-- The streams of edge/s3_boundary/s3_streams.go on concrete bytes.
use sdcc_project.Edge.S3.Download.{concat}
use sdcc_project.Edge.S3.Interface.{get_s3_chunk_size}
use sdcc_project.Edge.S3.ChunkSize.{Sized, get_s3_chunk_size_bounds}
use sdcc_project.Edge.Utils.Text.{Text, text_discrete}
use sdcc_project.Edge.Utils.Config.{Config}
use sdcc_project.Edge.Utils.Numbers.{get_int64_environment_variable}
use sdcc_project.Base.Int.{wrap64, ℤ, pos, IsInt64}
use sdcc_project.Base.Dict.{lookup}
use sdcc_project.Base.{ok, none, true, List}
use sdcc_project.Base.{ℕ, ◌≡◌, refl, [], ◌∷◌, none, ok, true}
use sdcc_project.Edge.S3.{UploadStream, read, bytes}
use sdcc_project.Edge.S3.Download.{concat}

abbrev upload : UploadStream
upload = record {
  residual_chunk = 1 ∷ 2 ∷ 3 ∷ [];
  message_channel =
      record { body = 4 ∷ 5 ∷ []; failure = none } ∷ record { body = 6 ∷ []; failure = none } ∷ [];
}

reads_two : (read 2 upload).0 ≡ bytes (1 ∷ 2 ∷ [])
unfolding read
reads_two = refl

abbrev exactly : ℕ → ℕ → ℕ
exactly c n = n

abbrev parts : List (List ℕ)
parts = (1 ∷ 2 ∷ 3 ∷ []) ∷ (4 ∷ 5 ∷ []) ∷ []

abbrev name : Text
name = b'N' ∷ []

abbrev env : Config
env = (name, b'1' ∷ b'0' ∷ []) ∷ []

ten_mb : get_s3_chunk_size name env ≡ ok (pos 10485760)
unfolding get_s3_chunk_size text_discrete lookup wrap64
ten_mb = refl

get_s3_chunk_size_bounds_example :
    (variable : ℤ) × (get_int64_environment_variable name env ≡ ok variable)
    × IsInt64 variable
    × Sized variable (pos 10485760)
get_s3_chunk_size_bounds_example = get_s3_chunk_size_bounds name env (pos 10485760) ten_mb
