-- ===== src/Edge/Server/Upload.antt =====
-- `doUpload` (edge/server/server_services.go) with the two goroutines that it starts.
pub mod Stored
pub mod Undrained
mod Tests
use sdcc_project.Base.{String, List, Option, none, some, Outcome, ok, err, panic, deadlock}
use sdcc_project.Base.Int.{ℤ}
use sdcc_project.Edge.Cache.Eviction.{is_file_cacheable}
use sdcc_project.Edge.Server.{Event, Redirect, RedirectError, rcv_and_redirect_chunks}
use sdcc_project.Edge.Server.Requests.{
  CustomError, upload_failed, chunk_error, Metadata, retrieve_metadata,
}
use sdcc_project.Edge.Utils.Text.{Text}

-- How the handler goes: it refuses the metadata, it still waits, or it ends, with the error that it returns, the name and
-- the size that the request gave, and what went over the channels.
pub data Uploaded : Type 0 where
  refused : CustomError → Uploaded
  waiting : Uploaded
  ended : Option CustomError → Text → ℤ → Redirect → Uploaded

abbrev closing : Option String → Option CustomError
closing none = none
closing (some e) = some (chunk_error e)

abbrev pub finish_upload :
    Option String → Text → ℤ → Option (Option RedirectError × Redirect) → Uploaded
finish_upload send_and_close file_name file_size none = waiting
finish_upload send_and_close file_name file_size (some (some e, r)) =
    ended (some (upload_failed e)) file_name file_size r
finish_upload send_and_close file_name file_size (some (none, r)) =
    ended (closing send_and_close) file_name file_size r

-- The handler once the metadata is read.
abbrev pub after_metadata :
    ℤ
    → List Event
    → Option String
    → Option String
    → Outcome CustomError (Text × Text × ℤ)
    → Outcome ⊥ Uploaded
after_metadata max_size events last send_and_close (err e) = ok (refused e)
after_metadata max_size events last send_and_close panic = panic
after_metadata max_size events last send_and_close deadlock = deadlock
after_metadata max_size events last send_and_close (ok (request_id, file_name, file_size)) = ok (
    finish_upload send_and_close file_name file_size
      (rcv_and_redirect_chunks (is_file_cacheable max_size file_size) events last))

-- `doUpload`: `last` is the last answer of SendToS3, and `send_and_close` that of the client to the response.
unfoldable pub do_upload :
    ℤ → Option Metadata → List Event → Option String → Option String → Outcome ⊥ Uploaded
unfolding retrieve_metadata is_file_cacheable rcv_and_redirect_chunks
do_upload max_size md events last send_and_close =
    after_metadata max_size events last send_and_close (retrieve_metadata md)
