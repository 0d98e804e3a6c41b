-- ===== src/Edge/Server/Requests.antt =====
-- edge/server/server_services.go: what the handlers return, and the metadata of a request. The text around the cause of an
-- error is left out. In edge/server/server_utils.go the workload counts the handlers that run.
use sdcc_project.Base.{
  String, string_discrete, List, [], ◌∷◌, Option, none, some, Outcome, ok, err, panic, ◌>>=◌,
}
use sdcc_project.Base.Int.{ℤ, pos, negsuc, ◌+ℤ◌, wrap64}
use sdcc_project.Base.Dict.{lookup}
use sdcc_project.Edge.Server.{RedirectError}
use sdcc_project.Edge.Utils.Text.{Text}
use sdcc_project.Edge.Utils.Numbers.{parse_int}

-- The codes of `NewCustomError` with their causes, and the errors that are passed on as they are.
pub data CustomError : Type 0 where
  no_metadata : CustomError
  cast_error : CustomError
  file_not_found : String → CustomError
  s3_error : String → CustomError
  upload_failed : RedirectError → CustomError
  chunk_error : String → CustomError
  request_failed : String → CustomError
  passed_on : String → CustomError

-- The metadata that a context carries: the values of each key.
abbrev pub Metadata : Type 0
Metadata = List (String × List Text)

-- `md.Get(k)[0]`
abbrev pub first_value : Option (List Text) → Outcome CustomError Text
first_value none = panic
first_value (some []) = panic
first_value (some (value ∷ rest)) = ok value

abbrev pub metadata_value : String → Metadata → Outcome CustomError Text
metadata_value key md = first_value (lookup string_discrete key md)

-- `retrieveMetadata`: the request id, the name of the file and its size.
unfoldable pub retrieve_metadata : Option Metadata → Outcome CustomError (Text × Text × ℤ)
unfolding lookup parse_int
retrieve_metadata none = err no_metadata
retrieve_metadata (some md) = do
  request_id ← metadata_value "request_id" md
  file_name ← metadata_value "file_name" md
  size ← metadata_value "file_size" md
  elim (parse_int size) [
    | some file_size ↦ ok (request_id, file_name, file_size)
    | none ↦ err cast_error
  ]

-- `incrementWorkload` and `decrementWorkload`
unfoldable pub increment_workload : ℤ → ℤ
unfolding ◌+ℤ◌ wrap64
increment_workload workload = wrap64 (workload +ℤ pos 1)

unfoldable pub decrement_workload : ℤ → ℤ
unfolding ◌+ℤ◌ wrap64
decrement_workload workload = wrap64 (workload +ℤ negsuc 0)
