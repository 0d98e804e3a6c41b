-- ===== src/Edge/S3/Interface.antt =====
-- edge/s3_boundary/s3_interface.go. What the AWS service answers is an argument; a session is not modelled.
use sdcc_project.Base.{
  ℕ, suc, ◌*◌, String, string_discrete, Bool, List, [], ◌∷◌, ◌++◌, Option, none, some, Outcome, ok,
  err, panic, ◌>>=◌, if◌then◌else◌, ite, map,
}
use sdcc_project.Base.Int.{ℤ, pos, negsuc, sub_ℕ, ltb_ℤ, wrap64}
use sdcc_project.Edge.Channel.{Message}
use sdcc_project.Edge.S3.{
  UploadStream, ReadResult, bytes, failed, eof, read, DownloadStream, flush, Notice, all_of,
  refused, write_at,
}
use sdcc_project.Edge.Utils.Config.{Config}
use sdcc_project.Edge.Utils.Text.{Text}
use sdcc_project.Edge.Utils.Numbers.{get_int64_environment_variable}

-- An error of the AWS library, with its code and its text.
pub record AwsError : Type 0 where
  pub code : String
  pub text : String

-- The answers of the service: the length of the object or an error, and the errors of a deletion and of the wait for it.
pub record Service : Type 0 where
  pub head_object : String → Outcome AwsError ℤ
  pub delete_object : String → Option AwsError
  pub wait_until_object_not_exists : String → Option AwsError

abbrev pub text_of : Option AwsError → Option String
text_of none = none
text_of (some e) = some e.text

abbrev deletion : Service → String → Option String
deletion s3 file_name = elim (s3.delete_object file_name) [
  | some e ↦ some e.text
  | none ↦ text_of (s3.wait_until_object_not_exists file_name)
]

-- `DeleteFromS3`: the text of the error.
unfoldable pub delete_from_s3 : Service → String → Outcome ⊥ (Option String)
delete_from_s3 s3 file_name = elim (s3.head_object file_name) [
  | ok size ↦ ok (deletion s3 file_name)
  | err e ↦ ok (some (ite (string_discrete e.code "NotFound") "NotFound" e.text))
  | _ ↦ panic
]

-- `GetFileSize`
unfoldable pub get_file_size : Service → String → ℤ × Option String
get_file_size s3 file_name = elim (s3.head_object file_name) [
  | ok size ↦ (size, none)
  | err e ↦ (negsuc 0, some e.text)
  | _ ↦ (negsuc 0, none)
]

abbrev pub mb : ℕ
mb = 1024 * 1024

abbrev pub in_mb : ℤ → ℤ
in_mb (pos n) = pos (n * 1048576)
in_mb (negsuc n) = sub_ℕ 0 (suc n * 1048576)

-- `getS3ChunkSize`
unfoldable pub get_s3_chunk_size : Text → Config → Outcome String ℤ
unfolding get_int64_environment_variable
get_s3_chunk_size name env = do
  variable ← get_int64_environment_variable name env
  ok (if ltb_ℤ variable (pos 5) then pos 5242880 else wrap64 (in_mb variable))

-- The uploader reads the body until its end, with a given room at each call; `none` if it goes on.
abbrev pub behind : List ℕ → Option (Outcome String (List ℕ)) → Option (Outcome String (List ℕ))
behind bs none = none
behind bs (some (ok rest)) = some (ok (bs ++ rest))
behind bs (some other) = some other

abbrev pub after_read :
    ReadResult → Option (Outcome String (List ℕ)) → Option (Outcome String (List ℕ))
after_read (bytes bs) rest = behind bs rest
after_read (failed e) rest = some (err e)
after_read eof rest = some (ok [])

unfoldable pub upload_body : List ℕ → UploadStream → Option (Outcome String (List ℕ))
upload_body [] u = none
upload_body (room ∷ rooms) u = after_read (read room u).0 (upload_body rooms (read room u).1)

abbrev reply_to : (List ℕ → Option String) → Outcome String (List ℕ) → Option String
reply_to stores (ok content) = stores content
reply_to stores (err e) = some e
reply_to stores _ = none

-- `SendToS3`: what is sent to the return channel. Whether the service stores a content is an argument.
unfoldable pub send_to_s3 :
    List ℕ → (List ℕ → Option String) → List Message → Option (Option String)
unfolding upload_body
send_to_s3 rooms stores messages =
    elim (upload_body rooms (record { residual_chunk = []; message_channel = messages })) [
      | none ↦ none
      | some outcome ↦ some (reply_to stores outcome)
    ]

-- What the two channels get, and what is returned.
pub record Sent : Type 0 where
  pub client_messages : List Message
  pub cache_messages : List Message
  pub returned : Option String

abbrev pub chunk_message : List ℕ → Message
chunk_message chunk = record { body = chunk; failure = none }

-- The stream with which SendFromS3 starts.
abbrev pub fresh_stream : Bool → ℕ → DownloadStream
fresh_stream is_file_cachable flush_size = record {
  is_file_cacheable = is_file_cachable;
  download_buffer = [];
  buffer_cap = 0;
  flush_size = flush_size;
  client_channel = [];
  cache_channel = [];
}

abbrev chunks_sent : DownloadStream → Sent
chunks_sent d = record {
  client_messages = map chunk_message d.client_channel;
  cache_messages = map chunk_message d.cache_channel;
  returned = none;
}

-- An error of the download goes behind the chunks. Whether the cache gets it depends on the argument, not on the stream.
abbrev with_failure : (String → String) → Bool → String → Sent → Sent
with_failure describe is_file_cachable e s =
    let m : Message = record { body = []; failure = some (describe e) } in
    record {
      client_messages = s.client_messages ++ (m ∷ []);
      cache_messages = if is_file_cachable then s.cache_messages ++ (m ∷ []) else s.cache_messages;
      returned = some e;
    }

-- A refusal without an error is a short write.
abbrev refusal : Option String → String
refusal none = "short write"
refusal (some e) = e

-- The downloader writes the parts that it gets, in order, and then may fail. What a write finds on the return channels
-- depends on its number.
unfoldable pub write_parts :
    (ℕ → ℕ → ℕ)
    → (ℕ → Notice)
    → ℕ
    → List (List ℕ)
    → Option String
    → DownloadStream
    → Outcome ⊥ (Option String × DownloadStream)
write_parts grow notices i [] failure d = ok (failure, d)
write_parts grow notices i (part ∷ parts) failure d = do
  (wrote, d') ← write_at grow (notices i) part d
  elim wrote [
    | all_of n ↦ write_parts grow notices (suc i) parts failure d'
    | refused e ↦ ok (some (refusal e), d')
  ]

abbrev finish_download : (String → String) → Bool → Option String × DownloadStream → Sent
finish_download describe is_file_cachable (none, d) = chunks_sent (flush d).1
finish_download describe is_file_cachable (some e, d) =
    with_failure describe is_file_cachable e (chunks_sent d)

-- `SendFromS3`; `Flush` returns no error.
unfoldable pub send_from_s3 :
    (ℕ → ℕ → ℕ)
    → (String → String)
    → (ℕ → Notice)
    → Bool
    → ℕ
    → List (List ℕ)
    → Option String
    → Outcome ⊥ Sent
unfolding write_parts flush
send_from_s3 grow describe notices is_file_cachable flush_size parts failure = do
  written ← write_parts grow notices 0 parts failure (fresh_stream is_file_cachable flush_size)
  ok (finish_download describe is_file_cachable written)
