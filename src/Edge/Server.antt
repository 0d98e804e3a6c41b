-- ===== src/Edge/Server.antt =====
-- edge/server/stream_redirection.go: chunks that arrive over gRPC go to the main channel (S3 or the client) and to the
-- cache. Which case the `select` of a round takes is an event; a channel is the list of what was sent over it.
pub mod Redirection
pub mod Requests
pub mod Clean
pub mod Upload
pub mod OtherEdge
pub mod Download
pub mod Delete
pub mod RoundTrip
pub mod Handlers
pub mod Samples
pub mod LocalCache
mod Tests
use sdcc_project.Base.{
  ℕ, suc, String, Bool, true, false, List, [], ◌∷◌, ◌++◌, Option, none, some, if◌then◌else◌,
}
use sdcc_project.Edge.Channel.{Message}

pub data Event : Type 0 where
  main_returned : Option String → Event
  cache_returned : Option String → Event
  received : List ℕ → Event
  stream_ended : Event
  stream_failed : String → Event

-- The variables of `rcvAndRedirectChunks`, with what went over the two channels.
pub record Redirect : Type 0 where
  pub is_file_cacheable : Bool
  pub main_channel : List Message
  pub cache_channel : List Message
  pub main_channel_error : Option String
  pub grpc_error : Option String

abbrev pub failure_message : String → Message
failure_message e = record { body = []; failure = some e }

abbrev pub to_cache : Message → Redirect → Redirect
to_cache m r = record r { cache_channel = r.cache_channel ++ (m ∷ []) }

abbrev pub to_both : Message → Redirect → Redirect
to_both m r =
    let r' : Redirect = record r { main_channel = r.main_channel ++ (m ∷ []) } in
    if r.is_file_cacheable then to_cache m r' else r'

-- The loop; `none` if it still waits for an event.
unfoldable pub redirect_loop : List Event → Redirect → Option Redirect
redirect_loop [] r = none
redirect_loop (main_returned none ∷ later) r =
    redirect_loop later (record r { main_channel_error = none })
redirect_loop (main_returned (some e) ∷ later) r =
    some (to_cache (failure_message e) (record r { main_channel_error = some e }))
redirect_loop (cache_returned none ∷ later) r = redirect_loop later r
redirect_loop (cache_returned (some e) ∷ later) r =
    redirect_loop later (record r { is_file_cacheable = false })
redirect_loop (received chunk ∷ later) r =
    redirect_loop later (to_both (record { body = chunk; failure = none }) r)
redirect_loop (stream_ended ∷ later) r = some r
redirect_loop (stream_failed e ∷ later) r =
    some (record (to_both (failure_message e) r) { grpc_error = some e })

pub data RedirectError : Type 0 where
  grpc_failed : String → RedirectError
  main_channel_failed : String → RedirectError

-- After the loop the last answer of the main channel is awaited, unless it has failed.
abbrev pub last_error : Option String → Redirect → Option String
last_error last r = elim (r.main_channel_error) [ some e ↦ some e | none ↦ last ]

unfoldable pub redirect_result : Option String → Redirect → Option RedirectError
redirect_result last r = elim (r.grpc_error) [
  | some e ↦ some (grpc_failed e)
  | none ↦ elim (last_error last r) [ some e ↦ some (main_channel_failed e) | none ↦ none ]
]

-- `rcvAndRedirectChunks`, with `last` the last answer of the main channel.
unfoldable pub rcv_and_redirect_chunks :
    Bool → List Event → Option String → Option (Option RedirectError × Redirect)
unfolding redirect_loop redirect_result
rcv_and_redirect_chunks is_file_cacheable events last =
    elim (redirect_loop events (record {
      is_file_cacheable = is_file_cacheable;
      main_channel = [];
      cache_channel = [];
      main_channel_error = none;
      grpc_error = none;
    })) [ none ↦ none | some r ↦ some (redirect_result last r, r) ]

-- `redirectStreamToClient`: the chunks that are sent with their numbers, and the error that is returned.
unfoldable pub redirect_stream_from :
    (ℕ → Option String) → ℕ → List Message → List (List ℕ × ℕ) × Option String
redirect_stream_from send seq_number [] = ([], none)
redirect_stream_from send seq_number (m ∷ rest) =
    let (chunks, returned) = redirect_stream_from send (suc seq_number) rest in
    elim (m.failure) [
      | some e ↦ ([], some e)
      | none ↦ elim (send seq_number) [
        | some e ↦ ([], some e)
        | none ↦ ((m.body, seq_number) ∷ chunks, returned)
      ]
    ]

abbrev pub redirect_stream_to_client :
    (ℕ → Option String) → List Message → List (List ℕ × ℕ) × Option String
redirect_stream_to_client send messages = redirect_stream_from send 0 messages
