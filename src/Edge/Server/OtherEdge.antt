-- ===== src/Edge/Server/OtherEdge.antt =====
-- `downloadFromOtherEdge` (edge/server/server_services.go): a file comes from another edge node. A send on a channel
-- that is closed panics, which ends the edge node.
pub mod Crash
mod Tests
use sdcc_project.Base.{
  String, Bool, true, false, List, [], ◌∷◌, Option, none, some, Outcome, ok, err, panic, ◌>>=◌,
  ◌++◌, if◌then◌else◌,
}
use sdcc_project.Edge.Channel.{Message}
use sdcc_project.Edge.Server.{
  Event, Redirect, RedirectError, grpc_failed, main_channel_failed, failure_message,
  rcv_and_redirect_chunks,
}

-- How the other edge behaves: the errors of the dial, of the call and of CloseSend, what the loop meets, and the last answer
-- of the stream to the client.
pub record OwnerEdge : Type 0 where
  pub dial : Option String
  pub download_from_edge : Option String
  pub events : List Event
  pub last : Option String
  pub close_send : Option String

-- What goes over the two channels; whether they are closed behind it.
pub record Channels : Type 0 where
  pub client_messages : List Message
  pub cache_messages : List Message
  pub closed : Bool

-- A send to the client's channel and, if the file is cacheable, to that of the cache. A channel that is closed panics.
abbrev pub send_failure : Bool → String → Channels → Outcome ⊥ Channels
send_failure is_file_cacheable e c =
    if c.closed
    then panic
    else ok (record c {
      client_messages = c.client_messages ++ (failure_message e ∷ []);
      cache_messages =
          if is_file_cacheable
          then c.cache_messages ++ (failure_message e ∷ [])
          else c.cache_messages;
    })

abbrev pub report : Bool → Option String → Channels → Outcome ⊥ Channels
report is_file_cacheable none c = ok c
report is_file_cacheable (some e) c = send_failure is_file_cacheable e c

-- Before the loop the channels are empty and open.
abbrev pub refuse : Bool → String → Outcome ⊥ Channels
refuse is_file_cacheable e =
    send_failure is_file_cacheable e
      (record { client_messages = []; cache_messages = []; closed = false })

abbrev pub error_text : Option RedirectError → Option String
error_text none = none
error_text (some (grpc_failed e)) = some e
error_text (some (main_channel_failed e)) = some e

-- `rcvAndRedirectChunks` closes both channels when it returns; its error and that of CloseSend are reported behind it.
abbrev pub closed_behind : Redirect → Channels
closed_behind r = record {
  client_messages = r.main_channel;
  cache_messages = r.cache_channel;
  closed = true;
}

abbrev pub after_loop :
    Bool → Option String → Option (Option RedirectError × Redirect) → Option (Outcome ⊥ Channels)
after_loop is_file_cacheable close_send none = none
after_loop is_file_cacheable close_send (some (returned, r)) = some (do
  c ← report is_file_cacheable (error_text returned) (closed_behind r)
  report is_file_cacheable close_send c)

-- The dial and the call come first.
abbrev pub after_call :
    Bool → Option String → Option String → Option (Outcome ⊥ Channels) → Option (Outcome ⊥ Channels)
after_call is_file_cacheable (some e) call loop = some (refuse is_file_cacheable e)
after_call is_file_cacheable none (some e) loop = some (refuse is_file_cacheable e)
after_call is_file_cacheable none none loop = loop

-- `none` if the loop still waits.
unfoldable pub download_from_other_edge : Bool → OwnerEdge → Option (Outcome ⊥ Channels)
unfolding rcv_and_redirect_chunks
download_from_other_edge is_file_cacheable owner =
    after_call is_file_cacheable owner.dial owner.download_from_edge (
      after_loop is_file_cacheable owner.close_send
        (rcv_and_redirect_chunks is_file_cacheable owner.events owner.last))
