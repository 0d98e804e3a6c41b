-- ===== src/Edge/Server/Tests.antt =====
-- Redirections of edge/server/stream_redirection.go on concrete events.
use sdcc_project.Base.{◌≡◌, refl, ◌++◌, true, List, [], ◌∷◌, none, some}
use sdcc_project.Edge.Cache.Writing.{Device}
use sdcc_project.Edge.Server.{
  Event, cache_returned, received, stream_failed, Redirect, grpc_failed, failure_message,
  rcv_and_redirect_chunks,
}
use sdcc_project.Edge.Server.Redirection.{chunks, stopper, rcv_and_redirect_chunks-cache}

abbrev broken : List Event
broken = received (1 ∷ 2 ∷ []) ∷ cache_returned none ∷ received (3 ∷ []) ∷ stream_failed "lost" ∷ []

abbrev broken_end : Redirect
broken_end = record {
  is_file_cacheable = true;
  main_channel =
      record { body = 1 ∷ 2 ∷ []; failure = none }
      ∷ record { body = 3 ∷ []; failure = none }
      ∷ failure_message "lost"
      ∷ [];
  cache_channel =
      record { body = 1 ∷ 2 ∷ []; failure = none }
      ∷ record { body = 3 ∷ []; failure = none }
      ∷ failure_message "lost"
      ∷ [];
  main_channel_error = none;
  grpc_error = some "lost";
}

breaks : rcv_and_redirect_chunks true broken none ≡ some (some (grpc_failed "lost"), broken_end)
unfolding rcv_and_redirect_chunks
breaks = refl

rcv_and_redirect_chunks-cache_example : broken_end.cache_channel ≡ chunks broken ++ stopper broken
rcv_and_redirect_chunks-cache_example =
    rcv_and_redirect_chunks-cache broken none (some (grpc_failed "lost")) broken_end tt breaks

abbrev disk_of : Device
disk_of = record { creates = true; locks_new = true; refuses = λ i chunk. none; unlinks = true }
