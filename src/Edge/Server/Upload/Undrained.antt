-- ===== src/Edge/Server/Upload/Undrained.antt =====
-- An upload whose cache channel nobody reads (edge/server/server_services.go, edge/server/stream_redirection.go): InsertFileInCache
-- returns without reading it if the file is cached already or no space can be freed. A send on a full channel waits
-- forever. The main channel is read.
use sdcc_project.Base.{
  ℕ, suc, ◌+◌, ◌<◌, ◌≤◌, ◌≡◌, refl, ◌∙◌, true, false, List, [], ◌∷◌, ◌++◌, Option, none, some, ltb,
  ltb→lt, length, arith, if◌then◌else◌, length-append, Bool-cases, inl, inr,
}
use sdcc_project.Edge.Channel.{Message}
use sdcc_project.Edge.Server.{
  Event, main_returned, cache_returned, received, stream_ended, stream_failed, Redirect,
  failure_message, to_cache, to_both, redirect_loop,
}
use sdcc_project.Edge.Server.Clean.{fresh}
use sdcc_project.Edge.Server.Redirection.{chunks, stopper, Quiet}

pub data Undrained : Type 0 where
  waits : Undrained
  blocked : Undrained
  ends : Redirect → Undrained

-- A send to the cache, if there is room.
abbrev pub cache_send : ℕ → Redirect → Undrained → Undrained
cache_send capacity r sent =
    if r.is_file_cacheable
    then (if ltb (length r.cache_channel) capacity then sent else blocked)
    else sent

-- `rcvAndRedirectChunks` up to the end of its loop.
unfoldable pub undrained_loop : ℕ → List Event → Redirect → Undrained
undrained_loop capacity [] r = waits
undrained_loop capacity (main_returned none ∷ later) r =
    undrained_loop capacity later (record r { main_channel_error = none })
undrained_loop capacity (main_returned (some e) ∷ later) r =
    if ltb (length r.cache_channel) capacity
    then ends (to_cache (failure_message e) (record r { main_channel_error = some e }))
    else blocked
undrained_loop capacity (cache_returned none ∷ later) r = undrained_loop capacity later r
undrained_loop capacity (cache_returned (some e) ∷ later) r =
    undrained_loop capacity later (record r { is_file_cacheable = false })
undrained_loop capacity (received chunk ∷ later) r =
    let m : Message = record { body = chunk; failure = none } in
    cache_send capacity r (undrained_loop capacity later (to_both m r))
undrained_loop capacity (stream_ended ∷ later) r = ends r
undrained_loop capacity (stream_failed e ∷ later) r =
    cache_send capacity r (ends (record (to_both (failure_message e) r) { grpc_error = some e }))

abbrev pub unbounded : Option Redirect → Undrained
unbounded none = waits
unbounded (some r) = ends r

-- What the cache would be sent.
abbrev pub demand : List Event → ℕ
demand events = length (chunks events ++ stopper events)

longer :
    (m : Message) (r : Redirect)
    → r.is_file_cacheable ≡ true
    → length (to_both m r).cache_channel ≡ suc (length r.cache_channel)
longer m r c = rw c (omega (arith, length-append r.cache_channel (m ∷ [])))

still_cacheable :
    (m : Message) (r : Redirect)
    → r.is_file_cacheable ≡ true
    → (to_both m r).is_file_cacheable ≡ true
still_cacheable m r c = rw c refl

send_room :
    (capacity : ℕ) (r : Redirect) (sent : Undrained)
    → length r.cache_channel < capacity
    → cache_send capacity r sent ≡ sent
send_room capacity r sent h = ground arith

send_full :
    (capacity : ℕ) (r : Redirect) (sent : Undrained)
    → r.is_file_cacheable ≡ true
    → capacity ≤ length r.cache_channel
    → cache_send capacity r sent ≡ blocked
send_full capacity r sent c h = ground (arith, c)

fits :
    (capacity : ℕ) (events : List Event) (r : Redirect)
    → r.is_file_cacheable ≡ true
    → Quiet events
    → length r.cache_channel + demand events ≤ capacity
    → undrained_loop capacity events r ≡ unbounded (redirect_loop events r)
unfolding undrained_loop redirect_loop
fits capacity [] r c q h = refl
fits capacity (main_returned none ∷ later) r c q h =
    fits capacity later (record r { main_channel_error = none }) c q h
fits capacity (main_returned (some x) ∷ later) r c q h = ground arith
fits capacity (cache_returned none ∷ later) r c q h = fits capacity later r c q h
fits capacity (cache_returned (some x) ∷ later) r c q h = absurd q
fits capacity (received chunk ∷ later) r c q h =
    let m : Message = record { body = chunk; failure = none } in
    send_room capacity r (undrained_loop capacity later (to_both m r)) (omega arith)
    ∙ fits capacity later (to_both m r) (still_cacheable m r c) q (omega (arith, longer m r c))
fits capacity (stream_ended ∷ later) r c q h = refl
fits capacity (stream_failed x ∷ later) r c q h = send_room capacity r _ (omega arith)

full :
    (capacity : ℕ) (events : List Event) (r : Redirect)
    → r.is_file_cacheable ≡ true
    → Quiet events
    → length r.cache_channel ≤ capacity
    → capacity < length r.cache_channel + demand events
    → undrained_loop capacity events r ≡ blocked
unfolding undrained_loop
full capacity [] r c q l h = absurd (omega arith)
full capacity (main_returned none ∷ later) r c q l h =
    full capacity later (record r { main_channel_error = none }) c q l h
full capacity (main_returned (some x) ∷ later) r c q l h = ground arith
full capacity (cache_returned none ∷ later) r c q l h = full capacity later r c q l h
full capacity (cache_returned (some x) ∷ later) r c q l h = absurd q
full capacity (received chunk ∷ later) r c q l h =
    let m : Message = record { body = chunk; failure = none } in
    elim (Bool-cases (ltb (length r.cache_channel) capacity)) [
      | inl room ↦
          send_room capacity r (undrained_loop capacity later (to_both m r)) (ltb→lt _ _ room)
          ∙ full capacity later (to_both m r) (still_cacheable m r c) q
              (omega (arith, longer m r c, ltb→lt _ _ room)) (omega (arith, longer m r c))
      | inr none_left ↦
          send_full capacity r (undrained_loop capacity later (to_both m r)) c (ground arith)
    ]
full capacity (stream_ended ∷ later) r c q l h = absurd (omega arith)
full capacity (stream_failed x ∷ later) r c q l h = send_full capacity r _ c (omega arith)

-- If the file is cacheable and nobody reads the cache channel, the loop ends as the loop over channels without bounds does as
-- long as the chunks and the final error, if there is one, fit into the channel; if they do not, it waits forever.
pub undrained_loop-blocked :
    (capacity : ℕ) (events : List Event)
    → Quiet events
    → (demand events ≤ capacity
        → undrained_loop capacity events (fresh true)
          ≡ unbounded (redirect_loop events (fresh true)))
      × (capacity < demand events → undrained_loop capacity events (fresh true) ≡ blocked)
undrained_loop-blocked capacity events q = (
  λ h. fits capacity events (fresh true) refl q (omega arith),
  λ h. full capacity events (fresh true) refl q (omega arith) (omega arith),
)
