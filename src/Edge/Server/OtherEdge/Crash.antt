-- ===== src/Edge/Server/OtherEdge/Crash.antt =====
-- An error in a download from another edge ends the edge node (edge/server/server_services.go).
use sdcc_project.Base.{
  ◌≡◌, refl, sym, ◌∙◌, ap, String, Bool, false, List, [], ◌∷◌, Option, none, some, ok, panic, arith,
  Option-cases, inl, inr, ◌⊎◌, Bool-cases,
}
use sdcc_project.Edge.Channel.{Message}
use sdcc_project.Edge.Server.{
  Event, main_returned, cache_returned, received, stream_ended, stream_failed, Redirect,
  RedirectError, grpc_failed, main_channel_failed, failure_message, to_both, redirect_loop,
  redirect_result, rcv_and_redirect_chunks,
}
use sdcc_project.Edge.Server.Redirection.{chunks, stopper, outcome_of}
use sdcc_project.Edge.Server.Clean.{fresh, main_gets, result-Clean}
use sdcc_project.Edge.Server.OtherEdge.{
  OwnerEdge, Channels, after_loop, after_call, download_from_other_edge,
}

still_none :
    (m : Message) (r : Redirect)
    → r.main_channel_error ≡ none
    → (to_both m r).main_channel_error ≡ none
still_none m r h = elim (Bool-cases r.is_file_cacheable) [ inl c ↦ rw c h | inr n ↦ rw n h ]

-- A loop that an error ends, ends with that error.
stopped :
    (events : List Event) (r : Redirect) (e : String)
    → r.main_channel_error ≡ none
    → stopper events ≡ failure_message e ∷ []
    → (r' : Redirect) × (redirect_loop events r ≡ some r')
      × ((r'.grpc_error ≡ some e) ⊎ (r'.main_channel_error ≡ some e))
unfolding redirect_loop
stopped [] r e m h = absurd (ground arith)
stopped (main_returned none ∷ later) r e m h =
    stopped later (record r { main_channel_error = none }) e refl h
stopped (main_returned (some x) ∷ later) r e m h = (_, refl, inr (ground arith))
stopped (cache_returned none ∷ later) r e m h = stopped later r e m h
stopped (cache_returned (some x) ∷ later) r e m h =
    stopped later (record r { is_file_cacheable = false }) e m h
stopped (received chunk ∷ later) r e m h =
    stopped later (to_both (record { body = chunk; failure = none }) r) e (still_none _ r m) h
stopped (stream_ended ∷ later) r e m h = absurd (ground arith)
stopped (stream_failed x ∷ later) r e m h = (_, refl, inl (ground arith))

failing_result :
    (last : Option String) (r : Redirect) (e : String)
    → (r.grpc_error ≡ some e) ⊎ (r.main_channel_error ≡ some e)
    → (x : RedirectError) × (redirect_result last r ≡ some x)
unfolding redirect_result
failing_result last r e (inl h) = (grpc_failed e, rw h refl)
failing_result last r e (inr h) = elim (Option-cases r.grpc_error) [
  | inr (g, p) ↦ (grpc_failed g, rw p refl)
  | inl p ↦ (main_channel_failed e, rw (p, h) refl)
]

reached :
    (b : Bool) (owner : OwnerEdge)
    → owner.dial ≡ none
    → owner.download_from_edge ≡ none
    → download_from_other_edge b owner
      ≡ after_loop b owner.close_send (outcome_of owner.last (redirect_loop owner.events (fresh b)))
unfolding download_from_other_edge rcv_and_redirect_chunks
reached b owner d c =
    let loop =
      after_loop b owner.close_send
        (outcome_of owner.last (redirect_loop owner.events (fresh b))) in
    ap (λ x. after_call b x owner.download_from_edge loop) d ∙ ap (λ x. after_call b none x loop) c

pub loop_failed :
    (b : Bool) (close : Option String) (last : Option String) (r : Redirect) (x : RedirectError)
    → redirect_result last r ≡ some x
    → after_loop b close (outcome_of last (some r)) ≡ some panic
loop_failed b close last r (grpc_failed e) h = rw h refl
loop_failed b close last r (main_channel_failed e) h = rw h refl

panics :
    (b : Bool) (owner : OwnerEdge) (e : String)
    → owner.dial ≡ none
    → owner.download_from_edge ≡ none
    → stopper owner.events ≡ failure_message e ∷ []
    → download_from_other_edge b owner ≡ some panic
panics b owner e d c h =
    let (r, run, failed) = stopped owner.events (fresh b) e refl h in
    let (x, result) = failing_result owner.last r e failed in
    reached b owner d c
    ∙ ap (λ o. after_loop b owner.close_send (outcome_of owner.last o)) run
    ∙ loop_failed b owner.close_send owner.last r x result

loop_clean :
    (b : Bool) (close last : Option String) (r : Redirect) (c : Channels)
    → redirect_result last r ≡ none
    → after_loop b close (outcome_of last (some r)) ≡ some (ok c)
    → (close ≡ none) × (c.client_messages ≡ r.main_channel)
loop_clean b none last r c p h = (refl, ground (arith, p))
loop_clean b (some e) last r c p h = absurd (ground (arith, p))

sent_chunks :
    (b : Bool) (events : List Event) (last close : Option String) (o : Option Redirect)
    (c : Channels)
    → redirect_loop events (fresh b) ≡ o
    → after_loop b close (outcome_of last o) ≡ some (ok c)
    → (stopper events ≡ []) × (last ≡ none) × (close ≡ none) × (c.client_messages ≡ chunks events)
sent_chunks b events last close none c run h = absurd (ground arith)
sent_chunks b events last close (some r) c run h = elim (Option-cases (redirect_result last r)) [
  | inr (x, p) ↦ absurd (ground (arith, loop_failed b close last r x p, h))
  | inl p ↦
      let (clean, last_none) = result-Clean last r p in
      let (no_stopper, main) = main_gets events (fresh b) r clean run in
      let (closed, same) = loop_clean b close last r c p h in
      (no_stopper, last_none, closed, same ∙ main)
]

-- The last answer of the main channel is an error.
failing_last :
    (last : Option String) (r : Redirect) (e : String)
    → last ≡ some e
    → (x : RedirectError) × (redirect_result last r ≡ some x)
unfolding redirect_result
failing_last last r e h = elim (Option-cases r.grpc_error) [
  | inr (g, p) ↦ (grpc_failed g, rw p refl)
  | inl p ↦ elim (Option-cases r.main_channel_error) [
    | inr (m, q) ↦ (main_channel_failed m, rw (p, q) refl)
    | inl q ↦ (main_channel_failed e, rw (p, q, h) refl)
  ]
]

last_panics :
    (b : Bool) (owner : OwnerEdge) (e : String) (r : Redirect)
    → owner.dial ≡ none
    → owner.download_from_edge ≡ none
    → redirect_loop owner.events (fresh b) ≡ some r
    → owner.last ≡ some e
    → download_from_other_edge b owner ≡ some panic
last_panics b owner e r d c run h =
    let (x, result) = failing_last owner.last r e h in
    reached b owner d c
    ∙ ap (λ o. after_loop b owner.close_send (outcome_of owner.last o)) run
    ∙ loop_failed b owner.close_send owner.last r x result

-- Over channels that have room for all that is sent: if the other edge is reached and the loop is ended by an error of its
-- stream or of the stream to the client, or the loop ends and the last answer of the stream to the client is an error, then
-- the download panics, since the error is sent on the channels that rcvAndRedirectChunks has closed. If the download ends
-- and has reached the other edge, then no stream has failed, CloseSend neither, and the client's channel got the chunks of
-- the other edge, in order.
pub download_from_other_edge_panics :
    (b : Bool) (owner : OwnerEdge)
    → owner.dial ≡ none
    → owner.download_from_edge ≡ none
    → ((e : String)
        → stopper owner.events ≡ failure_message e ∷ []
        → download_from_other_edge b owner ≡ some panic)
      × ((e : String) (r : Redirect)
          → redirect_loop owner.events (fresh b) ≡ some r
          → owner.last ≡ some e
          → download_from_other_edge b owner ≡ some panic)
      × ((c : Channels)
          → download_from_other_edge b owner ≡ some (ok c)
          → (stopper owner.events ≡ [])
            × (owner.last ≡ none)
            × (owner.close_send ≡ none)
            × (c.client_messages ≡ chunks owner.events))
download_from_other_edge_panics b owner d k = (
  λ e h. panics b owner e d k h,
  λ e r run h. last_panics b owner e r d k run h,
  λ c h.
      sent_chunks b owner.events owner.last owner.close_send (redirect_loop owner.events (fresh b))
        c refl (sym (reached b owner d k) ∙ h),
)
