-- ===== src/Edge/Server/Redirection.antt =====
-- What the two channels get from `rcvAndRedirectChunks` (edge/server/stream_redirection.go).
use mathlib.Core.List.{append_assoc, append-nil}
use mathlib.Core.Option.{some-injective}
use sdcc_project.Edge.Server.{rcv_and_redirect_chunks, redirect_result, RedirectError}
use sdcc_project.Base.{
  ◌≡◌, refl, ◌∙◌, ap, sym, String, true, List, [], ◌∷◌, ◌++◌, Option, none, some, arith,
}
use sdcc_project.Edge.Channel.{Message}
use sdcc_project.Edge.Server.{
  Event, main_returned, cache_returned, received, stream_ended, stream_failed, Redirect,
  failure_message, to_both, redirect_loop,
}

-- The chunks that arrive before the loop ends, as messages.
abbrev pub chunks : List Event → List Message
chunks [] = []
chunks (received chunk ∷ later) = record { body = chunk; failure = none } ∷ chunks later
chunks (main_returned none ∷ later) = chunks later
chunks (cache_returned e ∷ later) = chunks later
chunks _ = []

-- The error that ends the loop, if one does.
abbrev pub stopper : List Event → List Message
stopper [] = []
stopper (received chunk ∷ later) = stopper later
stopper (main_returned none ∷ later) = stopper later
stopper (main_returned (some e) ∷ later) = failure_message e ∷ []
stopper (cache_returned e ∷ later) = stopper later
stopper (stream_ended ∷ later) = []
stopper (stream_failed e ∷ later) = failure_message e ∷ []

-- The cache does not complain.
abbrev pub Quiet : List Event → Type 0
Quiet [] = Unit
Quiet (cache_returned (some e) ∷ later) = ⊥
Quiet (_ ∷ later) = Quiet later

both_cacheable :
    (m : Message) (r : Redirect)
    → r.is_file_cacheable ≡ true
    → (to_both m r).is_file_cacheable ≡ true
both_cacheable m r c = rw c refl

both_cache :
    (m : Message) (r : Redirect)
    → r.is_file_cacheable ≡ true
    → (to_both m r).cache_channel ≡ r.cache_channel ++ (m ∷ [])
both_cache m r c = rw c refl

cache_gets :
    (events : List Event) (r r' : Redirect)
    → r.is_file_cacheable ≡ true
    → Quiet events
    → redirect_loop events r ≡ some r'
    → r'.cache_channel ≡ r.cache_channel ++ (chunks events ++ stopper events)
unfolding redirect_loop
cache_gets [] r r' c q e = absurd (ground arith)
cache_gets (main_returned none ∷ later) r r' c q e =
    cache_gets later (record r { main_channel_error = none }) r' c q e
cache_gets (main_returned (some x) ∷ later) r r' c q e =
    ap (λ x. x.cache_channel) (sym (some-injective _ _ e))
cache_gets (cache_returned none ∷ later) r r' c q e = cache_gets later r r' c q e
cache_gets (cache_returned (some x) ∷ later) r r' c q e = absurd q
cache_gets (received chunk ∷ later) r r' c q e =
    let m : Message = record { body = chunk; failure = none } in
    cache_gets later (to_both m r) r' (both_cacheable m r c) q e
    ∙ ap (λ l. l ++ (chunks later ++ stopper later)) (both_cache m r c)
    ∙ append_assoc r.cache_channel (m ∷ []) (chunks later ++ stopper later)
cache_gets (stream_ended ∷ later) r r' c q e =
    ap (λ x. x.cache_channel) (sym (some-injective _ _ e)) ∙ sym (append-nil r.cache_channel)
cache_gets (stream_failed x ∷ later) r r' c q e =
    ap (λ x. x.cache_channel) (sym (some-injective _ _ e)) ∙ both_cache (failure_message x) r c

abbrev pub outcome_of : Option String → Option Redirect → Option (Option RedirectError × Redirect)
outcome_of last none = none
outcome_of last (some r) = some (redirect_result last r, r)

pub redirect_of :
    (last : Option String) (o : Option Redirect) (result : Option RedirectError) (r : Redirect)
    → outcome_of last o ≡ some (result, r)
    → o ≡ some r
redirect_of last none result r e = absurd (ground arith)
redirect_of last (some x) result r e = ap (λ p. some p.1) (some-injective _ _ e)

-- If the file is cacheable and the cache does not complain, then a redirection that ends has sent to the cache every chunk
-- that arrived, in order, and after them the error that ended the loop, if one did.
pub rcv_and_redirect_chunks-cache :
    (events : List Event) (last : Option String) (result : Option RedirectError) (r : Redirect)
    → Quiet events
    → rcv_and_redirect_chunks true events last ≡ some (result, r)
    → r.cache_channel ≡ chunks events ++ stopper events
unfolding rcv_and_redirect_chunks
rcv_and_redirect_chunks-cache events last result r q e =
    let fresh : Redirect = record {
      is_file_cacheable = true;
      main_channel = [];
      cache_channel = [];
      main_channel_error = none;
      grpc_error = none;
    } in
    cache_gets events fresh r refl q (redirect_of last (redirect_loop events fresh) result r e)
