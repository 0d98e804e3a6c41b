-- ===== src/Edge/Server/Download/Streams.antt =====
-- What one attempt sends to the client (edge/server/server_services.go, edge/server/stream_redirection.go).
use sdcc_project.Base.{
  ℕ, suc, ◌≡◌, refl, ◌∙◌, ap, sym, subst, String, Bool, List, [], ◌∷◌, Option, none, some, Outcome,
  ok, err, panic, deadlock, arith, All, ◌⊎◌, inl, inr, Option-cases,
}
use sdcc_project.Base.Int.{ℤ}
use sdcc_project.Edge.Channel.{Message}
use sdcc_project.Edge.Cache.Eviction.{is_file_cacheable}
use sdcc_project.Edge.S3.Upload.{IsSound}
use sdcc_project.Edge.Server.{redirect_stream_from, redirect_stream_to_client}
use sdcc_project.Edge.Server.OtherEdge.{Channels, download_from_other_edge}
use sdcc_project.Edge.Server.{
  Event, Redirect, failure_message, redirect_loop, redirect_result, rcv_and_redirect_chunks,
}
use sdcc_project.Edge.Server.Redirection.{outcome_of}
use sdcc_project.Edge.Server.Clean.{fresh, main_gets, chunks-IsSound, result-Clean}
use sdcc_project.Edge.Server.OtherEdge.Crash.{loop_failed}
use sdcc_project.Edge.Server.OtherEdge.{after_loop, after_call}
use sdcc_project.Edge.Server.Download.{Chunks, Attempt, Offer, redirected, send_from_other_edge}

-- The messages as chunks, numbered from `n`.
abbrev pub numbered : ℕ → List Message → Chunks
numbered n [] = []
numbered n (m ∷ ms) = (m.body, n) ∷ numbered (suc n) ms

pub stream_whole :
    (send : ℕ → Option String) (n : ℕ) (messages : List Message)
    → (redirect_stream_from send n messages).1 ≡ none
    → IsSound messages × ((redirect_stream_from send n messages).0 ≡ numbered n messages)
unfolding redirect_stream_from
stream_whole send n [] h = (tt, refl)
stream_whole send n (m ∷ ms) h = elim (Option-cases m.failure) [
  | inr (e, p) ↦ absurd (ground (arith, p))
  | inl p ↦ elim (Option-cases (send n)) [
    | inr (e, q) ↦ absurd (ground (arith, p, q))
    | inl q ↦
        let ih = stream_whole send (suc n) ms (ground (arith, p, q)) in
        ((p, ih.0), ground (arith, p, q, ih.1))
  ]
]

-- An attempt that has failed and sent nothing, if it has failed.
abbrev pub IsQuiet : Attempt → Type 0
IsQuiet (some (ok (chunks, some e))) = chunks ≡ []
IsQuiet _ = Unit

abbrev pub FromOffer : ℤ → Offer → List Message → Type 0
FromOffer max_size offer messages =
    (c : Channels) × (download_from_other_edge (is_file_cacheable max_size offer.file_size)
        offer.owner
      ≡ some (ok c))
    × (messages ≡ c.client_messages)

abbrev pub AllQuiet : ℤ → List Offer → Type 0
AllQuiet max_size = All (λ offer. IsQuiet (send_from_other_edge max_size offer))

-- No send to the client fails.
abbrev pub AllSent : List Offer → Type 0
AllSent = All (λ offer. (n : ℕ) → offer.send n ≡ none)

pub stream_total :
    (send : ℕ → Option String) (n : ℕ) (messages : List Message)
    → ((k : ℕ) → send k ≡ none)
    → IsSound messages
    → (redirect_stream_from send n messages).1 ≡ none
unfolding redirect_stream_from
stream_total send n [] f s = refl
stream_total send n (m ∷ ms) f s = ground (arith, s.0, f n, stream_total send (suc n) ms f s.1)

sent-IsQuiet : (p : Chunks × Option String) → (p.1 ≡ none) ⊎ (p.0 ≡ []) → IsQuiet (some (ok p))
sent-IsQuiet (chunks, none) h = tt
sent-IsQuiet (chunks, some e) (inl h) = absurd (ground arith)
sent-IsQuiet (chunks, some e) (inr h) = h

no_chunks :
    (send : ℕ → Option String) (e : String)
    → (redirect_stream_to_client send (failure_message e ∷ [])).0 ≡ []
unfolding redirect_stream_from
no_chunks send e = refl

-- What can arrive of an edge node that does not crash this one: an error alone, or chunks alone.
abbrev pub Arrives : Option (Outcome ⊥ Channels) → Type 0
Arrives (some (ok c)) =
    IsSound c.client_messages ⊎ ((e : String) × (c.client_messages ≡ failure_message e ∷ []))
Arrives _ = Unit

arrived_clean :
    (b : Bool) (close last : Option String) (r : Redirect)
    → redirect_result last r ≡ none
    → IsSound r.main_channel
    → Arrives (after_loop b close (outcome_of last (some r)))
arrived_clean b none last r p sound = rw p (inl sound)
arrived_clean b (some e) last r p sound = rw p tt

arrived :
    (close last : Option String) (b : Bool) (events : List Event) (o : Option Redirect)
    → redirect_loop events (fresh b) ≡ o
    → Arrives (after_loop b close (outcome_of last o))
arrived close last b events none h = tt
arrived close last b events (some r) h = elim (Option-cases (redirect_result last r)) [
  | inr (x, p) ↦ subst Arrives (sym (loop_failed b close last r x p)) tt
  | inl p ↦
      let main = (main_gets events (fresh b) r (result-Clean last r p).0 h).1 in
      arrived_clean b close last r p (subst IsSound (sym main) (chunks-IsSound events))
]

redirected-IsQuiet :
    (send : ℕ → Option String) (o : Option (Outcome ⊥ Channels))
    → ((k : ℕ) → send k ≡ none)
    → Arrives o
    → IsQuiet (redirected send o)
redirected-IsQuiet send none f a = tt
redirected-IsQuiet send (some (err e)) f a = absurd e
redirected-IsQuiet send (some panic) f a = tt
redirected-IsQuiet send (some deadlock) f a = tt
redirected-IsQuiet send (some (ok c)) f (inl sound) =
    sent-IsQuiet (redirect_stream_to_client send c.client_messages)
      (inl (stream_total send 0 c.client_messages f sound))
redirected-IsQuiet send (some (ok c)) f (inr (e, h)) =
    sent-IsQuiet (redirect_stream_to_client send c.client_messages)
      (inr (ap (λ ms. (redirect_stream_to_client send ms).0) h ∙ no_chunks send e))

owner-Arrives :
    (b : Bool) (dial call close last : Option String) (events : List Event)
    → Arrives (
        after_call b dial call
          (after_loop b close (outcome_of last (redirect_loop events (fresh b)))))
owner-Arrives b (some e) call close last events = inr (e, refl)
owner-Arrives b none (some e) close last events = inr (e, refl)
owner-Arrives b none none close last events =
    arrived close last b events (redirect_loop events (fresh b)) refl

pub attempt-IsQuiet :
    (max_size : ℤ) (offer : Offer)
    → ((n : ℕ) → offer.send n ≡ none)
    → IsQuiet (send_from_other_edge max_size offer)
unfolding send_from_other_edge download_from_other_edge rcv_and_redirect_chunks
attempt-IsQuiet max_size offer f =
    let b = is_file_cacheable max_size offer.file_size in
    let owner = offer.owner in
    redirected-IsQuiet offer.send
      (after_call b owner.dial owner.download_from_edge (
        after_loop b owner.close_send
          (outcome_of owner.last (redirect_loop owner.events (fresh b)))))
      f
      (owner-Arrives b owner.dial owner.download_from_edge owner.close_send owner.last owner.events)

pub offers-AllQuiet :
    (max_size : ℤ) (offers : List Offer) → AllSent offers → AllQuiet max_size offers
offers-AllQuiet max_size [] h = tt
offers-AllQuiet max_size (offer ∷ rest) h =
    (attempt-IsQuiet max_size offer h.0, offers-AllQuiet max_size rest h.1)
