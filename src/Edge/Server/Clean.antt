-- ===== src/Edge/Server/Clean.antt =====
-- A redirection that ends with no error (edge/server/stream_redirection.go).
use mathlib.Core.List.{append_assoc, append-nil}
use mathlib.Core.Option.{some-injective}
use sdcc_project.Base.{
  ◌≡◌, refl, ◌∙◌, ap, sym, String, Bool, false, List, [], ◌∷◌, ◌++◌, Option, none, some, arith,
  Bool-cases, Option-cases, inl, inr,
}
use sdcc_project.Edge.Channel.{Message}
use sdcc_project.Edge.S3.Upload.{IsSound}
use sdcc_project.Edge.Server.{
  Event, main_returned, cache_returned, received, stream_ended, stream_failed, Redirect,
  redirect_result, to_both, redirect_loop,
}
use sdcc_project.Edge.Server.Redirection.{chunks, stopper}

both_main : (m : Message) (r : Redirect) → (to_both m r).main_channel ≡ r.main_channel ++ (m ∷ [])
both_main m r = elim (Bool-cases r.is_file_cacheable) [ inl c ↦ rw c refl | inr n ↦ rw n refl ]

abbrev pub fresh : Bool → Redirect
fresh b = record {
  is_file_cacheable = b;
  main_channel = [];
  cache_channel = [];
  main_channel_error = none;
  grpc_error = none;
}

-- The loop has ended with no error.
pub record Clean (r : Redirect) : Type 0 where
  pub main_clean : r.main_channel_error ≡ none
  pub grpc_clean : r.grpc_error ≡ none

pub main_gets :
    (events : List Event) (r r' : Redirect)
    → Clean r'
    → redirect_loop events r ≡ some r'
    → (stopper events ≡ []) × (r'.main_channel ≡ r.main_channel ++ chunks events)
unfolding redirect_loop
main_gets [] r r' c e = absurd (ground arith)
main_gets (main_returned none ∷ later) r r' c e =
    main_gets later (record r { main_channel_error = none }) r' c e
main_gets (main_returned (some x) ∷ later) r r' c e = absurd (ground (arith, c.main_clean))
main_gets (cache_returned none ∷ later) r r' c e = main_gets later r r' c e
main_gets (cache_returned (some x) ∷ later) r r' c e =
    main_gets later (record r { is_file_cacheable = false }) r' c e
main_gets (received chunk ∷ later) r r' c e =
    let m : Message = record { body = chunk; failure = none } in
    let ih = main_gets later (to_both m r) r' c e in
    (
      ih.0,
      ih.1
          ∙ ap (λ l. l ++ chunks later) (both_main m r)
          ∙ append_assoc r.main_channel (m ∷ []) (chunks later),
    )
main_gets (stream_ended ∷ later) r r' c e =
    (refl, ap (λ x. x.main_channel) (sym (some-injective _ _ e)) ∙ sym (append-nil r.main_channel))
main_gets (stream_failed x ∷ later) r r' c e = absurd (ground (arith, c.grpc_clean))

pub chunks-IsSound : (events : List Event) → IsSound (chunks events)
chunks-IsSound [] = tt
chunks-IsSound (received chunk ∷ later) = (refl, chunks-IsSound later)
chunks-IsSound (main_returned none ∷ later) = chunks-IsSound later
chunks-IsSound (main_returned (some e) ∷ later) = tt
chunks-IsSound (cache_returned e ∷ later) = chunks-IsSound later
chunks-IsSound (stream_ended ∷ later) = tt
chunks-IsSound (stream_failed e ∷ later) = tt

pub result-Clean :
    (last : Option String) (r : Redirect) → redirect_result last r ≡ none → Clean r × (last ≡ none)
unfolding redirect_result
result-Clean last r h = elim (Option-cases r.grpc_error) [
  | inr (e, p) ↦ absurd (ground (arith, p))
  | inl p ↦ elim (Option-cases r.main_channel_error) [
    | inr (e, q) ↦ absurd (ground (arith, p, q))
    | inl q ↦ (record { main_clean = q; grpc_clean = p }, ground (arith, p, q))
  ]
]
