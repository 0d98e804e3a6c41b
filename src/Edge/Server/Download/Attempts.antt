-- ===== src/Edge/Server/Download/Attempts.antt =====
-- The attempts with other edge nodes, one after the other (edge/server/server_services.go).
use mathlib.Core.List.{append_assoc}
use sdcc_project.Base.{
  ℕ, ◌≡◌, refl, ◌∙◌, ap, sym, subst, String, true, false, List, [], ◌∷◌, ◌++◌, Option, none, some,
  Outcome, ok, err, panic, deadlock, arith, In, inl, inr, ◌⊎◌,
}
use sdcc_project.Base.Int.{ℤ}
use sdcc_project.Edge.Channel.{Message}
use sdcc_project.Edge.Cache.Eviction.{is_file_cacheable}
use sdcc_project.Edge.S3.Upload.{IsSound}
use sdcc_project.Edge.Server.{redirect_stream_to_client}
use sdcc_project.Edge.Server.OtherEdge.{Channels, download_from_other_edge}
use sdcc_project.Edge.Server.Download.{
  Chunks, Attempt, Offer, redirected, send_from_other_edge, Tries, after_attempt,
  try_to_send_from_other_edge,
}
use sdcc_project.Edge.Server.Download.Streams.{
  numbered, stream_whole, IsQuiet, FromOffer, AllQuiet, AllSent, attempt-IsQuiet,
}

-- What the first few attempts have sent, which have all failed.
abbrev pub FailedFirst : ℤ → List Offer → Chunks → Type 0
FailedFirst max_size [] before = before ≡ []
FailedFirst max_size (offer ∷ rest) before =
    (before ≡ [])
    ⊎ ((spoiled : Chunks) × (e : String) × (later : Chunks) × (send_from_other_edge max_size offer
          ≡ some (ok (spoiled, some e)))
        × (before ≡ spoiled ++ later)
        × FailedFirst max_size rest later)

pub none_failed : (max_size : ℤ) (offers : List Offer) → FailedFirst max_size offers []
none_failed max_size [] = refl
none_failed max_size (offer ∷ rest) = inl refl

-- The client has, behind what failed attempts have sent, all of one stream; nothing is before it if no send to
-- the client has failed.
abbrev pub Delivers : ℤ → List Offer → (List Message → Type 0) → Chunks → Type 0
Delivers max_size offers IsSource chunks =
    (before : Chunks) × (messages : List Message) × (chunks ≡ before ++ numbered 0 messages)
    × IsSound messages
    × IsSource messages
    × FailedFirst max_size offers before
    × (AllSent offers → before ≡ [])

pub attempt_whole :
    (send : ℕ → Option String) (o : Option (Outcome ⊥ Channels)) (chunks : Chunks)
    → redirected send o ≡ some (ok (chunks, none))
    → (c : Channels) × (o ≡ some (ok c))
      × IsSound c.client_messages
      × (chunks ≡ numbered 0 c.client_messages)
attempt_whole send none chunks h = absurd (ground arith)
attempt_whole send (some (err e)) chunks h = absurd e
attempt_whole send (some panic) chunks h = absurd (ground arith)
attempt_whole send (some deadlock) chunks h = absurd (ground arith)
attempt_whole send (some (ok c)) chunks h =
    let s = redirect_stream_to_client send c.client_messages in
    let (sound, whole) = stream_whole send 0 c.client_messages (ground arith) in
    (c, refl, sound, ground (arith, whole))

-- The source of a successful attempt.
abbrev pub FromOne : ℤ → List Offer → List Message → Type 0
FromOne max_size offers messages =
    (offer : Offer) × In offer offers × FromOffer max_size offer messages

module _ (max_size : ℤ) (offer : Offer) (rest : List Offer) where
  found_here :
      (chunks : Chunks)
      → send_from_other_edge max_size offer ≡ some (ok (chunks, none))
      → Delivers max_size (offer ∷ rest) (FromOne max_size (offer ∷ rest)) chunks
  unfolding send_from_other_edge
  found_here chunks h =
      let (c, from, sound, whole) =
        attempt_whole offer.send
          (download_from_other_edge (is_file_cacheable max_size offer.file_size) offer.owner) chunks
          h in
      ([], c.client_messages, whole, sound, (offer, inl refl, (c, from, refl)), inl refl, λ q. refl)

  found_later :
      (spoiled later : Chunks) (e : String)
      → send_from_other_edge max_size offer ≡ some (ok (spoiled, some e))
      → Delivers max_size rest (FromOne max_size rest) later
      → Delivers max_size (offer ∷ rest) (FromOne max_size (offer ∷ rest)) (spoiled ++ later)
  found_later spoiled later e h (before, messages, whole, sound, (o, k, from), failed, quiet) = (
    spoiled ++ before,
    messages,
    ap (λ l. spoiled ++ l) whole ∙ sym (append_assoc spoiled before (numbered 0 messages)),
    sound,
    (o, inr k, from),
    inr (spoiled, e, before, h, refl, failed),
    λ q.
        let none_here : spoiled ≡ [] = subst IsQuiet h (attempt-IsQuiet max_size offer q.0) in
        rw (none_here, quiet q.1) refl,
  )

  try_step :
      (attempt : Attempt) (tries : Tries) (chunks : Chunks)
      → send_from_other_edge max_size offer ≡ attempt
      → ((later : Chunks)
          → tries ≡ some (ok (later, true))
          → Delivers max_size rest (FromOne max_size rest) later)
      → after_attempt attempt tries ≡ some (ok (chunks, true))
      → Delivers max_size (offer ∷ rest) (FromOne max_size (offer ∷ rest)) chunks
  try_step none tries chunks a ih h = absurd (ground arith)
  try_step (some (err e)) tries chunks a ih h = absurd e
  try_step (some panic) tries chunks a ih h = absurd (ground arith)
  try_step (some deadlock) tries chunks a ih h = absurd (ground arith)
  try_step (some (ok (sent, none))) tries chunks a ih h = found_here chunks (a ∙ ground arith)
  try_step (some (ok (sent, some e))) none chunks a ih h = absurd (ground arith)
  try_step (some (ok (sent, some e))) (some (err x)) chunks a ih h = absurd x
  try_step (some (ok (sent, some e))) (some panic) chunks a ih h = absurd (ground arith)
  try_step (some (ok (sent, some e))) (some deadlock) chunks a ih h = absurd (ground arith)
  try_step (some (ok (sent, some e))) (some (ok (later, found))) chunks a ih h =
      let same : sent ++ later ≡ chunks = ground arith in
      subst (Delivers max_size (offer ∷ rest) (FromOne max_size (offer ∷ rest))) same
        (found_later sent later e a (ih later (ground arith)))

pub try_whole :
    (max_size : ℤ) (offers : List Offer) (chunks : Chunks)
    → try_to_send_from_other_edge max_size offers ≡ some (ok (chunks, true))
    → Delivers max_size offers (FromOne max_size offers) chunks
unfolding try_to_send_from_other_edge
try_whole max_size [] chunks h = absurd (ground arith)
try_whole max_size (offer ∷ rest) chunks h =
    try_step max_size offer rest (send_from_other_edge max_size offer)
      (try_to_send_from_other_edge max_size rest) chunks refl (try_whole max_size rest) h

fail_step :
    (attempt : Attempt) (tries : Tries) (chunks : Chunks)
    → IsQuiet attempt
    → ((later : Chunks) → tries ≡ some (ok (later, false)) → later ≡ [])
    → after_attempt attempt tries ≡ some (ok (chunks, false))
    → chunks ≡ []
fail_step none tries chunks q ih h = absurd (ground arith)
fail_step (some (err e)) tries chunks q ih h = absurd e
fail_step (some panic) tries chunks q ih h = absurd (ground arith)
fail_step (some deadlock) tries chunks q ih h = absurd (ground arith)
fail_step (some (ok (sent, none))) tries chunks q ih h = absurd (ground arith)
fail_step (some (ok (sent, some e))) none chunks q ih h = absurd (ground arith)
fail_step (some (ok (sent, some e))) (some (err x)) chunks q ih h = absurd x
fail_step (some (ok (sent, some e))) (some panic) chunks q ih h = absurd (ground arith)
fail_step (some (ok (sent, some e))) (some deadlock) chunks q ih h = absurd (ground arith)
fail_step (some (ok (sent, some e))) (some (ok (later, found))) chunks q ih h =
    let none_later : later ≡ [] = ih later (ground arith) in
    let same : sent ++ later ≡ chunks = ground arith in
    sym same ∙ ap (λ l. l ++ later) q ∙ none_later

pub try_fails :
    (max_size : ℤ) (offers : List Offer) (chunks : Chunks)
    → AllQuiet max_size offers
    → try_to_send_from_other_edge max_size offers ≡ some (ok (chunks, false))
    → chunks ≡ []
unfolding try_to_send_from_other_edge
try_fails max_size [] chunks q h = ground arith
try_fails max_size (offer ∷ rest) chunks q h =
    fail_step (send_from_other_edge max_size offer) (try_to_send_from_other_edge max_size rest)
      chunks q.0 (λ later k. try_fails max_size rest later q.1 k) h

-- All attempts have failed.
all_step :
    (max_size : ℤ) (offer : Offer) (rest : List Offer) (attempt : Attempt) (tries : Tries)
    (chunks : Chunks)
    → send_from_other_edge max_size offer ≡ attempt
    → ((later : Chunks) → tries ≡ some (ok (later, false)) → FailedFirst max_size rest later)
    → after_attempt attempt tries ≡ some (ok (chunks, false))
    → FailedFirst max_size (offer ∷ rest) chunks
all_step max_size offer rest none tries chunks a ih h = absurd (ground arith)
all_step max_size offer rest (some (err e)) tries chunks a ih h = absurd e
all_step max_size offer rest (some panic) tries chunks a ih h = absurd (ground arith)
all_step max_size offer rest (some deadlock) tries chunks a ih h = absurd (ground arith)
all_step max_size offer rest (some (ok (sent, none))) tries chunks a ih h = absurd (ground arith)
all_step max_size offer rest (some (ok (sent, some e))) none chunks a ih h = absurd (ground arith)
all_step max_size offer rest (some (ok (sent, some e))) (some (err x)) chunks a ih h = absurd x
all_step max_size offer rest (some (ok (sent, some e))) (some panic) chunks a ih h =
    absurd (ground arith)
all_step max_size offer rest (some (ok (sent, some e))) (some deadlock) chunks a ih h =
    absurd (ground arith)
all_step max_size offer rest (some (ok (sent, some e))) (some (ok (later, found))) chunks a ih h =
    let same : sent ++ later ≡ chunks = ground arith in
    inr (sent, e, later, a, sym same, ih later (ground arith))

pub all_failed :
    (max_size : ℤ) (offers : List Offer) (chunks : Chunks)
    → try_to_send_from_other_edge max_size offers ≡ some (ok (chunks, false))
    → FailedFirst max_size offers chunks
unfolding try_to_send_from_other_edge
all_failed max_size [] chunks h = ground arith
all_failed max_size (offer ∷ rest) chunks h =
    all_step max_size offer rest (send_from_other_edge max_size offer)
      (try_to_send_from_other_edge max_size rest) chunks refl (all_failed max_size rest) h
