-- ===== src/Edge/Peer/LookupServer/Delivery.antt =====
-- Answers that are sent to a callback server arrive (edge/peer/lookup_server.go).
use sdcc_project.Base.{
  ℕ, suc, Bool, ok_inverts, err, Option-cases, inl, inr, zero, ◌≤◌, ◌≡◌, refl, ap, false, List, [],
  ◌∷◌, Option, none, some, String, Outcome, ok, length, take, arith,
}
use sdcc_project.Edge.Peer.LookupServer.{
  Datagram, arrives, read_from_channel, read_from_server, send_to_server,
}

take_short : (n : ℕ) (l : List ℕ) → length l ≤ n → take n l ≡ l
take_short zero [] h = refl
take_short zero (x ∷ l) h = absurd (omega arith)
take_short (suc n) [] h = refl
take_short (suc n) (x ∷ l) h = ap (◌∷◌ x) (take_short n l (omega arith))

module _ {A : Type 0} (marshal : A → Outcome String (List ℕ)) (unmarshal : List ℕ → Option A) where
  -- What SendToServer writes for an answer, which fits the reader's buffer.
  pub record Written (response : A) : Type 0 where
    pub json_data : List ℕ
    pub write : List ℕ → Option String
    pub sent : send_to_server marshal write response ≡ ok json_data
    pub fits : length json_data ≤ 128

  -- A datagram that reaches the server is one that was sent for some answer.
  pub record Received : Type 0 where
    pub response : A
    pub written : Written response

  abbrev pub datagrams : List Received → List (Datagram × Bool)
  datagrams [] = []
  datagrams (r ∷ rest) = (arrives r.written.json_data, false) ∷ datagrams rest

  abbrev pub responses : List Received → List (Option A)
  responses [] = []
  responses (r ∷ rest) = some r.response ∷ responses rest

  marshalled :
      (write : List ℕ → Option String) (response : A) (json_data : List ℕ)
      → send_to_server marshal write response ≡ ok json_data
      → marshal response ≡ ok json_data
  unfolding send_to_server
  marshalled write response json_data h =
      let (j, m, e) =
        ok_inverts
          (λ j. elim (write j) as (λ o. Outcome String (List ℕ)) [ some e ↦ err e | none ↦ ok j ])
          json_data (marshal response) h in
      elim (Option-cases (write j)) [
        | inr (x, p) ↦ absurd (ground (arith, p))
        | inl p ↦ ground (arith, p)
      ]

  received :
      (response : A) (json_data : List ℕ)
      → length json_data ≤ 128
      → unmarshal json_data ≡ some response
      → read_from_channel unmarshal false (arrives json_data) ≡ ok (some response)
  unfolding read_from_channel
  received response json_data fit u = rw (take_short 128 json_data fit, u) refl

  -- If decoding undoes encoding, then whichever of the answers that SendToServer has written, in at most 128 bytes each, the
  -- network brings to a server that is not closed, in whatever order, some of them lost and some twice, the callback
  -- channel gets those answers, as they were sent and in the order in which they arrive.
  pub read_from_server-send :
      ((response : A) (json_data : List ℕ)
        → marshal response ≡ ok json_data
        → unmarshal json_data ≡ some response)
      → (received_datagrams : List Received)
      → read_from_server unmarshal (datagrams received_datagrams)
        ≡ (responses received_datagrams, false)
  unfolding read_from_server
  read_from_server-send law [] = refl
  read_from_server-send law (r ∷ rest) =
      let w = r.written in
      let got =
        received r.response w.json_data w.fits
          (law r.response w.json_data (marshalled w.write r.response w.json_data w.sent)) in
      rw got (ap (λ p. (some r.response ∷ p.0, p.1)) (read_from_server-send law rest))
