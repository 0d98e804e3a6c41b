-- ===== src/Edge/Peer/LookupServer/Tests.antt =====
-- Answers to a callback server of edge/peer/lookup_server.go, with an answer coded as its own bytes.
use sdcc_project.Base.{
  ℕ, ◌≡◌, refl, String, false, List, [], ◌∷◌, Option, none, some, Outcome, ok, arith, ok-injective,
  sym, ap,
}
use sdcc_project.Edge.Peer.LookupServer.{send_to_server, read_from_server}
use sdcc_project.Edge.Peer.LookupServer.Delivery.{
  Written, Received, datagrams, responses, read_from_server-send,
}

abbrev marshal : List ℕ → Outcome String (List ℕ)
marshal l = ok l

abbrev unmarshal : List ℕ → Option (List ℕ)
unmarshal l = some l

written : Written marshal unmarshal (1 ∷ 2 ∷ [])
unfolding send_to_server
written = record { json_data = 1 ∷ 2 ∷ []; write = λ bytes. none; sent = refl; fits = omega arith }

decodes :
    (response json_data : List ℕ)
    → marshal response ≡ ok json_data
    → unmarshal json_data ≡ some response
decodes response json_data e = ap (λ l. some l) (sym (ok-injective e))

-- The answer comes twice.
abbrev twice : List (Received marshal unmarshal)
twice =
    record { response = 1 ∷ 2 ∷ []; written = written }
    ∷ record { response = 1 ∷ 2 ∷ []; written = written }
    ∷ []

read_from_server-send_example :
    read_from_server unmarshal (datagrams marshal unmarshal twice)
    ≡ (responses marshal unmarshal twice, false)
read_from_server-send_example = read_from_server-send marshal unmarshal decodes twice
