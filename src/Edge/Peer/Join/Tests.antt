-- ===== src/Edge/Peer/Join/Tests.antt =====
-- A peer that joins two others (edge/peer/peer.go).
use sdcc_project.Base.{
  ◌≡◌, ◌≢◌, refl, ap, String, string_discrete, ℕ, Bool, true, false, List, [], ◌∷◌, Option, some,
  inl, arith,
}
use sdcc_project.Base.Dict.{lookup}
use sdcc_project.Edge.Peer.{EdgePeer}
use sdcc_project.Edge.Peer.Join.{Fate, answered, lost, Joined, connect_and_notify_your_adjacent}
use sdcc_project.Edge.Peer.Join.Symmetry.{IsSymmetric, connect_and_notify_your_adjacent-IsSymmetric}
use sdcc_project.Edge.Peer.Join.Dangling.{
  no_call, IsDangling, connect_and_notify_your_adjacent-IsDangling,
}

abbrev peer_a : EdgePeer
peer_a = record { peer_addr = "a" }

abbrev peer_b : EdgePeer
peer_b = record { peer_addr = "b" }

abbrev peer_c : EdgePeer
peer_c = record { peer_addr = "c" }

abbrev empty : Joined Bool
empty = record { net = λ p. record { peer_conns = []; filter_map = [] }; closed = [] }

abbrev told : List (EdgePeer × ℕ)
told = (peer_b, 0) ∷ (peer_c, 0) ∷ []

abbrev dials : EdgePeer → EdgePeer → Option ℕ
dials p q = some 7

abbrev calls_lost : EdgePeer → Fate
calls_lost p = lost

abbrev calls_answered : EdgePeer → Fate
calls_answered p = answered

connect_and_notify_your_adjacent-IsSymmetric_example :
    ((connect_and_notify_your_adjacent dials calls_answered peer_a told empty).closed
      ≡ empty.closed)
    × IsSymmetric (connect_and_notify_your_adjacent dials calls_answered peer_a told empty).net
unfolding lookup
connect_and_notify_your_adjacent-IsSymmetric_example =
    connect_and_notify_your_adjacent-IsSymmetric dials calls_answered peer_a told empty
      (
        record { dials_back = λ e. e; gets = refl },
        (record { dials_back = λ e. e; gets = refl }, tt),
      )
      (λ x y. refl)

abbrev is_a : String → Bool
is_a s = elim (string_discrete s "a") [ yes e ↦ true | no n ↦ false ]

a_is_not_b : peer_a ≢ peer_b
unfolding string_discrete
a_is_not_b e = ground (arith, ap (λ p. is_a p.peer_addr) e)

connect_and_notify_your_adjacent-IsDangling_example :
    IsDangling peer_a peer_b 7 (connect_and_notify_your_adjacent dials calls_lost peer_a told empty)
unfolding lookup
connect_and_notify_your_adjacent-IsDangling_example =
    connect_and_notify_your_adjacent-IsDangling dials calls_lost peer_a peer_b 7 told empty
      a_is_not_b (inl refl) refl (no_call refl) refl
