-- ===== src/Entry/Tests.antt =====
-- A peer that enters while the registry knows two others.
use sdcc_project.Base.{
  ◌≡◌, ◌≢◌, refl, ap, String, string_discrete, Bool, true, false, [], ◌∷◌, some, arith,
}
use sdcc_project.Base.Dict.{lookup}
use sdcc_project.Registry
use sdcc_project.Registry.{RegistryService}
use sdcc_project.Edge.Peer.Join.{Joined, answered}
use sdcc_project.Entry.{Links, act_as_peer}
use sdcc_project.Entry.Connected.{IsConnected, act_as_peer-IsConnected}

abbrev peer_a : Registry.EdgePeer
peer_a = record { peer_addr = "a" }

abbrev peer_b : Registry.EdgePeer
peer_b = record { peer_addr = "b" }

abbrev peer_c : Registry.EdgePeer
peer_c = record { peer_addr = "c" }

abbrev knows_two : RegistryService
knows_two = record {
  connections = (peer_b, 1) ∷ (peer_c, 2) ∷ [];
  heartbeat_check_time = 5;
  heartbeats = (peer_b, 6) ∷ (peer_c, 7) ∷ [];
}

abbrev links : Links
links = record { reach = λ p q. some 7; fate = λ p. answered; in_time = true }

abbrev alone : Joined Bool
alone = record { net = λ p. record { peer_conns = []; filter_map = [] }; closed = [] }

abbrev is_a : String → Bool
is_a s = elim (string_discrete s "a") [ yes e ↦ true | no n ↦ false ]

b_is_not_a : peer_b ≢ peer_a
unfolding string_discrete
b_is_not_a e = ground (arith, ap (λ p. is_a p.peer_addr) e)

act_as_peer-IsConnected_example :
    (joined' : Joined Bool) × ((act_as_peer
        (λ p. some 3)
        (λ i. false)
        links
        peer_a
        9
        4
        knows_two
        alone).1
      ≡ some joined')
    × IsConnected knows_two peer_a alone joined'
unfolding lookup string_discrete Registry.peer_discrete
act_as_peer-IsConnected_example =
    act_as_peer-IsConnected (λ p. some 3) (λ i. false) links peer_a peer_b 3 9 4 knows_two alone
      refl refl refl b_is_not_a
      (λ s k n. record {
        dialed = (7, refl);
        answers = record { dials_back = λ e. e; gets = refl };
      })
      (λ x y. refl)
