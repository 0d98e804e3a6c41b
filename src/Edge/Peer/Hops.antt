-- ===== src/Edge/Peer/Hops.antt =====
-- How far a lookup travels: the TTL of edge/peer/peer_services.go (FileLookup).
use sdcc_project.Base.{
  ℕ, zero, suc, ◌-◌, ◌^◌, ◌≤◌, ◌<◌, ◌≡◌, String, Bool, true, List, ok, arith, Bool-cases, inl, inr,
}
use sdcc_project.Base.Int.{ℤ, pos, negsuc, ◌+ℤ◌, ltb_ℤ, wrap64}
use sdcc_project.Edge.Peer.{EdgePeer, FileLookupMessage}
use sdcc_project.Edge.Peer.Requests.{is_request_already_served}
use sdcc_project.Edge.Peer.Services.{Setting, Peer, passed_on, forward, serve_lookup, file_lookup}

module _ {Filter : Type 0} (test : Filter → String → Bool) where
  -- A chain of peers, each of which passes the lookup on to the next. The peers are in any states.
  pub data Chain : ℕ → FileLookupMessage → Type 0 where
    start : {m : FileLookupMessage} → Chain 0 m
    hop :
        {n : ℕ} {m : FileLookupMessage} (s : Setting) (peer peer' : Peer Filter) (l : List EdgePeer)
        → file_lookup test s m peer ≡ ok (passed_on l, peer')
        → Chain n (forward s.self_peer m)
        → Chain (suc n) m

  serve_lookup_passes :
      (s : Setting) (m : FileLookupMessage) (peer peer' : Peer Filter) (l : List EdgePeer)
      → serve_lookup test s m peer ≡ ok (passed_on l, peer')
      → ltb_ℤ (pos 0) (wrap64 (m.ttl +ℤ negsuc 0)) ≡ true
  unfolding serve_lookup
  serve_lookup_passes s m peer peer' l h = ground arith

  file_lookup_passes :
      (s : Setting) (m : FileLookupMessage) (peer peer' : Peer Filter) (l : List EdgePeer)
      → file_lookup test s m peer ≡ ok (passed_on l, peer')
      → ltb_ℤ (pos 0) (wrap64 (m.ttl +ℤ negsuc 0)) ≡ true
  unfolding file_lookup
  file_lookup_passes s m peer peer' l h =
      elim (Bool-cases
        (is_request_already_served s.request_cache_ttl s.now (m.request) (peer.requests)).0) [
          | inl served ↦ absurd (ground arith)
          | inr fresh ↦
              serve_lookup_passes s m
                (record peer {
                  requests =
                      (is_request_already_served s.request_cache_ttl s.now (m.request)
                        (peer.requests)).1;
                })
                peer' l (ground arith)
        ]

  less_one :
      (t : ℕ) (a : ℤ)
      → a ≡ pos t
      → t < 2 ^ 63
      → ltb_ℤ (pos 0) (wrap64 (a +ℤ negsuc 0)) ≡ true
      → (1 < t) × (wrap64 (a +ℤ negsuc 0) ≡ pos (t - 1))
  unfolding wrap64 ◌+ℤ◌
  less_one t a e b h = ground arith

  -- From a message with the TTL `t`, below 2^63, a lookup is passed on fewer than `t` times, or not at all if `t` is
  -- zero, whatever the peers on its way hold.
  pub Chain-bound :
      (n t : ℕ) (m : FileLookupMessage) → m.ttl ≡ pos t → t < 2 ^ 63 → Chain n m → n ≤ t - 1
  Chain-bound zero t m e b start = omega arith
  Chain-bound (suc n) t m e b (hop s peer peer' l h c) =
      let (more, next) = less_one t m.ttl e b (file_lookup_passes s m peer peer' l h) in
      omega (arith, Chain-bound n (t - 1) (forward s.self_peer m) next (omega arith) c)
