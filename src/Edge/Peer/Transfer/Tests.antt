-- ===== src/Edge/Peer/Transfer/Tests.antt =====
-- Downloads by another edge from edge/peer/peer_services.go.
use sdcc_project.Base.{◌≡◌, refl, [], ◌∷◌, none, some, arith}
use sdcc_project.Edge.Peer.Transfer.{download_from_edge}
use sdcc_project.Edge.Peer.Transfer.Complete.{Sends, download_from_edge-Sends}

download_from_edge-Sends_example :
    Sends 2 0 (1 ∷ 2 ∷ 3 ∷ []) (download_from_edge 4 2 (λ n. none) (some (1 ∷ 2 ∷ 3 ∷ [])))
download_from_edge-Sends_example =
    download_from_edge-Sends 4 2 (λ n. none) (1 ∷ 2 ∷ 3 ∷ []) (omega arith) (omega arith)
      (λ k. refl)

three_bytes :
    download_from_edge 4 2 (λ n. none) (some (1 ∷ 2 ∷ 3 ∷ []))
    ≡ some ((1 ∷ 2 ∷ [], 0) ∷ (3 ∷ [], 1) ∷ [], none)
unfolding download_from_edge
three_bytes = refl
