-- ===== src/Edge/Peer/Transfer/Complete.antt =====
-- Another edge node gets all of the file (edge/peer/peer_services.go).
use sdcc_project.Base.{
  ℕ, zero, suc, ◌<◌, ◌≤◌, ◌≡◌, refl, ◌∙◌, ap, String, List, [], ◌∷◌, ◌++◌, Option, none, some,
  length, take, drop, All, arith,
}
use sdcc_project.Base.Lists.{take-append-drop, length-drop}
use sdcc_project.Edge.Peer.Transfer.{send_chunks, download_from_edge}

-- Chunks with numbers that go up by one.
abbrev pub Numbered : ℕ → List (List ℕ × ℕ) → Type 0
Numbered n [] = Unit
Numbered n ((chunk, k) ∷ rest) = (k ≡ n) × Numbered (suc n) rest

abbrev pub bytes_sent : List (List ℕ × ℕ) → List ℕ
bytes_sent [] = []
bytes_sent ((chunk, k) ∷ rest) = chunk ++ bytes_sent rest

abbrev pub Sends : ℕ → ℕ → List ℕ → Option (List (List ℕ × ℕ) × Option String) → Type 0
Sends chunk_size n content o =
    (chunks : List (List ℕ × ℕ)) × (o ≡ some (chunks, none))
    × (bytes_sent chunks ≡ content)
    × Numbered n chunks
    × All (λ c. length c.0 ≤ chunk_size) chunks

short : (n : ℕ) (l : List ℕ) → length (take n l) ≤ n
short zero l = omega arith
short (suc n) [] = omega arith
short (suc n) (x ∷ l) = omega (arith, short n l)

send_chunks-Sends :
    (fuel chunk_size n : ℕ) (fails : ℕ → Option String) (content : List ℕ)
    → 0 < chunk_size
    → length content < fuel
    → ((k : ℕ) → fails k ≡ none)
    → Sends chunk_size n content (send_chunks fuel chunk_size fails n content)
unfolding send_chunks
send_chunks-Sends zero chunk_size n fails content p h f = absurd (omega arith)
send_chunks-Sends (suc fuel) chunk_size n fails [] p h f = ([], rw (f n) refl, refl, tt, tt)
send_chunks-Sends (suc fuel) chunk_size n fails (x ∷ xs) p h f =
    let (chunks, e, bytes, numbers, small) =
      send_chunks-Sends fuel chunk_size (suc n) fails (drop chunk_size (x ∷ xs)) p
        (omega (arith, length-drop chunk_size (x ∷ xs))) f in
    (
      (take chunk_size (x ∷ xs), n) ∷ chunks,
      rw (f n, e) refl,
      ap (λ l. take chunk_size (x ∷ xs) ++ l) bytes ∙ take-append-drop chunk_size (x ∷ xs),
      (refl, numbers),
      (short chunk_size (x ∷ xs), small),
    )

-- If the file is opened, no read fails and the configured size of a chunk is not zero, a run with more rounds than the file has
-- bytes ends without an error: the chunks are the bytes of the file in order, numbered from zero, none longer than that size.
pub download_from_edge-Sends :
    (fuel chunk_size : ℕ) (fails : ℕ → Option String) (content : List ℕ)
    → 0 < chunk_size
    → length content < fuel
    → ((k : ℕ) → fails k ≡ none)
    → Sends chunk_size 0 content (download_from_edge fuel chunk_size fails (some content))
unfolding download_from_edge
download_from_edge-Sends fuel chunk_size fails content p h f =
    send_chunks-Sends fuel chunk_size 0 fails content p h f
