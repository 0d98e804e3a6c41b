-- ===== src/Edge/Peer/Transfer.antt =====
-- `DownloadFromEdge` (edge/peer/peer_services.go): another edge node gets a file of this one. A chunk is sent before the
-- buffer is used again, and the error of a send is not looked at.
pub mod Complete
mod Tests
use sdcc_project.Base.{
  ℕ, zero, suc, String, List, [], ◌∷◌, Option, none, some, Outcome, ok, err, take, drop,
}

-- What a read of the file finds: an error, the end, or bytes.
abbrev after_read :
    Option String
    → List ℕ
    → Option (List (List ℕ × ℕ) × Option String)
    → ℕ
    → ℕ
    → Option (List (List ℕ × ℕ) × Option String)
after_read (some e) content rest chunk_size seq_number = some ([], some e)
after_read none [] rest chunk_size seq_number = some ([], none)
after_read none (x ∷ xs) none chunk_size seq_number = none
after_read none (x ∷ xs) (some (chunks, e)) chunk_size seq_number =
    some ((take chunk_size (x ∷ xs), seq_number) ∷ chunks, e)

-- The loop on fuel: `none` if it runs out. Which reads fail is an argument.
unfoldable pub send_chunks :
    ℕ → ℕ → (ℕ → Option String) → ℕ → List ℕ → Option (List (List ℕ × ℕ) × Option String)
send_chunks zero chunk_size fails seq_number content = none
send_chunks (suc fuel) chunk_size fails seq_number content =
    let rest = send_chunks fuel chunk_size fails (suc seq_number) (drop chunk_size content) in
    after_read (fails seq_number) content rest chunk_size seq_number

abbrev pub open_failed : List (List ℕ × ℕ) × Option String
open_failed = ([], some "[*OPEN_ERROR*] -> Apertura del file fallita.")

-- `DownloadFromEdge`: the chunks that are sent, with their numbers, and the error.
unfoldable pub download_from_edge :
    ℕ → ℕ → (ℕ → Option String) → Option (List ℕ) → Option (List (List ℕ × ℕ) × Option String)
unfolding send_chunks
download_from_edge fuel chunk_size fails none = some open_failed
download_from_edge fuel chunk_size fails (some content) =
    send_chunks fuel chunk_size fails 0 content
