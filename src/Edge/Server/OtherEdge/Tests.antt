-- ===== src/Edge/Server/OtherEdge/Tests.antt =====
-- Downloads from another edge by edge/server/server_services.go.
use sdcc_project.Base.{◌≡◌, refl, String, true, [], ◌∷◌, none, some, ok, panic}
use sdcc_project.Edge.Server.{received, stream_failed, failure_message, Redirect, redirect_loop}
use sdcc_project.Edge.Server.Clean.{fresh}
use sdcc_project.Edge.Server.Redirection.{chunks, stopper}
use sdcc_project.Edge.Server.OtherEdge.{OwnerEdge, Channels, download_from_other_edge}
use sdcc_project.Edge.Server.OtherEdge.Crash.{download_from_other_edge_panics}

abbrev broken : OwnerEdge
broken = record {
  dial = none;
  download_from_edge = none;
  events = received (1 ∷ []) ∷ stream_failed "lost" ∷ [];
  last = none;
  close_send = none;
}

download_from_other_edge_panics_example :
    ((e : String)
      → stopper broken.events ≡ failure_message e ∷ []
      → download_from_other_edge true broken ≡ some panic)
    × ((e : String) (r : Redirect)
        → redirect_loop broken.events (fresh true) ≡ some r
        → broken.last ≡ some e
        → download_from_other_edge true broken ≡ some panic)
    × ((c : Channels)
        → download_from_other_edge true broken ≡ some (ok c)
        → (stopper broken.events ≡ [])
          × (broken.last ≡ none)
          × (broken.close_send ≡ none)
          × (c.client_messages ≡ chunks broken.events))
download_from_other_edge_panics_example = download_from_other_edge_panics true broken refl refl
