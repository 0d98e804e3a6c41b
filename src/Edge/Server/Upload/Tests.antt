-- ===== src/Edge/Server/Upload/Tests.antt =====
-- Uploads of edge/server/server_services.go on concrete requests.
use sdcc_project.Edge.Server.Samples.{md, events, redirect, uploads, reads_body}
use sdcc_project.Base.{
  ℕ, ◌≡◌, ◌≤◌, ◌<◌, refl, String, true, List, [], ◌∷◌, Option, none, some, Outcome, ok,
}
use sdcc_project.Base.Int.{pos}
use sdcc_project.Edge.S3.Upload.{bodies}
use sdcc_project.Edge.Server.{Event, cache_returned, received, stream_ended, redirect_loop}
use sdcc_project.Edge.Server.Clean.{fresh}
use sdcc_project.Edge.Server.Redirection.{chunks, stopper}
use sdcc_project.Edge.Server.Upload.Stored.{do_upload-stored}
use sdcc_project.Edge.Server.Upload.Undrained.{
  blocked, undrained_loop, unbounded, demand, undrained_loop-blocked,
}

do_upload-stored_example :
    (stopper events ≡ [])
    × (◌≡◌ {A = Option String} none none)
    × (◌≡◌ {A = Outcome String (List ℕ)} (ok (1 ∷ 2 ∷ 3 ∷ [])) (ok (bodies (chunks events))))
do_upload-stored_example =
    do_upload-stored (pos 10) (some md) events none none (b'f' ∷ []) (pos 3) redirect
      (2 ∷ 2 ∷ 2 ∷ []) (ok (1 ∷ 2 ∷ 3 ∷ [])) uploads reads_body

abbrev two_chunks : List Event
two_chunks = received (1 ∷ []) ∷ cache_returned none ∷ received (2 ∷ []) ∷ stream_ended ∷ []

undrained_loop-blocked_example :
    (demand two_chunks ≤ 1
      → undrained_loop 1 two_chunks (fresh true)
        ≡ unbounded (redirect_loop two_chunks (fresh true)))
    × (1 < demand two_chunks → undrained_loop 1 two_chunks (fresh true) ≡ blocked)
undrained_loop-blocked_example = undrained_loop-blocked 1 two_chunks tt

blocks : undrained_loop 1 two_chunks (fresh true) ≡ blocked
unfolding undrained_loop
blocks = refl
