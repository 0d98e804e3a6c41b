-- ===== src/Edge/Server/Upload/Stored.antt =====
-- What S3 stores by an upload: `doUpload` with SendToS3 (edge/server/server_services.go, edge/s3_boundary/s3_interface.go).
use sdcc_project.Base.{
  ℕ, ◌≡◌, ◌∙◌, ap, sym, subst, String, Bool, List, [], Option, none, some, Outcome, ok, err, panic,
  deadlock, arith, Option-cases, inl, inr, ok-injective,
}
use sdcc_project.Base.Int.{ℤ}
use sdcc_project.Edge.Cache.Eviction.{is_file_cacheable}
use sdcc_project.Edge.S3.Upload.{bodies, IsSound}
use sdcc_project.Edge.S3.Interface.{upload_body}
use sdcc_project.Edge.S3.Delivery.{upload_body-pending}
use sdcc_project.Edge.Server.{
  Event, Redirect, redirect_result, redirect_loop, rcv_and_redirect_chunks,
}
use sdcc_project.Edge.Server.Clean.{fresh, main_gets, chunks-IsSound, result-Clean}
use sdcc_project.Edge.Server.Redirection.{chunks, stopper, outcome_of}
use sdcc_project.Edge.Server.Requests.{CustomError, Metadata, retrieve_metadata}
use sdcc_project.Edge.Server.Upload.{ended, finish_upload, after_metadata, do_upload}
use sdcc_project.Edge.Utils.Text.{Text}

-- The redirection behind an upload that returns nil.
redirected :
    (close : Option String) (name name' : Text) (size size' : ℤ) (last : Option String)
    (o : Option Redirect) (r : Redirect)
    → finish_upload close name size (outcome_of last o) ≡ ended none name' size' r
    → (o ≡ some r) × (redirect_result last r ≡ none)
redirected close name name' size size' last none r h = absurd (ground arith)
redirected close name name' size size' last (some x) r h =
    elim (Option-cases (redirect_result last x)) [
      | inr (e, p) ↦ absurd (ground (arith, p))
      | inl p ↦ (ground (arith, p), ground (arith, p))
    ]

-- The uploader's side of it.
stored :
    (events : List Event) (last : Option String) (b : Bool) (r : Redirect) (rooms : List ℕ)
    (o : Outcome String (List ℕ))
    → redirect_loop events (fresh b) ≡ some r
    → redirect_result last r ≡ none
    → upload_body rooms (record { residual_chunk = []; message_channel = r.main_channel }) ≡ some o
    → (stopper events ≡ []) × (last ≡ none) × (o ≡ ok (bodies (chunks events)))
stored events last b r rooms o run result body =
    let (clean, last_none) = result-Clean last r result in
    let (no_stopper, main) = main_gets events (fresh b) r clean run in
    (
      no_stopper,
      last_none,
      upload_body-pending rooms (record { residual_chunk = []; message_channel = r.main_channel }) o
            (subst IsSound (sym main) (chunks-IsSound events)) body
          ∙ ap (λ l. ok (bodies l)) main,
    )

with_metadata :
    (max_size : ℤ) (md : Outcome CustomError (Text × Text × ℤ)) (events : List Event)
    (last close : Option String) (name : Text) (size : ℤ) (r : Redirect)
    → after_metadata max_size events last close md ≡ ok (ended none name size r)
    → (b : Bool) × (redirect_loop events (fresh b) ≡ some r) × (redirect_result last r ≡ none)
unfolding rcv_and_redirect_chunks
with_metadata max_size (err e) events last close name size r h = absurd (ground arith)
with_metadata max_size panic events last close name size r h = absurd (ground arith)
with_metadata max_size deadlock events last close name size r h = absurd (ground arith)
with_metadata max_size (ok (id, name', size')) events last close name size r h =
    let b = is_file_cacheable max_size size' in
    let k =
      redirected close name' name size' size last (redirect_loop events (fresh b)) r
        (ok-injective h) in
    (b, k.0, k.1)

-- If an upload returns nil, then the client's stream has ended without an error, the last answer of S3 is nil, and an uploader
-- that has read the body to its end got the chunks of the client, in order and nothing else.
pub do_upload-stored :
    (max_size : ℤ) (md : Option Metadata) (events : List Event) (last close : Option String)
    (name : Text) (size : ℤ) (r : Redirect) (rooms : List ℕ) (o : Outcome String (List ℕ))
    → do_upload max_size md events last close ≡ ok (ended none name size r)
    → upload_body rooms (record { residual_chunk = []; message_channel = r.main_channel }) ≡ some o
    → (stopper events ≡ []) × (last ≡ none) × (o ≡ ok (bodies (chunks events)))
unfolding do_upload rcv_and_redirect_chunks
do_upload-stored max_size md events last close name size r rooms o h body =
    let (b, run, result) =
      with_metadata max_size (retrieve_metadata md) events last close name size r h in
    stored events last b r rooms o run result body
