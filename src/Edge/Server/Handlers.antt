-- ===== src/Edge/Server/Handlers.antt =====
-- The handlers Delete, Upload and Download of edge/server/server_services.go: each counts itself while it runs and tells the
-- balancer at its end, also when it returns an error. A panic of the call to the balancer ends the edge node.
pub mod Workload
use sdcc_project.Base.{ℕ, String, Bool, List, Option, none, some, Outcome, ok, ◌>>=◌}
use sdcc_project.Base.Int.{ℤ}
use sdcc_project.Edge.Cache.{System}
use sdcc_project.Edge.Peer.{EdgePeer}
use sdcc_project.Edge.Peer.Calls.{CallAnswer, notify_job_end}
use sdcc_project.Edge.Peer.Services.{Setting, Peer}
use sdcc_project.Edge.S3.Interface.{Service}
use sdcc_project.Edge.Server.{Event}
use sdcc_project.Edge.Server.Requests.{
  CustomError, Metadata, increment_workload, decrement_workload,
}
use sdcc_project.Edge.Server.Upload.{Uploaded, do_upload}
use sdcc_project.Edge.Server.Delete.{do_delete}
use sdcc_project.Edge.Server.Download.{Chunks, Surroundings, do_download}

-- The counter of FileServiceServer and the connection to the balancer.
pub record FileServer : Type 0 where
  pub current_workload : ℤ
  pub balancer_connection : Option ℕ

-- What the call at the end of a handler meets: a new connection, if one is made, and the answer.
pub record JobEnd : Type 0 where
  pub connect : Option ℕ
  pub answer : CallAnswer

abbrev pub tell_balancer : JobEnd → FileServer → Outcome ⊥ FileServer
tell_balancer job server = do
  connection ← notify_job_end server.balancer_connection job.connect job.answer
  ok (record server { balancer_connection = connection })

abbrev pub begin_job : FileServer → FileServer
begin_job server = record server { current_workload = increment_workload server.current_workload }

abbrev pub finish_job : FileServer → FileServer
finish_job server = record server { current_workload = decrement_workload server.current_workload }

-- A body between the two counts, with the deferred call to the balancer.
abbrev pub served {ℓ} :
    {A : Type ℓ} → Outcome ⊥ A → JobEnd → FileServer → Outcome ⊥ (A × FileServer)
served body job server = do
  result ← body
  told ← tell_balancer job (begin_job server)
  ok (result, finish_job told)

-- `Upload`
unfoldable pub upload :
    ℤ
    → Option Metadata
    → List Event
    → Option String
    → Option String
    → JobEnd
    → FileServer
    → Outcome ⊥ (Uploaded × FileServer)
unfolding do_upload notify_job_end increment_workload decrement_workload
upload max_size md events last send_and_close job server =
    served (do_upload max_size md events last send_and_close) job server

module _ {Filter : Type 0} (test : Filter → String → Bool) where
  -- `Delete`
  unfoldable pub delete :
      System
      → ℕ
      → Service
      → String
      → String
      → Peer Filter
      → JobEnd
      → FileServer
      → Outcome ⊥ ((Option CustomError × List EdgePeer × Peer Filter) × FileServer)
  unfolding do_delete notify_job_end increment_workload decrement_workload
  delete sys now s3 file_name request_id peer job server =
      served (do_delete test sys now s3 file_name request_id peer) job server

  abbrev reply_then :
      Option (Outcome ⊥ (Chunks × Option CustomError))
      → JobEnd
      → FileServer
      → Option (Outcome ⊥ ((Chunks × Option CustomError) × FileServer))
  reply_then none job server = none
  reply_then (some body) job server = some (served body job server)

  -- `Download`; `none` if it still waits.
  unfoldable pub download :
      Surroundings
      → Setting
      → String
      → String
      → Peer Filter
      → JobEnd
      → FileServer
      → Option (Outcome ⊥ ((Chunks × Option CustomError) × FileServer))
  unfolding do_download notify_job_end increment_workload decrement_workload
  download s setting file_name request_id peer job server =
      reply_then (do_download test s setting file_name request_id peer).0 job server
