-- ===== src/Edge/Server/Handlers/Workload.antt =====
-- The workload counter around a handler (edge/server/server_utils.go).
use sdcc_project.Base.{
  ◌>>=◌, ◌≡◌, refl, ◌∙◌, ap, arith, ◌⊎◌, inl, inr, Outcome, ok, ok_inverts, ok-injective, sym,
}
use sdcc_project.Base.Int.{ℤ, pos, negsuc, IsInt64, wrap64, ◌+ℤ◌, wrap64_of_IsInt64, int_max}
use sdcc_project.Edge.Server.Requests.{increment_workload, decrement_workload}
use sdcc_project.Edge.Server.Handlers.{
  FileServer, JobEnd, begin_job, finish_job, tell_balancer, served, notify_job_end,
}

one_more : (w : ℤ) → IsInt64 w → IsInt64 (w +ℤ pos 1) ⊎ (w ≡ int_max)
unfolding ◌+ℤ◌
one_more w h = ground arith

back_at_max : decrement_workload (increment_workload int_max) ≡ int_max
unfolding wrap64 ◌+ℤ◌ increment_workload decrement_workload
back_at_max = refl

one_back : (w : ℤ) → ((w +ℤ pos 1) +ℤ negsuc 0) ≡ w
unfolding ◌+ℤ◌
one_back w = ground arith

counted_back : (w : ℤ) → IsInt64 w → decrement_workload (increment_workload w) ≡ w
unfolding increment_workload decrement_workload
counted_back w h = elim (one_more w h) [
  | inl m ↦
      ap (λ z. wrap64 (z +ℤ negsuc 0)) (wrap64_of_IsInt64 (w +ℤ pos 1) m)
      ∙ ap wrap64 (one_back w)
      ∙ wrap64_of_IsInt64 w h
  | inr e ↦ rw e back_at_max
]

told-workload :
    (job : JobEnd) (s t : FileServer)
    → tell_balancer job s ≡ ok t
    → t.current_workload ≡ s.current_workload
told-workload job s t e =
    let (connection, called, same) =
      ok_inverts (λ c. ok (record s { balancer_connection = c })) t
        (notify_job_end s.balancer_connection job.connect job.answer) e in
    ap (λ z. z.current_workload) (sym (ok-injective same))

-- A handler that ends, with an error or without, leaves the counter as it was.
served-workload :
    {A : Type 0} (body : Outcome ⊥ A) (job : JobEnd) (s t : FileServer) (x : A)
    → IsInt64 s.current_workload
    → served body job s ≡ ok (x, t)
    → t.current_workload ≡ s.current_workload
served-workload body job s t x h e =
    let (y, ended, rest) =
      ok_inverts (λ y. tell_balancer job (begin_job s) >>= λ u. ok (y, finish_job u)) (x, t) body
        e in
    let (u, told, same) =
      ok_inverts (λ u. ok (y, finish_job u)) (x, t) (tell_balancer job (begin_job s)) rest in
    ap (λ z. z.1.current_workload) (sym (ok-injective same))
    ∙ ap decrement_workload (told-workload job (begin_job s) u told)
    ∙ counted_back s.current_workload h
