-- ===== src/Edge/Server/LocalCache/Whole.antt =====
-- A local file that has been read without an error (edge/server/server_services.go, readFromLocalCache).
use mathlib.Core.List.{append-nil}
use sdcc_project.Base.{
  ℕ, ◌≡◌, refl, ◌∙◌, ap, sym, String, Bool, true, false, List, [], ◌∷◌, ◌++◌, Option, none, some,
  arith, length, map, Option-cases, Bool-cases, inl, inr, ◌&&◌, subst,
}
use sdcc_project.Edge.Channel.{Message}
use sdcc_project.Edge.S3.Upload.{IsSound}
use sdcc_project.Edge.S3.Download.{concat}
use sdcc_project.Edge.Server.{failure_message}
use sdcc_project.Edge.Server.LocalCache.{
  Local, start, run, LocalRead, body_message, is_empty, is_drained, read_messages,
  read_from_local_cache, after_open,
}
use sdcc_project.Edge.Server.LocalCache.Sizes.{run-size}

-- A run to the end of the file, whose messages all come out of the channel: they have as many bytes as the file.
pub record FromLocal (f : LocalRead) (messages : List Message) : Type 0 where
  pub left : Local
  pub ran : run f.chunk_size f.capacity f.actions (start f.chunk_size f.content) ≡ some left
  pub closed : left.closed ≡ true
  pub same : messages ≡ map body_message left.received
  pub bytes : length (concat left.received) ≡ length f.content

failing_end :
    (e : String) (l : List (List ℕ)) → IsSound (map body_message l ++ (failure_message e ∷ [])) → ⊥
failing_end e [] s = ground (arith, s.0)
failing_end e (x ∷ l) s = failing_end e l s.1

emptied : (q : List ℕ) → is_empty q ≡ true → q ≡ []
emptied [] h = refl
emptied (x ∷ q) h = absurd (ground arith)

both : (a b : Bool) → (a && b) ≡ true → (a ≡ true) × (b ≡ true)
both true b h = (refl, h)
both false b h = absurd (ground arith)

-- All messages of a run without a failing read.
came_out :
    (read_error : Option String) (s : Local) (messages : List Message)
    → IsSound messages
    → read_messages read_error (some s) ≡ some (messages, true)
    → (s.closed ≡ true) × (s.queue ≡ []) × (messages ≡ map body_message s.received)
came_out none s messages sound h = elim (Bool-cases (is_drained none s)) [
  | inr d ↦ absurd (ground (arith, d))
  | inl d ↦
      let (empty, closed) = both (is_empty s.queue) s.closed d in
      let all : messages ≡ map body_message s.received ++ [] = ground (arith, d) in
      (closed, emptied s.queue empty, all ∙ append-nil (map body_message s.received))
]
came_out (some e) s messages sound h = elim (Bool-cases (is_drained (some e) s)) [
  | inr d ↦ absurd (ground (arith, d))
  | inl d ↦
      let all : messages ≡ map body_message s.received ++ (failure_message e ∷ []) =
        ground (arith, d) in
      absurd (failing_end e s.received (subst IsSound all sound))
]

pub read_whole :
    (f : LocalRead) (messages : List Message)
    → IsSound messages
    → read_from_local_cache f ≡ some (messages, true)
    → FromLocal f messages
unfolding read_from_local_cache
read_whole f messages sound h = elim (Option-cases f.open_error) [
  | inr (e, p) ↦
      let all : failure_message e ∷ [] ≡ messages = ground (arith, p) in
      absurd (failing_end e [] (subst IsSound (sym all) sound))
  | inl p ↦
      elim (Option-cases (run f.chunk_size f.capacity f.actions (start f.chunk_size f.content))) [
        | inl r ↦ absurd (ground (arith, p, r))
        | inr (s, r) ↦
            let (closed, queue, same) = came_out f.read_error s messages sound (
              ap (read_messages f.read_error) (sym r)
              ∙ ap
                  (λ o. after_open o (
                    read_messages f.read_error
                      (run f.chunk_size f.capacity f.actions (start f.chunk_size f.content))))
                  (sym p)
              ∙ h) in
            record {
              left = s;
              ran = r;
              closed = closed;
              same = same;
              bytes = run-size f.chunk_size f.capacity f.content f.actions s r closed queue;
            }
      ]
]
