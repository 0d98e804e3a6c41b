-- ===== src/Edge/Server/LocalCache/Overwritten.antt =====
-- A chunk can be overwritten before it is sent (edge/server/server_services.go, readFromLocalCache).
use mathlib.Core.List.{append-nil}
use sdcc_project.Base.{
  ℕ, zero, suc, ◌<◌, ◌≡◌, refl, ◌∙◌, ap, sym, subst, true, false, List, [], ◌∷◌, ◌++◌, Option, none,
  some, length, take, drop, arith, lt→ltb,
}
use sdcc_project.Edge.Server.LocalCache.{
  Local, zeros, start, Action, read_file, send_message, finish, deliver, run,
}

take_front : (n : ℕ) (a b : List ℕ) → n ≡ length a → take n (a ++ b) ≡ a
take_front zero [] b h = refl
take_front zero (x ∷ a) b h = absurd (omega (arith, h))
take_front (suc n) [] b h = absurd (omega (arith, h))
take_front (suc n) (x ∷ a) b h = ap (◌∷◌ x) (take_front n a b (omega (arith, h)))

drop_front : (n : ℕ) (a b : List ℕ) → n ≡ length a → drop n (a ++ b) ≡ b
drop_front zero [] b h = refl
drop_front zero (x ∷ a) b h = absurd (omega (arith, h))
drop_front (suc n) [] b h = absurd (omega (arith, h))
drop_front (suc n) (x ∷ a) b h = drop_front n a b (omega (arith, h))

abbrev state : List ℕ → List ℕ → Option ℕ → List ℕ → List (List ℕ) → Local
state unread buffer read_bytes queue received = record {
  unread = unread;
  buffer = buffer;
  read_bytes = read_bytes;
  queue = queue;
  received = received;
  closed = false;
}

-- The buffer after a chunk is read into it.
abbrev over : List ℕ → List ℕ → List ℕ
over c buffer = c ++ drop (length c) buffer

-- Each step with what it leaves; `rest` is run from there.
module _ (capacity : ℕ) (room : 0 < capacity) (rest : List Action) where
  reads :
      (n : ℕ) (x : ℕ) (c later buffer queue : List ℕ) (received : List (List ℕ))
      → n ≡ length c
      → run
          (suc n)
          capacity
          (read_file ∷ rest)
          (state ((x ∷ c) ++ later) buffer none queue received)
        ≡ run
            (suc n)
            capacity
            rest
            (state later (over (x ∷ c) buffer) (some (length (x ∷ c))) queue received)
  unfolding run
  reads n x c later buffer queue received h =
      ap
        (λ t. run (suc n) capacity rest (
          state (drop n (c ++ later)) (over (x ∷ t) buffer) (some (length (x ∷ t))) queue received))
        (take_front n c later h)
      ∙ ap
          (λ u.
            run (suc n) capacity rest
              (state u (over (x ∷ c) buffer) (some (length (x ∷ c))) queue received))
          (drop_front n c later h)

  sends :
      (n k : ℕ) (unread buffer : List ℕ) (received : List (List ℕ))
      → run n capacity (send_message ∷ rest) (state unread buffer (some k) [] received)
        ≡ run n capacity rest (state unread buffer none (k ∷ []) received)
  unfolding run
  sends n k unread buffer received = rw (lt→ltb 0 capacity room) refl

  delivers :
      (n k : ℕ) (c unread buffer : List ℕ) (read_bytes : Option ℕ) (received : List (List ℕ))
      → k ≡ length c
      → run n capacity (deliver ∷ rest) (state unread (over c buffer) read_bytes (k ∷ []) received)
        ≡ run n capacity rest (state unread (over c buffer) read_bytes [] (received ++ (c ∷ [])))
  unfolding run
  delivers n k c unread buffer read_bytes received h =
      ap
        (λ t.
          run n capacity rest (state unread (over c buffer) read_bytes [] (received ++ (t ∷ []))))
        (take_front k c (drop (length c) buffer) h)

abbrev pub hasty : List Action
hasty = read_file ∷ send_message ∷ read_file ∷ deliver ∷ send_message ∷ deliver ∷ finish ∷ []

abbrev pub calm : List Action
calm = read_file ∷ send_message ∷ deliver ∷ read_file ∷ send_message ∷ deliver ∷ finish ∷ []

-- All of the file is read and the channel is closed.
abbrev pub Sends : List (List ℕ) → Option Local → Type 0
Sends chunks o = (s : Local) × (o ≡ some s) × (s.received ≡ chunks) × (s.closed ≡ true)

done :
    (n capacity : ℕ) (buffer : List ℕ) (received : List (List ℕ))
    → Sends received (run n capacity (finish ∷ []) (state [] buffer none [] received))
unfolding run
done n capacity buffer received = (_, refl, refl, refl)

-- The client is sent two chunks, and the buffer still holds the second.
module _ (x y : ℕ) (a b : List ℕ) (capacity : ℕ) (same : length a ≡ length b)
    (room : 0 < capacity) where
  abbrev n : ℕ
  n = length a

  abbrev whole : Local
  whole = start (suc n) ((x ∷ a) ++ (y ∷ b))

  abbrev first : List ℕ
  first = over (x ∷ a) (zeros (suc n))

  abbrev second : List ℕ
  second = over (y ∷ b) first

  last_read :
      (rest : List Action) (queue : List ℕ) (received : List (List ℕ))
      → run (suc n) capacity (read_file ∷ rest) (state (y ∷ b) first none queue received)
        ≡ run (suc n) capacity rest (state [] second (some (suc (length b))) queue received)
  last_read rest queue received =
      ap (λ u. run (suc n) capacity (read_file ∷ rest) (state (y ∷ u) first none queue received))
        (sym (append-nil b))
      ∙ reads capacity room rest n y b [] first queue received same

  abbrev tail_end : List Action
  tail_end = send_message ∷ deliver ∷ finish ∷ []

  -- The second chunk waits to be sent.
  end_of :
      (received : List (List ℕ))
      → run (suc n) capacity tail_end (state [] second (some (suc (length b))) [] received)
        ≡ run (suc n) capacity (finish ∷ []) (state [] second none [] (received ++ ((y ∷ b) ∷ [])))
  end_of received =
      sends capacity room (deliver ∷ finish ∷ []) (suc n) (suc (length b)) [] second received
      ∙ delivers capacity room (finish ∷ []) (suc n) (suc (length b)) (y ∷ b) [] first none received
          refl

  begin :
      (rest : List Action)
      → run (suc n) capacity (read_file ∷ send_message ∷ rest) whole
        ≡ run (suc n) capacity rest (state (y ∷ b) first none (suc n ∷ []) [])
  begin rest =
      reads capacity room (send_message ∷ rest) n x a (y ∷ b) (zeros (suc n)) [] [] refl
      ∙ sends capacity room rest (suc n) (suc n) (y ∷ b) first []

  -- A file of two chunks of the same size, on a channel with room: if each chunk is sent before the next is read, the
  -- client is sent the file; if the second is read before the first is sent, the client is sent the second chunk twice, and
  -- no error.
  pub hasty-overwrites :
      Sends ((x ∷ a) ∷ (y ∷ b) ∷ []) (run (suc n) capacity calm whole)
      × Sends ((y ∷ b) ∷ (y ∷ b) ∷ []) (run (suc n) capacity hasty whole)
  hasty-overwrites = (
    subst (Sends ((x ∷ a) ∷ (y ∷ b) ∷ []))
        (sym (
          begin (deliver ∷ read_file ∷ tail_end)
          ∙ delivers capacity room (read_file ∷ tail_end) (suc n) (suc n) (x ∷ a) (y ∷ b)
              (zeros (suc n)) none [] refl
          ∙ last_read tail_end [] ((x ∷ a) ∷ [])
          ∙ end_of ((x ∷ a) ∷ [])))
        (done (suc n) capacity second ((x ∷ a) ∷ (y ∷ b) ∷ [])),
    subst (Sends ((y ∷ b) ∷ (y ∷ b) ∷ []))
        (sym (
          begin (read_file ∷ deliver ∷ tail_end)
          ∙ last_read (deliver ∷ tail_end) (suc n ∷ []) []
          ∙ delivers capacity room tail_end (suc n) (suc n) (y ∷ b) [] first (some (suc (length b)))
              [] (omega (arith, same))
          ∙ end_of ((y ∷ b) ∷ [])))
        (done (suc n) capacity second ((y ∷ b) ∷ (y ∷ b) ∷ [])),
  )
