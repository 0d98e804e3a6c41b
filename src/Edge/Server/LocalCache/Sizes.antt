-- ===== src/Edge/Server/LocalCache/Sizes.antt =====
-- How much of a file the client is sent (edge/server/server_services.go, readFromLocalCache).
use mathlib.Core.Option.{some-injective}
use sdcc_project.Base.{
  ℕ, zero, suc, ◌+◌, ◌≤◌, ◌≡◌, refl, ◌∙◌, ap, sym, subst, true, false, List, [], ◌∷◌, ◌++◌, Option,
  none, some, ltb, length, take, drop, arith, All, All-append, length-append, Bool-cases,
  Option-cases, inl, inr, if◌then◌else◌,
}
use sdcc_project.Base.Lists.{length-take, length-drop}
use sdcc_project.Edge.S3.Download.{concat, concat-append}
use sdcc_project.Edge.Server.LocalCache.{
  Local, zeros, start, Action, read_file, send_message, finish, deliver, reading, sending,
  finishing, delivering, step, run, and_then,
}

abbrev pub sum : List ℕ → ℕ
sum [] = 0
sum (n ∷ ns) = n + sum ns

abbrev pub count : Option ℕ → ℕ
count none = 0
count (some n) = n

-- No byte is lost, and a message is no longer than the buffer.
pub record Counts (size total : ℕ) (s : Local) : Type 0 where
  pub all : length (concat s.received) + sum s.queue + count s.read_bytes + length s.unread ≡ total
  pub buffer_size : length s.buffer ≡ size
  pub queued : All (λ n. n ≤ size) s.queue
  pub one_read : count s.read_bytes ≤ size
  pub at_end : s.closed ≡ true → (length s.unread ≡ 0) × (count s.read_bytes ≡ 0)

length-zeros : (n : ℕ) → length (zeros n) ≡ n
length-zeros zero = refl
length-zeros (suc n) = omega (arith, length-zeros n)

sum-append : (l r : List ℕ) → sum (l ++ r) ≡ sum l + sum r
sum-append [] r = omega arith
sum-append (x ∷ l) r = omega (arith, sum-append l r)

take_size :
    (n : ℕ) (l : List ℕ)
    → (length (take n l) ≤ n) × (length (take n l) + length (drop n l) ≡ length l)
take_size zero l = (omega arith, omega arith)
take_size (suc n) [] = (omega arith, omega arith)
take_size (suc n) (x ∷ l) = let ih = take_size n l in (omega (arith, ih.0), omega (arith, ih.1))

module _ (size total : ℕ) where
  start-Counts :
      (content : List ℕ) → length content ≡ total → Counts size total (start size content)
  start-Counts content h = record {
    all = omega (arith, h);
    buffer_size = length-zeros size;
    queued = tt;
    one_read = omega arith;
    at_end = λ c. absurd (ground arith);
  }

  overwrite-Counts :
      (x : ℕ) (xs : List ℕ) (s s' : Local)
      → Counts size total s
      → s.closed ≡ false
      → s.read_bytes ≡ none
      → s.unread ≡ x ∷ xs
      → reading size none (x ∷ xs) s ≡ some s'
      → Counts size total s'
  overwrite-Counts x xs s s' v c r u e =
      let k = take_size size (x ∷ xs) in
      let bs = take size (x ∷ xs) in
      subst (Counts size total) (some-injective _ _ e) (record {
        all = omega (arith, v.all, ap count r, ap (length {A = ℕ}) u, k.1);
        buffer_size = omega (
          arith,
          length-append bs (drop (length bs) s.buffer),
          length-drop (length bs) s.buffer,
          k.0,
          v.buffer_size,
        );
        queued = v.queued;
        one_read = k.0;
        at_end = λ d. absurd (ground arith);
      })

  read-Counts :
      (read_bytes : Option ℕ) (unread : List ℕ) (s s' : Local)
      → Counts size total s
      → s.closed ≡ false
      → s.read_bytes ≡ read_bytes
      → s.unread ≡ unread
      → reading size read_bytes unread s ≡ some s'
      → Counts size total s'
  read-Counts (some n) unread s s' v c r u e = absurd (ground arith)
  read-Counts none [] s s' v c r u e = absurd (ground arith)
  read-Counts none (x ∷ xs) s s' v c r u e = overwrite-Counts x xs s s' v c r u e

  send-Counts :
      (capacity : ℕ) (read_bytes : Option ℕ) (s s' : Local)
      → Counts size total s
      → s.read_bytes ≡ read_bytes
      → sending capacity read_bytes s ≡ some s'
      → Counts size total s'
  send-Counts capacity none s s' v r e = absurd (ground arith)
  send-Counts capacity (some n) s s' v r e = elim (Bool-cases (ltb (length s.queue) capacity)) [
    | inr full ↦ absurd (ground (arith, full))
    | inl room ↦
        subst (Counts size total)
          (some-injective _ _ (
            sym (
              ap
                (λ b.
                  if b
                  then some (record s { queue = s.queue ++ (n ∷ []); read_bytes = none })
                  else none)
                room)
            ∙ e))
          (record {
            all = omega (arith, v.all, ap count r, sum-append s.queue (n ∷ []));
            buffer_size = v.buffer_size;
            queued =
                All-append (λ k. k ≤ size) s.queue (n ∷ []) v.queued
                  (omega (arith, v.one_read, ap count r), tt);
            one_read = omega arith;
            at_end = λ d. (omega (arith, (v.at_end d).0), refl);
          })
  ]

  finish-Counts :
      (read_bytes : Option ℕ) (unread : List ℕ) (s s' : Local)
      → Counts size total s
      → s.read_bytes ≡ read_bytes
      → s.unread ≡ unread
      → finishing read_bytes unread s ≡ some s'
      → Counts size total s'
  finish-Counts (some n) unread s s' v r u e = absurd (ground arith)
  finish-Counts none (x ∷ xs) s s' v r u e = absurd (ground arith)
  finish-Counts none [] s s' v r u e = subst (Counts size total) (some-injective _ _ e) (record {
    all = v.all;
    buffer_size = v.buffer_size;
    queued = v.queued;
    one_read = v.one_read;
    at_end = λ d. (ap (length {A = ℕ}) u, ap count r);
  })

  deliver-Counts :
      (queue : List ℕ) (s s' : Local)
      → Counts size total s
      → s.queue ≡ queue
      → delivering queue s ≡ some s'
      → Counts size total s'
  deliver-Counts [] s s' v q e = absurd (ground arith)
  deliver-Counts (n ∷ rest) s s' v q e =
      let queued : All (λ k. k ≤ size) (n ∷ rest) = subst (All (λ k. k ≤ size)) q v.queued in
      let got = take n s.buffer in
      subst (Counts size total) (some-injective _ _ e) (record {
        all = omega (
          arith,
          v.all,
          ap sum q,
          ap (length {A = ℕ}) (concat-append s.received (got ∷ [])),
          length-append (concat s.received) (got ++ []),
          length-append got [],
          length-take n s.buffer (omega (arith, queued.0, v.buffer_size)),
        );
        buffer_size = v.buffer_size;
        queued = queued.1;
        one_read = v.one_read;
        at_end = v.at_end;
      })

  step-Counts :
      (capacity : ℕ) (a : Action) (s s' : Local)
      → Counts size total s
      → step size capacity a s ≡ some s'
      → Counts size total s'
  unfolding step
  step-Counts capacity read_file s s' v e = elim (Bool-cases s.closed) [
    | inl c ↦ absurd (ground (arith, c))
    | inr c ↦ read-Counts s.read_bytes s.unread s s' v c refl refl (ground (arith, c))
  ]
  step-Counts capacity send_message s s' v e = send-Counts capacity s.read_bytes s s' v refl e
  step-Counts capacity finish s s' v e = finish-Counts s.read_bytes s.unread s s' v refl refl e
  step-Counts capacity deliver s s' v e = deliver-Counts s.queue s s' v refl e

  run-Counts :
      (capacity : ℕ) (actions : List Action) (s s' : Local)
      → Counts size total s
      → run size capacity actions s ≡ some s'
      → Counts size total s'
  unfolding run
  run-Counts capacity [] s s' v e = subst (Counts size total) (some-injective _ _ e) v
  run-Counts capacity (a ∷ rest) s s' v e = elim (Option-cases (step size capacity a s)) [
    | inl n ↦ absurd (ground (arith, n))
    | inr (t, p) ↦
        run-Counts capacity rest t s' (step-Counts capacity a s t v p)
          (sym (ap (λ o. and_then o (run size capacity rest)) p) ∙ e)
  ]

-- Whatever the order of the steps, a file that is read to its end and sent to the client is sent with as many bytes as it has.
pub run-size :
    (size capacity : ℕ) (content : List ℕ) (actions : List Action) (s : Local)
    → run size capacity actions (start size content) ≡ some s
    → s.closed ≡ true
    → s.queue ≡ []
    → length (concat s.received) ≡ length content
run-size size capacity content actions s e c q =
    let v =
      run-Counts size (length content) capacity actions (start size content) s
        (start-Counts size (length content) content refl) e in
    let end = v.at_end c in omega (arith, v.all, ap sum q, end.0, end.1)
