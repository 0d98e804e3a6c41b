-- ===== src/Edge/Cache/Writing/Stream.antt =====
-- What a stream of chunks leaves on the disk of an edge node (edge/cache/cache.go).
use mathlib.Core.List.{append_assoc, append-nil}
use sdcc_project.Base.{subst, sym, ◌++◌, take}
use sdcc_project.Edge.Cache.Writing.{fail_with}
use sdcc_project.Base.{◌∙◌, ap}
use sdcc_project.Edge.Cache.Writing.{sender_failed, write_failed}
use sdcc_project.Base.{
  ℕ, suc, ◌≡◌, ◌≢◌, ◌⊎◌, inl, inr, refl, String, string_discrete, true, List, [], ◌∷◌, Option, none,
  some, arith, Option-cases,
}
use sdcc_project.Base.Dict.{insert, erase, lookup, lookup-insert, lookup-erase}
use sdcc_project.Edge.Channel.{Message}
use sdcc_project.Edge.Cache.{Disk}
use sdcc_project.Edge.Cache.Writing.{WriteError, Device, Written, write_rest, write_chunks_in_cache}

abbrev pub all_bytes : List Message → List ℕ
all_bytes [] = []
all_bytes (m ∷ ms) = m.body ++ all_bytes ms

abbrev pub content_on : String → Disk → Option (List ℕ)
content_on = lookup string_discrete

-- A stream without an error that the disk takes in full.
abbrev pub Taken : Device → ℕ → List Message → Type 0
Taken dev i [] = Unit
Taken dev i (m ∷ ms) = (m.failure ≡ none) × ((dev.refuses i (m.body) ≡ none) × Taken dev (suc i) ms)

-- How a run ends. On success the file holds all the bytes of the stream, on an error it is gone,
-- the reader is told once, and no other file changes.
abbrev pub Ends : Device → String → ℕ → List ℕ → List Message → Disk → Written → Type 0
Ends dev file_name i written messages disk out =
    ((Taken dev i messages
        × ((out.returned ≡ none)
            × (content_on file_name (out.files) ≡ some (written ++ all_bytes messages))))
      ⊎ ((Taken dev i messages → ⊥)
          × (((e : WriteError) × (out.returned ≡ some e))
              × (content_on file_name (out.files) ≡ none))))
    × ((out.replies ≡ out.returned ∷ [])
        × ((other : String)
            → other ≢ file_name
            → content_on other (out.files) ≡ content_on other disk))

store_here :
    (file_name : String) (n : List ℕ) (disk : Disk)
    → content_on file_name (insert string_discrete file_name n disk) ≡ some n
store_here file_name n disk =
    ground (arith, lookup-insert string_discrete file_name file_name n disk)

store_other :
    (file_name other : String) (n : List ℕ) (disk : Disk)
    → other ≢ file_name
    → content_on other (insert string_discrete file_name n disk) ≡ content_on other disk
store_other file_name other n disk h =
    ground (arith, lookup-insert string_discrete file_name other n disk)

gone :
    (file_name : String) (disk : Disk)
    → content_on file_name (erase string_discrete file_name disk) ≡ none
gone file_name disk = ground (arith, lookup-erase string_discrete file_name file_name disk)

gone_other :
    (file_name other : String) (disk : Disk)
    → other ≢ file_name
    → content_on other (erase string_discrete file_name disk) ≡ content_on other disk
gone_other file_name other disk h =
    ground (arith, lookup-erase string_discrete file_name other disk)

-- One chunk more.
extend :
    (dev : Device) (file_name : String) (i : ℕ) (written : List ℕ) (m : Message) (ms : List Message)
    (disk : Disk) (out : Written)
    → m.failure ≡ none
    → dev.refuses i (m.body) ≡ none
    → Ends dev file_name
        (suc i)
        (written ++ m.body)
        ms
        (insert string_discrete file_name (written ++ m.body) disk)
        out
    → Ends dev file_name i written (m ∷ ms) disk out
extend dev file_name i written m ms disk out p q (inl h, t) = (
  inl (
    (p, (q, h.0)),
    (h.1.0, h.1.1 ∙ ap (λ n. some n) (append_assoc written m.body (all_bytes ms))),
  ),
  (t.0, λ other n. t.1 other n ∙ store_other file_name other (written ++ m.body) disk n),
)
extend dev file_name i written m ms disk out p q (inr h, t) = (
  inr ((λ k. h.0 (k.1.1)), h.1),
  (t.0, λ other n. t.1 other n ∙ store_other file_name other (written ++ m.body) disk n),
)

-- The three ways of the loop's body.
module _ (dev : Device) (file_name : String) (i : ℕ) (written : List ℕ) (m : Message)
    (ms : List Message) (disk : Disk) where
  sender_stops :
      (e : String)
      → dev.unlinks ≡ true
      → m.failure ≡ some e
      → write_rest dev file_name i written (m ∷ ms) disk
        ≡ fail_with (sender_failed e) (erase string_discrete file_name disk)
  unfolding write_rest
  sender_stops e u p = rw (p, u) refl

  disk_stops :
      (k : ℕ)
      → dev.unlinks ≡ true
      → m.failure ≡ none
      → dev.refuses i (m.body) ≡ some k
      → write_rest dev file_name i written (m ∷ ms) disk
        ≡ fail_with write_failed (
            erase string_discrete file_name
              (insert string_discrete file_name (written ++ take k m.body) disk))
  unfolding write_rest
  disk_stops k u p q = rw (p, q, u) refl

  chunk_written :
      m.failure ≡ none
      → dev.refuses i (m.body) ≡ none
      → write_rest dev file_name i written (m ∷ ms) disk
        ≡ write_rest dev file_name
            (suc i)
            (written ++ m.body)
            ms
            (insert string_discrete file_name (written ++ m.body) disk)
  unfolding write_rest
  chunk_written p q = rw (p, q) refl

write_rest-Ends :
    (dev : Device) (file_name : String) (i : ℕ) (written : List ℕ) (ms : List Message) (disk : Disk)
    → dev.unlinks ≡ true
    → content_on file_name disk ≡ some written
    → Ends dev file_name i written ms disk (write_rest dev file_name i written ms disk)
unfolding write_rest
write_rest-Ends dev file_name i written [] disk u h =
    (inl (tt, (refl, h ∙ ap (λ n. some n) (sym (append-nil written)))), (refl, λ other n. refl))
write_rest-Ends dev file_name i written (m ∷ ms) disk u h = elim (Option-cases (m.failure)) [
  | inr (e, p) ↦
      subst (Ends dev file_name i written (m ∷ ms) disk)
        (sym (sender_stops dev file_name i written m ms disk e u p))
        (
          inr ((λ t. ground (arith, t.0)), ((sender_failed e, refl), gone file_name disk)),
          (refl, λ other n. gone_other file_name other disk n),
        )
  | inl p ↦ elim (Option-cases (dev.refuses i (m.body))) [
    | inr (k, q) ↦
        subst (Ends dev file_name i written (m ∷ ms) disk)
          (sym (disk_stops dev file_name i written m ms disk k u p q))
          (
            inr (
              (λ t. ground (arith, t.1.0)),
              (
                (write_failed, refl),
                gone file_name (insert string_discrete file_name (written ++ take k m.body) disk),
              ),
            ),
            (
              refl,
              λ other n.
                  gone_other file_name other
                    (insert string_discrete file_name (written ++ take k m.body) disk) n
                  ∙ store_other file_name other (written ++ take k m.body) disk n,
            ),
          )
    | inl q ↦
        subst (Ends dev file_name i written (m ∷ ms) disk)
          (sym (chunk_written dev file_name i written m ms disk p q))
          (extend dev file_name i written m ms disk
            (write_rest dev file_name (suc i) (written ++ m.body) ms
              (insert string_discrete file_name (written ++ m.body) disk))
            p q
            (write_rest-Ends dev file_name (suc i) (written ++ m.body) ms
              (insert string_discrete file_name (written ++ m.body) disk) u
              (store_here file_name (written ++ m.body) disk)))
  ]
]

opened :
    (dev : Device) (file_name : String) (m : Message) (ms : List Message) (disk : Disk)
    → dev.creates ≡ true
    → dev.locks_new ≡ true
    → write_chunks_in_cache dev file_name (m ∷ ms) disk
      ≡ write_rest dev file_name 0 [] (m ∷ ms) (insert string_discrete file_name [] disk)
unfolding write_chunks_in_cache
opened dev file_name m ms disk c l = rw (c, l) refl

-- On a device that creates, locks and removes files, a stream of at least one message ends in one of two ways.
-- If no message carries an error and the disk takes every chunk, the call returns nil and the file holds
-- the bytes of the stream, in order; otherwise it returns an error and there is no such file. The value
-- returned is sent once to the return channel, and every other file is as before.
pub write_chunks_in_cache_lem :
    (dev : Device) (file_name : String) (m : Message) (ms : List Message) (disk : Disk)
    → dev.creates ≡ true
    → dev.locks_new ≡ true
    → dev.unlinks ≡ true
    → Ends dev file_name 0 [] (m ∷ ms) disk (write_chunks_in_cache dev file_name (m ∷ ms) disk)
unfolding write_chunks_in_cache
write_chunks_in_cache_lem dev file_name m ms disk c l u =
    let r =
      write_rest-Ends dev file_name 0 [] (m ∷ ms) (insert string_discrete file_name [] disk) u
        (store_here file_name [] disk) in
    subst (Ends dev file_name 0 [] (m ∷ ms) disk) (sym (opened dev file_name m ms disk c l))
      (r.0, (r.1.0, λ other n. r.1.1 other n ∙ store_other file_name other [] disk n))
