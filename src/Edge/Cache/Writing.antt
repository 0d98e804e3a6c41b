-- ===== src/Edge/Cache/Writing.antt =====
-- `writeChunksInCache` and `InsertFileInCache` (edge/cache/cache.go): a stream of chunks becomes a file of
-- the cache. The messages are those that arrive before the channel is closed.
pub mod Stream
use sdcc_project.Base.{
  ℕ, zero, suc, ◌+◌, ◌≡◌, String, string_discrete, Bool, true, false, List, [], ◌∷◌, ◌++◌, take,
  Option, none, some, Outcome, ok, ◌>>=◌, if◌then◌else◌, length,
}
use sdcc_project.Base.Int.{ℤ, pos}
use sdcc_project.Base.Dict.{insert, erase, has_key}
use sdcc_project.Edge.Channel.{Message}
use sdcc_project.Edge.Cache.{Cache, Disk, World, System, Run, insert_file_in_queue}
use sdcc_project.Edge.Cache.Eviction.{Sort, free_space_for_insert}

pub data WriteError : Type 0 where
  create_failed : WriteError
  lock_failed : WriteError
  sender_failed : String → WriteError
  write_failed : WriteError
  not_saved : WriteError

-- What the operating system answers to a new file: whether it creates it and locks it, and how many
-- bytes of a chunk it takes when it does not take them all. The chunks are counted from zero.
pub record Device : Type 0 where
  pub creates : Bool
  pub locks_new : Bool
  pub refuses : ℕ → List ℕ → Option ℕ
  pub unlinks : Bool

-- What the function returns, what it sends to the return channel, and the files it leaves.
pub record Written : Type 0 where
  pub returned : Option WriteError
  pub replies : List (Option WriteError)
  pub files : Disk

abbrev pub fail_with : WriteError → Disk → Written
fail_with e disk = record { returned = some e; replies = some e ∷ []; files = disk }

abbrev unlink : Device → String → Disk → Disk
unlink dev file_name disk = if dev.unlinks then erase string_discrete file_name disk else disk

abbrev store : String → List ℕ → Disk → Disk
store file_name bytes disk = insert string_discrete file_name bytes disk

-- The loop once the file is open, with the bytes that are written.
unfoldable pub write_rest : Device → String → ℕ → List ℕ → List Message → Disk → Written
write_rest dev file_name i written [] disk = record {
  returned = none;
  replies = none ∷ [];
  files = disk;
}
write_rest dev file_name i written (m ∷ rest) disk = elim (m.failure) [
  | some e ↦ fail_with (sender_failed e) (unlink dev file_name disk)
  | none ↦ elim (dev.refuses i m.body) [
    | some k ↦
        fail_with write_failed
          (unlink dev file_name (store file_name (written ++ take k m.body) disk))
    | none ↦
        let written' = written ++ m.body in
        write_rest dev file_name (suc i) written' rest (store file_name written' disk)
  ]
]

-- The first message creates the file, or empties the one of that name.
unfoldable pub write_chunks_in_cache : Device → String → List Message → Disk → Written
unfolding write_rest
write_chunks_in_cache dev file_name [] disk = record {
  returned = some not_saved;
  replies = [];
  files = disk;
}
write_chunks_in_cache dev file_name (m ∷ rest) disk =
    if dev.creates
    then if dev.locks_new
      then write_rest dev file_name 0 [] (m ∷ rest) (store file_name [] disk)
      else fail_with lock_failed (store file_name [] disk)
    else fail_with create_failed disk

-- The end of `InsertFileInCache`
unfoldable pub finish_insert : String → ℤ → ℕ → Written → World → Run (List (Option WriteError))
unfolding insert_file_in_queue
finish_insert file_name file_size now out w = elim (out.returned) [
  | some e ↦ ok (out.replies, record w { disk = out.files })
  | none ↦ do
    c ← insert_file_in_queue file_name file_size now w.cache
    ok (out.replies, record w { cache = c; disk = out.files })
]

-- `InsertFileInCache`, with what it sends to the return channel.
unfoldable pub insert_file_in_cache :
    System
    → Sort
    → ℕ
    → (ℕ → ℕ)
    → Device
    → List Message
    → String
    → ℤ
    → World
    → Run (List (Option WriteError))
unfolding free_space_for_insert write_chunks_in_cache finish_insert
insert_file_in_cache sys sort ttl clock dev messages file_name file_size w =
    if has_key string_discrete file_name w.cache.caching_map then ok ([], w) else (do
      (freed, w') ← free_space_for_insert sys sort ttl clock file_size w
      if freed
          then finish_insert file_name file_size (clock (suc w.cache.count))
              (write_chunks_in_cache dev file_name messages w'.disk) w'
          else ok ([], w'))
