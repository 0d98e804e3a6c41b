-- ===== src/Edge/Cache.antt =====
-- edge/cache/cache.go: the cache of an edge node. The map and the list of the cache hold pointers to the
-- same files, which stand on a heap. The list is a slice: its backing array and its length, since a
-- loop by `range` goes on reading the array that later writes shift. `cache_mutex` says whether the
-- mutex of that name is held; a goroutine that locks it again waits forever.
pub mod Eviction
pub mod Writing
pub mod Deadlock
pub mod Valid
pub mod Queue
pub mod Shift
pub mod Removal
pub mod Sweep
pub mod Filter
mod Tests
use sdcc_project.Base.{
  ℕ, zero, suc, ◌+◌, ◌-◌, ◌*◌, ◌≡◌, String, string_discrete, Bool, true, false, not, ◌&&◌, List, [],
  ◌∷◌, ◌++◌, Option, none, some, Outcome, ok, panic, deadlock, ◌>>=◌, ltb, if◌then◌else◌, length,
  get_elem?, take, drop, ite,
}
use sdcc_project.Base.Int.{ℤ, pos, negsuc, ◌+ℤ◌, ltb_ℤ, leb_ℤ, wrap64}
use sdcc_project.Base.Dict.{insert, erase, has_key, lookup}

pub record File : Type 0 where
  pub file_name : String
  pub file_size : ℤ
  pub timestamp : ℕ
  pub popularity : ℤ

pub record Cache : Type 0 where
  pub array : List ℕ
  pub count : ℕ
  pub caching_map : List (String × ℕ)
  pub heap : List File
  pub cache_mutex : Bool

abbrev pub caching_list : Cache → List ℕ
caching_list c = take c.count c.array

-- The files under `FILES_PATH`, with their bytes.
abbrev pub Disk : Type 0
Disk = List (String × List ℕ)

-- The cache and the file system.
pub record World : Type 0 where
  pub cache : Cache
  pub disk : Disk

-- What the operating system answers: whether it opens, locks, removes and unlocks a file, whether
-- it lists the directory, and how much memory is free.
pub record System : Type 0 where
  pub opens : String → Bool
  pub locks : String → Bool
  pub removes : String → Bool
  pub unlocks : String → Bool
  pub lists : Bool
  pub free_memory : Disk → ℤ

-- A call with its result; it has no error of its own.
abbrev pub Run : Type 0 → Type 0
Run A = Outcome ⊥ (A × World)

abbrev pub file_at : ℕ → Cache → Option File
file_at ref c = get_elem? c.heap ref

-- `IsFileInCache` with `incrementPopularity`
abbrev pub bump : File → File
bump f = record f { popularity = wrap64 (f.popularity +ℤ pos 1) }

unfoldable pub modify : ℕ → (File → File) → List File → List File
modify i f [] = []
modify zero f (x ∷ xs) = f x ∷ xs
modify (suc i) f (x ∷ xs) = x ∷ modify i f xs

unfoldable pub increment_popularity : String → Cache → Outcome ⊥ (Bool × Cache)
unfolding modify
increment_popularity file_name c = elim (lookup string_discrete file_name c.caching_map) [
  | none ↦ ok (false, c)
  | some ref ↦
      if c.cache_mutex then deadlock else ok (true, record c { heap = modify ref bump c.heap })
]

unfoldable pub is_file_in_cache : String → Cache → Outcome ⊥ (Bool × Cache)
unfolding increment_popularity
is_file_in_cache file_name c =
    if has_key string_discrete file_name c.caching_map
    then (do (_, c') ← increment_popularity file_name c; ok (true, c'))
    else ok (false, c)

-- `GetFileSize`
unfoldable pub size_in : String → List File → List ℕ → ℤ
size_in file_name heap [] = negsuc 0
size_in file_name heap (ref ∷ rest) = elim (get_elem? heap ref) [
  | none ↦ size_in file_name heap rest
  | some file ↦
      ite (string_discrete file.file_name file_name) file.file_size (size_in file_name heap rest)
]

abbrev pub get_file_size : String → Cache → ℤ
get_file_size file_name c = size_in file_name c.heap (caching_list c)

-- `append(list, x)` writes behind the last entry.
abbrev pub append_entry : ℕ → Cache → Cache
append_entry ref c = record c {
  array = take c.count c.array ++ (ref ∷ drop (suc c.count) c.array);
  count = suc c.count;
}

-- `insertFileInQueue`; it does not read the popularity that it is given.
unfoldable pub insert_file_in_queue : String → ℤ → ℕ → Cache → Outcome ⊥ Cache
unfolding modify
insert_file_in_queue file_name file_size now c =
    if c.cache_mutex then deadlock else (elim (lookup string_discrete file_name c.caching_map) [
      | some ref ↦ ok (record c { heap = modify ref bump c.heap })
      | none ↦
          let new_file : File = record {
            file_name = file_name;
            file_size = file_size;
            timestamp = now;
            popularity = pos 1;
          } in
          let ref = length c.heap in
          ok (
            append_entry ref (record c {
              caching_map = insert string_discrete file_name ref c.caching_map;
              heap = c.heap ++ (new_file ∷ []);
            }))
    ])

-- `ActivateCacheRecovery`: every regular file of the directory is inserted.
unfoldable pub insert_all : Disk → ℕ → Cache → Outcome ⊥ Cache
unfolding insert_file_in_queue
insert_all [] now c = ok c
insert_all ((file_name, bytes) ∷ rest) now c = do
  c' ← insert_file_in_queue file_name (pos (length bytes)) now c
  insert_all rest now c'

unfoldable pub activate_cache_recovery : System → ℕ → World → Outcome ⊥ World
unfolding insert_all
activate_cache_recovery sys now w =
    if sys.lists then (do c ← insert_all w.disk now w.cache; ok (record w { cache = c })) else ok w

-- `getIndex`
pub data Index : Type 0 where
  found : ℕ → Index
  absent : Index
  inconsistent : Index

unfoldable pub index_from : ℕ → String → List File → List ℕ → Index
index_from i file_name heap [] = inconsistent
index_from i file_name heap (ref ∷ rest) = elim (get_elem? heap ref) [
  | none ↦ index_from (suc i) file_name heap rest
  | some file ↦
      ite (string_discrete file.file_name file_name) (found i)
        (index_from (suc i) file_name heap rest)
]

unfoldable pub get_index : String → Cache → Index
unfolding index_from
get_index file_name c =
    if has_key string_discrete file_name c.caching_map
    then index_from 0 file_name c.heap (caching_list c)
    else absent

-- `append(list[:i], list[i+1:]...)` moves the entries behind `i` one place to the left; the last
-- place of the old list keeps its entry.
unfoldable pub shift_out : ℕ → ℕ → List ℕ → List ℕ
shift_out i n array = take i array ++ (take (n - suc i) (drop (suc i) array) ++ drop (n - 1) array)

-- `removeFileFromQueue`. An absent file has index -1, and a slice up to -1 panics. After an
-- inconsistency the recovery runs while the mutex is held.
unfoldable pub remove_file_from_queue : System → ℕ → String → World → Outcome ⊥ World
unfolding get_index shift_out activate_cache_recovery
remove_file_from_queue sys now file_name w =
    if w.cache.cache_mutex then deadlock else (elim (get_index file_name w.cache) [
      | absent ↦ panic
      | inconsistent ↦ do
        w' ←
            activate_cache_recovery sys now
              (record w { cache = record (w.cache) { cache_mutex = true } })
        ok (record w' { cache = record (w'.cache) { cache_mutex = false } })
      | found i ↦ ok (record w {
        cache = record (w.cache) {
          caching_map = erase string_discrete file_name w.cache.caching_map;
          array = shift_out i w.cache.count w.cache.array;
          count = w.cache.count - 1;
        };
      })
    ])

-- `removeWithLocks`: whether it returns no error, and the files that are left.
unfoldable pub remove_with_locks : System → String → Disk → Bool × Disk
remove_with_locks sys file_name disk =
    if has_key string_discrete file_name disk && sys.opens file_name
    then if sys.locks file_name
      then if sys.removes file_name
        then (sys.unlocks file_name, erase string_discrete file_name disk)
        else (false, disk)
      else (false, disk)
    else (false, disk)

unfoldable pub remove_file_from_cache : System → ℕ → String → World → Outcome ⊥ World
unfolding remove_with_locks remove_file_from_queue
remove_file_from_cache sys now file_name w =
    let (removed, disk) = remove_with_locks sys file_name w.disk in
    if removed
    then remove_file_from_queue sys now file_name (record w { disk = disk })
    else ok (record w { disk = disk })

abbrev pub second : ℕ
second = 1_000_000_000

abbrev pub is_expired : ℕ → ℕ → File → Bool
is_expired time_to_deletion now file = ltb (file.timestamp + time_to_deletion * second) now

-- The body of the loop of `deleteExpiredFiles` at index `i`.
unfoldable pub sweep_one : System → ℕ → (ℕ → ℕ) → ℕ → World → Outcome ⊥ World
unfolding remove_file_from_cache
sweep_one sys ttl clock i w = elim (get_elem? w.cache.array i) [
  | none ↦ panic
  | some ref ↦ elim (file_at ref w.cache) [
    | none ↦ panic
    | some file ↦
        if is_expired ttl (clock i) file
        then remove_file_from_cache sys (clock i) file.file_name w
        else ok w
  ]
]

-- The loop itself: `left` entries are still to come.
unfoldable pub sweep : System → ℕ → (ℕ → ℕ) → ℕ → ℕ → World → Outcome ⊥ World
unfolding sweep_one
sweep sys ttl clock i zero w = ok w
sweep sys ttl clock i (suc left) w = do
  w' ← sweep_one sys ttl clock i w
  sweep sys ttl clock (suc i) left w'

unfoldable pub delete_expired_files : System → ℕ → (ℕ → ℕ) → World → Outcome ⊥ World
unfolding sweep
delete_expired_files sys time_to_deletion clock w =
    sweep sys time_to_deletion clock 0 w.cache.count w
