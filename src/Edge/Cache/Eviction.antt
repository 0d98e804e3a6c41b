-- ===== src/Edge/Cache/Eviction.antt =====
-- `freeSpaceForInsert` and `chooseAndDeleteFiles` (edge/cache/cache.go): which files have to go.
use sdcc_project.Base.{
  ℕ, ◌&&◌, Bool, true, false, List, [], ◌∷◌, ◌++◌, none, some, Outcome, ok, deadlock, ◌>>=◌,
  if◌then◌else◌, get_elem?, take, drop,
}
use sdcc_project.Base.Int.{ℤ, pos, ◌+ℤ◌, ◌-ℤ◌, ltb_ℤ, leb_ℤ, wrap64}
use sdcc_project.Edge.Cache.{
  File, Cache, World, System, caching_list, remove_file_from_cache, delete_expired_files,
}

-- Files in the order of the list. A pointer to nothing is left out; there is none in a valid cache.
unfoldable pub files_at : List File → List ℕ → List File
files_at heap [] = []
files_at heap (ref ∷ rest) = elim (get_elem? heap ref) [
  | none ↦ files_at heap rest
  | some file ↦ file ∷ files_at heap rest
]

-- The first loop: files are taken until they hold the memory that is required. The result is the
-- memory that they hold, and the files.
unfoldable pub select_files : ℤ → ℤ → List File → ℤ × List File
select_files memory_required memory_count [] = (memory_count, [])
select_files memory_required memory_count (file ∷ rest) =
    let count = wrap64 (memory_count +ℤ file.file_size) in
    let (total, selected) = select_files memory_required count rest in
    if leb_ℤ memory_required count then (count, file ∷ []) else (total, file ∷ selected)

-- The second loop, from the last selected file down to the one at index 1: a file has to go if
-- without it too little memory would be freed. `memory_count` does not change.
unfoldable pub needed_files : ℤ → ℤ → List File → List File
needed_files memory_required memory_count [] = []
needed_files memory_required memory_count (file ∷ rest) =
    needed_files memory_required memory_count rest
    ++ (if ltb_ℤ (wrap64 (memory_count -ℤ file.file_size)) memory_required then file ∷ [] else [])

unfoldable pub final_files : ℤ → ℤ → List File → List File
unfolding needed_files
final_files memory_required memory_count [] = []
final_files memory_required memory_count (first ∷ rest) =
    needed_files memory_required memory_count rest

-- The third loop.
unfoldable pub delete_files : System → ℕ → List File → World → Outcome ⊥ World
delete_files sys now [] w = ok w
delete_files sys now (file ∷ rest) w = do
  w' ← remove_file_from_cache sys now file.file_name w
  delete_files sys now rest w'

abbrev pub hold : Bool → World → World
hold b w = record w { cache = record (w.cache) { cache_mutex = b } }

-- `chooseAndDeleteFiles`, with whether it returns no error. The mutex is held all the while.
unfoldable pub choose_and_delete_files : System → ℕ → ℤ → World → Outcome ⊥ (Bool × World)
unfolding files_at select_files final_files delete_files
choose_and_delete_files sys now memory_required w =
    if w.cache.cache_mutex
    then deadlock
    else (let (memory_count, selected) =
          select_files memory_required (pos 0) (files_at w.cache.heap (caching_list w.cache)) in
        elim selected [
          | [] ↦ ok (false, w)
          | file ∷ rest ↦ do
            w' ←
                delete_files sys now (final_files memory_required memory_count (file ∷ rest))
                  (hold true w)
            ok (true, hold false w')
        ])

-- `sort.Sort(ByPopularity(...))` permutes the list in place. How it orders files of the same popularity is up to
-- the library, so the sort is an argument.
abbrev pub Sort : Type 0
Sort = List File → List ℕ → List ℕ

-- `freeSpaceForInsert` after the expired files are gone, and `freeSpaceForInsert`
abbrev pub sort_list : Sort → Cache → Cache
sort_list sort c = record c { array = sort c.heap (take c.count c.array) ++ drop c.count c.array }

unfoldable pub make_room : System → Sort → ℕ → ℤ → World → Outcome ⊥ (Bool × World)
unfolding choose_and_delete_files
make_room sys sort now file_size w =
    let free_memory = sys.free_memory w.disk in
    if ltb_ℤ free_memory file_size
    then choose_and_delete_files sys now (wrap64 (file_size -ℤ free_memory))
        (record w { cache = sort_list sort w.cache })
    else ok (true, w)

unfoldable pub free_space_for_insert :
    System → Sort → ℕ → (ℕ → ℕ) → ℤ → World → Outcome ⊥ (Bool × World)
unfolding make_room
free_space_for_insert sys sort ttl clock file_size w = do
  w' ← delete_expired_files sys ttl clock w
  make_room sys sort (clock w.cache.count) file_size w'

-- `IsFileCacheable`
unfoldable pub is_file_cacheable : ℤ → ℤ → Bool
is_file_cacheable max_size file_size = ltb_ℤ (pos 0) file_size && leb_ℤ file_size max_size
