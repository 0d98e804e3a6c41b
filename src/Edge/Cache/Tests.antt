-- ===== src/Edge/Cache/Tests.antt =====
-- The cache of an edge node on concrete files.
use sdcc_project.Edge.Cache.Sweep.{IsSwept, Completes, delete_expired_files-IsSwept}
use sdcc_project.Base.{zero, suc, String, All, inl, inr, suc}
use sdcc_project.Base.Dict.{All-lookup}
use sdcc_project.Edge.Cache.{Cache}
use sdcc_project.Base.{In, ite, ◌≢◌}
use sdcc_project.Base.Dict.{has_key}
use sdcc_project.Edge.Cache.{insert_file_in_queue, remove_file_from_queue}
use sdcc_project.Edge.Cache.Valid.{IsValid, Named}
use sdcc_project.Edge.Cache.Queue.{insert_file_in_queue-IsValid}
use sdcc_project.Edge.Cache.Removal.{remove_file_from_queue-IsValid}
use sdcc_project.Base.{ℕ, ◌≡◌, refl, true, false, List, [], ◌∷◌, none, Outcome, ok, deadlock, arith}
use sdcc_project.Base.Int.{pos, IsInt64, wrap64, ◌+ℤ◌, ◌-ℤ◌}
use sdcc_project.Base.Dict.{lookup, erase}
use sdcc_project.Base.{string_discrete}
use sdcc_project.Edge.Channel.{Message}
use sdcc_project.Edge.Cache.{
  File, World, System, caching_list, delete_expired_files, remove_with_locks,
}
use sdcc_project.Edge.Cache.Eviction.{
  files_at, select_files, final_files, needed_files, choose_and_delete_files,
}
use sdcc_project.Edge.Cache.Deadlock.{
  Spared, choose_and_delete_files-Spared, choose_and_delete_files-waits,
}
use sdcc_project.Edge.Cache.Writing.{Device, write_chunks_in_cache}
use sdcc_project.Edge.Cache.Writing.Stream.{Ends, write_chunks_in_cache_lem}

abbrev healthy : System
healthy = record {
  opens = λ name. true;
  locks = λ name. true;
  removes = λ name. true;
  unlocks = λ name. true;
  lists = true;
  free_memory = λ disk. pos 0;
}

abbrev small : File
small = record { file_name = "small"; file_size = pos 10; timestamp = 0; popularity = pos 1 }

abbrev large : File
large = record { file_name = "large"; file_size = pos 90; timestamp = 0; popularity = pos 2 }

abbrev medium : File
medium = record { file_name = "medium"; file_size = pos 50; timestamp = 0; popularity = pos 3 }

abbrev zeros : ℕ → List ℕ
zeros zero = []
zeros (suc n) = 0 ∷ zeros n

abbrev three_files : World
three_files = record {
  cache = record {
    array = 0 ∷ 1 ∷ 2 ∷ [];
    count = 3;
    caching_map = ("small", 0) ∷ ("large", 1) ∷ ("medium", 2) ∷ [];
    heap = small ∷ large ∷ medium ∷ [];
    cache_mutex = false;
  };
  disk = ("small", zeros 10) ∷ ("large", zeros 90) ∷ ("medium", zeros 50) ∷ [];
}

choose_and_delete_files-Spared_example :
    Spared three_files (choose_and_delete_files healthy 7 (pos 95) three_files)
choose_and_delete_files-Spared_example =
    choose_and_delete_files-Spared healthy 7 (pos 95) three_files refl

small_IsInt64 : IsInt64 (pos 10)
small_IsInt64 = ground arith

choose_and_delete_files-waits_example :
    choose_and_delete_files healthy 7 (pos 95) three_files ≡ deadlock
unfolding files_at select_files final_files needed_files wrap64 ◌+ℤ◌ ◌-ℤ◌ remove_with_locks lookup
    string_discrete
choose_and_delete_files-waits_example =
    choose_and_delete_files-waits healthy 7 (pos 95) three_files (pos 100) small (large ∷ []) large
      [] refl refl refl refl

-- The file after an expired one is passed over.
abbrev names_left : Outcome ⊥ World → List ℕ
names_left (ok w) = caching_list (w.cache)
names_left _ = []

sweep_skips : names_left (delete_expired_files healthy 1 (λ i. 2_000_000_000) three_files) ≡ 1 ∷ []
unfolding delete_expired_files lookup erase string_discrete
sweep_skips = refl

abbrev disk_of : Device
disk_of = record { creates = true; locks_new = true; refuses = λ i chunk. none; unlinks = true }

abbrev chunk : Message
chunk = record { body = 1 ∷ 2 ∷ 3 ∷ []; failure = none }

write_chunks_in_cache_lem_example :
    Ends disk_of "large" 0 []
      (chunk ∷ chunk ∷ [])
      (three_files.disk)
      (write_chunks_in_cache disk_of "large" (chunk ∷ chunk ∷ []) (three_files.disk))
write_chunks_in_cache_lem_example =
    write_chunks_in_cache_lem disk_of "large" chunk (chunk ∷ []) (three_files.disk) refl refl refl

abbrev Listed : String × ℕ → Type 0
Listed e = Named (three_files.cache.heap) e.0 e.1 × In e.1 (0 ∷ 1 ∷ 2 ∷ [])

map_entries : All Listed (three_files.cache.caching_map)
map_entries = (
  ((small, refl, refl), inl refl),
  (((large, refl, refl), inr (inl refl)), (((medium, refl, refl), inr (inr (inl refl))), tt)),
)

three_files-IsValid : IsValid (three_files.cache)
unfolding lookup string_discrete
three_files-IsValid = (
  refl,
  omega arith,
  record {
    keys = (refl, (refl, (refl, tt)));
    listed = λ name ref e.
        All-lookup string_discrete Listed name (three_files.cache.caching_map) map_entries e;
    mapped = (
      ("small", (small, refl, refl), refl),
      (("large", (large, refl, refl), refl), (("medium", (medium, refl, refl), refl), tt)),
    );
    distinct = ((λ h. ground arith), ((λ h. ground arith), ((λ h. h), tt)));
  },
)

insert_file_in_queue-IsValid_example :
    (c' : Cache) × (insert_file_in_queue "new" (pos 5) 9 (three_files.cache) ≡ ok c')
    × IsValid c'
    × (has_key string_discrete "new" c'.caching_map ≡ true)
    × ((other : String)
        → other ≢ "new"
        → lookup string_discrete other c'.caching_map
          ≡ lookup string_discrete other three_files.cache.caching_map)
insert_file_in_queue-IsValid_example =
    insert_file_in_queue-IsValid "new" (pos 5) 9 (three_files.cache) three_files-IsValid

remove_file_from_queue-IsValid_example :
    (c' : Cache) × (remove_file_from_queue healthy 9 "large" three_files
      ≡ ok (record three_files { cache = c' }))
    × IsValid c'
    × ((other : String)
        → lookup string_discrete other c'.caching_map
          ≡ ite
              (string_discrete "large" other)
              none
              (lookup string_discrete other three_files.cache.caching_map))
unfolding lookup string_discrete
remove_file_from_queue-IsValid_example =
    remove_file_from_queue-IsValid healthy 9 "large" three_files three_files-IsValid refl

three_files-IsSwept : IsSwept 3 three_files
unfolding lookup string_discrete
three_files-IsSwept = (
  three_files-IsValid,
  (
    omega arith,
    ((small, refl, inl refl), ((large, refl, inl refl), ((medium, refl, inl refl), tt))),
  ),
)

delete_expired_files-IsSwept_example :
    Completes 3 (delete_expired_files healthy 1 (λ i. 2_000_000_000) three_files)
delete_expired_files-IsSwept_example =
    delete_expired_files-IsSwept healthy 1 (λ i. 2_000_000_000) three_files three_files-IsSwept
