-- ===== src/Edge/Cache/Deadlock.antt =====
-- What `chooseAndDeleteFiles` (edge/cache/cache.go) achieves: it holds the mutex that the removal of a file locks.
use sdcc_project.Base.{ap}
use sdcc_project.Base.Int.{◌≤ℤ◌, IsInt64, wrap64_of_IsInt64}
use sdcc_project.Base.{
  ℕ, ◌≡◌, refl, ◌⊎◌, inl, inr, ◌∙◌, subst, sym, String, Bool, true, false, List, [], ◌∷◌, Outcome,
  ok, deadlock, ◌>>=◌, if◌then◌else◌, Bool-cases, arith,
}
use sdcc_project.Base.Int.{ℤ, pos, negsuc, ◌+ℤ◌}
use sdcc_project.Edge.Cache.{
  File, Disk, World, System, caching_list, remove_with_locks, remove_file_from_queue,
  remove_file_from_cache,
}
use sdcc_project.Edge.Cache.Eviction.{
  files_at, select_files, needed_files, final_files, delete_files, hold, choose_and_delete_files,
}

abbrev pub with_disk : Disk → World → World
with_disk d w = record w { disk = d }

-- The call waits forever, or the cache is as before.
abbrev pub Stuck : World → Outcome ⊥ World → Type 0
Stuck w o = (o ≡ deadlock) ⊎ ((d : Disk) × (o ≡ ok (with_disk d w)))

queue_waits :
    (sys : System) (now : ℕ) (name : String) (w : World)
    → w.cache.cache_mutex ≡ true
    → remove_file_from_queue sys now name w ≡ deadlock
unfolding remove_file_from_queue
queue_waits sys now name w h = rw h refl

removed_waits :
    (sys : System) (now : ℕ) (name : String) (w : World)
    → w.cache.cache_mutex ≡ true
    → (remove_with_locks sys name w.disk).0 ≡ true
    → remove_file_from_cache sys now name w ≡ deadlock
unfolding remove_file_from_cache
removed_waits sys now name w h r =
    rw r (queue_waits sys now name (with_disk (remove_with_locks sys name w.disk).1 w) h)

remove-Stuck :
    (sys : System) (now : ℕ) (name : String) (w : World)
    → w.cache.cache_mutex ≡ true
    → Stuck w (remove_file_from_cache sys now name w)
unfolding remove_file_from_cache
remove-Stuck sys now name w h = elim (Bool-cases (remove_with_locks sys name w.disk).0) [
  | inl r ↦ inl (removed_waits sys now name w h r)
  | inr r ↦ inr ((remove_with_locks sys name w.disk).1, rw r refl)
]

Stuck-then :
    (w : World) (o : Outcome ⊥ World) (k : World → Outcome ⊥ World)
    → Stuck w o
    → ((d : Disk) → Stuck w (k (with_disk d w)))
    → Stuck w (o >>= k)
Stuck-then w o k (inl e) f = inl (rw e refl)
Stuck-then w o k (inr (d, e)) f = rw e (f d)

delete_files-Stuck :
    (sys : System) (now : ℕ) (files : List File) (w : World)
    → w.cache.cache_mutex ≡ true
    → Stuck w (delete_files sys now files w)
unfolding delete_files
delete_files-Stuck sys now [] w h = inr (w.disk, refl)
delete_files-Stuck sys now (file ∷ rest) w h =
    Stuck-then w (remove_file_from_cache sys now file.file_name w) (delete_files sys now rest)
      (remove-Stuck sys now file.file_name w h)
      (λ d. delete_files-Stuck sys now rest (with_disk d w) h)

abbrev choose_at : System → ℕ → ℤ → World → ℤ × List File → Outcome ⊥ (Bool × World)
choose_at sys now memory_required w p = elim (p.1) [
  | [] ↦ ok (false, w)
  | file ∷ rest ↦ do
    w' ← delete_files sys now (final_files memory_required (p.0) (file ∷ rest)) (hold true w)
    ok (true, hold false w')
]

abbrev pub Spared : World → Outcome ⊥ (Bool × World) → Type 0
Spared w o = (o ≡ deadlock) ⊎ ((b : Bool) × ((d : Disk) × (o ≡ ok (b, with_disk d w))))

release :
    (w : World) (o : Outcome ⊥ World)
    → w.cache.cache_mutex ≡ false
    → Stuck (hold true w) o
    → Spared w (do w' ← o; ok (true, hold false w'))
release w o h (inl e) = inl (rw e refl)
release w o h (inr (d, e)) = inr (true, (d, rw (e, h) refl))

choose_at-Spared :
    (sys : System) (now : ℕ) (required : ℤ) (w : World) (p : ℤ × List File)
    → w.cache.cache_mutex ≡ false
    → Spared w (choose_at sys now required w p)
choose_at-Spared sys now required w (m, []) h = inr (false, (w.disk, refl))
choose_at-Spared sys now required w (m, file ∷ rest) h =
    release w (delete_files sys now (final_files required m (file ∷ rest)) (hold true w)) h
      (delete_files-Stuck sys now (final_files required m (file ∷ rest)) (hold true w) refl)

choose_unlocked :
    (sys : System) (now : ℕ) (required : ℤ) (w : World)
    → w.cache.cache_mutex ≡ false
    → choose_and_delete_files sys now required w
      ≡ choose_at sys now required w
          (select_files required (pos 0) (files_at w.cache.heap (caching_list w.cache)))
unfolding choose_and_delete_files
choose_unlocked sys now required w h =
    elim (w.cache.cache_mutex)
        as (λ b.
          b ≡ false
          → ((if b
                then deadlock
                else choose_at sys now required w
                    (select_files required (pos 0) (files_at w.cache.heap (caching_list w.cache))))
              ≡ choose_at sys now required w
                  (select_files required (pos 0) (files_at w.cache.heap (caching_list w.cache))))) [
                    | true ↦ λ e. ground arith
                    | false ↦ λ e. refl
                  ]
      h

-- A call of chooseAndDeleteFiles with the mutex free either waits forever, or returns with the cache as it was:
-- it takes no file out of the map or of the list.
pub choose_and_delete_files-Spared :
    (sys : System) (now : ℕ) (required : ℤ) (w : World)
    → w.cache.cache_mutex ≡ false
    → Spared w (choose_and_delete_files sys now required w)
choose_and_delete_files-Spared sys now required w h =
    subst (Spared w) (sym (choose_unlocked sys now required w h)) (
      choose_at-Spared sys now required w
        (select_files required (pos 0) (files_at w.cache.heap (caching_list w.cache))) h)

zero_plus : (a : ℤ) → pos 0 +ℤ a ≡ a
unfolding ◌+ℤ◌
zero_plus (pos n) = ground arith
zero_plus (negsuc n) = ground arith

select_first :
    (required : ℤ) (file : File) (rest : List File)
    → IsInt64 file.file_size
    → required ≤ℤ file.file_size
    → select_files required (pos 0) (file ∷ rest) ≡ (file.file_size, file ∷ [])
unfolding select_files
select_first required file rest i r =
    rw (zero_plus file.file_size, wrap64_of_IsInt64 file.file_size i) (ground arith)

-- If the mutex is free and the first file of the list is at least as large as the memory that is required, then
-- chooseAndDeleteFiles returns without an error and deletes nothing, neither from the cache nor from the disk.
pub first_file_stays :
    (sys : System) (now : ℕ) (required : ℤ) (w : World) (file : File) (rest : List File)
    → w.cache.cache_mutex ≡ false
    → files_at w.cache.heap (caching_list w.cache) ≡ file ∷ rest
    → IsInt64 file.file_size
    → required ≤ℤ file.file_size
    → choose_and_delete_files sys now required w ≡ ok (true, w)
unfolding final_files needed_files delete_files
first_file_stays sys now required w file rest h e i r =
    choose_unlocked sys now required w h
    ∙ rw (e, select_first required file rest i r)
        (ap (λ c. ok (true, record w { cache = record (w.cache) { cache_mutex = c } })) (sym h))

-- If the mutex is free, some file is selected, and the first one that is to go can be removed from the disk,
-- then chooseAndDeleteFiles waits forever.
pub choose_and_delete_files-waits :
    (sys : System) (now : ℕ) (required : ℤ) (w : World) (memory_count : ℤ) (first : File)
    (rest : List File) (file : File) (others : List File)
    → w.cache.cache_mutex ≡ false
    → select_files required (pos 0) (files_at w.cache.heap (caching_list w.cache))
      ≡ (memory_count, first ∷ rest)
    → final_files required memory_count (first ∷ rest) ≡ file ∷ others
    → (remove_with_locks sys file.file_name w.disk).0 ≡ true
    → choose_and_delete_files sys now required w ≡ deadlock
unfolding delete_files
choose_and_delete_files-waits sys now required w memory_count first rest file others h s f r =
    choose_unlocked sys now required w h
    ∙ rw (s, f, removed_waits sys now file.file_name (hold true w) refl r) refl
