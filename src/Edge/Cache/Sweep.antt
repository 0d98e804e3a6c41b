-- ===== src/Edge/Cache/Sweep.antt =====
-- The loop of deleteExpiredFiles (edge/cache/cache.go), which goes on reading the array that removals shift.
use sdcc_project.Base.{subst}
use sdcc_project.Base.{
  ℕ, zero, suc, ◌+◌, ◌-◌, ◌≤◌, ◌<◌, ◌≡◌, refl, ◌∙◌, ap, sym, inl, inr, ◌⊎◌, String, string_discrete,
  true, false, List, [], ◌∷◌, ◌++◌, some, Outcome, ok, length, get_elem?, take, drop, All,
  All-append, All-mono, arith, length-append, Bool-cases,
}
use sdcc_project.Base.Lists.{All-get, get_elem?-total, length-take, length-drop}
use sdcc_project.Base.Dict.{erase, has_key, lookup-erase}
use sdcc_project.Edge.Cache.{
  File, Disk, World, System, shift_out, remove_with_locks, remove_file_from_queue,
  remove_file_from_cache, is_expired, sweep_one, sweep, delete_expired_files,
}
use sdcc_project.Edge.Cache.Valid.{IsValid}
use sdcc_project.Edge.Cache.Removal.{removal, less}

-- The file of the pointer is in the map, or it is not on the disk.
abbrev pub Safe : World → ℕ → Type 0
Safe w ref =
    (f : File) × (get_elem? w.cache.heap ref ≡ some f)
    × ((has_key string_discrete f.file_name w.cache.caching_map ≡ true)
        ⊎ (has_key string_discrete f.file_name w.disk ≡ false))

-- Map and list agree, and every place of the array holds a safe pointer.
abbrev pub IsSwept : ℕ → World → Type 0
IsSwept n w = IsValid w.cache × ((n ≤ length w.cache.array) × All (Safe w) w.cache.array)

-- What removeWithLocks leaves on the disk.
erased_or_same :
    (sys : System) (name : String) (disk : Disk)
    → let (removed, disk') = remove_with_locks sys name disk in
      ((disk' ≡ disk) × (removed ≡ false))
      ⊎ ((disk' ≡ erase string_discrete name disk) × (has_key string_discrete name disk ≡ true))
unfolding remove_with_locks
erased_or_same sys name disk = elim (Bool-cases (has_key string_discrete name disk)) [
  | inr gone ↦ rw gone (inl (refl, refl))
  | inl here ↦ elim (Bool-cases (sys.opens name)) [
    | inr shut ↦ rw (here, shut) (inl (refl, refl))
    | inl opened ↦ elim (Bool-cases (sys.locks name)) [
      | inr busy ↦ rw (here, opened, busy) (inl (refl, refl))
      | inl locked ↦ elim (Bool-cases (sys.removes name)) [
        | inr kept ↦ rw (here, opened, locked, kept) (inl (refl, refl))
        | inl removed ↦ rw (here, opened, locked, removed) (inr (refl, refl))
      ]
    ]
  ]
]

-- Fewer names on the disk, and a removal of the name from the map only with one from the disk, keep a pointer safe.
disk-Safe :
    (name : String) (w : World) (ref : ℕ)
    → Safe w ref
    → Safe (record w { disk = erase string_discrete name w.disk }) ref
disk-Safe name w ref (f, e, inl known) = (f, e, inl known)
disk-Safe name w ref (f, e, inr gone) =
    (f, e, inr (ground (arith, lookup-erase string_discrete name f.file_name w.disk)))

less-Safe :
    (name : String) (i : ℕ) (w : World) (ref : ℕ)
    → Safe w ref
    → Safe (less name i (record w { disk = erase string_discrete name w.disk })) ref
less-Safe name i w ref (f, e, h) = elim (string_discrete name f.file_name) [
  | yes p ↦ (f, e, inr (ground (arith, lookup-erase string_discrete name f.file_name w.disk)))
  | no n ↦ elim h [
    | inl known ↦ (
      f,
      e,
      inl (ground (arith, lookup-erase string_discrete name f.file_name w.cache.caching_map)),
    )
    | inr gone ↦ (f, e, inr (ground (arith, lookup-erase string_discrete name f.file_name w.disk)))
  ]
]

module _ (P : ℕ → Type 0) where
  All-take : (n : ℕ) (xs : List ℕ) → All P xs → All P (take n xs)
  All-take zero xs h = tt
  All-take (suc n) [] h = tt
  All-take (suc n) (x ∷ xs) h = (h.0, All-take n xs h.1)

  All-drop : (n : ℕ) (xs : List ℕ) → All P xs → All P (drop n xs)
  All-drop zero xs h = h
  All-drop (suc n) [] h = tt
  All-drop (suc n) (x ∷ xs) h = All-drop n xs h.1

  All-shift_out : (i n : ℕ) (a : List ℕ) → All P a → All P (shift_out i n a)
  unfolding shift_out
  All-shift_out i n a h =
      All-append P (take i a) (take (n - suc i) (drop (suc i) a) ++ drop (n - 1) a) (All-take i a h)
        (All-append P (take (n - suc i) (drop (suc i) a)) (drop (n - 1) a)
          (All-take (n - suc i) (drop (suc i) a) (All-drop (suc i) a h)) (All-drop (n - 1) a h))

length-shift_out :
    (i n : ℕ) (a : List ℕ) → i < n → n ≤ length a → length (shift_out i n a) ≡ length a
unfolding shift_out
length-shift_out i n a lt h = omega (
  arith,
  length-append (take i a) (take (n - suc i) (drop (suc i) a) ++ drop (n - 1) a),
  length-append (take (n - suc i) (drop (suc i) a)) (drop (n - 1) a),
  length-take i a (omega arith),
  length-take (n - suc i) (drop (suc i) a) (omega (arith, length-drop (suc i) a)),
  length-drop (n - 1) a,
)

-- A call that ends, and leaves what it should.
abbrev pub Completes : ℕ → Outcome ⊥ World → Type 0
Completes n o = (w' : World) × (o ≡ ok w') × IsSwept n w'

abbrev with_disk : Disk → World → World
with_disk d w = record w { disk = d }

remove-Completes :
    (sys : System) (now n ref : ℕ) (f : File) (w : World)
    → IsSwept n w
    → get_elem? w.cache.heap ref ≡ some f
    → has_key string_discrete f.file_name w.cache.caching_map ≡ true
      ⊎ has_key string_discrete f.file_name w.disk ≡ false
    → Completes n (remove_file_from_cache sys now f.file_name w)
unfolding remove_file_from_cache
remove-Completes sys now n ref f w (v, (fits, safe)) e s =
    let name = f.file_name in
    let left = (remove_with_locks sys name w.disk).1 in
    let erased_disk = erase string_discrete name w.disk in
    elim (erased_or_same sys name w.disk) [
      | inl (same, kept) ↦ (
        with_disk left w,
        rw kept refl,
        subst (λ d. IsSwept n (with_disk d w)) (sym same) (v, (fits, safe)),
      )
      | inr (erased, here) ↦ elim (Bool-cases (remove_with_locks sys name w.disk).0) [
        | inr unlocked ↦ (
          with_disk left w,
          rw unlocked refl,
          subst (λ d. IsSwept n (with_disk d w)) (sym erased)
              (
                v,
                (
                  fits,
                  All-mono (Safe w) (Safe (with_disk erased_disk w)) w.cache.array
                      (disk-Safe name w) safe,
                ),
              ),
        )
        | inl removed ↦ elim s [
          | inr gone ↦ absurd (ground (arith, here, gone))
          | inl known ↦
              let (i, e', v', lt) = removal sys now name (with_disk erased_disk w) v known in
              let w' = less name i (with_disk erased_disk w) in
              (
                w',
                rw removed
                    (ap (λ d. remove_file_from_queue sys now name (with_disk d w)) erased ∙ e'),
                (
                  v',
                  (
                    omega (arith, length-shift_out i w.cache.count w.cache.array lt v.1),
                    All-shift_out (Safe w') i w.cache.count w.cache.array
                        (All-mono (Safe w) (Safe w') w.cache.array (less-Safe name i w) safe),
                  ),
                ),
              )
        ]
      ]
    ]

sweep_one-Completes :
    (sys : System) (ttl : ℕ) (clock : ℕ → ℕ) (n i : ℕ) (w : World)
    → i < n
    → IsSwept n w
    → Completes n (sweep_one sys ttl clock i w)
unfolding sweep_one
sweep_one-Completes sys ttl clock n i w lt h =
    let (ref, at) = get_elem?-total w.cache.array i (omega (arith, h.1.0)) in
    let (f, e, s) = All-get (Safe w) w.cache.array i h.1.1 at in
    elim (Bool-cases (is_expired ttl (clock i) f)) [
      | inl expired ↦
          rw (sweep_one, at, e, expired) (remove-Completes sys (clock i) n ref f w h e s)
      | inr fresh ↦ rw (sweep_one, at, e, fresh) (w, refl, h)
    ]

sweep-Completes :
    (sys : System) (ttl : ℕ) (clock : ℕ → ℕ) (n i left : ℕ) (w : World)
    → i + left ≤ n
    → IsSwept n w
    → Completes n (sweep sys ttl clock i left w)
unfolding sweep
sweep-Completes sys ttl clock n i zero w lt h = (w, refl, h)
sweep-Completes sys ttl clock n i (suc left) w lt h =
    let (w', e, h') = sweep_one-Completes sys ttl clock n i w (omega arith) h in
    let (w'', e', h'') = sweep-Completes sys ttl clock n (suc i) left w' (omega arith) h' in
    (w'', rw e e', h'')

-- If map and list agree, the mutex is free, and every place of the backing array points to a file that is in the map or not on the
-- disk, then deleteExpiredFiles ends, without a panic and without waiting for the mutex, in a state
-- in which all of this holds again, whatever the operating system answers.
pub delete_expired_files-IsSwept :
    (sys : System) (ttl : ℕ) (clock : ℕ → ℕ) (w : World)
    → IsSwept w.cache.count w
    → Completes w.cache.count (delete_expired_files sys ttl clock w)
unfolding delete_expired_files
delete_expired_files-IsSwept sys ttl clock w h =
    sweep-Completes sys ttl clock w.cache.count 0 w.cache.count w (omega arith) h
