-- ===== src/Edge/Cache/Queue.antt =====
-- The operations of edge/cache/cache.go that change the map and the list keep them in agreement.
use sdcc_project.Base.{
  ℕ, zero, suc, ◌≤◌, ◌≡◌, ◌≢◌, refl, ◌∙◌, ap, sym, inl, inr, String, string_discrete, true, List,
  [], ◌∷◌, ◌++◌, ok, length, take, drop, arith, length-append, if_neg, subst, Option-cases,
}
use sdcc_project.Base.Lists.{length-take}
use sdcc_project.Base.Int.{ℤ, pos}
use sdcc_project.Base.Dict.{insert, lookup, has_key, lookup-insert}
use sdcc_project.Edge.Cache.{
  File, Cache, caching_list, bump, modify, append_entry, insert_file_in_queue,
}
use sdcc_project.Edge.Cache.Valid.{Agrees, IsValid, insert-Agrees, modify-Agrees}

take-entry :
    (n x : ℕ) (a r : List ℕ)
    → n ≤ length a
    → take (suc n) (take n a ++ (x ∷ r)) ≡ take n a ++ (x ∷ [])
take-entry zero x a r h = refl
take-entry (suc n) x [] r h = absurd (omega arith)
take-entry (suc n) x (y ∷ a) r h = ap (λ l. y ∷ l) (take-entry n x a r (omega arith))

-- If map and list agree and the mutex is free, then insertFileInQueue ends with a cache in which they agree and the
-- mutex is free, which holds the file, and every other name as before.
pub insert_file_in_queue-IsValid :
    (name : String) (size : ℤ) (now : ℕ) (c : Cache)
    → IsValid c
    → (c' : Cache) × (insert_file_in_queue name size now c ≡ ok c')
      × IsValid c'
      × (has_key string_discrete name c'.caching_map ≡ true)
      × ((other : String)
          → other ≢ name
          → lookup string_discrete other c'.caching_map
            ≡ lookup string_discrete other c.caching_map)
unfolding insert_file_in_queue
insert_file_in_queue-IsValid name size now c (free, fits, v) =
    elim (Option-cases (lookup string_discrete name c.caching_map)) [
      | inr (ref, known) ↦ (
        record c { heap = modify ref bump c.heap },
        rw (free, known)
            (ap (λ b. ok (record c { heap = modify ref bump c.heap; cache_mutex = b })) free),
        (free, fits, modify-Agrees ref c.heap c.caching_map (caching_list c) v),
        rw known refl,
        λ other n. refl,
      )
      | inl fresh ↦
          let f : File = record {
            file_name = name;
            file_size = size;
            timestamp = now;
            popularity = pos 1;
          } in
          let ref = length c.heap in
          let map' = insert string_discrete name ref c.caching_map in
          (
            append_entry ref (record c { caching_map = map'; heap = c.heap ++ (f ∷ []) }),
            rw (free, fresh)
                (ap
                  (λ b.
                    ok
                      (record (append_entry ref
                        (record c { caching_map = map'; heap = c.heap ++ (f ∷ []) })) {
                          cache_mutex = b;
                        }))
                  free),
            (
              free,
              omega (
                arith,
                length-append (take c.count c.array) (ref ∷ drop (suc c.count) c.array),
                length-take c.count c.array fits,
              ),
              subst (Agrees (c.heap ++ (f ∷ [])) map')
                  (sym (take-entry c.count ref c.array (drop (suc c.count) c.array) fits))
                  (insert-Agrees c.heap c.caching_map (caching_list c) f v fresh),
            ),
            rw (lookup-insert string_discrete name name ref c.caching_map) (ground arith),
            λ other n.
                lookup-insert string_discrete name other ref c.caching_map
                ∙ if_neg (string_discrete name other) (λ e. n (sym e)) _ _,
          )
    ]
