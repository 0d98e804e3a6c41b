-- ===== src/Edge/Cache/Removal.antt =====
-- Removal of a file from the map and the list (removeFileFromQueue of edge/cache/cache.go).
use mathlib.Core.Option.{some-injective}
use sdcc_project.Base.Dict.{is_some}
use sdcc_project.Base.{
  ℕ, suc, ◌+◌, ◌-◌, ◌<◌, ◌≡◌, ◌≢◌, refl, ◌∙◌, ap, sym, inl, inr, String, string_discrete, true,
  false, List, [], ◌∷◌, Option, none, some, ok, get_elem?, All, All-In, In, arith, if_pos, if_neg,
  ite, subst,
}
use sdcc_project.Base.Lists.{length-take}
use sdcc_project.Base.Dict.{erase, lookup, has_key, lookup-erase, erase-Unique}
use sdcc_project.Edge.Cache.{
  File, Cache, World, System, caching_list, found, index_from, get_index, shift_out,
  remove_file_from_queue,
}
use sdcc_project.Edge.Cache.Valid.{Named, Mapped, Agrees, IsValid}
use sdcc_project.Edge.Cache.Shift.{
  without, without-In, get-In, In-without, gone-without, Distinct-without, In-All, shift-without,
  get-length, shift-length,
}

-- The index of a file of the list.
index-found :
    (k : ℕ) (name : String) (heap : List File) (r : ℕ) (l : List ℕ)
    → All (λ ref. (f : File) × (get_elem? heap ref ≡ some f)) l
    → Named heap name r
    → In r l
    → (i : ℕ) × (s : ℕ) × (index_from k name heap l ≡ found (k + i))
      × (get_elem? l i ≡ some s)
      × Named heap name s
unfolding index_from
index-found k name heap r [] h n at = absurd at
index-found k name heap r (x ∷ l) h n at =
    let (f, e) = h.0 in
    elim (string_discrete f.file_name name) [
      | yes p ↦ (
        0,
        x,
        rw (index_from, e, if_pos (string_discrete f.file_name name) p)
            (ap (λ j. found j) (omega arith)),
        refl,
        (f, e, p),
      )
      | no q ↦ elim at [
        | inl same ↦ absurd (
            q (
              ap (λ g. g.file_name)
                (some-injective _ _ (sym e ∙ ap (λ z. get_elem? heap z) (sym same) ∙ n.1))
              ∙ n.2))
        | inr later ↦
            let (i, s, found_i, at_i, named) = index-found (suc k) name heap r l h.1 n later in
            (
              suc i,
              s,
              rw (index_from, e, if_neg (string_discrete f.file_name name) q)
                  (found_i ∙ ap (λ j. found j) (omega arith)),
              at_i,
              named,
            )
      ]
    ]

Named-same :
    (heap : List File) (a b : String) (ref : ℕ) → Named heap a ref → Named heap b ref → a ≡ b
Named-same heap a b ref (f, e, p) (g, e', q) =
    sym p ∙ ap (λ x. x.file_name) (some-injective _ _ (sym e ∙ e')) ∙ q

module _ (heap : List File) (m : List (String × ℕ)) (l : List ℕ) (v : Agrees heap m l)
    (name : String) (i r : ℕ) (at_i : get_elem? l i ≡ some r) (named : Named heap name r) where
  at_name : lookup string_discrete name m ≡ some r
  at_name =
      let (k, n, e) = All-In (Mapped heap m) r l v.mapped (get-In i r l at_i) in
      ap (λ x. lookup string_discrete x m) (Named-same heap name k r named n) ∙ e

  at_other :
      (other : String)
      → name ≢ other
      → lookup string_discrete other (erase string_discrete name m) ≡ lookup string_discrete other m
  at_other other n =
      lookup-erase string_discrete name other m ∙ if_neg (string_discrete name other) n _ _

  listed-erase :
      (other : String) (ref : ℕ)
      → lookup string_discrete other (erase string_discrete name m) ≡ some ref
      → Named heap other ref × In ref (without i l)
  listed-erase other ref e = elim (string_discrete name other) [
    | yes p ↦ absurd (
        ground (
          arith,
          sym (lookup-erase string_discrete name other m) ∙ e,
          if_pos {C = Option ℕ} (string_discrete name other) p,
        ))
    | no n ↦
        let (at, h) = v.listed other ref (sym (at_other other n) ∙ e) in
        (
          at,
          In-without i r ref l at_i
              (λ same. n (Named-same heap name other r named (subst (Named heap other) same at))) h,
        )
  ]

  Mapped-erase : (ref : ℕ) → In ref (without i l) → Mapped heap (erase string_discrete name m) ref
  Mapped-erase ref h =
      let (k, n, e) = All-In (Mapped heap m) ref l v.mapped (without-In i ref l h) in
      (
        k,
        n,
        at_other k (λ p.
              gone-without i r ref l v.distinct at_i h (
                some-injective _ _
                  (sym e ∙ ap (λ x. lookup string_discrete x m) (sym p) ∙ at_name)))
            ∙ e,
      )

  erase-Agrees : Agrees heap (erase string_discrete name m) (without i l)
  erase-Agrees = record {
    keys = erase-Unique string_discrete name m v.keys;
    listed = listed-erase;
    mapped = In-All (Mapped heap (erase string_discrete name m)) (without i l) Mapped-erase;
    distinct = Distinct-without i l v.distinct;
  }

has_some : (o : Option ℕ) → is_some o ≡ true → (r : ℕ) × (o ≡ some r)
has_some none h = absurd (ground arith)
has_some (some r) h = (r, refl)

abbrev pub less : String → ℕ → World → World
less name i w = record w {
  cache = record (w.cache) {
    caching_map = erase string_discrete name w.cache.caching_map;
    array = shift_out i w.cache.count w.cache.array;
    count = w.cache.count - 1;
  };
}

removes_found :
    (sys : System) (now : ℕ) (name : String) (w : World) (i : ℕ)
    → w.cache.cache_mutex ≡ false
    → has_key string_discrete name w.cache.caching_map ≡ true
    → index_from 0 name w.cache.heap (caching_list w.cache) ≡ found i
    → remove_file_from_queue sys now name w ≡ ok (less name i w)
unfolding remove_file_from_queue get_index
removes_found sys now name w i free h e =
    rw (free, h, e)
      (ap (λ b. ok (record w { cache = record (less name i w).cache { cache_mutex = b } })) free)

-- All that a removal does.
pub removal :
    (sys : System) (now : ℕ) (name : String) (w : World)
    → IsValid w.cache
    → has_key string_discrete name w.cache.caching_map ≡ true
    → (i : ℕ) × (remove_file_from_queue sys now name w ≡ ok (less name i w))
      × IsValid (less name i w).cache
      × (i < w.cache.count)
removal sys now name w (free, fits, v) h =
    let c = w.cache in
    let (ref, known) = has_some (lookup string_discrete name c.caching_map) h in
    let (at, listed) = v.listed name ref known in
    let (i, r, index, at_i, named) =
      index-found 0 name c.heap ref (caching_list c)
        (In-All (λ x. (f : File) × (get_elem? c.heap x ≡ some f)) (caching_list c)
          (λ x k.
            let (a, n, e) = All-In (Mapped c.heap c.caching_map) x (caching_list c) v.mapped k in
            (n.0, n.1)))
        at listed in
    let lt : i < c.count =
      omega (arith, get-length i r (caching_list c) at_i, length-take c.count c.array fits) in
    (
      i,
      removes_found sys now name w i free h (index ∙ ap (λ j. found j) (omega arith)),
      (
        free,
        shift-length i c.count c.array lt fits,
        subst (Agrees c.heap (erase string_discrete name c.caching_map))
            (sym (shift-without i c.count c.array lt fits))
            (erase-Agrees c.heap c.caching_map (caching_list c) v name i r at_i named),
      ),
      lt,
    )

-- If map and list agree, the mutex is free and the map holds the file, then removeFileFromQueue ends without a recovery:
-- map and list agree, the mutex is free, the file is gone, every other name is as before, and so is the disk.
pub remove_file_from_queue-IsValid :
    (sys : System) (now : ℕ) (name : String) (w : World)
    → IsValid w.cache
    → has_key string_discrete name w.cache.caching_map ≡ true
    → (c' : Cache) × (remove_file_from_queue sys now name w ≡ ok (record w { cache = c' }))
      × IsValid c'
      × ((other : String)
          → lookup string_discrete other c'.caching_map
            ≡ ite
                (string_discrete name other)
                none
                (lookup string_discrete other w.cache.caching_map))
remove_file_from_queue-IsValid sys now name w v h =
    let (i, e, v', lt) = removal sys now name w v h in
    (
      (less name i w).cache,
      e,
      v',
      λ other. lookup-erase string_discrete name other w.cache.caching_map,
    )
