-- ===== src/LoadBalancer/Pick.antt =====
-- `pickEdgeServer` (load_balancer/services/balancing.go): the choice of the least loaded server.
use native.Mathlib.Nat.{mod-lt}
use sdcc_project.Base.{
  ℕ, ◌%◌, ◌<◌, ◌≡◌, List, [], ◌∷◌, ◌++◌, some, ok, length, get_elem?, All, All-append, arith, subst,
  inl, inr, Bool-cases, length-append,
}
use sdcc_project.Base.Lists.{All-get, get_elem?-total}
use sdcc_project.Base.Int.{ℤ, pos, ◌+ℤ◌, ◌≤ℤ◌, ltb_ℤ, eqb_ℤ, int_max, IsInt64, wrap64}
use sdcc_project.Base.Dict.{insert, lookup, Unique, Unique-All-lookup, All-lookup}
use sdcc_project.LoadBalancer.{
  EdgeServer, Balancer, choose, server_discrete, min_load, pick_edge_server,
}

module _ (C : ℤ → EdgeServer → Type 0) where
  -- The servers kept all have one load, which no entry undercuts.
  abbrev IsLeast : List (EdgeServer × ℤ) → ℤ → List EdgeServer → Type 0
  IsLeast m v slice = (w : ℤ) × (w ≤ℤ v) × All (λ e. w ≤ℤ e.1) m × All (C w) slice

  min_load-IsLeast :
      (m : List (EdgeServer × ℤ)) (v : ℤ) (slice : List EdgeServer)
      → All (λ e. C e.1 e.0) m
      → All (C v) slice
      → IsLeast m v (min_load m v slice)
  unfolding min_load
  min_load-IsLeast [] v slice h k = (v, omega arith, tt, k)
  min_load-IsLeast ((s, l) ∷ m) v slice h k = elim (Bool-cases (ltb_ℤ l v)) [
    | inl less ↦
        let (w, le, all, kept) = min_load-IsLeast m l (s ∷ []) h.1 (h.0, tt) in
        rw less (w, ground arith, (le, all), kept)
    | inr more ↦ elim (Bool-cases (eqb_ℤ l v)) [
      | inl same ↦
          let l_eq_v : l ≡ v = ground arith in
          let new : C v s = subst (λ x. C x s) l_eq_v h.0 in
          let (w, le, all, kept) =
            min_load-IsLeast m v (slice ++ s ∷ []) h.1
              (All-append (C v) slice (s ∷ []) k (new, tt)) in
          rw (more, same) (w, le, (ground arith, all), kept)
      | inr other ↦
          let (w, le, all, kept) = min_load-IsLeast m v slice h.1 k in
          rw (more, other) (w, le, (ground arith, all), kept)
    ]
  ]

min_load_nonempty :
    (m : List (EdgeServer × ℤ)) (v : ℤ) (slice : List EdgeServer)
    → 0 < length slice
    → 0 < length (min_load m v slice)
unfolding min_load
min_load_nonempty [] v slice h = h
min_load_nonempty ((s, l) ∷ m) v slice h =
    min_load_nonempty m _ _ (ground (arith, length-append slice (s ∷ [])))

min_load_pos :
    (m : List (EdgeServer × ℤ))
    → 0 < length m
    → All (λ e. IsInt64 e.1) m
    → 0 < length (min_load m int_max [])
unfolding min_load
min_load_pos [] h k = h
min_load_pos ((s, l) ∷ m) h k = min_load_nonempty m _ _ (ground arith)

-- A non-empty list of candidates and a sequence number that has not wrapped give a candidate.
choose-get :
    (n : ℕ) (slice : List EdgeServer)
    → 0 < length slice
    → (i : ℕ) × (s : EdgeServer) × (get_elem? slice i ≡ some s) × (choose (pos n) slice ≡ ok s)
choose-get n slice h =
    let (s, e) = get_elem?-total slice (n % length slice) (mod-lt n h) in
    (n % length slice, s, e, ground arith)

-- If some server is known, no load exceeds the range and the sequence number is not negative, then
-- `pickEdgeServer` answers with the address of a server of the map that has the least load of all,
-- and counts one more job for that server alone.
pub pick_edge_server-least :
    (b : Balancer) (n : ℕ)
    → 0 < length b.edge_server_map
    → Unique server_discrete b.edge_server_map
    → All (λ e. IsInt64 e.1) b.edge_server_map
    → b.sequence_number ≡ pos n
    → (s : EdgeServer) × (l : ℤ) × (lookup server_discrete s b.edge_server_map ≡ some l)
      × ((t : EdgeServer) (k : ℤ) → lookup server_discrete t b.edge_server_map ≡ some k → l ≤ℤ k)
      × (pick_edge_server b
          ≡ ok (
            s.server_addr,
            record b {
              edge_server_map = insert server_discrete s (wrap64 (l +ℤ pos 1)) b.edge_server_map;
            },
          ))
unfolding pick_edge_server
pick_edge_server-least b n some_server unique in_range e =
    let m = b.edge_server_map in
    let C : ℤ → EdgeServer → Type 0 = λ l s. lookup server_discrete s m ≡ some l in
    let (l, _, least, kept) =
      min_load-IsLeast C m int_max [] (Unique-All-lookup server_discrete m unique) tt in
    let (i, s, at, chosen) =
      choose-get n (min_load m int_max []) (min_load_pos m some_server in_range) in
    let found : lookup server_discrete s m ≡ some l =
      All-get (C l) (min_load m int_max []) i kept at in
    (s, l, found, (λ t k h. All-lookup server_discrete (λ x. l ≤ℤ x.1) t m least h), ground arith)
