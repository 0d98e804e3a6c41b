-- ===== src/Registry/Search/Visit.antt =====
-- What one call of the recursive search of registry/services/graph.go does: it ends, marks exactly
-- peers that it can walk to, leaves no neighbour of a new mark pending, and reports no peer.
use sdcc_project.Base.{
  ℕ, zero, suc, ◌≤◌, ◌≡◌, refl, ◌⊎◌, inl, inr, true, List, [], ◌∷◌, ◌++◌, Option, none, some, All,
  All-mono, In, arith, subst, sym, ◌∙◌, ap,
}
use mathlib.Core.List.{append-nil}
use sdcc_project.Base.Dict.{insert, lookup}
use sdcc_project.Registry.{EdgePeer, peer_discrete}
use sdcc_project.Registry.Graph.{Graph}
use sdcc_project.Registry.Search.{Visited, neighbours, visit_all, search, ◌>>=◌}
use sdcc_project.Registry.Search.Marks.{
  Walk, here, via, IsVisited, IsPending, IsDone, mark_cases, pending, pending-mark, pending-pos,
  Grows, Grows-refl, Grows-trans, Grows-IsDone, Grows-mark, mark_cases_insert, mark-IsVisited,
}

-- A result is there, and has the property.
abbrev pub Returns {ℓ} : {A : Type ℓ} → (A → Type 0) → Option A → Type 0
Returns P none = ⊥
Returns P (some a) = P a

pub bind-Returns {ℓ μ} :
    {A : Type ℓ} {B : Type μ} (P : A → Type 0) (Q : B → Type 0) (o : Option A) (k : A → Option B)
    → Returns P o
    → ((a : A) → P a → Returns Q (k a))
    → Returns Q (o >>= k)
bind-Returns P Q none k r f = absurd r
bind-Returns P Q (some a) k r f = f a r

pub Returns-mono {ℓ} :
    {A : Type ℓ} (P Q : A → Type 0) (o : Option A)
    → ((a : A) → P a → Q a)
    → Returns P o
    → Returns Q o
Returns-mono P Q none f r = r
Returns-mono P Q (some a) f r = f a r

module _ (graph : Graph) where
  -- The neighbours of a peer are all done.
  abbrev pub IsClosed : Visited → EdgePeer → Type 0
  IsClosed v x = All (IsDone v) (neighbours graph x)

  pub IsClosed-mono : {v w : Visited} (x : EdgePeer) → Grows v w → IsClosed v x → IsClosed w x
  IsClosed-mono {v} {w} x g c =
      All-mono (IsDone v) (IsDone w) (neighbours graph x) (λ y h. Grows-IsDone y g h) c

  -- A walk that starts at a peer of the list.
  abbrev pub FromSome : List EdgePeer → EdgePeer → Type 0
  FromSome l x = (n : EdgePeer) × In n l × Walk graph n x

  -- From marks `v`, a visit of the peers `l` that has reported `found` ends with the result `r`.
  pub record Visits (l found : List EdgePeer) (v : Visited) (r : List EdgePeer × Visited)
      : Type 0 where
    pub found_same : r.0 ≡ found
    pub grows : Grows v r.1
    pub done : All (IsDone r.1) l
    pub closed : (x : EdgePeer) → IsVisited r.1 x → IsVisited v x ⊎ IsClosed r.1 x
    pub walks : (x : EdgePeer) → IsVisited r.1 x → IsVisited v x ⊎ FromSome l x

  -- The same of a search from one peer.
  pub record Searches (p : EdgePeer) (v : Visited) (r : List EdgePeer × Visited) : Type 0 where
    pub found_none : r.0 ≡ []
    pub grows : Grows v r.1
    pub start : IsVisited r.1 p
    pub closed : (x : EdgePeer) → IsVisited r.1 x → IsVisited v x ⊎ IsClosed r.1 x
    pub walks : (x : EdgePeer) → IsVisited r.1 x → IsVisited v x ⊎ Walk graph p x

  abbrev Finder : Type 0
  Finder = EdgePeer → Visited → Option (List EdgePeer × Visited)

  skip-Visits :
      (n : EdgePeer) (l found : List EdgePeer) (v : Visited) (r : List EdgePeer × Visited)
      → IsDone v n
      → Visits l found v r
      → Visits (n ∷ l) found v r
  skip-Visits n l found v r d h = record {
    found_same = h.found_same;
    grows = h.grows;
    done = (Grows-IsDone n h.grows d, h.done);
    closed = h.closed;
    walks = λ x k. elim (h.walks x k) [ inl old ↦ inl old | inr (m, at, w) ↦ inr (m, inr at, w) ];
  }

  join-Visits :
      (n : EdgePeer) (l found : List EdgePeer) (v : Visited) (a r : List EdgePeer × Visited)
      → Searches n v a
      → Visits l (found ++ a.0) a.1 r
      → Visits (n ∷ l) found v r
  join-Visits n l found v a r s h = record {
    found_same = h.found_same ∙ (ap (◌++◌ found) s.found_none ∙ append-nil found);
    grows = Grows-trans s.grows h.grows;
    done = (inr (h.grows.visited n s.start), h.done);
    closed = λ x k. elim (h.closed x k) [
      | inl before ↦ elim (s.closed x before) [
        | inl old ↦ inl old
        | inr c ↦ inr (IsClosed-mono x h.grows c)
      ]
      | inr c ↦ inr c
    ];
    walks = λ x k. elim (h.walks x k) [
      | inl before ↦ elim (s.walks x before) [ inl old ↦ inl old | inr w ↦ inr (n, inl refl, w) ]
      | inr (m, at, w) ↦ inr (m, inr at, w)
    ];
  }

  module _ (fuel : ℕ) (f : Finder)
      (finds : (p : EdgePeer) (v : Visited)
        → IsPending v p
        → pending v ≤ fuel
        → Returns (Searches p v) (f p v)) where
    visit_all-Visits :
        (l found : List EdgePeer) (v : Visited)
        → pending v ≤ fuel
        → Returns (Visits l found v) (visit_all f l found v)
    unfolding visit_all
    visit_all-Visits [] found v le = record {
      found_same = refl;
      grows = Grows-refl v;
      done = tt;
      closed = λ x h. inl h;
      walks = λ x h. inl h;
    }
    visit_all-Visits (n ∷ l) found v le = elim (mark_cases (lookup peer_discrete n v)) [
      | inl absent ↦
          rw (absent, visit_all)
            (Returns-mono (Visits l found v) (Visits (n ∷ l) found v) _
              (λ r h. skip-Visits n l found v r (inl absent) h) (visit_all-Visits l found v le))
      | inr (inl visited) ↦
          rw (visited, visit_all)
            (Returns-mono (Visits l found v) (Visits (n ∷ l) found v) _
              (λ r h. skip-Visits n l found v r (inr visited) h) (visit_all-Visits l found v le))
      | inr (inr waits) ↦
          rw (waits, visit_all)
            (bind-Returns (Searches n v) (Visits (n ∷ l) found v) (f n v) _ (finds n v waits le)
              (λ a s.
                Returns-mono (Visits l (found ++ a.0) a.1) (Visits (n ∷ l) found v) _
                  (λ r h. join-Visits n l found v a r s h)
                  (visit_all-Visits l (found ++ a.0) a.1 (omega (arith, s.grows.fewer)))))
    ]

  -- What the visit of its neighbours makes of a peer that was just marked.
  start-Searches :
      (p : EdgePeer) (v : Visited) (r : List EdgePeer × Visited)
      → IsPending v p
      → Visits (neighbours graph p) [] (insert peer_discrete p true v) r
      → Searches p v r
  start-Searches p v r waits h = record {
    found_none = h.found_same;
    grows = Grows-trans (Grows-mark p v waits) h.grows;
    start = h.grows.visited p (mark-IsVisited p v);
    closed = λ x k. elim (h.closed x k) [
      | inl marked ↦ elim (mark_cases_insert p x v marked) [
        | inl e ↦ inr (subst (IsClosed r.1) (sym e) h.done)
        | inr old ↦ inl old
      ]
      | inr c ↦ inr c
    ];
    walks = λ x k. elim (h.walks x k) [
      | inl marked ↦ elim (mark_cases_insert p x v marked) [
        | inl e ↦ inr (subst (Walk graph p) (sym e) here)
        | inr old ↦ inl old
      ]
      | inr (n, at, w) ↦ inr (via at w)
    ];
  }

  -- With fuel for the pending peers the search ends, marks its start and only peers that it can
  -- walk to, leaves no neighbour of a peer that it marked pending, and reports no peer at all.
  pub search-Searches :
      (fuel : ℕ) (p : EdgePeer) (v : Visited)
      → IsPending v p
      → pending v ≤ fuel
      → Returns (Searches p v) (search graph fuel p v)
  unfolding search
  search-Searches zero p v waits le = absurd (omega (arith, pending-pos p v waits))
  search-Searches (suc fuel) p v waits le =
      Returns-mono (Visits (neighbours graph p) [] (insert peer_discrete p true v)) (Searches p v) _
        (λ r h. start-Searches p v r waits h)
        (visit_all-Visits fuel (search graph fuel) (λ q u w k. search-Searches fuel q u w k)
          (neighbours graph p) [] (insert peer_discrete p true v)
          (omega (arith, pending-mark p v waits)))
