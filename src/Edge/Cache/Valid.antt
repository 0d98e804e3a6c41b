-- ===== src/Edge/Cache/Valid.antt =====
-- When the map and the list of a cache (edge/cache/cache.go) agree.
use mathlib.Core.Option.{some-injective}
use sdcc_project.Base.{
  ℕ, zero, suc, ◌≤◌, ◌<◌, ◌≡◌, ◌≢◌, refl, ◌∙◌, ap, sym, inl, inr, ◌⊎◌, String, string_discrete,
  false, List, [], ◌∷◌, ◌++◌, none, some, length, get_elem?, All, All-In, All-mono, All-append, In,
  arith, if_pos, if_neg, subst,
}
use sdcc_project.Base.Dict.{insert, lookup, Unique, lookup-insert, insert-Unique}
use sdcc_project.Edge.Cache.{File, Cache, caching_list, bump, modify}

-- The pointer leads to a file of that name.
abbrev pub Named : List File → String → ℕ → Type 0
Named heap name ref = (f : File) × (get_elem? heap ref ≡ some f) × (f.file_name ≡ name)

-- No pointer stands twice.
abbrev pub Distinct : List ℕ → Type 0
Distinct [] = Unit
Distinct (x ∷ xs) = (In x xs → ⊥) × Distinct xs

abbrev pub Mapped : List File → List (String × ℕ) → ℕ → Type 0
Mapped heap m ref =
    (name : String) × Named heap name ref × (lookup string_discrete name m ≡ some ref)

-- The map names each file once, and holds the names of the files of the list and no others.
pub record Agrees (heap : List File) (m : List (String × ℕ)) (l : List ℕ) : Type 0 where
  pub keys : Unique string_discrete m
  pub listed :
      (name : String) (ref : ℕ)
      → lookup string_discrete name m ≡ some ref
      → Named heap name ref × In ref l
  pub mapped : All (Mapped heap m) l
  pub distinct : Distinct l

abbrev pub IsValid : Cache → Type 0
IsValid c =
    (c.cache_mutex ≡ false)
    × (c.count ≤ length c.array)
    × Agrees c.heap c.caching_map (caching_list c)

get-below :
    (heap : List File) (ref : ℕ) {f : File} → get_elem? heap ref ≡ some f → ref < length heap
get-below [] ref e = absurd (ground arith)
get-below (x ∷ heap) zero e = omega arith
get-below (x ∷ heap) (suc ref) e = omega (arith, get-below heap ref e)

get-front :
    (heap rest : List File) (ref : ℕ) {f : File}
    → get_elem? heap ref ≡ some f
    → get_elem? (heap ++ rest) ref ≡ some f
get-front [] rest ref e = absurd (ground arith)
get-front (x ∷ heap) rest zero e = e
get-front (x ∷ heap) rest (suc ref) e = get-front heap rest ref e

get-last : (heap : List File) (f : File) → get_elem? (heap ++ (f ∷ [])) (length heap) ≡ some f
get-last [] f = refl
get-last (x ∷ heap) f = get-last heap f

In-front : (x : ℕ) (l r : List ℕ) → In x l → In x (l ++ r)
In-front x [] r h = absurd h
In-front x (y ∷ l) r (inl e) = inl e
In-front x (y ∷ l) r (inr h) = inr (In-front x l r h)

In-back : (x : ℕ) (l r : List ℕ) → In x r → In x (l ++ r)
In-back x [] r h = h
In-back x (y ∷ l) r h = inr (In-back x l r h)

In-cases : (x : ℕ) (l r : List ℕ) → In x (l ++ r) → In x l ⊎ In x r
In-cases x [] r h = inr h
In-cases x (y ∷ l) r (inl e) = inl (inl e)
In-cases x (y ∷ l) r (inr h) = elim (In-cases x l r h) [ inl a ↦ inl (inr a) | inr b ↦ inr b ]

Distinct-append : (l : List ℕ) (x : ℕ) → Distinct l → (In x l → ⊥) → Distinct (l ++ (x ∷ []))
Distinct-append [] x d n = ((λ h. h), tt)
Distinct-append (y ∷ l) x d n = (
  λ h. elim (In-cases y l (x ∷ []) h) [
    | inl a ↦ d.0 a
    | inr (inl e) ↦ n (inl (sym e))
    | inr (inr b) ↦ b
  ],
  Distinct-append l x d.1 (λ h. n (inr h)),
)

module _ (heap : List File) (m : List (String × ℕ)) (l : List ℕ) (f : File) (v : Agrees heap m l)
    (fresh : lookup string_discrete (f.file_name) m ≡ none) where
  abbrev heap' : List File
  heap' = heap ++ (f ∷ [])

  abbrev map' : List (String × ℕ)
  map' = insert string_discrete (f.file_name) (length heap) m

  at_new :
      (name : String) → f.file_name ≡ name → lookup string_discrete name map' ≡ some (length heap)
  at_new name p =
      lookup-insert string_discrete (f.file_name) name (length heap) m
      ∙ rw (if_pos (string_discrete f.file_name name) p) refl

  at_old :
      (name : String)
      → f.file_name ≢ name
      → lookup string_discrete name map' ≡ lookup string_discrete name m
  at_old name n =
      lookup-insert string_discrete (f.file_name) name (length heap) m
      ∙ rw (if_neg (string_discrete f.file_name name) n) refl

  Named-heap' : (name : String) (ref : ℕ) → Named heap name ref → Named heap' name ref
  Named-heap' name ref n = (n.0, get-front heap (f ∷ []) ref n.1, n.2)

  listed-insert :
      (name : String) (ref : ℕ)
      → lookup string_discrete name map' ≡ some ref
      → Named heap' name ref × In ref (l ++ (length heap ∷ []))
  listed-insert name ref e = elim (string_discrete f.file_name name) [
    | yes p ↦
        subst (λ r. Named heap' name r × In r (l ++ (length heap ∷ [])))
          (some-injective _ _ (sym (at_new name p) ∙ e))
          ((f, get-last heap f, p), In-back (length heap) l (length heap ∷ []) (inl refl))
    | no n ↦
        let (named, at) = v.listed name ref (sym (at_old name n) ∙ e) in
        (Named-heap' name ref named, In-front ref l (length heap ∷ []) at)
  ]

  Mapped-insert : (ref : ℕ) → Mapped heap m ref → Mapped heap' map' ref
  Mapped-insert ref (name, named, e) = elim (string_discrete f.file_name name) [
    | yes p ↦ absurd (ground (arith, sym e ∙ ap (λ x. lookup string_discrete x m) (sym p) ∙ fresh))
    | no n ↦ (name, Named-heap' name ref named, at_old name n ∙ e)
  ]

  new_absent : In (length heap) l → ⊥
  new_absent h =
      let (name, named, e) = All-In (Mapped heap m) (length heap) l v.mapped h in
      omega (arith, get-below heap (length heap) named.1)

  -- A new file goes to the end of the heap and of the list.
  pub insert-Agrees : Agrees heap' map' (l ++ (length heap ∷ []))
  insert-Agrees = record {
    keys = insert-Unique string_discrete (f.file_name) (length heap) m v.keys;
    listed = listed-insert;
    mapped =
        All-append (Mapped heap' map') l (length heap ∷ [])
          (All-mono (Mapped heap m) (Mapped heap' map') l Mapped-insert v.mapped)
          ((f.file_name, (f, get-last heap f, refl), at_new f.file_name refl), tt);
    distinct = Distinct-append l (length heap) v.distinct new_absent;
  }

-- Counting a use changes no name.
modify-get :
    (i ref : ℕ) (heap : List File) {f : File}
    → get_elem? heap ref ≡ some f
    → (f' : File) × (get_elem? (modify i bump heap) ref ≡ some f') × (f'.file_name ≡ f.file_name)
unfolding modify
modify-get i ref [] e = absurd (ground arith)
modify-get zero zero (x ∷ heap) e = (bump x, refl, ap (λ y. y.file_name) (some-injective _ _ e))
modify-get zero (suc ref) (x ∷ heap) {f} e = (f, e, refl)
modify-get (suc i) zero (x ∷ heap) {f} e = (f, e, refl)
modify-get (suc i) (suc ref) (x ∷ heap) e = modify-get i ref heap e

Named-modify :
    (i : ℕ) (heap : List File) (name : String) (ref : ℕ)
    → Named heap name ref
    → Named (modify i bump heap) name ref
Named-modify i heap name ref (f, e, n) =
    let (f', e', n') = modify-get i ref heap e in (f', e', n' ∙ n)

pub modify-Agrees :
    (i : ℕ) (heap : List File) (m : List (String × ℕ)) (l : List ℕ)
    → Agrees heap m l
    → Agrees (modify i bump heap) m l
modify-Agrees i heap m l v = record {
  keys = v.keys;
  listed =
      λ name ref e. (Named-modify i heap name ref (v.listed name ref e).0, (v.listed name ref e).1);
  mapped =
      All-mono (Mapped heap m) (Mapped (modify i bump heap) m) l
        (λ ref k. (k.0, Named-modify i heap k.0 ref k.1, k.2)) v.mapped;
  distinct = v.distinct;
}
