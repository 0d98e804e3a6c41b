-- ===== src/Edge/Peer/Requests.antt =====
-- edge/peer/file_request_cache.go: the requests that a peer has seen, with the time at which it noted them.
use sdcc_project.Base.{
  ◌↔◌, Bool-cases, inl, inr, ℕ, ◌+◌, ◌*◌, ◌≡◌, refl, string_discrete, Bool, true, false, ◌||◌, List,
  [], ◌∷◌, Option, none, some, ltb, if◌then◌else◌, ite, arith, ◌∙◌, sym, ap,
}
use sdcc_project.Base.Dict.{insert, erase, lookup, Unique, lookup-insert, lookup-erase}
use sdcc_project.Edge.Cache.{second}
use sdcc_project.Edge.Peer.{FileRequest, request_discrete}

abbrev pub RequestMap : Type 0
RequestMap = List (FileRequest × ℕ)

-- `AddRequestInCache`
unfoldable pub add_request_in_cache : ℕ → FileRequest → RequestMap → RequestMap
add_request_in_cache now request m = insert request_discrete request now m

-- Whether an entry of time `t` is expired, under a lifetime in seconds.
abbrev pub is_stale : ℕ → ℕ → ℕ → Bool
is_stale request_cache_ttl now t = ltb (t + request_cache_ttl * second) now

-- The same request, whoever forwards it.
abbrev pub same_request : FileRequest → FileRequest → Bool
same_request r s =
    ite (string_discrete r.request_id s.request_id)
      (ite (string_discrete r.file_name s.file_name) true false) false

-- The first loop of `IsRequestAlreadyServed`: the expired requests, and whether the request is one of the others.
unfoldable pub scan : ℕ → ℕ → FileRequest → RequestMap → List FileRequest × Bool
scan ttl now file_request [] = ([], false)
scan ttl now file_request ((request, t) ∷ rest) =
    let (request_to_delete, success) = scan ttl now file_request rest in
    if is_stale ttl now t
    then (request ∷ request_to_delete, success)
    else (request_to_delete, same_request request file_request || success)

unfoldable pub delete_all : List FileRequest → RequestMap → RequestMap
delete_all [] m = m
delete_all (request ∷ rest) m = delete_all rest (erase request_discrete request m)

-- `IsRequestAlreadyServed`; the clock does not move during the call.
unfoldable pub is_request_already_served : ℕ → ℕ → FileRequest → RequestMap → Bool × RequestMap
unfolding scan delete_all
is_request_already_served ttl now file_request m =
    let (request_to_delete, success) = scan ttl now file_request m in
    (success, delete_all request_to_delete (insert request_discrete file_request now m))

-- Whether the map holds an entry of the request that is expired.
abbrev pub holds_stale : ℕ → ℕ → FileRequest → RequestMap → Bool
holds_stale ttl now r m = elim (lookup request_discrete r m) [
  | none ↦ false
  | some t ↦ is_stale ttl now t
]

abbrev mentions : FileRequest → List FileRequest → Bool
mentions r [] = false
mentions r (x ∷ xs) = ite (request_discrete x r) true (mentions r xs)

lookup-delete_all :
    (r : FileRequest) (l : List FileRequest) (m : RequestMap)
    → lookup request_discrete r (delete_all l m)
      ≡ (if mentions r l then none else lookup request_discrete r m)
unfolding delete_all
lookup-delete_all r [] m = refl
lookup-delete_all r (x ∷ xs) m = ground (
  arith,
  lookup-delete_all r xs (erase request_discrete x m),
  lookup-erase request_discrete x r m,
)

none_stale :
    (ttl now : ℕ) (q r : FileRequest) (m : RequestMap)
    → lookup request_discrete r m ≡ none
    → mentions r (scan ttl now q m).0 ≡ false
unfolding scan lookup
none_stale ttl now q r [] h = refl
none_stale ttl now q r ((x, t) ∷ m) h = ground (arith, none_stale ttl now q r m)

mentions-scan :
    (ttl now : ℕ) (q r : FileRequest) (m : RequestMap)
    → Unique request_discrete m
    → mentions r (scan ttl now q m).0 ≡ holds_stale ttl now r m
unfolding scan lookup
mentions-scan ttl now q r [] u = refl
mentions-scan ttl now q r ((x, t) ∷ m) u =
    ground (arith, mentions-scan ttl now q r m u.1, none_stale ttl now q x m u.0)

-- What the map holds of a request `r` after a call for `q`: nothing if an entry of `r` had expired, also if `r` is `q`.
abbrev pub kept_time : ℕ → ℕ → FileRequest → FileRequest → RequestMap → Option ℕ
kept_time ttl now q r m =
    if holds_stale ttl now r m
    then none
    else ite (request_discrete q r) (some now) (lookup request_discrete r m)

-- If no request stands twice in the map, a call of IsRequestAlreadyServed at time `now` leaves of every request what
-- follows: nothing, if its entry had expired, even if the call is for that very request; else the time `now`,
-- if the call is for it; else what the map held.
pub is_request_already_served-lookup :
    (ttl now : ℕ) (q r : FileRequest) (m : RequestMap)
    → Unique request_discrete m
    → lookup request_discrete r (is_request_already_served ttl now q m).1 ≡ kept_time ttl now q r m
unfolding is_request_already_served
is_request_already_served-lookup ttl now q r m u =
    lookup-delete_all r (scan ttl now q m).0 (insert request_discrete q now m)
    ∙ rw (mentions-scan ttl now q r m u, lookup-insert request_discrete q r now m) refl

-- A fresh entry of the same request is noticed.
scan_notices :
    (ttl now t : ℕ) (q r : FileRequest) (m : RequestMap)
    → lookup request_discrete r m ≡ some t
    → is_stale ttl now t ≡ false
    → same_request r q ≡ true
    → (scan ttl now q m).1 ≡ true
unfolding scan lookup
scan_notices ttl now t q r [] h s e = absurd (ground arith)
scan_notices ttl now t q r ((x, k) ∷ m) h s e = elim (request_discrete r x) [
  | yes p ↦ ground (arith, sym (ap (λ y. same_request y q) p) ∙ e)
  | no n ↦ ground (arith, scan_notices ttl now t q r m)
]

-- A request that the map holds and that is not expired.
abbrev pub Fresh : ℕ → ℕ → FileRequest → RequestMap → Type 0
Fresh ttl now q m =
    (r : FileRequest) × (t : ℕ) × (lookup request_discrete r m ≡ some t)
    × ((is_stale ttl now t ≡ false) × (same_request r q ≡ true))

Fresh-below :
    (ttl now k : ℕ) (q x : FileRequest) (m : RequestMap)
    → lookup request_discrete x m ≡ none
    → Fresh ttl now q m
    → Fresh ttl now q ((x, k) ∷ m)
unfolding lookup
Fresh-below ttl now k q x m h (r, t, at_r, s) = elim (request_discrete r x) [
  | yes p ↦ absurd (ground (arith, sym at_r ∙ ap (λ y. lookup request_discrete y m) p))
  | no n ↦ (r, t, ground arith, s)
]

scan-Fresh :
    (ttl now : ℕ) (q : FileRequest) (m : RequestMap)
    → Unique request_discrete m
    → (scan ttl now q m).1 ≡ true
    → Fresh ttl now q m
unfolding scan lookup
scan-Fresh ttl now q [] u h = absurd (ground arith)
scan-Fresh ttl now q ((x, k) ∷ m) u h = elim (Bool-cases (scan ttl now q m).1) [
  | inl later ↦ Fresh-below ttl now k q x m u.0 (scan-Fresh ttl now q m u.1 later)
  | inr first ↦ (x, k, ground arith, ground arith)
]

-- If no request stands twice in the map, IsRequestAlreadyServed answers true exactly if the map holds an
-- entry of the same id and file, forwarded by any peer, that is not expired.
pub is_request_already_served-Fresh :
    (ttl now : ℕ) (q : FileRequest) (m : RequestMap)
    → Unique request_discrete m
    → ((is_request_already_served ttl now q m).0 ≡ true) ↔ Fresh ttl now q m
unfolding is_request_already_served
is_request_already_served-Fresh ttl now q m u =
    (scan-Fresh ttl now q m u, λ f. scan_notices ttl now f.1 q f.0 m f.2 f.3.0 f.3.1)

-- If no request stands twice in the map and the map holds no expired entry of a request, then after a call of
-- IsRequestAlreadyServed for it a second call with the same id and file answers true until the
-- lifetime has passed.
pub served_once :
    (ttl earlier now : ℕ) (q r : FileRequest) (m : RequestMap)
    → Unique request_discrete m
    → holds_stale ttl earlier q m ≡ false
    → same_request q r ≡ true
    → is_stale ttl now earlier ≡ false
    → (is_request_already_served ttl now r (is_request_already_served ttl earlier q m).1).0 ≡ true
unfolding is_request_already_served
served_once ttl earlier now q r m u fresh same early =
    scan_notices ttl now earlier r q (is_request_already_served ttl earlier q m).1
      (is_request_already_served-lookup ttl earlier q q m u ∙ rw fresh (ground arith)) early same
