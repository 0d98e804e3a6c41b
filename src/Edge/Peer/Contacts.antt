-- ===== src/Edge/Peer/Contacts.antt =====
-- Which neighbours `neighboursFileLookup` (edge/peer/peer.go) contacts, and how many.
use sdcc_project.Base.{
  ℕ, zero, suc, ◌+◌, ◌-◌, ◌*◌, ◌%◌, ◌≤◌, ◌<◌, ◌≡◌, ◌≢◌, refl, inl, inr, String, Bool, true, false,
  List, [], ◌∷◌, ◌++◌, some, ok, panic, ◌>>=◌, ltb, ◌==◌, if◌then◌else◌, length, get_elem?, take,
  drop, All, All-append, arith, Bool-cases, Option-cases, length-append, if_pos, if_neg, lt→ltb,
}
use sdcc_project.Base.Lists.{All-get}
use sdcc_project.Base.Dict.{has_key, keys_of_map}
use sdcc_project.Edge.Peer.{EdgePeer, peer_discrete, AdjConnection}
use sdcc_project.Edge.Peer.Lookup.{
  Contacts, is_positive, contact_positive, find_false_adjacents_filter, complement,
  neighbours_file_lookup,
}

module _ {A : Type 0} (P : A → Type 0) where
  All-take : (n : ℕ) (xs : List A) → All P xs → All P (take n xs)
  All-take zero xs h = tt
  All-take (suc n) [] h = tt
  All-take (suc n) (x ∷ xs) h = (h.0, All-take n xs h.1)

  All-drop : (n : ℕ) (xs : List A) → All P xs → All P (drop n xs)
  All-drop zero xs h = h
  All-drop (suc n) [] h = tt
  All-drop (suc n) (x ∷ xs) h = All-drop n xs h.1

  All-if : (b : Bool) (xs : List A) → All P xs → All P (if b then [] else xs)
  All-if true xs h = tt
  All-if false xs h = h

-- A neighbour that may be contacted: it has a connection, and it is not the one that forwarded the request.
abbrev pub Allowed : List (EdgePeer × AdjConnection) → EdgePeer → EdgePeer → Type 0
Allowed conns forwarder p = (p ≢ forwarder) × (has_key peer_discrete p conns ≡ true)

abbrev pub Connected : List (EdgePeer × AdjConnection) → EdgePeer → Type 0
Connected conns p = has_key peer_discrete p conns ≡ true

module _ (draw : ℕ → ℕ) (conns : List (EdgePeer × AdjConnection)) (forwarder : EdgePeer)
    (max : ℕ) where
  -- A run of the second loop that contacts allowed neighbours, about half as many as are missing.
  abbrev Half : ℕ → Contacts → Type 0
  Half missing o =
      (l : List EdgePeer) × (o ≡ ok l)
      × (2 * length l ≤ suc missing)
      × All (Allowed conns forwarder) l

  contacts :
      (neigh : EdgePeer) (missing : ℕ) (o : Contacts)
      → 0 < missing
      → Allowed conns forwarder neigh
      → Half (missing - 2) o
      → Half missing (do rest ← o; ok (neigh ∷ rest))
  contacts neigh missing o lt a (l, e, n, h) = (neigh ∷ l, rw e refl, omega arith, (a, h))

  abbrev without : ℕ → List EdgePeer → List EdgePeer
  without r l = take r l ++ drop (suc r) l

  All-without :
      (r : ℕ) (l : List EdgePeer) → All (Connected conns) l → All (Connected conns) (without r l)
  All-without r l h =
      All-append (Connected conns) (take r l) (drop (suc r) l) (All-take (Connected conns) r l h)
        (All-drop (Connected conns) (suc r) l h)

  waits : (i c : ℕ) {o : Contacts} → Half (max - c - suc i) o → Half (max - c - i) o
  waits i c (l, e, n, a) = (l, e, omega arith, a)

  fewer : (i c : ℕ) {o : Contacts} → Half (max - suc c - suc i) o → Half (max - c - i - 2) o
  fewer i c (l, e, n, a) = (l, e, omega arith, a)

  complement-Half :
      (left i c : ℕ) (candidates : List EdgePeer)
      → All (Connected conns) candidates
      → Half (max - c - i) (complement draw conns forwarder max left i c candidates)
  unfolding complement
  complement-Half zero i c candidates h = ([], refl, omega arith, tt)
  complement-Half (suc left) i c candidates h = elim (Bool-cases (ltb i (max - c))) [
    | inr stop ↦ rw stop ([], refl, omega arith, tt)
    | inl more ↦ elim (Option-cases (get_elem? candidates (draw i % length candidates))) [
      | inl none_left ↦ rw (more, none_left) ([], refl, omega arith, tt)
      | inr (neigh, at) ↦ elim (peer_discrete neigh forwarder) [
        | yes same ↦
            rw (more, at, if_pos (peer_discrete neigh forwarder) same)
              (waits i c (
                complement-Half left (suc i) c (without (draw i % length candidates) candidates)
                  (All-without (draw i % length candidates) candidates h)))
        | no other ↦
            rw
              (
                more,
                at,
                if_neg (peer_discrete neigh forwarder) other,
                All-get (Connected conns) candidates (draw i % length candidates) h at,
              )
              (contacts neigh (max - c - i)
                (complement draw conns forwarder max left (suc i) (suc c)
                  (without (draw i % length candidates) candidates))
                (ground arith)
                (other, All-get (Connected conns) candidates (draw i % length candidates) h at)
                (fewer i c (
                  complement-Half left (suc i) (suc c)
                    (without (draw i % length candidates) candidates)
                    (All-without (draw i % length candidates) candidates h))))
      ]
    ]
  ]

module _ {Filter : Type 0} (test : Filter → String → Bool) (filter_map : List (EdgePeer × Filter))
    (file_name : String) (forwarder : EdgePeer) (max : ℕ) where
  -- The first loop stops at the bound, if it starts below it.
  contact_positive-length :
      (conns : List (EdgePeer × AdjConnection)) (c : ℕ)
      → c < max
      → c + length (contact_positive test filter_map file_name forwarder max conns c) ≤ max
  unfolding contact_positive
  contact_positive-length [] c lt = omega arith
  contact_positive-length ((adj, conn) ∷ rest) c lt =
      ground (arith, contact_positive-length rest c, contact_positive-length rest (suc c))

  contact_positive-Allowed :
      (all conns : List (EdgePeer × AdjConnection)) (c : ℕ)
      → All (λ e. Connected all e.0) conns
      → All
          (Allowed all forwarder)
          (contact_positive test filter_map file_name forwarder max conns c)
  unfolding contact_positive
  contact_positive-Allowed all [] c h = tt
  contact_positive-Allowed all ((adj, conn) ∷ rest) c h =
      elim (Bool-cases (is_positive test filter_map file_name adj)) [
        | inr negative ↦ rw negative (contact_positive-Allowed all rest c h.1)
        | inl positive ↦ elim (peer_discrete adj forwarder) [
          | yes same ↦
              rw (positive, if_pos (peer_discrete adj forwarder) same)
                (contact_positive-Allowed all rest c h.1)
          | no other ↦
              rw (positive, if_neg (peer_discrete adj forwarder) other)
                (
                  (other, h.0),
                  All-if (Allowed all forwarder) (suc c == max) _
                      (contact_positive-Allowed all rest (suc c) h.1),
                )
        ]
      ]

  find_false-Connected :
      (conns : List (EdgePeer × AdjConnection)) (l : List (EdgePeer × Filter))
      → All (λ e. Connected conns e.0) l
      → All (Connected conns) (find_false_adjacents_filter test l file_name)
  unfolding find_false_adjacents_filter
  find_false-Connected conns [] h = tt
  find_false-Connected conns ((adj, f) ∷ l) h = elim (Bool-cases (test f file_name)) [
    | inl positive ↦ rw positive (find_false-Connected conns l h.1)
    | inr negative ↦ rw negative (h.0, find_false-Connected conns l h.1)
  ]

complement_panics :
    (draw : ℕ → ℕ) (conns : List (EdgePeer × AdjConnection)) (forwarder : EdgePeer) (max c : ℕ)
    (candidates : List EdgePeer) (p : EdgePeer)
    → c < max
    → get_elem? candidates (draw 0 % length candidates) ≡ some p
    → p ≢ forwarder
    → has_key peer_discrete p conns ≡ false
    → complement draw conns forwarder max (length candidates) 0 c candidates ≡ panic
unfolding complement
complement_panics draw conns forwarder max c [] p lt at other lost = absurd (ground arith)
complement_panics draw conns forwarder max c (x ∷ xs) p lt at other lost =
    rw (lt→ltb 0 (max - c) (omega arith), at, if_neg (peer_discrete p forwarder) other, lost) refl

-- A lookup that contacts allowed neighbours, at most `max` of them. When filters name `first` of them, about half of the places
-- that are left are filled.
abbrev pub Bounded : List (EdgePeer × AdjConnection) → EdgePeer → ℕ → ℕ → Contacts → Type 0
Bounded conns forwarder max first o =
    (l : List EdgePeer) × (o ≡ ok l)
    × (length l ≤ max)
    × (2 * length l ≤ suc (max + first))
    × All (Allowed conns forwarder) l

after_first :
    (conns : List (EdgePeer × AdjConnection)) (forwarder : EdgePeer) (max : ℕ)
    (first : List EdgePeer) (o : Contacts)
    → length first < max
    → All (Allowed conns forwarder) first
    → ((l : List EdgePeer) × (o ≡ ok l)
        × (2 * length l ≤ suc (max - length first - 0))
        × All (Allowed conns forwarder) l)
    → Bounded conns forwarder max (length first) (do rest ← o; ok (first ++ rest))
after_first conns forwarder max first o lt a (l, e, n, h) = (
  first ++ l,
  rw e refl,
  omega (arith, length-append first l),
  omega (arith, length-append first l),
  All-append (Allowed conns forwarder) first l a h,
)

module _ {Filter : Type 0} (test : Filter → String → Bool) (draw : ℕ → ℕ)
    (conns : List (EdgePeer × AdjConnection)) (filter_map : List (EdgePeer × Filter))
    (file_name : String) (forwarder : EdgePeer) (max : ℕ) where
  abbrev pub first_contacts : List EdgePeer
  first_contacts = contact_positive test filter_map file_name forwarder max conns 0

  -- If at least one contact is allowed and every neighbour with a filter has a connection, a lookup is passed on
  -- without a panic, to at most as many peers as are allowed, all of them with a connection and none of them the forwarder.
  -- Of the places that the neighbours with a positive filter leave, at most half, rounded up, are filled.
  pub neighbours_file_lookup-Bounded :
      0 < max
      → All (λ e. Connected conns e.0) filter_map
      → Bounded conns forwarder max
          (length first_contacts)
          (neighbours_file_lookup test draw conns filter_map file_name forwarder max)
  unfolding neighbours_file_lookup
  neighbours_file_lookup-Bounded lt h =
      let a =
        contact_positive-Allowed test filter_map file_name forwarder max conns conns 0
          (keys_of_map peer_discrete conns) in
      let n = contact_positive-length test filter_map file_name forwarder max conns 0 lt in
      elim (Bool-cases (ltb (length first_contacts) max)) [
        | inr full ↦ rw full (first_contacts, refl, omega (arith, n), omega arith, a)
        | inl room ↦ rw room (
            after_first conns forwarder max first_contacts _ (ground arith) a (
              complement-Half draw conns forwarder max
                (length (find_false_adjacents_filter test filter_map file_name)) 0
                (length first_contacts) (find_false_adjacents_filter test filter_map file_name)
                (find_false-Connected test filter_map file_name forwarder max conns filter_map h)))
      ]

  -- If the neighbours with a positive filter leave a place, and the first peer drawn among those with a negative filter
  -- is not the forwarder and has no connection, then the lookup panics.
  pub neighbours_file_lookup_panics :
      (p : EdgePeer)
      → length first_contacts < max
      → get_elem?
          (find_false_adjacents_filter test filter_map file_name)
          (draw 0 % length (find_false_adjacents_filter test filter_map file_name))
        ≡ some p
      → p ≢ forwarder
      → has_key peer_discrete p conns ≡ false
      → neighbours_file_lookup test draw conns filter_map file_name forwarder max ≡ panic
  unfolding neighbours_file_lookup complement
  neighbours_file_lookup_panics p lt at other lost = rw (lt→ltb (length first_contacts) max lt) (
      rw
        (complement_panics draw conns forwarder max (length first_contacts)
          (find_false_adjacents_filter test filter_map file_name) p lt at other lost)
        refl)
