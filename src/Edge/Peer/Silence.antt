-- ===== src/Edge/Peer/Silence.antt =====
-- A neighbour that stops to reply to pings (edge/peer/network.go).
use sdcc_project.Base.{
  ℕ, suc, ◌+◌, ◌^◌, ◌<◌, ◌≡◌, ◌≢◌, refl, ◌∙◌, ap, true, false, List, [], ◌∷◌, Option, none, some,
  if◌then◌else◌, arith, Bool-cases, leb, length, All, inl, inr,
}
use sdcc_project.Base.Int.{ℤ, pos, ◌+ℤ◌, leb_ℤ, wrap64}
use sdcc_project.Base.Dict.{insert, lookup, Unique, insert-Unique, erase-Unique}
use sdcc_project.Edge.Peer.{EdgePeer, peer_discrete, AdjConnection}
use sdcc_project.Edge.Peer.Network.{
  AdjacentPeers, PingAnswer, replied, failed, timed_out, timeout_action, reset_missed, count_missed,
  ping_one, ping_all, ping_function,
}
use sdcc_project.Edge.Peer.Pings.{pinged, missed_again, conn_of, ping_function-conn}

module _ {Filter : Type 0} (max : ℤ) where
  -- Rounds of pings, each with its answers.
  abbrev pub rounds : List (EdgePeer → PingAnswer) → AdjacentPeers Filter → AdjacentPeers Filter
  rounds [] adj = adj
  rounds (answer ∷ later) adj = rounds later (ping_function max answer adj)

  count_missed-Unique :
      (o : Option AdjConnection) (q : EdgePeer) (adj : AdjacentPeers Filter)
      → Unique peer_discrete adj.peer_conns
      → Unique peer_discrete (count_missed max q o adj).peer_conns
  count_missed-Unique none q adj u = u
  count_missed-Unique (some c) q adj u =
      let moved : AdjConnection = record c { missed_ping = wrap64 (c.missed_ping +ℤ pos 1) } in
      let v = insert-Unique peer_discrete q moved adj.peer_conns u in
      elim (Bool-cases (leb_ℤ max (wrap64 (c.missed_ping +ℤ pos 1)))) [
        | inl b ↦
            rw b (erase-Unique peer_discrete q (insert peer_discrete q moved adj.peer_conns) v)
        | inr b ↦ rw b v
      ]

  reset_missed-Unique :
      (o : Option AdjConnection) (q : EdgePeer) (adj : AdjacentPeers Filter)
      → Unique peer_discrete adj.peer_conns
      → Unique peer_discrete (reset_missed q o adj).peer_conns
  reset_missed-Unique none q adj u = u
  reset_missed-Unique (some c) q adj u =
      insert-Unique peer_discrete q (record c { missed_ping = pos 0 }) adj.peer_conns u

  ping_one-Unique :
      (a : PingAnswer) (q : EdgePeer) (adj : AdjacentPeers Filter)
      → Unique peer_discrete adj.peer_conns
      → Unique peer_discrete (ping_one max a q adj).peer_conns
  unfolding ping_one timeout_action
  ping_one-Unique replied q adj u = reset_missed-Unique (conn_of q adj) q adj u
  ping_one-Unique failed q adj u = count_missed-Unique (conn_of q adj) q adj u
  ping_one-Unique timed_out q adj u = count_missed-Unique (conn_of q adj) q adj u

  ping_all-Unique :
      (answer : EdgePeer → PingAnswer) (l : List (EdgePeer × AdjConnection))
      (adj : AdjacentPeers Filter)
      → Unique peer_discrete adj.peer_conns
      → Unique peer_discrete (ping_all max answer l adj).peer_conns
  unfolding ping_all
  ping_all-Unique answer [] adj u = u
  ping_all-Unique answer ((q, c) ∷ l) adj u =
      ping_all-Unique answer l (ping_one max (answer q) q adj) (ping_one-Unique (answer q) q adj u)

  ping_function-Unique :
      (answer : EdgePeer → PingAnswer) (adj : AdjacentPeers Filter)
      → Unique peer_discrete adj.peer_conns
      → Unique peer_discrete (ping_function max answer adj).peer_conns
  unfolding ping_function
  ping_function-Unique answer adj u = ping_all-Unique answer adj.peer_conns adj u

  rounds-none :
      (answers : List (EdgePeer → PingAnswer)) (p : EdgePeer) (adj : AdjacentPeers Filter)
      → Unique peer_discrete adj.peer_conns
      → conn_of p adj ≡ none
      → conn_of p (rounds answers adj) ≡ none
  rounds-none [] p adj u h = h
  rounds-none (answer ∷ later) p adj u h =
      rounds-none later p (ping_function max answer adj) (ping_function-Unique answer adj u)
        (ping_function-conn max answer p adj u ∙ rw h refl)

abbrev pub Silent : EdgePeer → List (EdgePeer → PingAnswer) → Type 0
Silent p = All (λ answer. answer p ≢ replied)

pinged_silent :
    (max : ℤ) (a : PingAnswer) (c : AdjConnection)
    → a ≢ replied
    → pinged max a (some c) ≡ missed_again max c
pinged_silent max replied c n = absurd (n refl)
pinged_silent max failed c n = refl
pinged_silent max timed_out c n = refl

one_more : (k : ℕ) → suc k < 2 ^ 63 → wrap64 (pos k +ℤ pos 1) ≡ pos (suc k)
unfolding wrap64 ◌+ℤ◌
one_more k h = ground arith

next_missed :
    (m k : ℕ) (c : AdjConnection)
    → c.missed_ping ≡ pos k
    → k < m
    → m < 2 ^ 63
    → missed_again (pos m) c
      ≡ (if leb m (suc k) then none else some (record c { missed_ping = pos (suc k) }))
next_missed m k c e lt bound =
    rw (ap (λ x. wrap64 (x +ℤ pos 1)) e ∙ one_more k (omega arith)) (ground arith)

module _ {Filter : Type 0} (m : ℕ) (bound : m < 2 ^ 63) (p : EdgePeer) where
  -- If no peer stands twice among the connections, a neighbour with `k` missed pings, `k` below the bound `m` and `m` below 2^63, that
  -- does not reply in any of some rounds of pings is still connected, with one missed ping more for each round, as long as this
  -- sum is below the bound, and has no connection afterwards.
  pub rounds-Silent :
      (answers : List (EdgePeer → PingAnswer)) (k : ℕ) (c : AdjConnection)
      (adj : AdjacentPeers Filter)
      → Unique peer_discrete adj.peer_conns
      → lookup peer_discrete p adj.peer_conns ≡ some c
      → c.missed_ping ≡ pos k
      → k < m
      → Silent p answers
      → lookup peer_discrete p (rounds (pos m) answers adj).peer_conns ≡ (
          if leb m (k + length answers)
          then none
          else some (record c { missed_ping = pos (k + length answers) }))
  rounds-Silent [] k c adj u h e lt s =
      let below : leb m (k + 0) ≡ false = ground arith in
      rw below
        (h ∙ ap (λ x. some (record c { missed_ping = x })) (e ∙ ap (λ n. pos n) (omega arith)))
  rounds-Silent (answer ∷ later) k c adj u h e lt s =
      let adj' = ping_function (pos m) answer adj in
      let u' = ping_function-Unique (pos m) answer adj u in
      let step =
        ping_function-conn (pos m) answer p adj u
        ∙ ap (pinged (pos m) (answer p)) h
        ∙ pinged_silent (pos m) (answer p) c s.0
        ∙ next_missed m k c e lt bound in
      elim (Bool-cases (leb m (suc k))) [
        | inl full ↦
            let over : leb m (k + suc (length later)) ≡ true = ground arith in
            rw over (rounds-none (pos m) later p adj' u' (step ∙ rw full refl))
        | inr room ↦
            rounds-Silent later (suc k) (record c { missed_ping = pos (suc k) }) adj' u'
              (step ∙ rw room refl) refl (ground arith) s.1
            ∙ ap (λ n. if leb m n then none else some (record c { missed_ping = pos n }))
                (omega arith)
      ]
