-- ===== src/Edge/Peer/Pings.antt =====
-- What rounds of pings (`pingFunction`, edge/peer/network.go) leave of the neighbours.
use sdcc_project.Base.{
  ◌≡◌, refl, ◌∙◌, ap, sym, true, false, List, [], ◌∷◌, Option, none, some, if◌then◌else◌, ite,
  arith, Option-cases, Bool-cases, inl, inr, if_pos, if_neg,
}
use sdcc_project.Base.Int.{ℤ, pos, ◌+ℤ◌, leb_ℤ, wrap64}
use sdcc_project.Base.Dict.{insert, lookup, has_key, Unique, lookup-insert, lookup-erase}
use sdcc_project.Edge.Peer.{EdgePeer, peer_discrete, AdjConnection}
use sdcc_project.Edge.Peer.Network.{
  AdjacentPeers, PingAnswer, replied, failed, timed_out, timeout_action, reset_missed, count_missed,
  ping_one, ping_all, ping_function,
}

-- A neighbour that replies has missed no ping. Another one has missed one more, and is removed at the bound.
abbrev pub missed_again : ℤ → AdjConnection → Option AdjConnection
missed_again max c =
    let missed = wrap64 (c.missed_ping +ℤ pos 1) in
    if leb_ℤ max missed then none else some (record c { missed_ping = missed })

abbrev pub pinged : ℤ → PingAnswer → Option AdjConnection → Option AdjConnection
pinged max a none = none
pinged max replied (some c) = some (record c { missed_ping = pos 0 })
pinged max failed (some c) = missed_again max c
pinged max timed_out (some c) = missed_again max c

timed_out_same : (max : ℤ) (o : Option AdjConnection) → pinged max failed o ≡ pinged max timed_out o
timed_out_same max none = refl
timed_out_same max (some c) = refl

module _ {Filter : Type 0} where
  abbrev pub conn_of : EdgePeer → AdjacentPeers Filter → Option AdjConnection
  conn_of p adj = lookup peer_discrete p adj.peer_conns

module _ {Filter : Type 0} (max : ℤ) where
  same_conn : (p q : EdgePeer) (adj : AdjacentPeers Filter) → q ≡ p → conn_of p adj ≡ conn_of q adj
  same_conn p q adj e = ap (λ x. conn_of x adj) (sym e)

  -- What a step leaves of the neighbour `p` when it is about `q`.
  abbrev About :
      PingAnswer → EdgePeer → EdgePeer → AdjacentPeers Filter → AdjacentPeers Filter → Type 0
  About a q p adj adj' =
      conn_of p adj' ≡ ite (peer_discrete q p) (pinged max a (conn_of p adj)) (conn_of p adj)

  none-About :
      (a : PingAnswer) (p q : EdgePeer) (adj : AdjacentPeers Filter)
      → conn_of q adj ≡ none
      → About a q p adj adj
  none-About a p q adj h = elim (peer_discrete q p) [
    | yes e ↦ rw (if_pos (peer_discrete q p) e, same_conn p q adj e, h) refl
    | no n ↦ rw (if_neg (peer_discrete q p) n) refl
  ]

  count_missed-About :
      (o : Option AdjConnection) (p q : EdgePeer) (adj : AdjacentPeers Filter)
      → conn_of q adj ≡ o
      → About failed q p adj (count_missed max q o adj)
  count_missed-About none p q adj h = none-About failed p q adj h
  count_missed-About (some c) p q adj h =
      let moved : AdjConnection = record c { missed_ping = wrap64 (c.missed_ping +ℤ pos 1) } in
      elim (Bool-cases (leb_ℤ max (wrap64 (c.missed_ping +ℤ pos 1)))) [
        | inl b ↦ rw b (
            lookup-erase peer_discrete q p (insert peer_discrete q moved adj.peer_conns)
            ∙ elim (peer_discrete q p) [
              | yes e ↦
                  rw
                    (
                      if_pos (peer_discrete q p) e,
                      if_pos (peer_discrete q p) e,
                      same_conn p q adj e,
                      h,
                      b,
                    )
                    refl
              | no n ↦
                  rw
                    (
                      if_neg (peer_discrete q p) n,
                      lookup-insert peer_discrete q p moved adj.peer_conns,
                      if_neg (peer_discrete q p) n,
                      if_neg (peer_discrete q p) n,
                    )
                    refl
            ])
        | inr b ↦ rw b (
            lookup-insert peer_discrete q p moved adj.peer_conns ∙ elim (peer_discrete q p) [
              | yes e ↦
                  rw
                    (
                      if_pos (peer_discrete q p) e,
                      if_pos (peer_discrete q p) e,
                      same_conn p q adj e,
                      h,
                      b,
                    )
                    refl
              | no n ↦ rw (if_neg (peer_discrete q p) n, if_neg (peer_discrete q p) n) refl
            ])
      ]

  reset_missed-About :
      (o : Option AdjConnection) (p q : EdgePeer) (adj : AdjacentPeers Filter)
      → conn_of q adj ≡ o
      → About replied q p adj (reset_missed q o adj)
  reset_missed-About none p q adj h = none-About replied p q adj h
  reset_missed-About (some c) p q adj h =
      lookup-insert peer_discrete q p (record c { missed_ping = pos 0 }) adj.peer_conns
      ∙ elim (peer_discrete q p) [
        | yes e ↦
            rw (if_pos (peer_discrete q p) e, if_pos (peer_discrete q p) e, same_conn p q adj e, h)
              refl
        | no n ↦ rw (if_neg (peer_discrete q p) n, if_neg (peer_discrete q p) n) refl
      ]

  ping_one-About :
      (a : PingAnswer) (p q : EdgePeer) (adj : AdjacentPeers Filter)
      → About a q p adj (ping_one max a q adj)
  unfolding ping_one timeout_action
  ping_one-About replied p q adj = reset_missed-About (conn_of q adj) p q adj refl
  ping_one-About failed p q adj = count_missed-About (conn_of q adj) p q adj refl
  ping_one-About timed_out p q adj =
      count_missed-About (conn_of q adj) p q adj refl
      ∙ ap (λ x. ite (peer_discrete q p) x (conn_of p adj)) (timed_out_same max (conn_of p adj))

  ping_all-conn :
      (answer : EdgePeer → PingAnswer) (p : EdgePeer) (l : List (EdgePeer × AdjConnection))
      (adj : AdjacentPeers Filter)
      → Unique peer_discrete l
      → conn_of p (ping_all max answer l adj) ≡ (
          if has_key peer_discrete p l
          then pinged max (answer p) (conn_of p adj)
          else conn_of p adj)
  unfolding ping_all lookup
  ping_all-conn answer p [] adj u = refl
  ping_all-conn answer p ((q, c) ∷ l) adj u =
      let adj' = ping_one max (answer q) q adj in
      ping_all-conn answer p l adj' u.1 ∙ elim (peer_discrete p q) [
        | yes e ↦
            let gone : has_key peer_discrete p l ≡ false =
              ground (arith, ap (λ x. lookup peer_discrete x l) e ∙ u.0) in
            let here : has_key peer_discrete p ((q, c) ∷ l) ≡ true = ground arith in
            rw (gone, here)
              (ping_one-About (answer q) p q adj
                ∙ rw (if_pos (peer_discrete q p) (sym e), ap answer (sym e)) refl)
        | no n ↦
            let other : conn_of p adj' ≡ conn_of p adj =
              ping_one-About (answer q) p q adj
              ∙ rw (if_neg (peer_discrete q p) (λ e. n (sym e))) refl in
            let below : has_key peer_discrete p ((q, c) ∷ l) ≡ has_key peer_discrete p l =
              ground arith in
            rw (below, other) refl
      ]

  -- If no peer stands twice among the connections, a round of pings leaves of each neighbour what its own answer says: no missed
  -- ping if it replies, else one more, or no connection if that reaches the bound. No other peer gets a connection.
  pub ping_function-conn :
      (answer : EdgePeer → PingAnswer) (p : EdgePeer) (adj : AdjacentPeers Filter)
      → Unique peer_discrete adj.peer_conns
      → conn_of p (ping_function max answer adj) ≡ pinged max (answer p) (conn_of p adj)
  unfolding ping_function
  ping_function-conn answer p adj u =
      ping_all-conn answer p adj.peer_conns adj u
      ∙ elim (Option-cases (conn_of p adj)) [ inl h ↦ rw h refl | inr (c, h) ↦ rw h refl ]
