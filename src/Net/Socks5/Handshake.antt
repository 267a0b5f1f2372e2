-- ===== src/Net/Socks5/Handshake.antt =====
-- Socks5.cpp: what has come to pass when the proxy is ready.
use mathlib.Core.List.{append-nil}
use rxs_supported.Common.{
  ℕ, suc, ◌≤◌, List, [], ◌∷◌, ◌++◌, Bool, true, false, ◌&&◌, ltb, leb, if◌then◌else◌, Option, none,
  some, length, ◌≡◌, refl, ap, sym, ◌∙◌, arith, Bool-cases, Option-cases, inl, inr, ◌⊎◌,
}
use rxs_supported.Net.Socks5.{
  Socks5, State, created, sent_initial_handshake, sent_final_handshake, ready, Effect, write, close,
  is_ready, handshake, request, connect, accepted, is_good, read,
}

-- The requests that have been written.
abbrev pub writes : List Effect → List (List ℕ)
writes [] = []
writes (write bytes ∷ effects) = bytes ∷ writes effects
writes (close ∷ effects) = writes effects

writes-append : (xs ys : List Effect) → writes (xs ++ ys) ≡ writes xs ++ writes ys
writes-append [] ys = refl
writes-append (write bytes ∷ xs) ys = ap (λ t. bytes ∷ t) (writes-append xs ys)
writes-append (close ∷ xs) ys = writes-append xs ys

-- A reply of at least `n` bytes that begins with 5 and 0.
abbrev pub good : ℕ → List ℕ → Bool
good n bytes = elim (is_good bytes) [ none ↦ false | some b ↦ b && leb n (length bytes) ]

abbrev pub count_good : ℕ → List (List ℕ) → ℕ
count_good n [] = 0
count_good n (reply ∷ replies) =
    let rest = count_good n replies in if good n reply then suc rest else rest

module _ (ip4_addr ip6_addr : List ℕ → Option (List ℕ)) (host : List ℕ) (port : ℕ) where
  -- The reads after a handshake, the latest first, and their effects in order.
  abbrev pub reads : List (List ℕ) → Option (Socks5 × List Effect)
  reads [] = some ((handshake (record { next_size = 0; state = created })).0, [])
  reads (reply ∷ replies) = elim (reads replies) [
    | none ↦ none
    | some (s, effects) ↦ elim (read ip4_addr ip6_addr host port reply s) [
      | none ↦ none
      | some (_, s', more) ↦ some (s', effects ++ more)
    ]
  ]

  -- That the one request written is the one for the host and port.
  abbrev pub Asked : List (List ℕ) → Type 0
  Asked written =
      (bytes : List ℕ) × (request ip4_addr ip6_addr host port ≡ some bytes) × (written ≡ bytes ∷ [])

  -- In each state: what is waited for, which replies there were, and what has been written.
  abbrev pub Stage : State → ℕ → List (List ℕ) → List (List ℕ) → Type 0
  Stage created next replies written = ⊥
  Stage sent_initial_handshake next replies written = (next ≡ 2) × (written ≡ [])
  Stage sent_final_handshake next replies written =
      (next ≡ 5) × (1 ≤ count_good 2 replies) × Asked written
  Stage ready next replies written =
      (1 ≤ count_good 5 replies) × (2 ≤ count_good 2 replies) × Asked written

  count_more :
      (n : ℕ) (reply : List ℕ) (replies : List (List ℕ))
      → count_good n replies ≤ count_good n (reply ∷ replies)
  count_more n reply replies = elim (Bool-cases (good n reply)) [
    | inl e ↦ rw e (omega arith)
    | inr e ↦ rw e (omega arith)
  ]

  count_one :
      (n : ℕ) (reply : List ℕ) (replies : List (List ℕ))
      → is_good reply ≡ some true
      → n ≤ length reply
      → count_good n (reply ∷ replies) ≡ suc (count_good n replies)
  count_one n reply replies g h =
      let e : leb n (length reply) ≡ true = ground arith in
      let q : good n reply ≡ true = rw (good, g, e) refl in rw q refl

  stay :
      (state : State) (next : ℕ) (reply : List ℕ) (replies written : List (List ℕ))
      → Stage state next replies written
      → Stage state next (reply ∷ replies) written
  stay created next reply replies written v = v
  stay sent_initial_handshake next reply replies written v = v
  stay sent_final_handshake next reply replies written (n, g, q) =
      (n, omega (arith, count_more 2 reply replies), q)
  stay ready next reply replies written (f, g, q) =
      (omega (arith, count_more 5 reply replies), omega (arith, count_more 2 reply replies), q)

  -- A read that ends well: the state stays, or a good reply of the awaited size is accepted.
  from_read :
      (reply : List ℕ) (s s' : Socks5) (b : Bool) (more : List Effect)
      → read ip4_addr ip6_addr host port reply s ≡ some (b, s', more)
      → ((s ≡ s') × (writes more ≡ []))
        ⊎ ((s.next_size ≤ length reply)
            × (is_good reply ≡ some true)
            × (accepted ip4_addr ip6_addr host port s ≡ some (s', more)))
  unfolding read
  from_read reply s s' b more e = elim (Bool-cases (ltb (length reply) s.next_size)) [
    | inl t ↦ inl (ground (arith, t), let w : [] ≡ more = ground (arith, t) in ap writes (sym w))
    | inr f ↦ elim (Option-cases (is_good reply)) [
      | inl n ↦ absurd (ground (arith, f, n))
      | inr (false, g) ↦ inl (
        ground (arith, f, g),
        let w : close ∷ [] ≡ more = ground (arith, f, g) in ap writes (sym w),
      )
      | inr (true, g) ↦ elim (Option-cases (accepted ip4_addr ip6_addr host port s)) [
        | inl n ↦ absurd (ground (arith, f, g, n))
        | inr (p, a) ↦ inr (ground (arith, f), g, a ∙ ground (arith, f, g, a))
      ]
    ]
  ]

  accept :
      (reply : List ℕ) (replies : List (List ℕ)) (state : State) (next : ℕ) (s' : Socks5)
      (effects more : List Effect)
      → Stage state next replies (writes effects)
      → next ≤ length reply
      → is_good reply ≡ some true
      → accepted ip4_addr ip6_addr host port (record { next_size = next; state = state })
        ≡ some (s', more)
      → Stage s'.state s'.next_size (reply ∷ replies) (writes effects ++ writes more)
  unfolding accepted connect
  accept reply replies created next s' effects more v h g e = absurd v
  accept reply replies sent_initial_handshake next s' effects more (n, w) h g e =
      elim (Option-cases (request ip4_addr ip6_addr host port)) [
        | inl r ↦ absurd (ground (arith, r))
        | inr (bytes, r) ↦
            let same : record { next_size = 5; state = sent_final_handshake } ≡ s' =
              ground (arith, r) in
            let written : write bytes ∷ [] ≡ more = ground (arith, r) in
            let one = count_one 2 reply replies g (omega (arith, n, h)) in
            rw (← same, ← written, w) (refl, omega (arith, one), (bytes, r, refl))
      ]
  accept reply replies sent_final_handshake next s' effects more (n, c, q) h g e =
      let same : record { next_size = next; state = ready } ≡ s' = ground arith in
      let written : [] ≡ more = ground arith in
      let two = count_one 2 reply replies g (omega (arith, n, h)) in
      let five = count_one 5 reply replies g (omega (arith, n, h)) in
      rw (← same, ← written, append-nil (writes effects))
        (omega (arith, five), omega (arith, two, c), q)
  accept reply replies ready next s' effects more (f, c, q) h g e =
      let same : record { next_size = next; state = ready } ≡ s' = ground arith in
      let written : [] ≡ more = ground arith in
      rw (← same, ← written, append-nil (writes effects))
        (stay ready next reply replies (writes effects) (f, c, q))

  read-Stage :
      (reply : List ℕ) (replies : List (List ℕ)) (s s' : Socks5) (b : Bool)
      (effects more : List Effect)
      → Stage s.state s.next_size replies (writes effects)
      → read ip4_addr ip6_addr host port reply s ≡ some (b, s', more)
      → Stage s'.state s'.next_size (reply ∷ replies) (writes (effects ++ more))
  read-Stage reply replies s s' b effects more v e = elim (from_read reply s s' b more e) [
    | inl (same, w) ↦
        rw (← same, writes-append effects more, w, append-nil (writes effects))
          (stay s.state s.next_size reply replies (writes effects) v)
    | inr (h, g, a) ↦
        rw (writes-append effects more)
          (accept reply replies s.state s.next_size s' effects more v h g a)
  ]

  reads-Stage :
      (replies : List (List ℕ)) (s : Socks5) (effects : List Effect)
      → reads replies ≡ some (s, effects)
      → Stage s.state s.next_size replies (writes effects)
  unfolding handshake
  reads-Stage [] s effects e =
      let same : record { next_size = 2; state = sent_initial_handshake } ≡ s = ground arith in
      let nothing : [] ≡ effects = ground arith in rw (← same, ← nothing) (refl, refl)
  reads-Stage (reply ∷ replies) s effects e = elim (Option-cases (reads replies)) [
    | inl n ↦ absurd (ground (arith, n))
    | inr ((s0, before), r) ↦ elim (Option-cases (read ip4_addr ip6_addr host port reply s0)) [
      | inl n ↦ absurd (ground (arith, r, n))
      | inr ((b, s1, more), q) ↦
          let same : s1 ≡ s = ground (arith, r, q) in
          let all : before ++ more ≡ effects = ground (arith, r, q) in
          rw (← same, ← all)
            (read-Stage reply replies s0 s1 b before more (reads-Stage replies s0 before r) q)
    ]
  ]

  ready_lem :
      (state : State) (next : ℕ) (replies written : List (List ℕ))
      → Stage state next replies written
      → is_ready (record { next_size = next; state = state }) ≡ true
      → (1 ≤ count_good 5 replies) × (2 ≤ count_good 2 replies) × Asked written
  ready_lem created next replies written v r = absurd v
  ready_lem sent_initial_handshake next replies written v r = absurd (ground arith)
  ready_lem sent_final_handshake next replies written v r = absurd (ground arith)
  ready_lem ready next replies written v r = v

  -- Where the object is ready after a handshake and any reads that end well, the proxy has given two good
  -- replies, one of at least five bytes, and exactly one request has been written, the one for the
  -- pool's host and port.
  pub is_ready-Asked :
      (replies : List (List ℕ)) (s : Socks5) (effects : List Effect)
      → reads replies ≡ some (s, effects)
      → is_ready s ≡ true
      → (1 ≤ count_good 5 replies) × (2 ≤ count_good 2 replies) × Asked (writes effects)
  is_ready-Asked replies s effects e r =
      ready_lem s.state s.next_size replies (writes effects) (reads-Stage replies s effects e) r
