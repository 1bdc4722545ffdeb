-- ===== src/Net/Tcp/Resolve.antt =====
-- src/net/tcp/stream.rs with src/net/sockaddr: the loop of `connect` over the addresses that its argument
-- is resolved to.
use wae.Common.{
  ℕ, zero, suc, ◌+◌, ◌<◌, ◌≡◌, refl, ◌⊎◌, inl, inr, Option, none, some, List, [], ◌∷◌,
  if◌then◌else◌, ok, err, IoResult, os, pos, is_ok, length, ap, arith, Poll, ready, pending,
}
use wae.Net.Sockaddr.Host.{Text}
use wae.Net.Sockaddr.Info.{Chain, Iter, addresses, walk_lem}
use wae.Net.Sockaddr.Info
use wae.Net.Sockaddr.Addrs.{IterInner, once, copied, looked_up, next, left, of_pair, poll}
use wae.Net.Tcp.Attempts.{connect_loop, connect_result, connect_best, best, until_ok}

module _ {A : Type 0} (attempt : ℕ → A → IoResult (Unit {0})) where
  -- `for addr in addrs` of `connect`, with fuel for the rounds; `attempt` is what the attempt of a round at
  -- an address gives. `none`: the fuel is used up.
  unfoldable pub try_each :
      ℕ → IterInner A → ℕ → IoResult (Unit {0}) → Option (ℕ × IoResult (Unit {0}))
  unfolding next
  try_each zero it tried result = none
  try_each (suc fuel) it tried result =
      let (addr, it') = next it in
      elim addr [
        | none ↦ some (tried, result)
        | some a ↦
            let more = try_each fuel it' (tried + 1) (attempt tried a) in
            if is_ok (attempt tried a) then some (tried + 1, attempt tried a) else more
      ]

  -- The results of the attempts at some addresses, from a round on.
  abbrev pub attempts : ℕ → List A → List (IoResult (Unit {0}))
  attempts round [] = []
  attempts round (a ∷ addrs) = attempt round a ∷ attempts (round + 1) addrs

  next_cases :
      (it : IterInner A)
      → (((next it).0 ≡ none) × (left it ≡ []))
        ⊎ ((a : A) × ((next it).0 ≡ some a) × (left it ≡ a ∷ left (next it).1))
  unfolding next Info.next
  next_cases (once none) = inl (ground arith, refl)
  next_cases (once (some a)) = inr (a, ground arith, ground arith)
  next_cases (copied []) = inl (ground arith, refl)
  next_cases (copied (a ∷ l)) = inr (a, ground arith, ground arith)
  next_cases (looked_up it) = elim (walk_lem it.current) [
    | inl (p, q, _) ↦ inl (ground arith, q)
    | inr (a, p, q, _) ↦ inr (a, ground arith, ground arith)
  ]

  try_each_lem :
      (fuel : ℕ) (it : IterInner A) (tried : ℕ) (result : IoResult (Unit {0}))
      → length (left it) < fuel
      → try_each fuel it tried result ≡ some (connect_loop (attempts tried (left it)) tried result)
  unfolding try_each connect_loop
  try_each_lem zero it tried result lt = absurd (omega arith)
  try_each_lem (suc fuel) it tried result lt = elim (next_cases it) [
    | inl (p, q) ↦ ground arith
    | inr (a, p, q) ↦
        let rest =
          try_each_lem fuel (next it).1 (tried + 1) (attempt tried a)
            (omega (arith, lt, ap length q)) in
        ground arith
  ]

  -- `connect` from the await of the resolution to the match on its result: how many addresses it has tried,
  -- and what it returns if it makes no handle.
  unfoldable pub connect_over : ℕ → IoResult (IterInner A) → Option (ℕ × IoResult (Unit {0}))
  unfolding try_each connect_result
  connect_over fuel (err e) = some (0, err e)
  connect_over fuel (ok addrs) = elim (try_each fuel addrs 0 (err (os (pos 0)))) [
    | none ↦ none
    | some (tried, result) ↦ some (tried, connect_result (tried, result))
  ]

  pub connect_over-left :
      (fuel : ℕ) (it : IterInner A)
      → length (left it) < fuel
      → connect_over fuel (ok it)
        ≡ some (until_ok (attempts 0 (left it)), best (attempts 0 (left it)))
  unfolding connect_over
  connect_over-left fuel it lt =
      ground
        (arith, try_each_lem fuel it 0 (err (os (pos 0))) lt, connect_best (attempts 0 (left it)))

  -- What a host and a port are resolved to: the one address that the host denotes, or the IP addresses of
  -- the lookup.
  abbrev pub targets : {I : Type 0} → Option I → (I → ℕ → A) → ℕ → Chain A → List A
  targets (some ip) new port chain = new ip port ∷ []
  targets none new port chain = addresses chain

  abbrev iterator : {I : Type 0} → Option I → (I → ℕ → A) → ℕ → Chain A → IterInner A
  iterator (some ip) new port chain = once (some (new ip port))
  iterator none new port chain = looked_up (record { addrinfo = chain; current = chain })

  left-iterator :
      {I : Type 0} (o : Option I) (new : I → ℕ → A) (port : ℕ) (chain : Chain A)
      → left (iterator o new port chain) ≡ targets o new port chain
  left-iterator none new port chain = refl
  left-iterator (some ip) new port chain = refl

  poll-of_pair :
      {I : Type 0} (parse : Text → Option I) (new : I → ℕ → A) (host : Text) (port : ℕ)
      (chain : Chain A)
      → poll
          (ready (ok (record { addrinfo = chain; current = chain })))
          (of_pair parse new (host, port))
        ≡ ready (ok (iterator (parse host) new port chain))
  unfolding of_pair poll
  poll-of_pair parse new host port chain = ground arith

  abbrev pub when_ready : ℕ → Poll (IoResult (IterInner A)) → Option (ℕ × IoResult (Unit {0}))
  when_ready fuel (ready addrs) = connect_over fuel addrs
  when_ready fuel pending = none

  -- `connect` to a host and a port whose lookup has returned: with fuel for one round more than there are
  -- addresses its loop ends. It has tried, in order and up to the first that accepts, the one address
  -- that the host denotes or else the IP addresses of the lookup, and it goes on to make the handle
  -- exactly if one accepts; otherwise its error is that of the last address, or "not found" if there is
  -- none.
  pub connect_tries :
      {I : Type 0} (parse : Text → Option I) (new : I → ℕ → A) (host : Text) (port : ℕ)
      (chain : Chain A) (fuel : ℕ)
      → length (targets (parse host) new port chain) < fuel
      → when_ready fuel (
          poll
            (ready (ok (record { addrinfo = chain; current = chain })))
            (of_pair parse new (host, port)))
        ≡ some (
          until_ok (attempts 0 (targets (parse host) new port chain)),
          best (attempts 0 (targets (parse host) new port chain)),
        )
  connect_tries parse new host port chain fuel lt =
      let e = left-iterator (parse host) new port chain in
      rw (poll-of_pair parse new host port chain)
        (rw e at (connect_over-left fuel (iterator (parse host) new port chain) (rw (← e) at lt)))
