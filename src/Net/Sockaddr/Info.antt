-- ===== src/Net/Sockaddr/Info.antt =====
-- src/net/sockaddr/get_addr_info.rs: the future of a lookup, and the iterator over its linked list.
use wae.Common.{
  ℕ, ℤ, pos, negsuc, zero, suc, ◌≤◌, ◌<◌, ◌≡◌, refl, ◌⊎◌, Option, none, some, List, [], ◌∷◌, ◌==◌,
  if◌then◌else◌, ok, err, Poll, ready, pending, IoResult, os, not_found, inl, inr, Bool-cases,
  is_code, arith, length,
}
use wae.Io.State
use wae.Io.Waker.{AtomicWaker}
use wae.Io.Event.{Event}
use wae.Io.Event.Laws.{poll_of_idle}
use wae.Io.Event
use wae.Net.Sockaddr.Host.{Text, wide_host_and_port}

-- `GetAddrInfoFuture`: the wide strings that it looks up, and its event if that could be made.
pub record GetAddrInfoFuture (aw : AtomicWaker) : Type 0 where
  pub host : List ℕ
  pub port : Option (List ℕ)
  pub event : IoResult (Event aw)

-- `get_addr_info`; `event` is what `IoEvent::new` returned.
unfoldable pub get_addr_info :
    (aw : AtomicWaker) → Text → Option ℕ → IoResult (Event aw) → GetAddrInfoFuture aw
unfolding wide_host_and_port
get_addr_info aw host port event =
    let (h, p) = wide_host_and_port host port in record { host = h; port = p; event = event }

-- An ADDRINFOEXW list: for each entry the address, or `none` if it is not an IP address.
abbrev pub Chain : Type 0 → Type 0
Chain A = List (Option A)

-- `GetAddrInfoIter`: the list, and what is left of it. An empty list is a null pointer.
pub record Iter (A : Type 0) : Type 0 where
  pub addrinfo : Chain A
  pub current : Chain A

module _ {A : Type 0} where
  -- The part of `next` that walks: the next IP address, and what is left behind it.
  unfoldable pub walk : Chain A → Option A × Chain A
  walk [] = (none, [])
  walk (entry ∷ chain) =
      let rest = walk chain in elim entry [ some a ↦ (some a, chain) | none ↦ rest ]

  -- `Iterator::next`
  unfoldable pub next : Iter A → Option A × Iter A
  unfolding walk
  next it = let (a, rest) = walk it.current in (a, record it { current = rest })

  -- `for addr in iter`: the addresses that the loop sees, in as many rounds.
  unfoldable pub collect : ℕ → Iter A → List A × Iter A
  unfolding next
  collect zero it = ([], it)
  collect (suc rounds) it =
      let (a, it') = next it in
      let (more, last) = collect rounds it' in
      elim a [ none ↦ ([], it') | some x ↦ (x ∷ more, last) ]

  -- `Drop` of the iterator: the list that `FreeAddrInfoExW` is called with.
  unfoldable pub drop : Iter A → Chain A
  drop it = it.addrinfo

  -- The IP addresses of a list.
  abbrev pub addresses : Chain A → List A
  addresses [] = []
  addresses (none ∷ chain) = addresses chain
  addresses (some a ∷ chain) = a ∷ addresses chain

  length-walk : (chain : Chain A) → length (walk chain).1 ≤ length chain
  unfolding walk
  length-walk [] = omega arith
  length-walk (none ∷ chain) = omega (arith, length-walk chain)
  length-walk (some a ∷ chain) = omega arith

  pub walk_lem :
      (chain : Chain A)
      → (((walk chain).0 ≡ none) × (addresses chain ≡ []) × ((walk chain).1 ≡ []))
        ⊎ ((a : A) × ((walk chain).0 ≡ some a)
            × (addresses chain ≡ a ∷ addresses (walk chain).1)
            × (length (walk chain).1 < length chain))
  unfolding walk
  walk_lem [] = inl (refl, refl, refl)
  walk_lem (none ∷ chain) = elim (walk_lem chain) [
    | inl h ↦ inl h
    | inr (a, p, q, r) ↦ inr (a, p, q, omega arith)
  ]
  walk_lem (some a ∷ chain) = inr (a, refl, refl, omega arith)

  -- A loop over the iterator sees exactly the IP addresses that are left, in order, in at most one round
  -- more than there are entries, and keeps the list that the lookup returned.
  pub collect-addresses :
      (rounds : ℕ) (it : Iter A)
      → length it.current < rounds
      → collect rounds it ≡ (addresses it.current, record it { current = [] })
  unfolding collect
  collect-addresses zero it lt = absurd (omega arith)
  collect-addresses (suc rounds) it lt = elim (walk_lem it.current) [
    | inl (p, q, r) ↦ ground arith
    | inr (a, p, q, shorter) ↦ ground (
      arith,
      collect-addresses rounds (record it { current = (walk it.current).1 }) (omega arith),
    )
  ]

-- The closure that the future hands to its event: what `GetAddrInfoExW` returned.
unfoldable pub schedule_lookup : ℤ → Poll (IoResult (Unit {0}))
schedule_lookup (pos ret) =
    if ret == 0 then ready (ok tt) else if ret == 997 then pending else ready (err (os (pos ret)))
schedule_lookup (negsuc ret) = ready (err (os (negsuc ret)))

module _ (aw : AtomicWaker) {A : Type 0} where
  -- The match on the outcome of the event's poll; `result` is the list that the lookup has left.
  unfoldable pub found :
      Chain A
      → Option (Event aw × Poll (IoResult (Unit {0})))
      → Option (IoResult (Event aw) × Poll (IoResult (Iter A)))
  found result none = none
  found result (some (event, pending)) = some (ok event, pending)
  found result (some (event, ready (err e))) = some (ok event, ready (err e))
  found result (some (event, ready (ok _))) =
      some (ok event, ready (ok (record { addrinfo = result; current = result })))

  -- `GetAddrInfoFuture::poll`
  unfoldable pub poll :
      ℕ
      → ℤ
      → Event.Answers
      → Chain A
      → IoResult (Event aw)
      → Option (IoResult (Event aw) × Poll (IoResult (Iter A)))
  unfolding found
  poll waker ret answers result (err (os code)) = some (err (os code), ready (err (os code)))
  poll waker ret answers result (err not_found) = some (err not_found, ready (err (os (pos 0))))
  poll waker ret answers result (ok event) =
      found result (Event.poll aw waker none (schedule_lookup ret) answers event)

  -- The word of the event after a poll, and what the poll returned.
  abbrev pub summary :
      Option (IoResult (Event aw) × Poll (IoResult (Iter A)))
      → Option (ℕ × Poll (IoResult (Iter A)))
  summary (some (ok event, p)) = some (event.word, p)
  summary (some (err e, p)) = none
  summary none = none

  -- On an idle event the first poll of a lookup that is done at once gives an iterator over the whole
  -- result, one that is deferred leaves the event pending, and any other answer is an error.
  pub lookup_starts :
      (waker : ℕ) (ret : ℤ) (answers : Event.Answers) (result : Chain A) (e : Event aw)
      → e.word ≡ State.idle
      → summary (poll waker ret answers result (ok e))
        ≡ some (
            if is_code 0 ret
            then (State.idle, ready (ok (record { addrinfo = result; current = result })))
            else if is_code 997 ret
            then (State.pending, pending)
            else (State.idle, ready (err (os ret))))
  unfolding poll schedule_lookup Event.submit
  lookup_starts waker (negsuc n) answers result e w =
      rw (poll_of_idle aw waker none (schedule_lookup (negsuc n)) answers e w) refl
  lookup_starts waker (pos n) answers result e w =
      rw (poll_of_idle aw waker none (schedule_lookup (pos n)) answers e w)
        (elim (Bool-cases (n == 0)) [
          | inl done ↦ rw done refl
          | inr more ↦ rw more (elim (Bool-cases (n == 997)) [
            | inl later ↦ rw later refl
            | inr failed ↦ rw failed refl
          ])
        ])
