-- ===== src/Net/Sockaddr/Addrs.antt =====
-- src/net/sockaddr/to_socket_addrs.rs: the sources of addresses, and the iterator over them. `A` is
-- `SocketAddr`, and `parse` is what the standard library's `parse` gives for a text.
use wae.Common.{
  ℕ, ◌≤◌, ◌≡◌, refl, Bool, true, Option, none, some, List, [], ◌∷◌, ok, err, Poll, ready, pending,
  IoResult, arith, length, leb,
}
use wae.Net.Sockaddr.Host.{Text, wide_host_and_port}
use wae.Net.Sockaddr.Info.{Chain, Iter, addresses, collect-addresses}
use wae.Net.Sockaddr.Info

-- `ToSocketAddrsInner`; a lookup is known by the wide strings that it is made with.
pub data Inner (A : Type 0) : Type 0 where
  immediate : A → Inner A
  slice : List A → Inner A
  future : List ℕ × Option (List ℕ) → Inner A

-- `ToSocketAddrsIterInner`
pub data IterInner (A : Type 0) : Type 0 where
  once : Option A → IterInner A
  copied : List A → IterInner A
  looked_up : Iter A → IterInner A

abbrev pub within : ℕ → Option ℕ → Bool
within n none = true
within n (some k) = leb n k

module _ {A : Type 0} where
  -- `impl ToSocketAddrs` for `SocketAddr`, and by `impl_into!` for what is turned into one by `into`.
  unfoldable pub of_value : {B : Type 0} → (B → A) → B → Inner A
  of_value into b = immediate (into b)

  -- For `&[SocketAddr]`.
  unfoldable pub of_slice : List A → Inner A
  of_slice addrs = slice addrs

  -- For `str` and `String`.
  unfoldable pub of_str : (Text → Option A) → Text → Inner A
  unfolding wide_host_and_port
  of_str parse s = elim (parse s) [
    | some addr ↦ immediate addr
    | none ↦ future (wide_host_and_port s none)
  ]

  -- For `(&str, u16)` and `(String, u16)`: `parse` gives an IP address, and `new` is `SocketAddr::new`.
  unfoldable pub of_pair : {I : Type 0} → (Text → Option I) → (I → ℕ → A) → Text × ℕ → Inner A
  unfolding wide_host_and_port
  of_pair parse new (s, port) = elim (parse s) [
    | some ip ↦ immediate (new ip port)
    | none ↦ future (wide_host_and_port s (some port))
  ]

  -- `Iterator::next` of `ToSocketAddrsIter`.
  unfoldable pub next : IterInner A → Option A × IterInner A
  unfolding Info.next
  next (once a) = (a, once none)
  next (copied []) = (none, copied [])
  next (copied (a ∷ rest)) = (some a, copied rest)
  next (looked_up it) = let (a, it') = Info.next it in (a, looked_up it')

  -- `size_hint`; the lookup's iterator has the default one.
  unfoldable pub size_hint : IterInner A → ℕ × Option ℕ
  size_hint (once none) = (0, some 0)
  size_hint (once (some a)) = (1, some 1)
  size_hint (copied l) = (length l, some (length l))
  size_hint (looked_up it) = (0, none)

  -- The addresses that an iterator has left.
  abbrev pub left : IterInner A → List A
  left (once none) = []
  left (once (some a)) = a ∷ []
  left (copied l) = l
  left (looked_up it) = addresses it.current

  abbrev pub cons : Option A → List A → List A
  cons none l = l
  cons (some a) l = a ∷ l

  left-next_lookup :
      (chain : Chain A) → cons (Info.walk chain).0 (addresses (Info.walk chain).1) ≡ addresses chain
  unfolding Info.walk
  left-next_lookup [] = refl
  left-next_lookup (none ∷ chain) = left-next_lookup chain
  left-next_lookup (some a ∷ chain) = refl

  -- `next` gives the first address that is left and leaves the others, and gives `none` only if none
  -- is left; the size hint bounds how many are left.
  pub next_left : (it : IterInner A) → cons (next it).0 (left (next it).1) ≡ left it
  unfolding next
  next_left (once none) = refl
  next_left (once (some a)) = refl
  next_left (copied []) = refl
  next_left (copied (a ∷ rest)) = refl
  next_left (looked_up it) = left-next_lookup it.current

  -- The size hint of the iterator holds: no fewer addresses are left than its lower bound, and no more
  -- than its upper bound, if it has one.
  pub size_hint_bounds :
      (it : IterInner A)
      → ((size_hint it).0 ≤ length (left it)) × (within (length (left it)) (size_hint it).1 ≡ true)
  unfolding size_hint
  size_hint_bounds (once none) = (omega arith, refl)
  size_hint_bounds (once (some a)) = (omega arith, refl)
  size_hint_bounds (copied l) = (omega arith, ground arith)
  size_hint_bounds (looked_up it) = (omega arith, refl)

module _ {A : Type 0} where
  -- `ToSocketAddrs::poll`; `looked` is the outcome of the lookup's poll, if there is one.
  unfoldable pub poll : Poll (IoResult (Iter A)) → Inner A → Poll (IoResult (IterInner A))
  poll looked (immediate a) = ready (ok (once (some a)))
  poll looked (slice addrs) = ready (ok (copied addrs))
  poll (ready (ok it)) (future _) = ready (ok (looked_up it))
  poll (ready (err e)) (future _) = ready (err e)
  poll pending (future _) = pending

  -- What the addresses of a source should be: `chain` is the result of the lookup, made with the host
  -- and port, if the text is no address.
  abbrev pub resolved : Option A → Chain A → List A
  resolved (some a) chain = a ∷ []
  resolved none chain = addresses chain

  abbrev pub left_of : Poll (IoResult (IterInner A)) → Option (List A)
  left_of (ready (ok it)) = some (left it)
  left_of _ = none

  -- A text with a port gives the one address that it denotes if it is an IP address, and otherwise the
  -- IP addresses of the lookup of its host and the port's digits, in order.
  pub of_pair_resolves :
      {I : Type 0} (parse : Text → Option I) (new : I → ℕ → A) (s : Text) (port : ℕ)
      (chain : Chain A)
      → (left_of (
            poll
              (ready (ok (record { addrinfo = chain; current = chain })))
              (of_pair parse new (s, port)))
          ≡ some (elim (parse s) [ some ip ↦ new ip port ∷ [] | none ↦ addresses chain ]))
  unfolding poll of_pair
  of_pair_resolves parse new s port chain = ground arith
