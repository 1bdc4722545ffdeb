-- ===== src/Io/Chain.antt =====
-- src/io/read/ext.rs: `Chain`, a reader that goes on with a second one at the end of the first.
pub mod Laws
pub mod Lends
pub mod Exact
use wae.Common.{
  ℕ, Bool, false, not, ◌==◌, if◌then◌else◌, ok, err, Poll, ready, pending, IoResult, ◌≡◌, refl, ◌≢◌,
  arith, ◌⊎◌, List, [], ◌∷◌, ◌∙◌,
}
use wae.Io.Slice.{Wsabuf, AsyncIo}

pub record Chain (S T : Type 0) : Type 0 where
  pub first : S
  pub next : T
  pub chained : Bool

module _ {S T : Type 0} where
  -- `AsyncReadExt::chain`
  unfoldable pub chain : S → T → Chain S T
  chain s t = record { first = s; next = t; chained = false }

module _ {M S T : Type 0} (a : AsyncIo M S) (b : AsyncIo M T) where
  -- `Chain::poll_read`
  unfoldable pub poll_read : Wsabuf → M → Chain S T → M × Chain S T × Poll (IoResult ℕ)
  poll_read buf m c =
      let (m', s, polled) = a.poll_io buf m c.first in
      let from_next = λ (m0 : M) (c0 : Chain S T).
        let (m1, t, polled') = b.poll_io buf m0 c0.next in
        let r : M × Chain S T × Poll (IoResult ℕ) = (m1, record c0 { next = t }, polled') in r in
      let from_first : M × Chain S T × Poll (IoResult ℕ) = elim polled [
        | ready (ok k) ↦
            if k == 0
            then from_next m' (record c { first = s })
            else (m', record c { first = s }, ready (ok k))
        | ready (err e) ↦ (m', record c { first = s }, ready (err e))
        | pending ↦ (m', record c { first = s }, pending)
      ] in
      if not c.chained then from_first else from_next m c

  -- `Chain::cancel_read`
  unfoldable pub cancel_read : Bool → Chain S T → Chain S T × IoResult (Unit {0})
  cancel_read wait c =
      let (s, ret) = a.cancel_io wait c.first in
      let (t, ret') = b.cancel_io wait c.next in
      if not c.chained then (record c { first = s }, ret) else (record c { next = t }, ret')

  -- The chain after some polls, each with its buffer and the memory that it finds.
  abbrev pub polled : List (Wsabuf × M) → Chain S T → Chain S T
  polled [] c = c
  polled ((buf, m) ∷ polls) c = polled polls (poll_read buf m c).1

  chained-poll_read :
      (buf : Wsabuf) (m : M) (c : Chain S T) → (poll_read buf m c).1.chained ≡ c.chained
  unfolding poll_read
  chained-poll_read buf m c = ground arith

  chained-polled :
      (polls : List (Wsabuf × M)) (c : Chain S T) → (polled polls c).chained ≡ c.chained
  chained-polled [] c = refl
  chained-polled ((buf, m) ∷ polls) c =
      chained-polled polls (poll_read buf m c).1 ∙ chained-poll_read buf m c

  -- However often a chain is polled, a cancellation goes to its first reader and returns what that
  -- returns: an operation of the second reader is never cancelled.
  pub cancel_read_first :
      (polls : List (Wsabuf × M)) (s : S) (t : T) (wait : Bool)
      → cancel_read wait (polled polls (chain s t)) ≡ (
        record (polled polls (chain s t)) {
          first = (a.cancel_io wait (polled polls (chain s t)).first).0;
        },
        (a.cancel_io wait (polled polls (chain s t)).first).1,
      )
  unfolding cancel_read chain
  cancel_read_first polls s t wait = ground (arith, chained-polled polls (chain s t))

  -- Once the first reader has ended, the chain reads as the second does; until then the second is not
  -- polled.
  pub poll_read_lem :
      (buf : Wsabuf) (m : M) (s : S) (t : T)
      → (((a.poll_io buf m s).2 ≢ ready (ok 0))
          × (poll_read buf m (chain s t)
              ≡ ((a.poll_io buf m s).0, chain (a.poll_io buf m s).1 t, (a.poll_io buf m s).2)))
        ⊎ (((a.poll_io buf m s).2 ≡ ready (ok 0))
            × (poll_read buf m (chain s t) ≡ (
              (b.poll_io buf (a.poll_io buf m s).0 t).0,
              chain (a.poll_io buf m s).1 (b.poll_io buf (a.poll_io buf m s).0 t).1,
              (b.poll_io buf (a.poll_io buf m s).0 t).2,
            )))
  unfolding poll_read chain
  poll_read_lem buf m s t = ground arith
