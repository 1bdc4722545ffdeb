-- ===== src/Net/Tcp/Split.antt =====
-- src/net/tcp/split.rs with the halves of src/net/tcp/read.rs and src/net/tcp/write.rs: a stream whose
-- reads and writes have owners of their own, which share its handle by an `Arc`.
pub mod Halves
pub mod Laws
use wae.Common.{
  ℕ, suc, ◌-◌, Bool, true, false, Option, none, some, List, [], ◌∷◌, ◌++◌, ◌==◌, if◌then◌else◌,
  Result, ok, err, Poll, IoResult, IoError,
}
use wae.Io.Waker.{AtomicWaker}
use wae.Io.Handle.{Half, Call}
use wae.Io.Handle.Duplex.{IoHandle, Meets}
use wae.Io.Handle.Duplex

module _ (aw : AtomicWaker) where
  -- What an `Arc<IoHandle>` points to: the handle and how many of them there are.
  pub record Shared : Type 0 where
    pub handle : IoHandle aw
    pub strong : ℕ

  -- `TcpStream` at the address of its `Arc`, and the two halves, each with a stream of its own.
  pub record TcpStream : Type 0 where
    pub inner : ℕ

  pub record ReadHalf : Type 0 where
    pub inner : TcpStream

  pub record WriteHalf : Type 0 where
    pub inner : TcpStream

  -- `TcpStream::split`
  unfoldable pub split : TcpStream → Shared → (ReadHalf × WriteHalf) × Shared
  split stream s = (
    (record { inner = record { inner = stream.inner } }, record { inner = stream }),
    record s { strong = suc s.strong },
  )

  -- The drop of an `Arc`, with what the drop of the handle meets if it is the last: none if that waits for
  -- ever, an error if it panics.
  unfoldable pub drop_arc :
      Meets aw → Meets aw → Shared → Option (Result (Shared × List Call) IoError)
  unfolding Duplex.drop
  drop_arc at_read at_write s =
      let last : Option (Result (Shared × List Call) IoError) =
        elim (Duplex.drop aw at_read at_write s.handle) [
          | none ↦ none
          | some (err e) ↦ some (err e)
          | some (ok calls) ↦ some (ok (record s { strong = 0 }, calls))
        ] in
      if s.strong == 1 then last else some (ok (record s { strong = s.strong - 1 }, []))

  -- `AsyncRead` of `ReadHalf`
  unfoldable pub poll_read :
      ℕ → Poll (IoResult ℕ) → Shared → Option (Shared × List Call × Poll (IoResult ℕ))
  unfolding Duplex.poll_read
  poll_read waker scheduled s = elim (Duplex.poll_read aw waker scheduled s.handle) [
    | none ↦ none
    | some (h, calls, outcome) ↦ some (record s { handle = h }, calls, outcome)
  ]

  unfoldable pub cancel_read :
      Bool
      → IoResult (Unit {0})
      → List (Half aw → Half aw)
      → Shared
      → Option (Shared × IoResult (Unit {0}))
  unfolding Duplex.cancel_read
  cancel_read wait answer others s = elim (Duplex.cancel_read aw wait answer others s.handle) [
    | none ↦ none
    | some (h, ret) ↦ some (record s { handle = h }, ret)
  ]

  -- `AsyncWrite` of `WriteHalf`
  unfoldable pub poll_write :
      ℕ → Poll (IoResult ℕ) → Shared → Option (Shared × List Call × Poll (IoResult ℕ))
  unfolding Duplex.poll_write
  poll_write waker scheduled s = elim (Duplex.poll_write aw waker scheduled s.handle) [
    | none ↦ none
    | some (h, calls, outcome) ↦ some (record s { handle = h }, calls, outcome)
  ]

  unfoldable pub cancel_write :
      Bool
      → IoResult (Unit {0})
      → List (Half aw → Half aw)
      → Shared
      → Option (Shared × IoResult (Unit {0}))
  unfolding Duplex.cancel_write
  cancel_write wait answer others s = elim (Duplex.cancel_write aw wait answer others s.handle) [
    | none ↦ none
    | some (h, ret) ↦ some (record s { handle = h }, ret)
  ]

  -- `AsRef<TcpStream>` of the halves.
  unfoldable pub read_half_as_ref : ReadHalf → TcpStream
  read_half_as_ref half = half.inner

  unfoldable pub write_half_as_ref : WriteHalf → TcpStream
  write_half_as_ref half = half.inner
