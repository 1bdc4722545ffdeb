-- ===== src/Io/Handle/Duplex.antt =====
-- src/io/shared/handle.rs: `IoHandle`, a Win32 handle with a half for its reads and one for its
-- writes: construction, the callback's choice of a half, and the drop.
pub mod Laws
pub mod Halves
use wae.Common.{
  ℕ, Bool, true, false, Option, none, some, List, [], ◌∷◌, ◌++◌, ◌==◌, if◌then◌else◌, Result, ok,
  err, Poll, IoResult, IoError, os, as_i32, ◌>>=◌,
}
use wae.Io.Waker.{AtomicWaker}
use wae.Io.Handle.{Half, Call, close_io, close, new_half, poll, complete, cancel}

module _ (aw : AtomicWaker) where
  -- `ptp_io` is `none` for a null pointer. `close` stands for a call of the field `close` here.
  pub record IoHandle : Type 0 where
    pub handle : ℕ
    pub ptp_io : Option ℕ
    pub read : Half aw
    pub write : Half aw

  -- What the drop meets at one half: what `half.cancel` returns if it is called, and what the other
  -- threads do to the half before and during the cancellation.
  pub record Meets : Type 0 where
    pub before : Half aw → Half aw
    pub answer : IoResult (Unit {0})
    pub during : List (Half aw → Half aw)

  abbrev close_io_of : Option ℕ → List Call
  close_io_of none = []
  close_io_of (some _) = close_io ∷ []

  -- `cancel(true).unwrap()` at one half: `err` is a panic.
  unfoldable pub cancel_unwrap : Meets → Half aw → Option (Result (Half aw) IoError)
  cancel_unwrap meets half = elim (cancel aw true meets.answer meets.during (meets.before half)) [
    | none ↦ none
    | some (half', ok _) ↦ some (ok half')
    | some (half', err e) ↦ some (err e)
  ]

  -- `Drop::drop`: `none` if it waits for ever, `err` if it panics.
  unfoldable pub drop : Meets → Meets → IoHandle → Option (Result (List Call) IoError)
  drop at_read at_write h = elim (cancel_unwrap at_read h.read) [
    | none ↦ none
    | some (err e) ↦ some (err e)
    | some (ok _) ↦ elim (cancel_unwrap at_write h.write) [
      | none ↦ none
      | some (err e) ↦ some (err e)
      | some (ok _) ↦ some (ok (close_io_of h.ptp_io ++ close h.handle ∷ []))
    ]
  ]

  -- Nothing else runs.
  abbrev pub alone : Meets
  alone = record { before = λ half. half; answer = ok tt; during = [] }

  -- `IoHandle::new`: `created` is what `CreateThreadpoolIo` returned, `last_error` the thread's last
  -- error then. The early return drops the handle, which calls `close`.
  unfoldable pub new :
      ℕ → ℕ → ℕ → Option ℕ → ℕ → Option (Result (List Call) IoError × IoResult IoHandle)
  unfolding new_half drop cancel_unwrap cancel
  new handle read_address write_address created last_error =
      let this : IoHandle = record {
        handle = handle;
        ptp_io = none;
        read = new_half aw read_address;
        write = new_half aw write_address;
      } in
      elim created [
        | none ↦ do closed ← drop alone alone this; some (closed, err (os (as_i32 last_error)))
        | some io ↦ some (ok [], ok (record this { ptp_io = some io }))
      ]

  -- `callback`: the outer `none` is `unreachable!()` or a callback that spins.
  unfoldable pub callback : ℕ → ℕ → ℕ → IoHandle → Option (IoHandle × Option ℕ)
  unfolding complete
  callback overlapped code transferred h =
      let at_read : Option (IoHandle × Option ℕ) = elim (complete aw code transferred h.read) [
        | none ↦ none
        | some (half, woken) ↦ some (record h { read = half }, woken)
      ] in
      let at_write : Option (IoHandle × Option ℕ) = elim (complete aw code transferred h.write) [
        | none ↦ none
        | some (half, woken) ↦ some (record h { write = half }, woken)
      ] in
      if overlapped == h.read.overlapped
      then at_read
      else if overlapped == h.write.overlapped
      then at_write
      else none

  -- `poll_read`
  unfoldable pub poll_read :
      ℕ → Poll (IoResult ℕ) → IoHandle → Option (IoHandle × List Call × Poll (IoResult ℕ))
  unfolding poll
  poll_read waker scheduled h = elim (poll aw waker scheduled h.read) [
    | none ↦ none
    | some (half, calls, outcome) ↦ some (record h { read = half }, calls, outcome)
  ]

  -- `poll_write`
  unfoldable pub poll_write :
      ℕ → Poll (IoResult ℕ) → IoHandle → Option (IoHandle × List Call × Poll (IoResult ℕ))
  unfolding poll
  poll_write waker scheduled h = elim (poll aw waker scheduled h.write) [
    | none ↦ none
    | some (half, calls, outcome) ↦ some (record h { write = half }, calls, outcome)
  ]

  -- `cancel_read`
  unfoldable pub cancel_read :
      Bool
      → IoResult (Unit {0})
      → List (Half aw → Half aw)
      → IoHandle
      → Option (IoHandle × IoResult (Unit {0}))
  unfolding cancel
  cancel_read wait answer others h = elim (cancel aw wait answer others h.read) [
    | none ↦ none
    | some (half, ret) ↦ some (record h { read = half }, ret)
  ]

  -- `cancel_write`
  unfoldable pub cancel_write :
      Bool
      → IoResult (Unit {0})
      → List (Half aw → Half aw)
      → IoHandle
      → Option (IoHandle × IoResult (Unit {0}))
  unfolding cancel
  cancel_write wait answer others h = elim (cancel aw wait answer others h.write) [
    | none ↦ none
    | some (half, ret) ↦ some (record h { write = half }, ret)
  ]
