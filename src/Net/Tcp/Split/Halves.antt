-- ===== src/Net/Tcp/Split/Halves.antt =====
-- src/net/tcp/split.rs: what the owners of the two halves of a stream do, as a sequence of calls.
use wae.Common.{
  ℕ, Bool, true, false, Option, none, some, List, [], ◌∷◌, ◌++◌, if◌then◌else◌, Result, ok, err,
  Poll, IoResult, IoError, ◌>>=◌,
}
use wae.Io.Waker.{AtomicWaker}
use wae.Io.Handle.{Half, Call}
use wae.Io.Handle.Duplex.{IoHandle, Meets, callback}
use wae.Net.Tcp.Split.{Shared, split, drop_arc, poll_read, cancel_read, poll_write, cancel_write}

-- A half counts while it is there.
abbrev pub count : Bool → ℕ
count true = 1
count false = 0

module _ (aw : AtomicWaker) where
  -- The handle, the halves that are there, and the calls that were made.
  pub record Halves : Type 0 where
    pub shared : Shared aw
    pub reader : Bool
    pub writer : Bool
    pub log : List Call

  -- What the owners of the halves do and the operating system's callbacks.
  pub data Op : Type 0 where
    polls_read polls_write : ℕ → Poll (IoResult ℕ) → Op
    cancels_read cancels_write : Bool → IoResult (Unit {0}) → List (Half aw → Half aw) → Op
    calls_back : ℕ → ℕ → ℕ → Op
    drops_reader drops_writer : Meets aw → Meets aw → Op

  abbrev pub polled : Halves → Option (Shared aw × List Call × Poll (IoResult ℕ)) → Option Halves
  polled h none = none
  polled h (some (s, calls, outcome)) = some (record h { shared = s; log = h.log ++ calls })

  abbrev pub cancelled : Halves → Option (Shared aw × IoResult (Unit {0})) → Option Halves
  cancelled h none = none
  cancelled h (some (s, ret)) = some (record h { shared = s })

  abbrev pub dropped : Halves → Option (Result (Shared aw × List Call) IoError) → Option Halves
  dropped h none = none
  dropped h (some (err e)) = none
  dropped h (some (ok (s, calls))) = some (record h { shared = s; log = h.log ++ calls })

  -- None: the owner has no such half any more, or the call waits for ever, panics or is undefined.
  unfoldable pub apply : Op → Halves → Option Halves
  unfolding poll_read
  apply (polls_read waker scheduled) h =
      if h.reader then polled h (poll_read aw waker scheduled h.shared) else none
  apply (polls_write waker scheduled) h =
      if h.writer then polled h (poll_write aw waker scheduled h.shared) else none
  apply (cancels_read wait answer others) h =
      if h.reader then cancelled h (cancel_read aw wait answer others h.shared) else none
  apply (cancels_write wait answer others) h =
      if h.writer then cancelled h (cancel_write aw wait answer others h.shared) else none
  apply (calls_back overlapped code transferred) h =
      elim (callback aw overlapped code transferred h.shared.handle) [
        | none ↦ none
        | some (handle, woken) ↦ some (record h { shared = record (h.shared) { handle = handle } })
      ]
  apply (drops_reader at_read at_write) h =
      if h.reader
      then dropped (record h { reader = false }) (drop_arc aw at_read at_write h.shared)
      else none
  apply (drops_writer at_read at_write) h =
      if h.writer
      then dropped (record h { writer = false }) (drop_arc aw at_read at_write h.shared)
      else none

  unfoldable pub apply_all : List Op → Halves → Option Halves
  unfolding apply
  apply_all [] h = some h
  apply_all (op ∷ ops) h = apply op h >>= apply_all ops

  -- The halves of a stream that has just been split, the only one of its handle.
  abbrev pub split_of : IoHandle aw → Halves
  split_of handle = record {
    shared = (split aw (record { inner = 0 }) (record { handle = handle; strong = 1 })).1;
    reader = true;
    writer = true;
    log = [];
  }
