-- ===== src/Io/Fill.antt =====
-- src/io/read/ext.rs and src/io/write/ext.rs: `read_exact` and `write_all`, which poll the same reader
-- or writer with what is left of one buffer. The two have the same code, but for the names. A reader is
-- taken to leave the descriptor that it is lent as it is.
pub mod Laws
pub mod Invariants
pub mod Reads
pub mod Polls
pub mod Writes
use wae.Common.{
  ℕ, zero, suc, ◌+◌, ◌-◌, ◌%◌, ◌^◌, Option, none, some, ◌==◌, if◌then◌else◌, Result, ok, err, Poll,
  ready, pending, IoResult,
}
use wae.Io.Slice.{Wsabuf, AsyncIo}

-- `ReadExact` and `WriteAll`: what is left of the buffer, the length of the whole, and the bytes done.
pub record Fill : Type 0 where
  pub rest : Wsabuf
  pub len : ℕ
  pub n : ℕ

-- `read_exact` and `write_all` of the extension traits.
unfoldable pub start : Wsabuf → Fill
start buf = record { rest = buf; len = buf.len; n = 0 }

-- `self.n += n`, and the rest of the buffer after `n` bytes.
unfoldable pub advance : ℕ → Fill → Fill
advance k f = record {
  rest = record {
    len = (f.rest.len + 2 ^ 32 - k % 2 ^ 32) % 2 ^ 32;
    buf = (f.rest.buf + k) % 2 ^ 64;
  };
  len = f.len;
  n = (f.n + k) % 2 ^ 64;
}

-- How a poll ended: the memory, the reader or writer and the future afterwards, and what it returned.
pub record Done (M S : Type 0) : Type 0 where
  pub memory : M
  pub io : S
  pub fill : Fill
  pub outcome : Poll (IoResult (Unit {0}))

module _ {M S : Type 0} (a : AsyncIo M S) where
  -- `ReadExact::poll` and `WriteAll::poll` with fuel for their calls of themselves; `none`: it is used up.
  unfoldable pub poll : ℕ → M → S → Fill → Option (Done M S)
  unfolding advance
  poll zero m s f = none
  poll (suc fuel) m s f =
      let (m', s', polled) = a.poll_io f.rest m s in
      elim polled [
        | ready (ok k) ↦
            let again = poll fuel m' s' (advance k f) in
            let done : Fill = record f { n = (f.n + k) % 2 ^ 64 } in
            if done.n == f.len
            then some (record { memory = m'; io = s'; fill = done; outcome = ready (ok tt) })
            else again
        | ready (err e) ↦ some (record { memory = m'; io = s'; fill = f; outcome = ready (err e) })
        | pending ↦ some (record { memory = m'; io = s'; fill = f; outcome = pending })
      ]
