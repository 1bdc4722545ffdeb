-- ===== src/Io/Read.antt =====
-- src/io/read/ext.rs: the futures `Read` and `ReadExact` as they stand, with their cancellation and
-- drop. `Fill` is what `ReadExact` comes to.
pub mod Slice
pub mod Laws
use wae.Common.{
  ℕ, zero, suc, ◌+◌, ◌-◌, ◌%◌, ◌^◌, Option, none, some, ◌==◌, if◌then◌else◌, ok, err, Poll, ready,
  pending, IoResult, Bool, true, false,
}
use wae.Io.Slice.{Wsabuf, AsyncIo}

-- `Read`: the reader that it borrows, and the descriptor of its buffer.
pub record Read (S : Type 0) : Type 0 where
  pub io : S
  pub buf : Wsabuf

-- `ReadExact`: the read of what is left, the whole buffer, and the bytes done.
pub record ReadExact (S : Type 0) : Type 0 where
  pub read : Read S
  pub buf : Wsabuf
  pub n : ℕ

-- How a poll of a `ReadExact` ended.
pub record Polled (M S : Type 0) : Type 0 where
  pub memory : M
  pub future : ReadExact S
  pub outcome : Poll (IoResult (Unit {0}))

module _ {S : Type 0} where
  -- `AsyncReadExt::read`
  unfoldable pub read : S → Wsabuf → Read S
  read io buf = record { io = io; buf = buf }

  -- `AsyncReadExt::read_exact`; `buf2` is a second descriptor of the same buffer.
  unfoldable pub read_exact : S → Wsabuf → ReadExact S
  unfolding read
  read_exact io buf = record { read = read io buf; buf = buf; n = 0 }

module _ {M S : Type 0} (a : AsyncIo M S) where
  -- `Read::poll`
  unfoldable pub poll_read : M → Read S → M × Read S × Poll (IoResult ℕ)
  poll_read m r =
      let (m', io, polled) = a.poll_io r.buf m r.io in (m', record r { io = io }, polled)

  -- `Read::cancel`
  unfoldable pub cancel_read : Read S → Read S × IoResult (Unit {0})
  cancel_read r = let (io, ret) = a.cancel_io false r.io in (record r { io = io }, ret)

  -- `Drop` of `Read`: an error of the cancellation is ignored. The reader is given back.
  unfoldable pub drop_read : Read S → S
  drop_read r = let (io, ret) = a.cancel_io true r.io in io

  -- `ReadExact::poll` with fuel for its calls of itself; `none`: it is used up.
  unfoldable pub poll : ℕ → M → ReadExact S → Option (Polled M S)
  unfolding poll_read
  poll zero m r = none
  poll (suc fuel) m r =
      let (m', read, polled) = poll_read m r.read in
      let r' : ReadExact S = record r { read = read } in
      elim polled [
        | ready (ok k) ↦
            let counted : ReadExact S = record r' { n = (r'.n + k) % 2 ^ 64 } in
            let left : Wsabuf = record {
              len = (read.buf.len + 2 ^ 32 - k % 2 ^ 32) % 2 ^ 32;
              buf = (read.buf.buf + k) % 2 ^ 64;
            } in
            let again = poll fuel m' (record counted { read = record read { buf = left } }) in
            if counted.n == counted.buf.len
            then some (record { memory = m'; future = counted; outcome = ready (ok tt) })
            else again
        | ready (err e) ↦ some (record { memory = m'; future = r'; outcome = ready (err e) })
        | pending ↦ some (record { memory = m'; future = r'; outcome = pending })
      ]

  -- `ReadExact::cancel`
  unfoldable pub cancel : ReadExact S → ReadExact S × IoResult (Unit {0})
  unfolding cancel_read
  cancel r = let (read, ret) = cancel_read r.read in (record r { read = read }, ret)

  -- The drop of a `ReadExact`, which is that of its field.
  unfoldable pub drop : ReadExact S → S
  unfolding drop_read
  drop r = drop_read r.read
