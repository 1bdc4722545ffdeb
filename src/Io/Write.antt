-- ===== src/Io/Write.antt =====
-- src/io/write/ext.rs: the futures `Write` and `WriteAll` as they stand, with their cancellation and
-- drop. `Fill` is what `WriteAll` comes to.
pub mod Slice
pub mod Laws
use wae.Common.{
  ℕ, zero, suc, ◌+◌, ◌-◌, ◌%◌, ◌^◌, Option, none, some, ◌==◌, if◌then◌else◌, ok, err, Poll, ready,
  pending, IoResult, Bool, true, false,
}
use wae.Io.Slice.{Wsabuf, AsyncIo}

-- `Write`: the writer that it borrows, and the descriptor of its buffer.
pub record Write (S : Type 0) : Type 0 where
  pub io : S
  pub buf : Wsabuf

-- `WriteAll`: the write of what is left, the whole buffer, and the bytes done.
pub record WriteAll (S : Type 0) : Type 0 where
  pub write : Write S
  pub buf : Wsabuf
  pub n : ℕ

-- How a poll of a `WriteAll` ended.
pub record Polled (M S : Type 0) : Type 0 where
  pub memory : M
  pub future : WriteAll S
  pub outcome : Poll (IoResult (Unit {0}))

module _ {S : Type 0} where
  -- `AsyncWriteExt::write`
  unfoldable pub write : S → Wsabuf → Write S
  write io buf = record { io = io; buf = buf }

  -- `AsyncWriteExt::write_all`; `buf2` is a second descriptor of the same buffer.
  unfoldable pub write_all : S → Wsabuf → WriteAll S
  unfolding write
  write_all io buf = record { write = write io buf; buf = buf; n = 0 }

module _ {M S : Type 0} (a : AsyncIo M S) where
  -- `Write::poll`
  unfoldable pub poll_write : M → Write S → M × Write S × Poll (IoResult ℕ)
  poll_write m r =
      let (m', io, polled) = a.poll_io r.buf m r.io in (m', record r { io = io }, polled)

  -- `Write::cancel`
  unfoldable pub cancel_write : Write S → Write S × IoResult (Unit {0})
  cancel_write r = let (io, ret) = a.cancel_io false r.io in (record r { io = io }, ret)

  -- `Drop` of `Write`: `none` if the cancellation failed, where `unwrap` panics. The writer is given back.
  unfoldable pub drop_write : Write S → Option S
  drop_write r = let (io, ret) = a.cancel_io true r.io in elim ret [ ok _ ↦ some io | err _ ↦ none ]

  -- `WriteAll::poll` with fuel for its calls of itself; `none`: it is used up.
  unfoldable pub poll : ℕ → M → WriteAll S → Option (Polled M S)
  unfolding poll_write
  poll zero m r = none
  poll (suc fuel) m r =
      let (m', write, polled) = poll_write m r.write in
      let r' : WriteAll S = record r { write = write } in
      elim polled [
        | ready (ok k) ↦
            let counted : WriteAll S = record r' { n = (r'.n + k) % 2 ^ 64 } in
            let left : Wsabuf = record {
              len = (write.buf.len + 2 ^ 32 - k % 2 ^ 32) % 2 ^ 32;
              buf = (write.buf.buf + k) % 2 ^ 64;
            } in
            let again = poll fuel m' (record counted { write = record write { buf = left } }) in
            if counted.n == counted.buf.len
            then some (record { memory = m'; future = counted; outcome = ready (ok tt) })
            else again
        | ready (err e) ↦ some (record { memory = m'; future = r'; outcome = ready (err e) })
        | pending ↦ some (record { memory = m'; future = r'; outcome = pending })
      ]

  -- `WriteAll::cancel`
  unfoldable pub cancel : WriteAll S → WriteAll S × IoResult (Unit {0})
  unfolding cancel_write
  cancel r = let (write, ret) = cancel_write r.write in (record r { write = write }, ret)

  -- The drop of a `WriteAll`, which is that of its field.
  unfoldable pub drop : WriteAll S → Option S
  unfolding drop_write
  drop r = drop_write r.write
