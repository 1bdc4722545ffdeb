-- ===== src/Io/Slice.antt =====
-- src/io/read/mod.rs and src/io/write/mod.rs: the buffer descriptor `WSABUF` behind `IoSliceMut` and
-- `IoSlice`, and the interface of a reader or writer.
use wae.Common.{ℕ, Bool, Poll, IoResult}

-- `IoSliceMut` and `IoSlice`, which are a `WSABUF`: `len` is a `u32`, `buf` an address.
pub record Wsabuf : Type 0 where
  pub len : ℕ
  pub buf : ℕ

-- A slice of bytes: its address and length, a `usize`.
pub record Slice : Type 0 where
  pub address : ℕ
  pub length : ℕ

-- `AsyncRead` and `AsyncWrite`, which have the same shape. `M` is the memory that the buffers are in.
pub record AsyncIo (M S : Type 0) : Type 0 where
  pub poll_io : Wsabuf → M → S → M × S × Poll (IoResult ℕ)
  pub cancel_io : Bool → S → S × IoResult (Unit {0})
