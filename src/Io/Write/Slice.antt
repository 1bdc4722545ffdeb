-- ===== src/Io/Write/Slice.antt =====
-- src/io/write/mod.rs: `IoSlice` made of a slice and read back as one, and `AsyncWrite` of pointers.
use wae.Common.{◌%◌, ◌^◌, ◌≡◌, refl}
use wae.Io.Slice.{Wsabuf, AsyncIo, Slice}

-- `From<&[u8]>`
unfoldable pub from_slice : Slice → Wsabuf
from_slice s = record { len = s.length % 2 ^ 32; buf = s.address }

-- `From` for std's slice of the same kind, a transmute: on Windows that is a `WSABUF` as well.
unfoldable pub from_std : Wsabuf → Wsabuf
from_std buf = buf

-- `From` for a type that derefs to a slice.
unfoldable pub from_deref : {T : Type 0} → (T → Slice) → T → Wsabuf
unfolding from_slice
from_deref deref_slice t = from_slice (deref_slice t)

-- `Deref`
unfoldable pub deref : Wsabuf → Slice
deref buf = record { address = buf.buf; length = buf.len }

-- A slice below 4 GiB is read back as it was; a longer one loses its length above 32 bits.
pub deref-from_slice : (s : Slice) → deref (from_slice s) ≡ record s { length = s.length % 2 ^ 32 }
unfolding from_slice deref
deref-from_slice s = refl

module _ {M P S : Type 0} (get : P → S) (put : S → P → P) (a : AsyncIo M S) where
  -- `AsyncWrite` of a pointer to a writer, `Pin<P>` or `&mut T`: `get` derefs it, and `put` is what a change of
  -- the writer makes of it.
  unfoldable pub pinned : AsyncIo M P
  pinned = record {
    poll_io = λ buf m p. let (m', s, polled) = a.poll_io buf m (get p) in (m', put s p, polled);
    cancel_io = λ wait p. let (s, ret) = a.cancel_io wait (get p) in (put s p, ret);
  }
