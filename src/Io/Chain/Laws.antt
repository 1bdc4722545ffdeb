-- ===== src/Io/Chain/Laws.antt =====
-- src/io/read/ext.rs: a `Chain` is a reader of the two streams in a row.
use wae.Common.{
  ℕ, ◌+◌, ◌-◌, ◌≤◌, ◌<◌, ◌≡◌, ◌⊎◌, false, ltb, ok, err, ready, pending, IoError, if◌then◌else◌,
  arith,
}
use wae.Io.Slice.{Wsabuf, AsyncIo}
use wae.Io.Chain.{Chain, poll_read, cancel_read}
use wae.Io.Fill.Reads.{Memory, IsReader}

-- The stream that has `length` bytes of the first and then those of the second.
abbrev pub followed_by : ℕ → (ℕ → ℕ) → (ℕ → ℕ) → ℕ → ℕ
followed_by length first second x = if ltb x length then first x else second (x - length)

-- A reader together with the stream that it reads.
pub record Source (S : Type 0) : Type 1 where
  pub io : AsyncIo Memory S
  pub bytes : ℕ → ℕ
  pub position : S → ℕ
  pub lends : Wsabuf → S → Type 0
  pub law : IsReader io bytes position lends

-- The stream has `length` bytes: it reads none after them, and some before if there is room.
pub record HasLength {S : Type 0} (f : Source S) (length : ℕ) : Type 0 where
  pub within :
      (buf : Wsabuf) (m : Memory) (s : S) (k : ℕ)
      → f.lends buf s
      → (f.io.poll_io buf m s).2 ≡ ready (ok k)
      → f.position s + k ≤ length
  pub ends :
      (buf : Wsabuf) (m : Memory) (s : S)
      → f.lends buf s
      → 0 < buf.len
      → (f.io.poll_io buf m s).2 ≡ ready (ok 0)
      → f.position s ≡ length

module _ {S T : Type 0} (f : Source S) (g : Source T) (length : ℕ) where
  -- `Chain` as a reader.
  abbrev pub chain_reader : AsyncIo Memory (Chain S T)
  chain_reader = record { poll_io = poll_read f.io g.io; cancel_io = cancel_read f.io g.io }

  abbrev pub position : Chain S T → ℕ
  position c = f.position c.first + g.position c.next

  -- Nothing is read from the second stream before the end of the first, and no buffer is lent to it that
  -- is not empty.
  abbrev pub Lends : Wsabuf → Chain S T → Type 0
  Lends buf c =
      (c.chained ≡ false)
      × f.lends buf c.first
      × g.lends buf c.next
      × ((f.position c.first ≡ length)
          ⊎ ((g.position c.next ≡ 0) × (0 < buf.len → (buf' : Wsabuf) → g.lends buf' c.next)))

  abbrev pub Stops : Wsabuf → Memory → Chain S T → Type 0
  Stops buf m c =
      ((poll_read f.io g.io buf m c).2 ≡ pending)
      ⊎ ((e : IoError) × ((poll_read f.io g.io buf m c).2 ≡ ready (err e)))

module _ {S T : Type 0} (f : Source S) (g : Source T) (length : ℕ) (l : HasLength f length) where
  pub chain-moves :
      (buf : Wsabuf) (m : Memory) (c : Chain S T) (k : ℕ)
      → Lends f g length buf c
      → (poll_read f.io g.io buf m c).2 ≡ ready (ok k)
      → position f g length (poll_read f.io g.io buf m c).1 ≡ position f g length c + k
  unfolding poll_read
  chain-moves buf m c k (n, v, w, h) e =
      let pa = f.io.poll_io buf m c.first in
      ground (
        arith,
        f.law.moves buf m c.first k v,
        f.law.moves buf m c.first 0 v,
        g.law.moves buf pa.0 c.next k w,
      )

  pub chain-bound :
      (buf : Wsabuf) (m : Memory) (c : Chain S T) (k : ℕ)
      → Lends f g length buf c
      → (poll_read f.io g.io buf m c).2 ≡ ready (ok k)
      → k ≤ buf.len
  unfolding poll_read
  chain-bound buf m c k (n, v, w, h) e =
      let pa = f.io.poll_io buf m c.first in
      ground (arith, f.law.bound buf m c.first k v, g.law.bound buf pa.0 c.next k w)

  pub chain-stays :
      (buf : Wsabuf) (m : Memory) (c : Chain S T)
      → Lends f g length buf c
      → Stops f g length buf m c
      → position f g length (poll_read f.io g.io buf m c).1 ≡ position f g length c
  unfolding poll_read
  chain-stays buf m c (n, v, w, h) e =
      let pa = f.io.poll_io buf m c.first in
      ground (
        arith,
        f.law.stays buf m c.first v,
        f.law.moves buf m c.first 0 v,
        g.law.stays buf pa.0 c.next w,
      )

  pub chain-reads :
      (buf : Wsabuf) (m : Memory) (c : Chain S T) (k x : ℕ)
      → Lends f g length buf c
      → (poll_read f.io g.io buf m c).2 ≡ ready (ok k)
      → x < k
      → (poll_read f.io g.io buf m c).0 (buf.buf + x)
        ≡ followed_by length f.bytes g.bytes (position f g length c + x)
  unfolding poll_read
  chain-reads buf m c k x (n, v, w, h) e lt =
      let pa = f.io.poll_io buf m c.first in
      ground (
        arith,
        f.law.reads buf m c.first k x v,
        f.law.bound buf m c.first k v,
        g.law.bound buf pa.0 c.next k w,
        g.law.reads buf pa.0 c.next k x w,
        l.within buf m c.first k v,
        l.ends buf m c.first v,
      )

  pub chain-outside :
      (buf : Wsabuf) (m : Memory) (c : Chain S T) (x : ℕ)
      → Lends f g length buf c
      → (x < buf.buf) ⊎ (buf.buf + buf.len ≤ x)
      → (poll_read f.io g.io buf m c).0 x ≡ m x
  unfolding poll_read
  chain-outside buf m c x (n, v, w, h) o =
      let pa = f.io.poll_io buf m c.first in
      ground (arith, f.law.outside buf m c.first x v o, g.law.outside buf pa.0 c.next x w o)
