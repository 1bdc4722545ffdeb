-- ===== src/Io/Chain/Exact.antt =====
-- src/io/read/ext.rs: `read_exact` on a `Chain`.
use wae.Common.{ℕ, ◌+◌, ◌^◌, ◌<◌, ◌≡◌, refl, inr, some, arith}
use wae.Io.Slice.{Wsabuf}
use wae.Io.Fill.{Fill, start, Done}
use wae.Io.Fill.Reads.{Memory, start-HasRead, IsFilledOrKept, kept-HasRead, filled-Ends, HasRead}
use wae.Io.Fill.Polls.{polls, polls-Ends}
use wae.Io.Chain.{Chain, chain}
use wae.Io.Chain.Laws.{Source, HasLength, Lends, position, chain_reader, followed_by}
use wae.Io.Chain.Lends.{chain-IsReader}

module _ {S T : Type 0} (f : Source S) (g : Source T) (length : ℕ) (l : HasLength f length) where
  abbrev Rule : Wsabuf → ℕ → Memory → Memory → Chain S T → Fill → Type 0
  Rule buf from m =
      HasRead (chain_reader f g length) (followed_by length f.bytes g.bytes) (position f g length)
        (Lends f g length) buf.buf from m

  start-Rule :
      (buf : Wsabuf) (m : Memory) (s : S) (t : T)
      → f.lends buf s
      → ((buf' : Wsabuf) → g.lends buf' t)
      → g.position t ≡ 0
      → buf.len < 2 ^ 32
      → buf.buf + buf.len < 2 ^ 64
      → Rule buf (f.position s) m m (chain s t) (start buf)
  unfolding chain
  start-Rule buf m s t v free z small fits = rw (at) at (
      start-HasRead (chain_reader f g length) (followed_by length f.bytes g.bytes)
        (position f g length) (Lends f g length) buf m (chain s t) small fits
        (refl, v, free buf, inr (z, λ _. free)))
    where
      at : f.position s + g.position t ≡ f.position s
      at = omega (arith, z)

  -- `read_exact` on the chain of a stream of `length` bytes and one of which nothing has been read yet,
  -- however often it is polled: once it is `Ok`, the buffer holds the next bytes of the two streams in a
  -- row, and no other memory has changed; until then, or after an error, it has kept what was read.
  pub chain_reads_exactly :
      (times fuel : ℕ) (buf : Wsabuf) (m : Memory) (s : S) (t : T) (d : Done Memory (Chain S T))
      → f.lends buf s
      → ((buf' : Wsabuf) → g.lends buf' t)
      → g.position t ≡ 0
      → buf.len < 2 ^ 32
      → buf.buf + buf.len < 2 ^ 64
      → polls (chain_reader f g length) times fuel m (chain s t) (start buf) ≡ some d
      → IsFilledOrKept
          (chain_reader f g length)
          (followed_by length f.bytes g.bytes)
          (position f g length)
          (Lends f g length)
          (chain-IsReader f g length l)
          buf.buf
          (f.position s)
          m
          (start buf)
          d
  chain_reads_exactly times fuel buf m s t d v free z small fits e =
      let law = chain-IsReader f g length l in
      filled-Ends (chain_reader f g length) (followed_by length f.bytes g.bytes)
        (position f g length) (Lends f g length) law buf.buf (f.position s) m (start buf) d
        (polls-Ends (chain_reader f g length) (Rule buf (f.position s) m)
          (kept-HasRead (chain_reader f g length) (followed_by length f.bytes g.bytes)
            (position f g length) (Lends f g length) law buf.buf (f.position s) m)
          times fuel m (chain s t) (start buf) d (start-Rule buf m s t v free z small fits) e)
