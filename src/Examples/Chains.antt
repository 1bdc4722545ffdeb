-- ===== src/Examples/Chains.antt =====
-- src/io/read/ext.rs: three bytes read from a chain of a stream of two bytes and another one.
use wae.Common.{ℕ, ◌+◌, ◌-◌, ◌*◌, ◌≤◌, ◌≡◌, refl, Option, none, some, ok, ready, pending, arith}
use wae.Io.Slice.{Wsabuf, AsyncIo}
use wae.Io.Fill.{start, Done, poll}
use wae.Io.Fill.Reads.{Memory, IsReader, IsFilledOrKept}
use wae.Io.Fill.Polls.{polls}
use wae.Io.Chain.{Chain, chain, poll_read}
use wae.Io.Chain.Laws.{Source, HasLength, Lends, position, chain_reader, followed_by}
use wae.Io.Chain.Lends.{chain-IsReader}
use wae.Io.Chain.Exact.{chain_reads_exactly}
use wae.Io.Read.{ReadExact}
use wae.Io.Read
use wae.Net.Tcp.Stream.{at_most, received}

-- A reader of the first bytes of a stream, at a position of it.
abbrev reader : (ℕ → ℕ) → ℕ → AsyncIo Memory ℕ
reader bytes length = record {
  poll_io = λ buf m s. (
    received bytes s buf.buf (at_most buf.len (length - s)) m,
    s + at_most buf.len (length - s),
    ready (ok (at_most buf.len (length - s))),
  );
  cancel_io = λ wait s. (s, ok tt);
}

reader-IsReader :
    (bytes : ℕ → ℕ) (length : ℕ) → IsReader (reader bytes length) bytes (λ s. s) (λ _ s. s ≤ length)
reader-IsReader bytes length = record {
  bound = λ buf m s k v e. ground arith;
  moves = λ buf m s k v e. ground arith;
  stays = λ buf m s v e. ground arith;
  reads = λ buf m s k x v e lt. ground arith;
  outside = λ buf m s x v o. ground arith;
  frees = λ buf buf' m s k v e. ground arith;
  keeps = λ buf m s v e. ground arith;
}

abbrev source : (ℕ → ℕ) → ℕ → Source ℕ
source bytes length = record {
  io = reader bytes length;
  bytes = bytes;
  position = λ s. s;
  lends = λ _ s. s ≤ length;
  law = reader-IsReader bytes length;
}

source-HasLength : (bytes : ℕ → ℕ) (length : ℕ) → HasLength (source bytes length) length
source-HasLength bytes length = record {
  within = λ buf m s k v e. ground arith;
  ends = λ buf m s v lt e. ground arith;
}

abbrev head : Source ℕ
head = source (λ i. i * 3) 2

abbrev tail : Source ℕ
tail = source (λ i. i * 5 + 1) 9

abbrev zeros : Memory
zeros x = 0

abbrev buffer : Wsabuf
buffer = record { len = 3; buf = 16 }

abbrev done_of : Option (Done Memory (Chain ℕ ℕ)) → Done Memory (Chain ℕ ℕ)
unfolding start chain
done_of none = record { memory = zeros; io = chain 0 0; fill = start buffer; outcome = pending }
done_of (some d) = d

abbrev three_read : Done Memory (Chain ℕ ℕ)
unfolding done_of poll start poll_read chain
three_read = done_of (polls (chain_reader head tail 2) 0 4 zeros (chain 0 0) (start buffer))

read_over_the_end :
    (three_read.outcome ≡ ready (ok tt)) × (three_read.memory 17 ≡ 3) × (three_read.memory 18 ≡ 1)
unfolding three_read
read_over_the_end = (refl, refl, refl)

chain_reads_exactly_example :
    IsFilledOrKept
      (chain_reader head tail 2)
      (followed_by 2 head.bytes tail.bytes)
      (position head tail 2)
      (Lends head tail 2)
      (chain-IsReader head tail 2 (source-HasLength (λ i. i * 3) 2))
      16
      0
      zeros
      (start buffer)
      three_read
unfolding three_read poll start poll_read chain
chain_reads_exactly_example =
    chain_reads_exactly head tail 2 (source-HasLength (λ i. i * 3) 2) 0 4 buffer zeros 0 0
      three_read (omega arith) (λ _. omega arith) refl (omega arith) (omega arith) refl

abbrev reads : ReadExact ℕ
unfolding Read.read_exact
reads = Read.read_exact 0 buffer
