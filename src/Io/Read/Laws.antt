-- ===== src/Io/Read/Laws.antt =====
-- src/io/read/ext.rs: `ReadExact` is the transfer of `Fill`.
use wae.Common.{
  ℕ, zero, suc, ◌≡◌, refl, Option, none, some, arith, ◌+◌, ◌%◌, ◌^◌, Poll, ready, pending, ok, err,
  IoResult,
}
use wae.Io.Slice.{Wsabuf, AsyncIo}
use wae.Io.Fill.{Fill, start, advance, Done}
use wae.Io.Fill
use wae.Io.Read.{ReadExact, Polled, read_exact, poll, poll_read}

-- What `Fill` sees of a future, and how an end of `Fill` is one of the future.
abbrev pub fill_of : {S : Type 0} → ReadExact S → Fill
fill_of r = record { rest = r.read.buf; len = r.buf.len; n = r.n }

abbrev pub of_done : {M S : Type 0} → Wsabuf → Option (Done M S) → Option (Polled M S)
of_done buf none = none
of_done buf (some d) = some (record {
  memory = d.memory;
  future = record { read = record { io = d.io; buf = d.fill.rest }; buf = buf; n = d.fill.n };
  outcome = d.outcome;
})

module _ {M S : Type 0} (a : AsyncIo M S) where
  -- The future after a read of `k` bytes that leaves some.
  abbrev after : M → ReadExact S → ℕ → ReadExact S
  after m r k = record {
    read = record { io = (a.poll_io r.read.buf m r.read.io).1; buf = (advance k (fill_of r)).rest };
    buf = r.buf;
    n = (r.n + k) % 2 ^ 64;
  }

  -- `ReadExact`, with its own read future and its two descriptors, polls as the transfer of `Fill` does,
  -- with the same fuel.
  pub poll_read_exact-fill_of :
      (fuel : ℕ) (m : M) (r : ReadExact S)
      → poll a fuel m r ≡ of_done r.buf (Fill.poll a fuel m r.read.io (fill_of r))
  unfolding poll Fill.poll poll_read advance
  poll_read_exact-fill_of zero m r = refl
  poll_read_exact-fill_of (suc fuel) m r =
      go (a.poll_io r.read.buf m r.read.io).2 refl
        (λ k. poll_read_exact-fill_of fuel (a.poll_io r.read.buf m r.read.io).0 (after m r k))
    where
      go :
          (p : Poll (IoResult ℕ))
          → (a.poll_io r.read.buf m r.read.io).2 ≡ p
          → ((k : ℕ)
              → poll a fuel (a.poll_io r.read.buf m r.read.io).0 (after m r k)
                ≡ of_done r.buf (
                    Fill.poll a fuel
                      (a.poll_io r.read.buf m r.read.io).0
                      (a.poll_io r.read.buf m r.read.io).1
                      (advance k (fill_of r))))
          → poll a (suc fuel) m r ≡ of_done r.buf (Fill.poll a (suc fuel) m r.read.io (fill_of r))
      go pending e again = ground (arith, e)
      go (ready (err x)) e again = ground (arith, e)
      go (ready (ok k)) e again = ground (arith, e, again k)

  pub fill_of-read_exact : (io : S) (buf : Wsabuf) → fill_of (read_exact io buf) ≡ start buf
  unfolding read_exact start
  fill_of-read_exact io buf = refl
