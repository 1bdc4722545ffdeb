-- ===== src/Net/Tcp/Drops.antt =====
-- src/io/read/ext.rs and src/net/tcp/read.rs: what the drop of a future leaves of its receive.
use wae.Common.{ℕ}
use wae.Io.State
use wae.Io.Waker.{AtomicWaker}
use wae.Io.Slice.{Wsabuf}
use wae.Io.Fill.{Done}
use wae.Io.Fill.Reads.{Memory}
use wae.Io.Read.{ReadExact}
use wae.Net.Tcp.Stream.{Meets, Stream}

module _ (aw : AtomicWaker) (bytes : ℕ → ℕ) (plan : ℕ → Meets) where
  -- The future of a `read_exact` into `buf` after some polls.
  abbrev pub future_of :
      Wsabuf → Done Memory (Stream aw bytes plan) → ReadExact (Stream aw bytes plan)
  future_of buf d = record {
    read = record { io = d.io; buf = d.fill.rest };
    buf = buf;
    n = d.fill.n;
  }
