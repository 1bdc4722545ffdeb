-- ===== src/Examples/Transfers.antt =====
-- src/io/read/ext.rs and src/io/write/ext.rs: transfers in pieces of at most two bytes.
use wae.Common.{
  pos, negsuc, none, ◌==◌, if◌then◌else◌, ℕ, ◌+◌, ◌-◌, ◌*◌, ◌≡◌, refl, true, Option, some, [], ltb,
  leb, ◌&&◌, ok, ready, pending,
}
use wae.Io.Slice.{Wsabuf, AsyncIo}
use wae.Io.Fill.{start, Done, poll}
use wae.Io.Fill.Reads.{Memory}
use wae.Io.Fill.Polls.{polls}
use wae.Io.Waker.{option_waker}
use wae.Net.Tcp.Stream.{Meets, Stream, stream_reader}
use wae.Net.Tcp.Stream.{poll_read}

abbrev piece : ℕ → ℕ
piece len = if ltb 2 len then 2 else len

-- The bytes of the stream that is read.
abbrev stream : ℕ → ℕ
stream i = i * 3

-- A reader at a position of the stream.
abbrev reader : AsyncIo Memory ℕ
reader = record {
  poll_io = λ buf m s. (
    λ x.
        if leb buf.buf x && ltb x (buf.buf + piece buf.len)
        then stream (s + (x - buf.buf))
        else m x,
    s + piece buf.len,
    ready (ok (piece buf.len)),
  );
  cancel_io = λ wait s. (s, ok tt);
}

abbrev zeros : Memory
zeros x = 0

abbrev buffer : Wsabuf
buffer = record { len = 3; buf = 16 }

abbrev done_of : {S : Type 0} → Done Memory S → Option (Done Memory S) → Done Memory S
done_of d none = d
done_of d (some d') = d'

-- Three bytes are read from position 10 on, in two pieces.
abbrev three_read : Done Memory ℕ
unfolding poll start
three_read =
    done_of (record { memory = zeros; io = 0; fill = start buffer; outcome = pending })
      (poll reader 4 zeros 10 (start buffer))

three_bytes : three_read.memory 18 ≡ stream 12
unfolding three_read
three_bytes = refl

-- The first receive of a stream is deferred; it completes with two bytes before the second poll, which
-- starts another, that is done at once.
abbrev meets_at : ℕ → Meets
meets_at time = record {
  waker = 7;
  calls = true;
  arrives = true;
  code = 0;
  count = 2;
  answers = record {
    ret = if time == 0 then negsuc 0 else pos 0;
    overlapped_ret = true;
    transferred = 9;
    last_error = 0;
    wsa_error = pos 997;
  };
}

abbrev socket : Stream option_waker stream meets_at
socket = record {
  half = record { word = 0; result = none; slot = none; overlapped = 64 };
  flying = [];
  delivered = 10;
  position = 10;
  due = [];
  time = 0;
}

abbrev position_of : Stream option_waker stream meets_at → ℕ
position_of s = s.position

abbrev three_received : Done Memory (Stream option_waker stream meets_at)
unfolding poll start poll_read
three_received =
    done_of (record { memory = zeros; io = socket; fill = start buffer; outcome = pending })
      (polls (stream_reader option_waker stream meets_at) 1 4 zeros socket (start buffer))

received_in_two_polls :
    (three_received.outcome ≡ ready (ok tt)) × (three_received.memory 18 ≡ stream 12)
unfolding three_received poll start poll_read
received_in_two_polls = (refl, refl)
