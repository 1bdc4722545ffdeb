-- ===== src/Examples/Ends.antt =====
-- src/net/tcp: what one end sends and the other receives, a read that is dropped, and one into a slice
-- of more than 4 GiB.
use wae.Common.{ℕ, Option, none, some, [], ◌∷◌, pending}
use wae.Io.State
use wae.Io.Waker.{option_waker}
use wae.Io.Slice.{Wsabuf}
use wae.Io.Fill.{start, Done, poll}
use wae.Io.Fill.Reads.{Memory}
use wae.Io.Fill.Polls.{polls}
use wae.Io.Read.{ReadExact}
use wae.Net.Tcp.Stream.{Stream, stream_reader, poll_read}
use wae.Examples.Sends.{meets_at, memory, three_sent}

abbrev zeros : Memory
zeros x = 0

-- The bytes that the other end has sent.
abbrev stream : ℕ → ℕ
stream = three_sent.io.sent

abbrev other_buffer : Wsabuf
other_buffer = record { len = 3; buf = 40 }

abbrev other_socket : Stream option_waker stream meets_at
other_socket = record {
  half = record { word = 0; result = none; slot = none; overlapped = 64 };
  flying = [];
  delivered = 0;
  position = 0;
  due = [];
  time = 0;
}

abbrev done_of :
    Option (Done Memory (Stream option_waker stream meets_at))
    → Done Memory (Stream option_waker stream meets_at)
unfolding start
done_of none = record {
  memory = zeros;
  io = other_socket;
  fill = start other_buffer;
  outcome = pending;
}
done_of (some d) = d

abbrev three_received : Done Memory (Stream option_waker stream meets_at)
unfolding done_of poll start poll_read
three_received =
    done_of (
      polls (stream_reader option_waker stream meets_at) 1 4 zeros other_socket
        (start other_buffer))

-- The first poll has left a receive pending.
abbrev one_poll : Done Memory (Stream option_waker stream meets_at)
unfolding done_of poll start poll_read
one_poll =
    done_of (
      polls (stream_reader option_waker stream meets_at) 0 4 zeros other_socket
        (start other_buffer))

abbrev reading : ReadExact (Stream option_waker stream meets_at)
reading = record {
  read = record {
    io = record other_socket {
      half = record other_socket.half { word = State.pending };
      flying = other_buffer ∷ [];
    };
    buf = other_buffer;
  };
  buf = other_buffer;
  n = 0;
}
