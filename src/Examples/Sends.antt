-- ===== src/Examples/Sends.antt =====
-- src/net/tcp/write.rs: a buffer that is sent in two pieces.
use wae.Common.{
  ℕ, ◌≡◌, refl, ◌*◌, ◌==◌, if◌then◌else◌, true, none, Option, some, [], ok, ready, pending, pos,
  negsuc,
}
use wae.Io.Waker.{option_waker}
use wae.Io.Slice.{Wsabuf}
use wae.Io.Fill.{start, Done, poll}
use wae.Io.Fill.Polls.{polls}
use wae.Io.Fill.Writes.{Memory}
use wae.Net.Tcp.Stream.{Meets}
use wae.Net.Tcp.Sender.{Sender, stream_writer, poll_write}

-- The first send is deferred; it completes with two bytes before the second poll, which starts another,
-- that is done at once.
abbrev pub meets_at : ℕ → Meets
meets_at time = record {
  waker = 7;
  calls = true;
  arrives = true;
  code = 0;
  count = 2;
  answers = record {
    ret = if time == 0 then negsuc 0 else pos 0;
    overlapped_ret = true;
    transferred = 9;
    last_error = 0;
    wsa_error = pos 997;
  };
}

abbrev pub memory : Memory
memory x = x * 3

abbrev pub buffer : Wsabuf
buffer = record { len = 3; buf = 16 }

abbrev pub nothing : ℕ → ℕ
nothing x = 0

abbrev pub socket : Sender option_waker meets_at
socket = record {
  half = record { word = 0; result = none; slot = none; overlapped = 64 };
  flying = [];
  sent = nothing;
  departed = 0;
  count = 0;
  due = [];
  time = 0;
}

abbrev pub done_of :
    Option (Done Memory (Sender option_waker meets_at)) → Done Memory (Sender option_waker meets_at)
unfolding start
done_of none = record { memory = memory; io = socket; fill = start buffer; outcome = pending }
done_of (some d) = d

abbrev pub three_sent : Done Memory (Sender option_waker meets_at)
unfolding done_of poll start poll_write
three_sent = done_of (polls (stream_writer option_waker meets_at) 1 4 memory socket (start buffer))

sent_in_two_polls : (three_sent.outcome ≡ ready (ok tt)) × (three_sent.io.sent 2 ≡ memory 18)
unfolding three_sent poll start poll_write
sent_in_two_polls = (refl, refl)
