-- ===== src/Examples/Accepts.antt =====
-- src/net/tcp/listener.rs: a run of `Incoming`.
use wae.Common.{true, ℕ, refl, none, some, ◌≡◌, ◌++◌, List, [], ◌∷◌, ok, pending}
use wae.Io.Waker.{option_waker}
use wae.Io.State
use wae.Io.Event.{Event}
use wae.Io.Handle.{new_half}
use wae.Io.Handle.Duplex.{IoHandle}
use wae.Net.Tcp.Accept.{Accept, Meets}
use wae.Net.Tcp.Accept.Incoming.{Turn, polls, clients, clients_of, Ran, AllStand, incoming_clients}

-- An event that nothing has used.
abbrev unused : Event option_waker
unused = record {
  wait = some 1;
  word = State.idle;
  result = none;
  slot = none;
  event = 2;
  armed = true;
}

abbrev accept_on : ℕ → Accept option_waker
accept_on client = record { listener = 5; client = ok client; event = ok unused }

abbrev meets : Meets option_waker
meets = record {
  waker = 9;
  scheduled = pending;
  answers = record { reset = 1; overlapped = 1; last_error = 0 };
  address = 42;
  io = some 3;
  last_error = 0;
}

-- The first poll starts an `AcceptEx`, which has ended at the second.
abbrev two_turns : List (Turn option_waker)
two_turns =
    record { signalled = none; meets = meets } ∷ record { signalled = some 0; meets = meets } ∷ []

abbrev stream_handle : IoHandle option_waker
unfolding new_half
stream_handle = record {
  handle = 7;
  ptp_io = some 3;
  read = new_half option_waker 0;
  write = new_half option_waker 1;
}

abbrev ran : Ran option_waker
ran = record {
  items = (ok 7, ok (stream_handle, 42)) ∷ [];
  last = accept_on 8;
  rest = accept_on 9 ∷ [];
}

incoming_clients_example :
    AllStand option_waker ran.items
    × (ok 7 ∷ ok 8 ∷ ok 9 ∷ []
        ≡ clients option_waker ran.items ++ ok 8 ∷ clients_of option_waker ran.rest)
unfolding polls
incoming_clients_example =
    incoming_clients option_waker two_turns (accept_on 8 ∷ accept_on 9 ∷ []) (accept_on 7) ran refl
