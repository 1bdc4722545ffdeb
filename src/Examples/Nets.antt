-- ===== src/Examples/Nets.antt =====
-- src/net: connecting and lookups.
use wae.Common.{
  ℕ, ◌+◌, Option, ready, IoResult, ◌==◌, if◌then◌else◌, pos, ◌≡◌, refl, true, false, none, some, [],
  ◌∷◌, ◌++◌, ok, err, os, arith,
}
use wae.Io.Waker.{option_waker}
use wae.Net.Tcp.Connect.{connect, summary, is_connected, connect-closes}
use wae.Net.Tcp.Connect
use wae.Net.Sockaddr.Host.{Text, decimal, port_to_string, host_and_port, host_and_port_agrees}
use wae.Net.Sockaddr.Addrs.{of_pair, poll}
use wae.Net.Tcp.Resolve.{when_ready, connect_tries}
use wae.Io.State
use wae.Io.Event.{Event, drop, signal}
use wae.Net.Sockaddr.Dropping
use wae.Net.Sockaddr.Dropping.{started, late_lookup_writes_freed}
use wae.Net.Sockaddr.Info.{Chain}

-- No address accepts.
abbrev refused : Connect.Answers
refused = record {
  socket = some 3;
  bound_6 = true;
  bound_4 = true;
  connectex = some 5;
  event = ok tt;
  addrs = ok (err (os (pos 10061)) ∷ []);
  io = some 4;
  last_error = 0;
}

connect-closes_example : summary option_waker (connect option_waker 64 96 refused) ≡ some (0, false)
connect-closes_example = connect-closes option_waker 64 96 3 refused refl

-- "db" and 8080.
abbrev db : Text
db = b'd' ∷ b'b' ∷ []

host_and_port_agrees_example :
    (service : Text) × (host_and_port (db ++ b':' ∷ port_to_string 8080) none ≡ (db, some service))
    × (host_and_port db (some 8080) ≡ (db, some service))
    × (decimal 0 service ≡ 8080)
host_and_port_agrees_example = host_and_port_agrees db 8080 refl (omega arith)

-- The first IP address of the lookup refuses and the second accepts.
abbrev entries : Chain ℕ
entries = some 1 ∷ none ∷ some 2 ∷ some 3 ∷ []

abbrev answer : ℕ → ℕ → IoResult (Unit {0})
answer round a = if a == 2 then ok tt else err (os (pos 10061))

abbrev no_ip : Text → Option ℕ
no_ip s = none

connect_tries_example :
    when_ready answer 4 (
      poll
        (ready (ok (record { addrinfo = entries; current = entries })))
        (of_pair no_ip (λ ip port. ip + port) (db, 8080)))
    ≡ some (2, ok tt)
connect_tries_example =
    connect_tries answer no_ip (λ ip port. ip + port) db 8080 entries 4 (omega arith)

abbrev pending_event : Event option_waker
pending_event = record {
  wait = some 1;
  word = State.pending;
  result = none;
  slot = none;
  event = 2;
  armed = true;
}

late_lookup_writes_freed_example :
    (Dropping.run option_waker (Dropping.ends 0 ∷ Dropping.drops ∷ []) (
      Dropping.run option_waker
        (Dropping.drops ∷ Dropping.drops ∷ Dropping.drops ∷ [])
        (started option_waker pending_event))).wrote_freed
    ≡ true
unfolding Dropping.run drop signal
late_lookup_writes_freed_example =
    late_lookup_writes_freed option_waker (Dropping.drops ∷ Dropping.drops ∷ Dropping.drops ∷ [])
      (Dropping.ends 0 ∷ Dropping.drops ∷ []) pending_event refl refl refl refl
