-- ===== src/Net/Tcp/Accept.antt =====
-- src/net/tcp/listener.rs: the `Accept` future, and the stream `Incoming` of accepted connections.
pub mod Incoming
use wae.Common.{
  ℕ, ℤ, pos, negsuc, ◌≡◌, Option, none, some, ◌==◌, if◌then◌else◌, Result, ok, err, Poll, ready,
  pending, IoResult, os, not_found, arith, ◌>>=◌,
}
use wae.Io.Waker.{AtomicWaker}
use wae.Io.Event.{Event}
use wae.Io.Event
use wae.Io.Handle.Duplex.{IoHandle, new}
use wae.Net.Tcp.Socket

-- The closure that `Accept::poll` hands to the event: what `AcceptEx` returned, and the last error.
unfoldable pub schedule_accept : ℕ → ℤ → Poll (IoResult (Unit {0}))
schedule_accept ret (pos error) =
    if ret == 1
    then ready (ok tt)
    else if error == 997
    then pending
    else ready (err (os (pos error)))
schedule_accept ret (negsuc error) =
    if ret == 1 then ready (ok tt) else ready (err (os (negsuc error)))

-- `map_err(|err| err.raw_os_error().unwrap())`: `none` is the panic.
abbrev pub os_code {ℓ} : {A : Type ℓ} → IoResult A → Option (Result A ℤ)
os_code (ok a) = some (ok a)
os_code (err (os code)) = some (err code)
os_code (err not_found) = none

module _ (aw : AtomicWaker) where
  -- `Accept`: its client socket and its event, or the code of the error with which they were not made.
  pub record Accept : Type 0 where
    pub listener : ℕ
    pub client : Result ℕ ℤ
    pub event : Result (Event aw) ℤ

  -- `TcpListener::accept`: `client` is what `WSASocketW` returned, `event` and `wait` what the two calls
  -- of `IoEvent::new` did. `none` is a panic.
  unfoldable pub accept : ℕ → Option ℕ → Option ℕ → Option ℕ → ℕ → Option Accept
  unfolding Socket.new Event.new Event.drop
  accept listener client event wait last_error = do
    client' ← os_code (Socket.new client last_error)
    event' ← os_code (Event.new aw event wait last_error).1
    some (record { listener = listener; client = client'; event = event' })

  -- `TcpListener::incoming`: an `Incoming` is its `Accept`.
  unfoldable pub incoming : ℕ → Option ℕ → Option ℕ → Option ℕ → ℕ → Option Accept
  unfolding accept
  incoming listener client event wait last_error = accept listener client event wait last_error

  -- What one poll of an `Accept` meets: the task's waker, the result of `schedule_accept`, the answers to
  -- the event, the address that GetAcceptExSockaddrs finds, and what `IoHandle::new` is given.
  pub record Meets : Type 0 where
    pub waker : ℕ
    pub scheduled : Poll (IoResult (Unit {0}))
    pub answers : Event.Answers
    pub address : ℕ
    pub io : Option ℕ
    pub last_error : ℕ

  -- The part of `Accept::poll` after the event is ready: the stream's handle and the peer's address.
  unfoldable pub connected : Meets → ℕ → Option (IoResult (IoHandle aw × ℕ))
  unfolding new
  connected meets client = elim (new aw client 0 1 meets.io meets.last_error) [
    | none ↦ none
    | some (_, err e) ↦ some (err e)
    | some (_, ok handle) ↦ some (ok (handle, meets.address))
  ]

  -- `Accept::poll`
  unfoldable pub poll : Meets → Accept → Option (Accept × Poll (IoResult (IoHandle aw × ℕ)))
  unfolding connected Event.poll
  poll meets a = elim a.client [
    | err code ↦ some (a, ready (err (os code)))
    | ok client ↦ elim a.event [
      | err code ↦ some (a, ready (err (os code)))
      | ok event ↦
          elim (Event.poll aw meets.waker (some a.listener) meets.scheduled meets.answers event) [
            | none ↦ none
            | some (event', pending) ↦ some (record a { event = ok event' }, pending)
            | some (event', ready (err e)) ↦ some (record a { event = ok event' }, ready (err e))
            | some (event', ready (ok _)) ↦ elim (connected meets client) [
              | none ↦ none
              | some r ↦ some (record a { event = ok event' }, ready r)
            ]
          ]
    ]
  ]

  -- `Incoming::poll_next`: `fresh` makes the next `Accept`.
  unfoldable pub poll_next :
      Meets → Option Accept → Accept → Option (Accept × Poll (IoResult (IoHandle aw × ℕ)))
  unfolding poll
  poll_next meets fresh a = elim (poll meets a) [
    | none ↦ none
    | some (a', pending) ↦ some (a', pending)
    | some (a', ready output) ↦ elim fresh [ none ↦ none | some next ↦ some (next, ready output) ]
  ]

  -- A connection that `Accept` gives stands on the client socket that it was made with.
  pub poll-client :
      (meets : Meets) (a a' : Accept) (handle : IoHandle aw) (address : ℕ)
      → poll meets a ≡ some (a', ready (ok (handle, address)))
      → (a.client ≡ ok handle.handle) × (address ≡ meets.address) × (a'.client ≡ a.client)
  unfolding poll
  poll-client meets a a' handle address e = ground arith

  -- After each connection or error `Incoming` goes on with a new `Accept`, and with the same client
  -- socket while it is pending.
  pub poll_next-client :
      (meets : Meets) (fresh a a' : Accept) (p : Poll (IoResult (IoHandle aw × ℕ)))
      → poll_next meets (some fresh) a ≡ some (a', p)
      → a'.client ≡ elim p [ pending ↦ a.client | ready _ ↦ fresh.client ]
  unfolding poll_next
  poll_next-client meets fresh a a' p e = ground arith
