-- ===== src/Net/Tcp/Connect.antt =====
-- src/net/tcp/stream.rs: `TcpStream::connect`, and the `Connect` future of one attempt.
use wae.Common.{
  ℕ, ℤ, pos, negsuc, ◌≡◌, Bool, true, false, not, ◌&&◌, ◌||◌, Option, none, some, List, [], ◌==◌,
  if◌then◌else◌, ok, err, Poll, ready, pending, IoResult, os, as_i32, is_ok, count_if, arith,
}
use wae.Io.Waker.{AtomicWaker}
use wae.Io.Handle.{Call}
use wae.Io.Handle.Duplex.{IoHandle, new}
use wae.Io.Handle.Duplex.Laws.{is_close}
use wae.Net.Tcp.Socket
use wae.Net.Tcp.Attempts.{connect_loop, connect_result, best, connect_best}

-- The closure that `Connect::poll` hands to the event: what `ConnectEx` returned, and the last error.
unfoldable pub schedule_connect : ℕ → ℤ → Poll (IoResult (Unit {0}))
schedule_connect ret (pos error) =
    if ret == 1
    then ready (ok tt)
    else if error == 10056
    then ready (ok tt)
    else if error == 997
    then pending
    else ready (err (os (pos error)))
schedule_connect ret (negsuc error) =
    if ret == 1 then ready (ok tt) else ready (err (os (negsuc error)))

-- What the operating system answers to `connect`: whether the two calls of `bind` returned 0, what
-- `WSAIoctl` gave for ConnectEx, what `IoEvent::new` and the resolution returned, with the result of the
-- attempt at each address, and what `CreateThreadpoolIo` returned.
pub record Answers : Type 0 where
  pub socket : Option ℕ
  pub bound_6 : Bool
  pub bound_4 : Bool
  pub connectex : Option ℕ
  pub event : IoResult (Unit {0})
  pub addrs : IoResult (List (IoResult (Unit {0})))
  pub io : Option ℕ
  pub last_error : ℕ

-- The tests of `connect` before its loop, and the loop.
unfoldable pub attempt : Answers → IoResult (Unit {0})
unfolding connect_loop connect_result
attempt a =
    let last = os (as_i32 a.last_error) in
    let tried : IoResult (Unit {0}) = elim a.addrs [
      | err e ↦ err e
      | ok rs ↦ connect_result (connect_loop rs 0 (err (os (pos 0))))
    ] in
    let watched : IoResult (Unit {0}) = elim a.event [ err e ↦ err e | ok _ ↦ tried ] in
    let found : IoResult (Unit {0}) = elim a.connectex [ none ↦ err last | some _ ↦ watched ] in
    if not a.bound_6 then (if not a.bound_4 then err last else found) else found

module _ (aw : AtomicWaker) where
  -- `connect`: the calls that close the socket, and the handle of the stream or an error. `none`: the
  -- drop of a handle that could not be made panics or waits for ever.
  unfoldable pub connect : ℕ → ℕ → Answers → Option (List Call × IoResult (IoHandle aw))
  unfolding Socket.new attempt new
  connect read_address write_address a = elim (Socket.new a.socket a.last_error) [
    | err e ↦ some ([], err e)
    | ok socket ↦ elim (attempt a) [
      | err e ↦ some ([], err e)
      | ok _ ↦ elim (new aw socket read_address write_address a.io a.last_error) [
        | none ↦ none
        | some (err e, made) ↦ none
        | some (ok calls, made) ↦ some (calls, made)
      ]
    ]
  ]

  -- The answers under which an attempt at an address succeeds.
  abbrev pub is_connected : Answers → Bool
  is_connected a =
      (a.bound_6 || a.bound_4)
      && (elim a.connectex [ none ↦ false | some _ ↦ true ])
      && is_ok a.event
      && (elim a.addrs [ ok rs ↦ is_ok (best rs) | err _ ↦ false ])

  attempt_lem : (a : Answers) → is_ok (attempt a) ≡ is_connected a
  unfolding attempt
  attempt_lem a =
      elim a.addrs
        as (λ x. is_ok (attempt (record a { addrs = x })) ≡ is_connected (record a { addrs = x })) [
          | ok rs ↦ ground (arith, connect_best rs)
          | err e ↦ ground arith
        ]

  -- How often a run of `connect` closes a socket, and whether it succeeds.
  abbrev pub summary : Option (List Call × IoResult (IoHandle aw)) → Option (ℕ × Bool)
  summary none = none
  summary (some (calls, r)) = some (count_if is_close calls, is_ok r)

  -- Once its awaits are over, `connect` ends without a panic, and it succeeds exactly if its socket is
  -- bound and connected and its handle made. A socket that is not returned is closed only if making the
  -- handle was what failed: on every other error it is left open.
  pub connect-closes :
      (read_address write_address socket : ℕ) (a : Answers)
      → a.socket ≡ some socket
      → summary (connect read_address write_address a)
        ≡ some (elim a.io [
          | none ↦ (if is_connected a then 1 else 0, false)
          | some _ ↦ (0, is_connected a)
        ])
  unfolding connect
  connect-closes read_address write_address socket a e = ground (arith, attempt_lem a)
