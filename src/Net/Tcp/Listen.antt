-- ===== src/Net/Tcp/Listen.antt =====
-- src/net/tcp/listener.rs: `TcpListener::bind`.
use wae.Common.{
  ℕ, ◌≡◌, Bool, false, not, ◌&&◌, Option, none, some, List, if◌then◌else◌, ok, err, IoResult, os,
  as_i32, to_option, ◌>>=◌, arith,
}
use wae.Net.Tcp.Socket
use wae.Net.Tcp.Attempts.{bind_loop, bind_result, binds, bind_first}

-- `TcpListener`, with the two functions that Winsock gave.
pub record TcpListener : Type 0 where
  pub socket : ℕ
  pub acceptex : ℕ
  pub gaesa : ℕ

-- What the operating system answers to `bind`: a pointer that is null, or a failed `WSAIoctl`, is
-- `none`; for each address, whether it could be bound; and whether `listen` returned 0.
pub record Answers : Type 0 where
  pub socket : Option ℕ
  pub acceptex : Option ℕ
  pub gaesa : Option ℕ
  pub addrs : IoResult (List Bool)
  pub listens : Bool
  pub last_error : ℕ

-- The part of `bind` after the two functions have been found.
unfoldable pub bind_and_listen : Answers → ℕ → ℕ → ℕ → IoResult TcpListener
unfolding bind_loop bind_result
bind_and_listen a socket acceptex gaesa = elim a.addrs [
  | err e ↦ err e
  | ok bs ↦ elim (bind_result a.last_error (bind_loop bs 0)) [
    | err e ↦ err e
    | ok _ ↦
        if not a.listens
        then err (os (as_i32 a.last_error))
        else ok (record { socket = socket; acceptex = acceptex; gaesa = gaesa })
  ]
]

-- `bind`. None of its branches closes the socket.
unfoldable pub bind : Answers → IoResult TcpListener
unfolding Socket.new bind_and_listen
bind a = elim (Socket.new a.socket a.last_error) [
  | err e ↦ err e
  | ok socket ↦ elim a.acceptex [
    | none ↦ err (os (as_i32 a.last_error))
    | some acceptex ↦ elim a.gaesa [
      | none ↦ err (os (as_i32 a.last_error))
      | some gaesa ↦ bind_and_listen a socket acceptex gaesa
    ]
  ]
]

-- An address of the list could be bound.
abbrev pub some_binds : Answers → Bool
some_binds a = elim a.addrs [ err _ ↦ false | ok bs ↦ binds bs ]

-- What `bind` should return when it succeeds.
abbrev pub listener_of : Answers → Option TcpListener
listener_of a = do
  socket ← a.socket
  acceptex ← a.acceptex
  gaesa ← a.gaesa
  if some_binds a && a.listens
      then some (record { socket = socket; acceptex = acceptex; gaesa = gaesa })
      else none

-- A listener is returned exactly if there is a socket, both functions are found, some address can be
-- bound, and the socket listens; it holds that socket and those functions.
pub bind_lem : (a : Answers) → to_option (bind a) ≡ listener_of a
unfolding bind
bind_lem a =
    elim a.addrs
      as (λ x. to_option (bind (record a { addrs = x })) ≡ listener_of (record a { addrs = x })) [
        | ok bs ↦ ground (arith, bind_first bs a.last_error)
        | err e ↦ ground arith
      ]
