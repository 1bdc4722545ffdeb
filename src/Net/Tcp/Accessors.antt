-- ===== src/Net/Tcp/Accessors.antt =====
-- src/net/tcp/stream.rs: the options and addresses of a stream, which the crate socket2 reads and sets,
-- and the `Debug` output of a stream and, of src/net/tcp/split.rs, of its halves.
pub mod Listener
pub mod Laws
use Prim.Native.String.{String}
use wae.Common.{ℕ, Bool, Option, none, some, List, [], ◌∷◌, ◌++◌, ok, err, IoResult}

-- `std::net::Shutdown`
pub data Shutdown : Type 0 where
  read write both : Shutdown

-- socket2 on a raw socket, with `W` for what the operating system keeps, `Raw` for `SockAddr`, `Addr` for
-- `SocketAddr` and `Duration` for that of std. `as_std` is none for an address that is not of IP.
pub record Socket2 (W Raw Addr Duration : Type 0) : Type 0 where
  pub local_addr : ℕ → W → W × IoResult Raw
  pub peer_addr : ℕ → W → W × IoResult Raw
  pub ttl : ℕ → W → W × IoResult ℕ
  pub set_ttl : ℕ → ℕ → W → W × IoResult (Unit {0})
  pub nodelay : ℕ → W → W × IoResult Bool
  pub set_nodelay : Bool → ℕ → W → W × IoResult (Unit {0})
  pub linger : ℕ → W → W × IoResult (Option Duration)
  pub set_linger : Option Duration → ℕ → W → W × IoResult (Unit {0})
  pub shutdown : Shutdown → ℕ → W → W × IoResult (Unit {0})
  pub as_std : Raw → Option Addr

-- What the operating system keeps, and the sockets that were closed, the last one first.
pub record World (W : Type 0) : Type 0 where
  pub os : W
  pub closed : List ℕ

-- What a `debug_struct` was given: its name and fields.
pub record DebugStruct (Addr : Type 0) : Type 0 where
  pub name : String
  pub fields : List (String × Addr)

module _ {W : Type 0} where
  -- `TcpStream::with_socket`; a result that is none is a panic. The socket that was made of the handle is
  -- not forgotten then but dropped, which closes it.
  unfoldable pub with_socket :
      {A : Type 0} → ℕ → (ℕ → W → W × Option A) → World W → World W × Option A
  with_socket handle f w =
      let (os, output) = f handle w.os in
      elim output [
        | some a ↦ (record w { os = os }, some a)
        | none ↦ (record w { os = os; closed = handle ∷ w.closed }, none)
      ]

  -- A call that does not panic.
  abbrev pub calm : {A : Type 0} → (ℕ → W → W × A) → ℕ → W → W × Option A
  calm f handle os = let (os', a) = f handle os in (os', some a)

module _ {W Raw Addr Duration : Type 0} (s2 : Socket2 W Raw Addr Duration) where
  -- `.map(|a| a.as_std().unwrap())`
  abbrev pub unwrap_std : IoResult Raw → Option (IoResult Addr)
  unwrap_std (ok raw) = elim (s2.as_std raw) [ none ↦ none | some addr ↦ some (ok addr) ]
  unwrap_std (err e) = some (err e)

  abbrev pub addr_of : (ℕ → W → W × IoResult Raw) → ℕ → W → W × Option (IoResult Addr)
  addr_of f handle os = let (os', a) = f handle os in (os', unwrap_std a)

  -- `TcpStream::local_addr`
  unfoldable pub local_addr : ℕ → World W → World W × Option (IoResult Addr)
  unfolding with_socket
  local_addr handle = with_socket handle (addr_of s2.local_addr)

  -- `TcpStream::peer_addr`
  unfoldable pub peer_addr : ℕ → World W → World W × Option (IoResult Addr)
  unfolding with_socket
  peer_addr handle = with_socket handle (addr_of s2.peer_addr)

  -- `TcpStream::ttl`
  unfoldable pub ttl : ℕ → World W → World W × Option (IoResult ℕ)
  unfolding with_socket
  ttl handle = with_socket handle (calm s2.ttl)

  -- `TcpStream::set_ttl`
  unfoldable pub set_ttl : ℕ → ℕ → World W → World W × Option (IoResult (Unit {0}))
  unfolding with_socket
  set_ttl value handle = with_socket handle (calm (s2.set_ttl value))

  -- `TcpStream::nodelay`
  unfoldable pub nodelay : ℕ → World W → World W × Option (IoResult Bool)
  unfolding with_socket
  nodelay handle = with_socket handle (calm s2.nodelay)

  -- `TcpStream::set_nodelay`
  unfoldable pub set_nodelay : Bool → ℕ → World W → World W × Option (IoResult (Unit {0}))
  unfolding with_socket
  set_nodelay value handle = with_socket handle (calm (s2.set_nodelay value))

  -- `TcpStream::linger`
  unfoldable pub linger : ℕ → World W → World W × Option (IoResult (Option Duration))
  unfolding with_socket
  linger handle = with_socket handle (calm s2.linger)

  -- `TcpStream::set_linger`
  unfoldable pub set_linger : Option Duration → ℕ → World W → World W × Option (IoResult (Unit {0}))
  unfolding with_socket
  set_linger value handle = with_socket handle (calm (s2.set_linger value))

  -- `TcpStream::shutdown`
  unfoldable pub shutdown : Shutdown → ℕ → World W → World W × Option (IoResult (Unit {0}))
  unfolding with_socket
  shutdown how handle = with_socket handle (calm (s2.shutdown how))

  -- A field of the `Debug` output, if there is an address.
  abbrev pub field : String → IoResult Addr → DebugStruct Addr → DebugStruct Addr
  field name (ok addr) dbg = record dbg { fields = dbg.fields ++ (name, addr) ∷ [] }
  field name (err e) dbg = dbg

  -- The `Debug` output under a name, with the addresses that there are; none is a panic of an accessor.
  unfoldable pub debug_named : String → ℕ → World W → World W × Option (DebugStruct Addr)
  unfolding local_addr peer_addr
  debug_named name handle w =
      let (w', addr) = local_addr handle w in
      let (w'', peer) = peer_addr handle w' in
      let dbg : DebugStruct Addr = record { name = name; fields = [] } in
      elim addr [
        | none ↦ (w', none)
        | some addr' ↦ elim peer [
          | none ↦ (w'', none)
          | some peer' ↦ (w'', some (field "peer" peer' (field "addr" addr' dbg)))
        ]
      ]

  -- `Debug` of `TcpStream`
  unfoldable pub debug : ℕ → World W → World W × Option (DebugStruct Addr)
  unfolding debug_named
  debug = debug_named "TcpListener"

  -- `Debug` of `ReadHalf` and of `WriteHalf`
  unfoldable pub read_half_debug : ℕ → World W → World W × Option (DebugStruct Addr)
  unfolding debug_named
  read_half_debug = debug_named "ReadHalf"

  unfoldable pub write_half_debug : ℕ → World W → World W × Option (DebugStruct Addr)
  unfolding debug_named
  write_half_debug = debug_named "WriteHalf"
