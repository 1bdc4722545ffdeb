-- ===== src/Net/Tcp/Accessors/Listener.antt =====
-- src/net/tcp/listener.rs: the address, the options and the `Debug` output of a listener. Its socket is a `Socket` of the
-- crate socket2 from the start, which a panic does not drop.
use Prim.Native.String.{String}
use wae.Common.{ℕ, Option, none, some, [], ◌∷◌, ok, err, IoResult}
use wae.Net.Tcp.Accessors.{Socket2, DebugStruct, unwrap_std}

module _ {W Raw Addr Duration : Type 0} (s2 : Socket2 W Raw Addr Duration) where
  -- `TcpListener::local_addr`
  unfoldable pub local_addr : ℕ → W → W × Option (IoResult Addr)
  local_addr socket os = let (os', a) = s2.local_addr socket os in (os', unwrap_std s2 a)

  -- `TcpListener::ttl`
  unfoldable pub ttl : ℕ → W → W × IoResult ℕ
  ttl = s2.ttl

  -- `TcpListener::set_ttl`
  unfoldable pub set_ttl : ℕ → ℕ → W → W × IoResult (Unit {0})
  set_ttl value socket = s2.set_ttl value socket

  -- A field of the `Debug` output: the socket or an address.
  pub data Field : Type 0 where
    shows_socket : ℕ → Field
    shows_addr : Addr → Field

  -- `Debug` of `TcpListener`; none is a panic of `local_addr`.
  unfoldable pub debug : ℕ → W → W × Option (DebugStruct Field)
  unfolding local_addr
  debug socket os =
      let (os', addr) = local_addr socket os in
      let socket_field : String × Field = ("socket", shows_socket socket) in
      elim addr [
        | none ↦ (os', none)
        | some (ok a) ↦ (
          os',
          some (record {
            name = "TcpListener";
            fields = socket_field ∷ ("addr", shows_addr a) ∷ [];
          }),
        )
        | some (err e) ↦ (os', some (record { name = "TcpListener"; fields = socket_field ∷ [] }))
      ]

  -- The `Debug` output of what shows its listener alone.
  abbrev pub debug_named : String → ℕ → W → W × Option (DebugStruct (DebugStruct Field))
  debug_named name listener os =
      let (os', shown) = debug listener os in
      elim shown [
        | none ↦ (os', none)
        | some dbg ↦ (os', some (record { name = name; fields = ("listener", dbg) ∷ [] }))
      ]

  -- `Debug` of `Accept`
  unfoldable pub accept_debug : ℕ → W → W × Option (DebugStruct (DebugStruct Field))
  unfolding debug
  accept_debug = debug_named "Accept"

  -- `Debug` of `Incoming`, of the listener of its `Accept`.
  unfoldable pub incoming_debug : ℕ → W → W × Option (DebugStruct (DebugStruct Field))
  unfolding debug
  incoming_debug = debug_named "Incoming"
