-- ===== src/Net/Tcp/Accessors/Laws.antt =====
-- src/net/tcp/stream.rs: when reading or setting an option closes the socket of a stream.
use wae.Common.{
  ℕ, ◌≡◌, refl, ◌≢◌, ◌⊎◌, Bool, true, false, Option, none, some, List, [], ◌∷◌, ok, err, IoResult,
  arith, if◌then◌else◌,
}
use wae.Net.Tcp.Accessors.{
  Socket2, World, Shutdown, local_addr, peer_addr, ttl, set_ttl, nodelay, set_nodelay, linger,
  set_linger, shutdown, debug, read_half_debug, write_half_debug, unwrap_std,
}

-- A call of an accessor.
pub data Accessor (Duration : Type 0) : Type 0 where
  calls_local_addr calls_peer_addr calls_ttl calls_nodelay calls_linger calls_debug
        calls_read_half_debug calls_write_half_debug :
      Accessor Duration
  calls_set_ttl : ℕ → Accessor Duration
  calls_set_nodelay : Bool → Accessor Duration
  calls_set_linger : Option Duration → Accessor Duration
  calls_shutdown : Shutdown → Accessor Duration

abbrev pub panics : {A : Type 0} → Option A → Bool
panics none = true
panics (some a) = false

module _ {W Raw Addr Duration : Type 0} (s2 : Socket2 W Raw Addr Duration) where
  -- The world after the call, and whether it has panicked.
  abbrev pub call : Accessor Duration → ℕ → World W → World W × Bool
  call calls_local_addr h w = let (w', o) = local_addr s2 h w in (w', panics o)
  call calls_peer_addr h w = let (w', o) = peer_addr s2 h w in (w', panics o)
  call calls_ttl h w = let (w', o) = ttl s2 h w in (w', panics o)
  call calls_nodelay h w = let (w', o) = nodelay s2 h w in (w', panics o)
  call calls_linger h w = let (w', o) = linger s2 h w in (w', panics o)
  call calls_debug h w = let (w', o) = debug s2 h w in (w', panics o)
  call calls_read_half_debug h w = let (w', o) = read_half_debug s2 h w in (w', panics o)
  call calls_write_half_debug h w = let (w', o) = write_half_debug s2 h w in (w', panics o)
  call (calls_set_ttl v) h w = let (w', o) = set_ttl s2 v h w in (w', panics o)
  call (calls_set_nodelay v) h w = let (w', o) = set_nodelay s2 v h w in (w', panics o)
  call (calls_set_linger v) h w = let (w', o) = set_linger s2 v h w in (w', panics o)
  call (calls_shutdown v) h w = let (w', o) = shutdown s2 v h w in (w', panics o)

  -- A call of any of the accessors leaves the socket open and returns, or panics and has closed it, once,
  -- although the stream still owns it.
  pub call-closed :
      (a : Accessor Duration) (handle : ℕ) (w : World W)
      → ((call a handle w).1 ≡ false) × ((call a handle w).0.closed ≡ w.closed)
        ⊎ ((call a handle w).1 ≡ true) × ((call a handle w).0.closed ≡ handle ∷ w.closed)
  unfolding local_addr peer_addr ttl set_ttl nodelay set_nodelay linger set_linger shutdown debug
      read_half_debug write_half_debug
  call-closed a handle w = ground arith

  abbrev pub calls : List (Accessor Duration) → ℕ → World W → World W × Bool
  calls [] handle w = (w, false)
  calls (a ∷ rest) handle w =
      let (w', panicked) = call a handle w in
      let after = calls rest handle w' in if panicked then (w', true) else after

  -- Every address that the operating system reports is one of IP, as those of TCP sockets are.
  abbrev pub IsIp : Type 0
  IsIp = (raw : Raw) → s2.as_std raw ≢ none

  unwrap_std_calm : IsIp → (r : IoResult Raw) → panics (unwrap_std s2 r) ≡ false
  unwrap_std_calm ip (err e) = refl
  unwrap_std_calm ip (ok raw) = ground (arith, ip raw)

  call_calm :
      (a : Accessor Duration) (handle : ℕ) (w : World W) → IsIp → (call a handle w).1 ≡ false
  unfolding local_addr peer_addr ttl set_ttl nodelay set_nodelay linger set_linger shutdown debug
      read_half_debug write_half_debug
  call_calm a handle w ip = ground (
    arith,
    unwrap_std_calm ip (s2.local_addr handle w.os).1,
    unwrap_std_calm ip (s2.peer_addr handle w.os).1,
    unwrap_std_calm ip (s2.peer_addr handle (s2.local_addr handle w.os).0).1,
  )

  -- As long as the operating system reports IP addresses only, no sequence of accessor calls panics or
  -- closes a socket.
  pub calls-closed :
      (list : List (Accessor Duration)) (handle : ℕ) (w : World W)
      → IsIp
      → ((calls list handle w).1 ≡ false) × ((calls list handle w).0.closed ≡ w.closed)
  calls-closed [] handle w ip = (refl, refl)
  calls-closed (a ∷ rest) handle w ip = ground (
    arith,
    call_calm a handle w ip,
    call-closed a handle w,
    calls-closed rest handle (call a handle w).0 ip,
  )
