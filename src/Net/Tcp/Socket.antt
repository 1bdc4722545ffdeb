-- ===== src/Net/Tcp/Socket.antt =====
-- src/net/tcp/socket.rs: making and cancelling.
use wae.Common.{
  ℕ, Bool, not, Option, none, some, ◌==◌, if◌then◌else◌, ok, err, IoResult, os, as_i32,
}

-- `new`: `socket` is what `WSASocketW` returned, `none` being INVALID_SOCKET.
unfoldable pub new : Option ℕ → ℕ → IoResult ℕ
new (some socket) last_error = ok socket
new none last_error = err (os (as_i32 last_error))

-- `cancel`: `ret` is what `CancelIoEx` returned. The second component tells whether the operation is
-- waited for, by `GetOverlappedResult`.
unfoldable pub cancel : ℕ → ℕ → Bool → IoResult (Unit {0}) × Bool
cancel ret last_error wait = (if not (ret == 0) then ok tt else err (os (as_i32 last_error)), wait)
