-- ===== src/Net/Tcp/Transfer.antt =====
-- src/net/tcp/read.rs and src/net/tcp/write.rs: how a receive and a send are started, and what
-- becomes of the half of the stream's handle.
use wae.Common.{
  ℕ, ℤ, ◌≡◌, Bool, not, ◌&&◌, Option, none, some, if◌then◌else◌, ok, err, Poll, ready, pending,
  IoResult, os, as_i32, is_code, arith,
}
use wae.Io.State
use wae.Io.Waker.{AtomicWaker}
use wae.Io.Handle.{Half, poll}

-- What Winsock answers: the return value of `WSARecv` or `WSASend`, whether
-- `WSAGetOverlappedResult` returned TRUE and the bytes that it gave, the last errors.
pub record Answers : Type 0 where
  pub ret : ℤ
  pub overlapped_ret : Bool
  pub transferred : ℕ
  pub last_error : ℕ
  pub wsa_error : ℤ

-- `schedule` of read.rs
unfoldable pub schedule_read : Answers → Poll (IoResult ℕ)
schedule_read a =
    if is_code 0 a.ret
    then (if a.overlapped_ret
        then ready (ok a.transferred)
        else ready (err (os (as_i32 a.last_error))))
    else if is_code 997 a.wsa_error
    then pending
    else ready (err (os a.wsa_error))

-- `schedule` of write.rs
unfoldable pub schedule_write : Answers → Poll (IoResult ℕ)
schedule_write a =
    if is_code 0 a.ret
    then (if a.overlapped_ret
        then ready (ok a.transferred)
        else ready (err (os (as_i32 a.last_error))))
    else if is_code 997 a.wsa_error
    then pending
    else ready (err (os a.wsa_error))

-- Winsock has taken the operation, and will complete it later.
abbrev pub is_deferred : Answers → Bool
is_deferred a = not (is_code 0 a.ret) && is_code 997 a.wsa_error

-- Winsock has done the operation at once.
abbrev pub is_done : Answers → Bool
is_done a = is_code 0 a.ret && a.overlapped_ret

module _ (aw : AtomicWaker) where
  -- `TcpStream::poll_read` and `poll_write` on an idle half: the word, and what is returned.
  abbrev pub start_transfer :
      (Answers → Poll (IoResult ℕ)) → ℕ → Answers → Half aw → Option (ℕ × Poll (IoResult ℕ))
  start_transfer schedule waker a half = elim (poll aw waker (schedule a) half) [
    | none ↦ none
    | some (half', _, outcome) ↦ some (half'.word, outcome)
  ]

  -- A read on an idle half is pending afterwards exactly if Winsock deferred the receive; if it was done
  -- at once, its bytes are returned, and every other answer is an error, the half being idle again.
  pub poll_read_starts :
      (waker : ℕ) (a : Answers) (half : Half aw)
      → half.word ≡ State.idle
      → start_transfer schedule_read waker a half ≡ (
          if is_deferred a
          then some (State.pending, pending)
          else if is_done a
          then some (State.idle, ready (ok a.transferred))
          else some (
            State.idle,
            ready (err (os (if is_code 0 a.ret then as_i32 a.last_error else a.wsa_error))),
          ))
  unfolding poll schedule_read
  poll_read_starts waker a half e = ground arith

  -- The same of a write.
  pub poll_write_starts :
      (waker : ℕ) (a : Answers) (half : Half aw)
      → half.word ≡ State.idle
      → start_transfer schedule_write waker a half ≡ (
          if is_deferred a
          then some (State.pending, pending)
          else if is_done a
          then some (State.idle, ready (ok a.transferred))
          else some (
            State.idle,
            ready (err (os (if is_code 0 a.ret then as_i32 a.last_error else a.wsa_error))),
          ))
  unfolding poll schedule_write
  poll_write_starts waker a half e = ground arith
