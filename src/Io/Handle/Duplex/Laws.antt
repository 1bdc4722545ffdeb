-- ===== src/Io/Handle/Duplex/Laws.antt =====
-- src/io/shared/handle.rs: the two halves do not disturb one another, and the handle is closed once.
use wae.Common.{
  ℕ, ◌≡◌, refl, ◌≢◌, ◌⊎◌, inl, inr, Bool, true, false, Option, none, some, List, [], ◌∷◌, ◌++◌,
  Poll, ready, pending, IoResult, ok, err, IoError, os, as_i32, arith, ◌>>=◌, ◌==◌, if◌then◌else◌,
  count_if,
}
use wae.Io.State
use wae.Io.Cell
use wae.Io.Waker.{AtomicWaker}
use wae.Io.Handle.{Half, Call, close, complete, cancel}
use wae.Io.Handle.Laws.{completing}
use wae.Io.Handle.Duplex.{
  IoHandle, Meets, cancel_unwrap, close_io_of, drop, new, callback, poll_read, poll_write,
}

-- The calls that close the Win32 handle.
abbrev pub is_close : Call → Bool
is_close (close _) = true
is_close _ = false

module _ (aw : AtomicWaker) where
  -- A read that goes pending is completed and returned through its own half, whatever is reported, and
  -- the write half stays as it was.
  pub poll_read-callback :
      (waker waker' code transferred : ℕ) (scheduled : Poll (IoResult ℕ)) (h : IoHandle aw)
      → h.read.word ≡ State.idle
      → (do
        (submitted, _, _) ← poll_read aw waker pending h
        (completed, _) ← callback aw h.read.overlapped code transferred submitted
        poll_read aw waker' scheduled completed)
        ≡ some (
          record h {
            read = record (h.read) {
              word = State.idle;
              result = Cell.set code transferred;
              slot = (aw.wake h.read.slot).0;
            };
          },
          [],
          ready (if code == 0 then ok transferred else err (os (as_i32 code))),
        )
  unfolding poll_read callback
  poll_read-callback waker waker' code transferred scheduled h e = ground arith

  -- A write is completed through the write half, and the read half stays as it was, provided that the
  -- two OVERLAPPED structures have different addresses.
  pub poll_write-callback :
      (waker waker' code transferred : ℕ) (scheduled : Poll (IoResult ℕ)) (h : IoHandle aw)
      → h.read.overlapped ≢ h.write.overlapped
      → h.write.word ≡ State.idle
      → (do
        (submitted, _, _) ← poll_write aw waker pending h
        (completed, _) ← callback aw h.write.overlapped code transferred submitted
        poll_write aw waker' scheduled completed)
        ≡ some (
          record h {
            write = record (h.write) {
              word = State.idle;
              result = Cell.set code transferred;
              slot = (aw.wake h.write.slot).0;
            };
          },
          [],
          ready (if code == 0 then ok transferred else err (os (as_i32 code))),
        )
  unfolding poll_write callback
  poll_write-callback waker waker' code transferred scheduled h n e = ground arith

  -- A half that a drop does not wait for: its word is not `pending` when its cancellation starts.
  abbrev pub IsQuiet : Meets aw → Half aw → Type 0
  IsQuiet meets half = (meets.before half).word ≢ State.pending

  -- A half with a pending operation that the operating system agrees to cancel, and whose callback
  -- runs while the drop waits.
  abbrev pub IsCancelled : Meets aw → Half aw → Type 0
  IsCancelled meets half =
      ((meets.before half).word ≡ State.pending)
      × (meets.answer ≡ ok tt)
      × (code : ℕ) × (transferred : ℕ) × (meets.during ≡ completing aw code transferred ∷ [])

  cancel_unwrap_ends :
      (meets : Meets aw) (half : Half aw)
      → IsQuiet meets half ⊎ IsCancelled meets half
      → (half' : Half aw) × (cancel_unwrap aw meets half ≡ some (ok half'))
  unfolding cancel_unwrap cancel complete
  cancel_unwrap_ends meets half (inl q) = (meets.before half, ground arith)
  cancel_unwrap_ends meets half (inr (p, q, code, transferred, d)) = (
    completing aw code transferred (record (meets.before half) { word = State.cancelled_wait }),
    ground arith,
  )

  cancel_unwrap_refused :
      (meets : Meets aw) (half : Half aw) (e : IoError)
      → (meets.before half).word ≡ State.pending
      → meets.answer ≡ err e
      → (cancel_unwrap aw meets half ≡ none) ⊎ (cancel_unwrap aw meets half ≡ some (err e))
  unfolding cancel_unwrap cancel
  cancel_unwrap_refused meets half e p q = ground arith

  no_close_in : (io : Option ℕ) → count_if is_close (close_io_of aw io) ≡ 0
  no_close_in none = refl
  no_close_in (some _) = refl

  -- If the word of each half is not `pending` when its turn comes, or its operation is cancelled and
  -- completes, then the drop ends and closes the Win32 handle exactly once, as the last thing.
  pub drop-closes_once :
      (at_read at_write : Meets aw) (h : IoHandle aw)
      → IsQuiet at_read h.read ⊎ IsCancelled at_read h.read
      → IsQuiet at_write h.write ⊎ IsCancelled at_write h.write
      → (calls : List Call) × (drop aw at_read at_write h
          ≡ some (ok (calls ++ close h.handle ∷ [])))
        × (count_if is_close calls ≡ 0)
  unfolding drop
  drop-closes_once at_read at_write h r w =
      let (read, e) = cancel_unwrap_ends at_read h.read r in
      let (write, f) = cancel_unwrap_ends at_write h.write w in
      (close_io_of aw h.ptp_io, rw (e, drop) (rw (f, drop)), no_close_in h.ptp_io)

  -- If the operating system refuses to cancel the pending read, the drop either still waits or panics:
  -- it never closes the Win32 handle.
  pub drop_refused_leaks :
      (at_read at_write : Meets aw) (h : IoHandle aw) (e : IoError)
      → (at_read.before h.read).word ≡ State.pending
      → at_read.answer ≡ err e
      → (drop aw at_read at_write h ≡ none) ⊎ (drop aw at_read at_write h ≡ some (err e))
  unfolding drop
  drop_refused_leaks at_read at_write h e p q = elim (cancel_unwrap_refused at_read h.read e p q) [
    | inl f ↦ inl (rw (f, drop))
    | inr f ↦ inr (rw (f, drop))
  ]

  -- `new` closes the Win32 handle exactly if it fails, and then once.
  pub new_closes_on_failure :
      (handle a b last_error : ℕ) (created : Option ℕ)
      → (do (closed, made) ← new aw handle a b created last_error; some closed)
        ≡ some (ok (elim created [ none ↦ close handle ∷ [] | some _ ↦ [] ]))
  unfolding new
  new_closes_on_failure handle a b last_error none = refl
  new_closes_on_failure handle a b last_error (some io) = refl
