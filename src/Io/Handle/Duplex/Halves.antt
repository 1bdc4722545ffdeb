-- ===== src/Io/Handle/Duplex/Halves.antt =====
-- src/io/shared/handle.rs: what happens to the reads of a handle does not touch its writes.
use wae.Common.{
  ℕ, ◌≡◌, refl, ◌≢◌, ◌∙◌, ap, Bool, Option, some, List, Poll, ready, IoResult, ok, err, os, as_i32,
  ◌==◌, if◌then◌else◌, ◌>>=◌, arith,
}
use wae.Io.State
use wae.Io.Waker.{AtomicWaker}
use wae.Io.Handle.{Half, Call, poll, complete}
use wae.Io.Handle.Duplex.{IoHandle, callback, poll_read, poll_write, cancel_read}

module _ (aw : AtomicWaker) where
  -- One thing that happens to the reads: a poll, a completion with the OVERLAPPED of the read half, or a
  -- cancellation.
  pub data ReadStep : IoHandle aw → IoHandle aw → Type 0 where
    polls :
        {h h' : IoHandle aw} (waker : ℕ) (scheduled : Poll (IoResult ℕ)) (calls : List Call)
        (outcome : Poll (IoResult ℕ))
        → poll_read aw waker scheduled h ≡ some (h', calls, outcome)
        → ReadStep h h'
    completes :
        {h h' : IoHandle aw} (code transferred : ℕ) (woken : Option ℕ)
        → callback aw h.read.overlapped code transferred h ≡ some (h', woken)
        → ReadStep h h'
    cancels :
        {h h' : IoHandle aw} (wait : Bool) (answer ret : IoResult (Unit {0}))
        (others : List (Half aw → Half aw))
        → cancel_read aw wait answer others h ≡ some (h', ret)
        → ReadStep h h'

  -- Any number of them.
  pub data ReadSteps : IoHandle aw → IoHandle aw → Type 0 where
    none_more : {h : IoHandle aw} → ReadSteps h h
    one_more : {h h' h'' : IoHandle aw} → ReadStep h h' → ReadSteps h' h'' → ReadSteps h h''

  write-ReadStep :
      {h h' : IoHandle aw} → ReadStep h h' → (h'.write ≡ h.write) × (h'.handle ≡ h.handle)
  unfolding poll_read callback cancel_read
  write-ReadStep (polls waker scheduled calls outcome e) = ground arith
  write-ReadStep (completes code transferred woken e) = ground arith
  write-ReadStep (cancels wait answer ret others e) = ground arith

  write-ReadSteps :
      {h h' : IoHandle aw} → ReadSteps h h' → (h'.write ≡ h.write) × (h'.handle ≡ h.handle)
  write-ReadSteps none_more = (refl, refl)
  write-ReadSteps (one_more s rest) =
      let (w, k) = write-ReadStep s in let (w', k') = write-ReadSteps rest in (w' ∙ w, k' ∙ k)

  -- What a write that was submitted gives once it has completed: the callback with the OVERLAPPED of the
  -- write half, and a poll.
  abbrev pub write_ends : ℕ → ℕ → ℕ → Poll (IoResult ℕ) → IoHandle aw → Option (Poll (IoResult ℕ))
  write_ends waker code transferred scheduled h = do
    (h', _) ← callback aw h.write.overlapped code transferred h
    (_, _, outcome) ← poll_write aw waker scheduled h'
    some outcome

  write_ends-pending :
      (waker code transferred : ℕ) (scheduled : Poll (IoResult ℕ)) (h : IoHandle aw)
      → h.write.word ≡ State.pending
      → h.read.overlapped ≢ h.write.overlapped
      → write_ends waker code transferred scheduled h
        ≡ some (ready (if code == 0 then ok transferred else err (os (as_i32 code))))
  unfolding callback poll_write complete poll
  write_ends-pending waker code transferred scheduled h p n = ground arith

  -- Whatever polls, completions and cancellations the reads see while a write is pending, the handle is
  -- the same, and once the write completes its next poll gives what was reported for it.
  pub write_survives_reads :
      (waker code transferred : ℕ) (scheduled : Poll (IoResult ℕ)) (h h' : IoHandle aw)
      → ReadSteps h h'
      → h.write.word ≡ State.pending
      → h'.read.overlapped ≢ h'.write.overlapped
      → (h'.handle ≡ h.handle)
        × (write_ends waker code transferred scheduled h'
            ≡ some (ready (if code == 0 then ok transferred else err (os (as_i32 code)))))
  write_survives_reads waker code transferred scheduled h h' steps p n =
      let (w, k) = write-ReadSteps steps in
      (
        k,
        write_ends-pending waker code transferred scheduled h'
            (ap (λ (half : Half aw). half.word) w ∙ p) n,
      )
