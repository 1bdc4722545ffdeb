-- ===== src/Io/Handle/Laws.antt =====
-- src/io/shared/handle.rs: how polls, completions and cancellations of one half follow one another.
use wae.Common.{
  ℕ, ◌≡◌, ◌≢◌, Bool, true, false, Option, none, some, List, [], ◌∷◌, Poll, ready, pending, IoResult,
  ok, err, arith, ◌==◌, if◌then◌else◌, os, as_i32, ◌⊎◌, is_ready, ◌>>=◌,
}
use wae.Io.State
use wae.Io.Cell
use wae.Io.Cell.{Cell}
use wae.Io.Waker.{AtomicWaker}
use wae.Io.Handle.{Half, Call, start_io, new_half, poll, complete, cancel}

module _ (aw : AtomicWaker) where
  -- What the other threads do while a cancellation waits: the callback of the operation runs.
  abbrev pub completing : ℕ → ℕ → Half aw → Half aw
  completing code transferred half = elim (complete aw code transferred half) [
    | none ↦ half
    | some (half', _) ↦ half'
  ]

  -- A poll either returns a result and leaves the word `idle`; or it has found the word `idle`, returns
  -- `Pending`, makes the word `pending` and leaves the waker slot alone; or it returns `Pending`, leaves
  -- the word alone and registers the waker.
  pub poll_settles :
      (waker : ℕ) (scheduled : Poll (IoResult ℕ)) (half half' : Half aw) (calls : List Call)
      (outcome : Poll (IoResult ℕ))
      → poll aw waker scheduled half ≡ some (half', calls, outcome)
      → ((is_ready outcome ≡ true) × (half'.word ≡ State.idle))
        ⊎ ((outcome ≡ pending)
            × (half.word ≡ State.idle)
            × (half'.word ≡ State.pending)
            × (half'.slot ≡ half.slot)
            × (calls ≡ start_io ∷ []))
        ⊎ ((outcome ≡ pending)
            × (half.word ≢ State.idle)
            × (half'.word ≡ half.word)
            × (half'.slot ≡ aw.register waker half.slot)
            × (calls ≡ []))
  unfolding poll
  poll_settles waker scheduled half half' calls outcome e = ground arith

  -- An operation is submitted and goes pending, it completes, and the half is polled once more.
  abbrev pub operation :
      ℕ → ℕ → ℕ → ℕ → Poll (IoResult ℕ) → Half aw → Option (Half aw × List Call × Poll (IoResult ℕ))
  operation waker waker' code transferred scheduled half = do
    (submitted, _, _) ← poll aw waker pending half
    (completed, _) ← complete aw code transferred submitted
    poll aw waker' scheduled completed

  -- On an idle half the last poll of an operation gives what the operating system reported for it, and
  -- frees the half for the next one; the waker in the slot before is woken and taken out.
  pub poll-complete-poll :
      (waker waker' code transferred : ℕ) (scheduled : Poll (IoResult ℕ)) (half : Half aw)
      → half.word ≡ State.idle
      → operation waker waker' code transferred scheduled half
        ≡ some (
          record half {
            word = State.idle;
            result = Cell.set code transferred;
            slot = (aw.wake half.slot).0;
          },
          [],
          ready (if code == 0 then ok transferred else err (os (as_i32 code))),
        )
  unfolding poll complete
  poll-complete-poll waker waker' code transferred scheduled half e = ground arith

  -- Lost wakeup: whoever polls a new half first is not woken when the operation completes.
  pub first_poll_not_woken :
      (waker code transferred address : ℕ)
      → (do
        (submitted, _, _) ← poll aw waker pending (new_half aw address)
        (_, woken) ← complete aw code transferred submitted
        some woken)
        ≡ some none
  unfolding poll complete new_half
  first_poll_not_woken waker code transferred address = ground (arith, aw.wake-new)

  -- Whoever polls once more while the operation is pending is woken by the completion.
  pub second_poll_woken :
      (waker waker' code transferred address : ℕ) (scheduled : Poll (IoResult ℕ))
      → (do
        (submitted, _, _) ← poll aw waker pending (new_half aw address)
        (again, _, _) ← poll aw waker' scheduled submitted
        (_, woken) ← complete aw code transferred again
        some woken)
        ≡ some (some waker')
  unfolding poll complete new_half
  second_poll_woken waker waker' code transferred address scheduled =
      ground (arith, aw.wake-register waker' aw.new)

  -- A cancellation that does not wait, the completion, and a poll: what the cancellation returned, who
  -- was woken, the word at the end, and what the poll returned.
  abbrev pub cancelled_operation :
      ℕ
      → ℕ
      → ℕ
      → Poll (IoResult ℕ)
      → IoResult (Unit {0})
      → Half aw
      → Option (IoResult (Unit {0}) × Option ℕ × ℕ × Poll (IoResult ℕ))
  cancelled_operation waker code transferred scheduled answer half = do
    (cancelled, ret) ← cancel aw false answer [] half
    (completed, woken) ← complete aw code transferred cancelled
    (polled, _, outcome) ← poll aw waker scheduled completed
    some (ret, woken, polled.word, outcome)

  -- A cancellation that does not wait leaves it to the callback to store the result of the cancelled
  -- operation, and the next poll returns that.
  pub cancel_nowait-complete-poll :
      (waker code transferred : ℕ) (scheduled : Poll (IoResult ℕ)) (answer : IoResult (Unit {0}))
      (half : Half aw)
      → half.word ≡ State.pending
      → cancelled_operation waker code transferred scheduled answer half
        ≡ some (
          answer,
          (aw.wake half.slot).1,
          State.idle,
          ready (if code == 0 then ok transferred else err (os (as_i32 code))),
        )
  unfolding cancel complete poll
  cancel_nowait-complete-poll waker code transferred scheduled answer half e = ground arith

  -- A cancellation that waits returns once the callback has run, with the word `ready`, though the
  -- callback has stored no result: the next poll returns what an earlier operation left in the cell,
  -- and is undefined behaviour if there was none.
  pub cancel_wait-poll_stale :
      (waker code transferred : ℕ) (scheduled : Poll (IoResult ℕ)) (answer : IoResult (Unit {0}))
      (half : Half aw)
      → half.word ≡ State.pending
      → (do
        (cancelled, _) ← cancel aw true answer (completing code transferred ∷ []) half
        (_, _, outcome) ← poll aw waker scheduled cancelled
        some outcome)
        ≡ (do r ← Cell.get half.result; some (ready r))
  unfolding cancel complete poll
  cancel_wait-poll_stale waker code transferred scheduled answer half e = ground arith

  -- A cancellation that does not wait, and then one that does: what the second returned, and whether
  -- the word is busy then.
  abbrev pub cancelled_twice :
      IoResult (Unit {0})
      → IoResult (Unit {0})
      → List (Half aw → Half aw)
      → Half aw
      → Option (IoResult (Unit {0}) × Bool)
  unfolding State.is_busy
  cancelled_twice answer answer' others half = do
    (cancelled, _) ← cancel aw false answer [] half
    (again, ret) ← cancel aw true answer' others cancelled
    some (ret, State.is_busy again.word)

  -- After a cancellation that did not wait, one that waits returns at once, while the operation is still
  -- in flight and the word is busy.
  pub cancel_wait_after_nowait :
      (answer answer' : IoResult (Unit {0})) (others : List (Half aw → Half aw)) (half : Half aw)
      → half.word ≡ State.pending
      → cancelled_twice answer answer' others half ≡ some (ok tt, true)
  unfolding cancel State.is_busy
  cancel_wait_after_nowait answer answer' others half e = ground arith
