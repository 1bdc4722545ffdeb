-- ===== src/Io/Event.antt =====
-- src/io/shared/event.rs: an operation whose completion signals a Win32 event. The wait of the thread
-- pool on the event fires once each time it is armed by `SetThreadpoolWait`.
pub mod Laws
pub mod Race
use wae.Common.{
  ℕ, Bool, true, false, not, ◌&&◌, Option, none, some, List, [], ◌∷◌, ◌++◌, ◌==◌, if◌then◌else◌,
  Result, ok, err, Poll, ready, pending, IoResult, os, as_i32,
}
use wae.Io.State
use wae.Io.Cell
use wae.Io.Cell.{Cell}
use wae.Io.Waker.{AtomicWaker}

pub data Call : Type 0 where
  set_wait close_wait : Call
  close_handle : ℕ → Call

-- What the operating system answers in one poll: the return values of `ResetEvent` and
-- `GetOverlappedResult`, and the thread's last error.
pub record Answers : Type 0 where
  pub reset : ℕ
  pub overlapped : ℕ
  pub last_error : ℕ

module _ (aw : AtomicWaker) where
  -- `IoEvent`, with the state of its wait. `wait` is `none` for a null pointer.
  pub record Event : Type 0 where
    pub wait : Option ℕ
    pub word : ℕ
    pub result : Cell
    pub slot : aw.Slot
    pub event : ℕ
    pub armed : Bool

  -- `Drop::drop` once its loop has ended; `none`: the word is busy, and it yields.
  unfoldable pub drop : Event → Option (List Call)
  unfolding State.is_busy
  drop e =
      let closed : List Call = elim e.wait [ none ↦ [] | some _ ↦ close_wait ∷ [] ] in
      if State.is_busy e.word then none else some (closed ++ close_handle e.event ∷ [])

  -- `IoEvent::new`: `event` and `wait` are what `CreateEventW` and `CreateThreadpoolWait` returned. The
  -- second early return drops the event.
  unfoldable pub new : Option ℕ → Option ℕ → ℕ → Option (List Call) × IoResult Event
  unfolding State.new Cell.new drop
  new none wait last_error = (some [], err (os (as_i32 last_error)))
  new (some event) wait last_error =
      let this : Event = record {
        wait = none;
        word = State.new;
        result = Cell.new;
        slot = aw.new;
        event = event;
        armed = false;
      } in
      elim wait [
        | none ↦ (drop this, err (os (as_i32 last_error)))
        | some w ↦ (some (set_wait ∷ []), ok (record this { wait = some w; armed = true }))
      ]

  -- The operating system signals the event: if the wait is armed, `callback` runs with `code`, the
  -- `TP_WAIT_RESULT`. The waker that is woken is returned; `none`: the callback spins.
  unfoldable pub signal : ℕ → Event → Option (Event × Option ℕ)
  unfolding State.callback_pending State.set_ready Cell.set
  signal code e =
      let (slot, woken) = aw.wake e.slot in
      let called : Option (Event × Option ℕ) = elim (State.callback_pending (e.word ∷ []) e.word) [
        | none ↦ none
        | some (word, claimed) ↦ some (
            if claimed
            then (
              record e {
                word = State.set_ready word;
                result = Cell.set code 0;
                slot = slot;
                armed = false;
              },
              woken,
            )
            else (record e { armed = false }, none))
      ] in
      if e.armed then called else some (e, none)

  -- The match on `(result, handle)` in `poll`. Each of its branches sets the word idle.
  unfoldable pub outcome : IoResult ℕ → Option ℕ → Answers → IoResult (Unit {0})
  outcome (err e) handle answers = err e
  outcome (ok _) (some handle) answers =
      if not (answers.overlapped == 0) then ok tt else err (os (as_i32 answers.last_error))
  outcome (ok _) none answers = ok tt

  -- The branch of `poll` that has found the word `ready`; `none`: the result was never set.
  unfoldable pub fetch : Option ℕ → Answers → Event → Option (Event × Poll (IoResult (Unit {0})))
  unfolding State.set_idle Cell.get outcome
  fetch handle answers e =
      let freed = record e { word = State.set_idle e.word } in
      let taken : Option (Event × Poll (IoResult (Unit {0}))) = elim (Cell.get e.result) [
        | none ↦ none
        | some r ↦ some (record freed { armed = true }, ready (outcome r handle answers))
      ] in
      if answers.reset == 0
      then some (freed, ready (err (os (as_i32 answers.last_error))))
      else taken

  -- The branch of `poll` that has won the word; `scheduled` is what `schedule` returned.
  unfoldable pub submit :
      ℕ → Poll (IoResult (Unit {0})) → Event → Event × Poll (IoResult (Unit {0}))
  unfolding State.set_idle State.set_pending
  submit waker (ready r) e = (record e { word = State.set_idle e.word }, ready r)
  submit waker pending e =
      (record e { slot = aw.register waker e.slot; word = State.set_pending e.word }, pending)

  -- `poll`
  unfoldable pub poll :
      ℕ
      → Option ℕ
      → Poll (IoResult (Unit {0}))
      → Answers
      → Event
      → Option (Event × Poll (IoResult (Unit {0})))
  unfolding State.finish State.schedule fetch submit
  poll waker handle scheduled answers e =
      let (word, finished) = State.finish e.word in
      let (word', won) = State.schedule word in
      if finished
      then fetch handle answers (record e { word = word })
      else if won
      then some (submit waker scheduled (record e { word = word' }))
      else some (record e { slot = aw.register waker e.slot }, pending)
