-- ===== src/Io/Event/Laws.antt =====
-- src/io/shared/event.rs: wakeups, completions and the lifetime of the event.
use wae.Common.{
  ℕ, ◌≡◌, refl, ◌≢◌, ◌⊎◌, true, false, Option, none, some, [], ◌∷◌, Poll, ready, pending, IoResult,
  ok, err, os, as_i32, arith, is_ready, ◌>>=◌, ◌==◌, if◌then◌else◌,
}
use wae.Io.State
use wae.Io.Cell
use wae.Io.Waker.{AtomicWaker}
use wae.Io.Event.{
  Event, Answers, close_wait, close_handle, new, drop, signal, outcome, submit, poll,
}

module _ (aw : AtomicWaker) where
  -- A poll of an event either returns a result and leaves the word `idle`, or returns `Pending`, has
  -- registered the waker, and leaves the word `pending` if it was `idle` and as it was otherwise.
  pub poll_registers :
      (waker : ℕ) (handle : Option ℕ) (scheduled : Poll (IoResult (Unit {0}))) (answers : Answers)
      (e e' : Event aw) (p : Poll (IoResult (Unit {0})))
      → poll aw waker handle scheduled answers e ≡ some (e', p)
      → ((is_ready p ≡ true) × (e'.word ≡ State.idle))
        ⊎ ((p ≡ pending)
            × (e'.slot ≡ aw.register waker e.slot)
            × (e'.word ≡ (if e.word == State.idle then State.pending else e.word)))
  unfolding poll
  poll_registers waker handle scheduled answers e e' p q = ground arith

  -- A poll of an idle event submits its operation.
  pub poll_of_idle :
      (waker : ℕ) (handle : Option ℕ) (scheduled : Poll (IoResult (Unit {0}))) (answers : Answers)
      (e : Event aw)
      → e.word ≡ State.idle
      → poll aw waker handle scheduled answers e ≡ some (submit aw waker scheduled e)
  unfolding poll
  poll_of_idle waker handle (ready r) answers e w = ground arith
  poll_of_idle waker handle pending answers e w = ground arith

  -- An operation on an idle, armed event: a poll that submits it, the signal, and another poll; who was
  -- woken, and how the last poll ended.
  abbrev pub operation :
      ℕ
      → ℕ
      → Option ℕ
      → ℕ
      → Poll (IoResult (Unit {0}))
      → Answers
      → Answers
      → Event aw
      → Option (Option ℕ × Event aw × Poll (IoResult (Unit {0})))
  operation waker waker' handle code scheduled answers answers' e = do
    (submitted, _) ← poll aw waker handle pending answers e
    (signalled, woken) ← signal aw code submitted
    (polled, outcome) ← poll aw waker' handle scheduled answers' signalled
    some (woken, polled, outcome)

  -- The task that submitted the operation is woken by its signal. If the event can be reset, the next
  -- poll gives the outcome and leaves the event idle and armed as before.
  pub event_operation :
      (waker waker' code : ℕ) (handle : Option ℕ) (scheduled : Poll (IoResult (Unit {0})))
      (answers answers' : Answers) (e : Event aw)
      → e.word ≡ State.idle
      → e.armed ≡ true
      → answers'.reset ≢ 0
      → operation waker waker' handle code scheduled answers answers' e
        ≡ some (
          some waker,
          record e { result = Cell.set code 0; slot = (aw.wake (aw.register waker e.slot)).0 },
          ready (outcome aw (if code == 0 then ok 0 else err (os (as_i32 code))) handle answers'),
        )
  unfolding poll signal
  event_operation waker waker' code handle scheduled answers answers' e w a r =
      ground (arith, aw.wake-register waker e.slot)

  -- A signal that comes while no operation is pending, as after one that completed at once, uses up the
  -- wait. Nothing arms it again: the signal of the next operation reaches no callback, so nobody is
  -- woken and the word stays `pending`.
  pub early_signal_loses_next :
      (waker code code' : ℕ) (handle : Option ℕ) (answers : Answers) (e : Event aw)
      → e.word ≡ State.idle
      → e.armed ≡ true
      → (do
        (early, _) ← signal aw code e
        (submitted, _) ← poll aw waker handle pending answers early
        signal aw code' submitted)
        ≡ some (
          record e { word = State.pending; slot = aw.register waker e.slot; armed = false },
          none,
        )
  unfolding poll signal
  early_signal_loses_next waker code code' handle answers e w a = ground arith

  -- `new` closes the event if the wait cannot be made, and otherwise arms the wait and leaves it to
  -- the drop to close the wait and then the event.
  pub new-drop :
      (event : ℕ) (wait : Option ℕ) (last_error : ℕ)
      → elim (new aw (some event) wait last_error).1 [
        | ok e ↦ drop aw e
        | err _ ↦ (new aw (some event) wait last_error).0
      ]
        ≡ some (elim wait [
          | none ↦ close_handle event ∷ []
          | some _ ↦ close_wait ∷ close_handle event ∷ []
        ])
  unfolding new
  new-drop event none last_error = refl
  new-drop event (some w) last_error = refl
