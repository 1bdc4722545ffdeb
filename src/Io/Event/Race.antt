-- ===== src/Io/Event/Race.antt =====
-- src/io/shared/event.rs: the methods of an event an access at a time, under every interleaving of the
-- task that polls it with the callbacks of its wait. The operating system signals the event once for
-- each operation that went pending, and may signal it once for each that was done at once.
pub mod Invariant
pub mod Safety
use wae.Common.{
  ℕ, suc, ◌-◌, Bool, true, false, not, ◌||◌, ◌&&◌, Option, none, some, List, [], ◌∷◌, ◌==◌,
  if◌then◌else◌, ok, err, Poll, ready, pending, IoResult, os, as_i32,
}
use wae.Io.State
use wae.Io.Cell
use wae.Io.Cell.{Cell}
use wae.Io.Waker.{AtomicWaker}
use wae.Io.Event.{Answers, outcome}

-- Where the polling task stands: before the access that the constructor is named for.
pub data Owner : Type 0 where
  outside : Owner
  finishing : Owner  -- `state.finish()`
  resetting : Owner  -- `ResetEvent`
  failing : ℕ → Owner  -- `state.set_idle()` if that failed
  arming : Owner  -- `SetThreadpoolWait`
  getting : Owner  -- `result.get()`
  got : IoResult ℕ → Owner  -- `GetOverlappedResult` and `state.set_idle()`
  trying : Owner  -- `state.schedule()`
  starting : Owner  -- `schedule(…)`
  leaving_inline : IoResult (Unit {0}) → Owner  -- `state.set_idle()` after a result at once
  registering_first : Owner  -- `waker.register` of the operation that goes pending
  publishing : Owner  -- `state.set_pending()`
  registering : Owner  -- `waker.register` of the last branch

-- Where the callback of the wait stands.
pub data Callback : Type 0 where
  absent : Callback
  spinning : Callback  -- the loop of `callback_pending`
  claiming : Callback  -- its exchange
  setting : Callback  -- `result.set`
  storing : Callback  -- `set_ready`

module _ (aw : AtomicWaker) where
  pub record System : Type 0 where
    pub word : ℕ
    pub result : Cell
    pub slot : aw.Slot
    pub owner : Owner
    pub callback : Callback
    pub code : ℕ  -- the argument of the callback
    pub waking : ℕ  -- callbacks that have stored their result and have yet to wake
    pub armed : Bool
    pub in_flight : Bool  -- an operation went pending, and its event is not signalled yet
    pub due : ℕ  -- operations that were done at once and may still signal the event
    pub output : Option (Poll (IoResult (Unit {0})))
    -- What the properties speak of: an operation was done at once, an uninitialised result was read, `ResetEvent` has failed, a waker
    -- was registered when the result was already there, and the last waker that was registered, with
    -- whether somebody was woken since.
    pub early : Bool
    pub undefined : Bool
    pub reset_failed : Bool
    pub late : Bool
    pub registered : ℕ
    pub notified : Bool

  unfoldable pub init : System
  unfolding State.new Cell.new
  init = record {
    word = State.new;
    result = Cell.new;
    slot = aw.new;
    owner = outside;
    callback = absent;
    code = 0;
    waking = 0;
    armed = true;
    in_flight = false;
    due = 0;
    output = none;
    early = false;
    undefined = false;
    reset_failed = false;
    late = false;
    registered = 0;
    notified = true;
  }

  -- What happens next. `own` carries the task's waker, the handle of the poll, what `schedule` returns
  -- and the answers of the operating system, if the access asks for them.
  pub data Action : Type 0 where
    start_poll : Action
    own : ℕ → Option ℕ → Poll (IoResult (Unit {0})) → Answers → Action
    signals : ℕ → Action  -- the operating system signals the event; an armed wait calls back
    signals_early : ℕ → Action  -- it does so for an operation that was done at once
    calls_back : Action  -- the callback makes its next access
    wakes : Action  -- a callback makes its last access, `waker.wake()`

  -- The polling task's next access.
  unfoldable pub own_step :
      Owner → ℕ → Option ℕ → Poll (IoResult (Unit {0})) → Answers → System → System
  unfolding State.finish State.schedule State.set_idle State.set_pending Cell.get outcome
  own_step outside waker handle scheduled answers s = s
  own_step finishing waker handle scheduled answers s =
      let (word, hit) = State.finish s.word in
      record s { word = word; owner = if hit then resetting else trying }
  own_step resetting waker handle scheduled answers s =
      if answers.reset == 0
      then record s { owner = failing answers.last_error; reset_failed = true }
      else record s { owner = arming }
  own_step (failing code) waker handle scheduled answers s = record s {
    word = State.set_idle s.word;
    owner = outside;
    output = some (ready (err (os (as_i32 code))));
  }
  own_step arming waker handle scheduled answers s = record s { armed = true; owner = getting }
  own_step getting waker handle scheduled answers s = elim (Cell.get s.result) [
    | none ↦ record s { undefined = true; owner = outside }
    | some r ↦ record s { owner = got r }
  ]
  own_step (got r) waker handle scheduled answers s = record s {
    word = State.set_idle s.word;
    owner = outside;
    output = some (ready (outcome aw r handle answers));
  }
  own_step trying waker handle scheduled answers s =
      let (word, won) = State.schedule s.word in
      record s { word = word; owner = if won then starting else registering }
  own_step starting waker handle (ready (ok r)) answers s = record s {
    owner = leaving_inline (ok r);
    due = suc s.due;
    early = true;
  }
  own_step starting waker handle (ready (err e)) answers s = record s {
    owner = leaving_inline (err e);
  }
  own_step starting waker handle pending answers s = record s {
    owner = registering_first;
    in_flight = true;
  }
  own_step (leaving_inline r) waker handle scheduled answers s = record s {
    word = State.set_idle s.word;
    owner = outside;
    output = some (ready r);
  }
  own_step registering_first waker handle scheduled answers s = record s {
    slot = aw.register waker s.slot;
    registered = waker;
    notified = false;
    owner = publishing;
  }
  own_step publishing waker handle scheduled answers s = record s {
    word = State.set_pending s.word;
    owner = outside;
    output = some pending;
  }
  own_step registering waker handle scheduled answers s = record s {
    slot = aw.register waker s.slot;
    registered = waker;
    notified = false;
    late = s.late || s.word == State.ready;
    owner = outside;
    output = some pending;
  }

  -- The callback's next access.
  unfoldable pub callback_step : Callback → System → System
  unfolding State.is_scheduling State.claim_pending State.set_ready Cell.set
  callback_step absent s = s
  callback_step spinning s =
      if State.is_scheduling s.word then s else record s { callback = claiming }
  callback_step claiming s =
      let (word, claimed) = State.claim_pending s.word in
      record s { word = word; callback = if claimed then setting else absent }
  callback_step setting s = record s { result = Cell.set s.code 0; callback = storing }
  callback_step storing s = record s {
    word = State.set_ready s.word;
    callback = absent;
    waking = suc s.waking;
  }

  abbrev pub is_outside : Owner → Bool
  is_outside outside = true
  is_outside _ = false

  abbrev pub is_there : Option ℕ → Bool
  is_there none = false
  is_there (some _) = true

  -- An action that cannot happen leaves the system as it is.
  unfoldable pub step : Action → System → System
  unfolding own_step callback_step
  step start_poll s = if is_outside s.owner then record s { owner = finishing } else s
  step (own waker handle scheduled answers) s = own_step s.owner waker handle scheduled answers s
  step (signals code) s =
      let called = record s {
        in_flight = false;
        armed = false;
        callback = spinning;
        code = code;
      } in
      let unheard = record s { in_flight = false } in
      if not s.in_flight then s else if s.armed then called else unheard
  step (signals_early code) s =
      let called = record s { due = s.due - 1; armed = false; callback = spinning; code = code } in
      let unheard = record s { due = s.due - 1 } in
      if s.due == 0 then s else if s.armed then called else unheard
  step calls_back s = callback_step s.callback s
  step wakes s =
      let (slot, waker) = aw.wake s.slot in
      let awake = record s {
        waking = s.waking - 1;
        slot = slot;
        notified = s.notified || is_there waker;
      } in
      if s.waking == 0 then s else awake

  unfoldable pub run : List Action → System → System
  unfolding step
  run [] s = s
  run (a ∷ rest) s = run rest (step a s)
