-- ===== src/Io/Race.antt =====
-- src/io/shared/handle.rs and state.rs: the methods of one half, an access to the shared state at a
-- time, under every interleaving of the task that owns the half with the callbacks of the thread pool.
-- The owner runs one method at a time. The operating system calls back once for each operation that went
-- pending and for each that it accepted and that was done at once, since the mode that skips the latter is
-- never set; one that was refused has no callback.
pub mod Invariant
pub mod Safety
pub mod Hang
pub mod Replay
pub mod Drop
pub mod Lost
pub mod Stale
use wae.Common.{
  ℕ, zero, suc, ◌+◌, ◌-◌, Bool, true, false, not, ◌||◌, ◌&&◌, Option, none, some, List, [], ◌∷◌,
  ◌==◌, if◌then◌else◌, Result, ok, err, Poll, ready, pending, IoResult,
}
use wae.Io.State
use wae.Io.Cell
use wae.Io.Cell.{Cell}
use wae.Io.Waker.{AtomicWaker}

-- Where the owner stands: before the access that the constructor is named for.
pub data Owner : Type 0 where
  outside : Owner
  finishing : Owner  -- `state.finish()` of `poll`
  getting : Owner  -- `result.get()`
  got : IoResult ℕ → Owner  -- `state.set_idle()` after it
  trying : Owner  -- `state.schedule()`
  starting : Owner  -- `(half.schedule)(…)`
  registering_inline : IoResult ℕ → Owner  -- `waker.register` after a result at once
  leaving_inline : IoResult ℕ → Owner  -- `state.set_idle()` after that
  publishing : Owner  -- `state.set_pending()`
  registering : Owner  -- `waker.register` of the last branch
  swapping : Bool → Owner  -- `state.cancel(wait)`, once `is_cancellable` has passed
  asking : Bool → Bool → Owner  -- the call of `half.cancel`, if the second is true
  waiting : IoResult (Unit {0}) → Owner  -- the loop at the end of `cancel`

-- Where the callback stands that serves the operation in flight.
pub data Callback : Type 0 where
  absent : Callback
  spinning : Callback  -- the loop of `callback_pending`
  claiming : Callback  -- its exchange
  claiming_nowait : Callback  -- `callback_cancelled_nowait`
  claiming_wait : Callback  -- `callback_cancelled_wait`
  setting : Callback  -- `result.set`
  storing : Callback  -- `set_ready` after it
  releasing : Callback  -- `set_ready` of the last branch

-- A callback at work besides the one that serves the operation in flight.
pub record Stray : Type 0 where
  pub at : Callback
  pub code : ℕ
  pub transferred : ℕ

abbrev pub take_out : ℕ → List Stray → Option (Stray × List Stray)
take_out n [] = none
take_out zero (x ∷ strays) = some (x, strays)
take_out (suc n) (x ∷ strays) = elim (take_out n strays) [
  | none ↦ none
  | some (y, rest) ↦ some (y, x ∷ rest)
]

-- A callback that has returned is gone.
abbrev pub put_back : Stray → List Stray → List Stray
put_back x strays = elim x.at [ absent ↦ strays | _ ↦ x ∷ strays ]

-- What the owner's method returned last.
pub data Output : Type 0 where
  nothing : Output
  polled : Poll (IoResult ℕ) → Output
  cancelled : IoResult (Unit {0}) → Output

module _ (aw : AtomicWaker) where
  pub record System : Type 0 where
    pub word : ℕ
    pub result : Cell
    pub slot : aw.Slot
    pub owner : Owner
    pub callback : Callback
    pub code : ℕ  -- the arguments of the callback
    pub transferred : ℕ
    pub waking : ℕ  -- callbacks that have stored their result and have yet to wake
    pub woken : List ℕ
    pub in_flight : Bool  -- an operation went pending, and its callback has not begun
    pub queued : ℕ  -- other completions whose callback has not begun, as of operations done at once
    pub strays : List Stray
    pub output : Output
    -- What the properties speak of: an uninitialised result was read, a cancellation that waits was
    -- made, a cancellation met a word that was no longer `pending`, and an operation went pending before
    -- the callbacks of all operations that were done at once had returned.
    pub undefined : Bool
    pub wait_cancelled : Bool
    pub lost : Bool
    pub crowded : Bool

  unfoldable pub init : System
  unfolding State.new Cell.new
  init = record {
    word = State.new;
    result = Cell.new;
    slot = aw.new;
    owner = outside;
    callback = absent;
    code = 0;
    transferred = 0;
    waking = 0;
    woken = [];
    in_flight = false;
    queued = 0;
    strays = [];
    output = nothing;
    undefined = false;
    wait_cancelled = false;
    lost = false;
    crowded = false;
  }

  -- What happens next. `own` carries the waker of the task and what `half.schedule` and `half.cancel`
  -- return if the access is a call of them.
  pub data Action : Type 0 where
    start_poll : Action
    start_cancel : Bool → Action
    own : ℕ → Poll (IoResult ℕ) → IoResult (Unit {0}) → Action
    completes : ℕ → ℕ → Action  -- the operating system starts the callback with these arguments
    calls_back : Action  -- the callback makes its next access
    accepted : Action  -- the failure that the owner has just got is of an operation that was accepted
    stray_starts : ℕ → ℕ → Action  -- the callback of another completion starts
    stray_steps : ℕ → Action  -- such a callback makes its next access
    wakes : Action  -- a callback makes its last access, `waker.wake()`

  abbrev pub is_empty : List Stray → Bool
  is_empty [] = true
  is_empty (_ ∷ _) = false

  -- No callback is due or at work but that of the operation in flight.
  abbrev pub is_clear : System → Bool
  is_clear s = (s.queued == 0) && is_empty s.strays

  -- The owner's next access.
  unfoldable pub own_step : Owner → ℕ → Poll (IoResult ℕ) → IoResult (Unit {0}) → System → System
  unfolding State.finish State.schedule State.set_idle State.set_pending State.cancel State.is_busy
      Cell.get
  own_step outside waker scheduled answer s = s
  own_step finishing waker scheduled answer s =
      let (word, hit) = State.finish s.word in
      record s { word = word; owner = if hit then getting else trying }
  own_step getting waker scheduled answer s = elim (Cell.get s.result) [
    | none ↦ record s { undefined = true; owner = outside }
    | some r ↦ record s { owner = got r }
  ]
  own_step (got r) waker scheduled answer s = record s {
    word = State.set_idle s.word;
    owner = outside;
    output = polled (ready r);
  }
  own_step trying waker scheduled answer s =
      let (word, won) = State.schedule s.word in
      record s { word = word; owner = if won then starting else registering }
  own_step starting waker (ready (ok n)) answer s = record s {
    owner = registering_inline (ok n);
    queued = suc s.queued;
  }
  own_step starting waker (ready (err e)) answer s = record s { owner = registering_inline (err e) }
  own_step starting waker pending answer s = record s {
    owner = publishing;
    in_flight = true;
    queued = if s.in_flight then suc s.queued else s.queued;
    crowded = s.crowded || not (is_clear s);
  }
  own_step (registering_inline r) waker scheduled answer s = record s {
    slot = aw.register waker s.slot;
    owner = leaving_inline r;
  }
  own_step (leaving_inline r) waker scheduled answer s = record s {
    word = State.set_idle s.word;
    owner = outside;
    output = polled (ready r);
  }
  own_step publishing waker scheduled answer s = record s {
    word = State.set_pending s.word;
    owner = outside;
    output = polled pending;
  }
  own_step registering waker scheduled answer s = record s {
    slot = aw.register waker s.slot;
    owner = outside;
    output = polled pending;
  }
  own_step (swapping wait) waker scheduled answer s =
      let (word, asks) = State.cancel wait s.word in
      record s {
        word = word;
        owner = asking wait asks;
        wait_cancelled = wait || s.wait_cancelled;
        lost = s.lost || not (s.word == State.pending);
      }
  own_step (asking wait asks) waker scheduled answer s =
      let ret : IoResult (Unit {0}) = if asks then answer else ok tt in
      if wait
      then record s { owner = waiting ret }
      else record s { owner = outside; output = cancelled ret }
  own_step (waiting ret) waker scheduled answer s =
      if State.is_busy s.word then s else record s { owner = outside; output = cancelled ret }

  -- The callback's next access.
  unfoldable pub callback_step : Callback → System → System
  unfolding State.is_scheduling State.claim_pending State.callback_cancelled_nowait
      State.callback_cancelled_wait State.set_ready Cell.set
  callback_step absent s = s
  callback_step spinning s =
      if State.is_scheduling s.word then s else record s { callback = claiming }
  callback_step claiming s =
      let (word, claimed) = State.claim_pending s.word in
      record s { word = word; callback = if claimed then setting else claiming_nowait }
  callback_step claiming_nowait s =
      let (word, claimed) = State.callback_cancelled_nowait s.word in
      record s { word = word; callback = if claimed then setting else claiming_wait }
  callback_step claiming_wait s =
      let (word, claimed) = State.callback_cancelled_wait s.word in
      record s { word = word; callback = if claimed then releasing else absent }
  callback_step setting s = record s { result = Cell.set s.code s.transferred; callback = storing }
  callback_step storing s = record s {
    word = State.set_ready s.word;
    callback = absent;
    waking = suc s.waking;
  }
  callback_step releasing s = record s { word = State.set_ready s.word; callback = absent }

  abbrev pub stray_step : Stray → List Stray → System → System
  stray_step x rest s =
      let s' =
        callback_step x.at
          (record s { callback = x.at; code = x.code; transferred = x.transferred }) in
      record s' {
        callback = s.callback;
        code = s.code;
        transferred = s.transferred;
        strays = put_back (record x { at = s'.callback }) rest;
      }

  abbrev pub is_outside : Owner → Bool
  is_outside outside = true
  is_outside _ = false

  abbrev pub push_waker : Option ℕ → List ℕ → List ℕ
  push_waker none ws = ws
  push_waker (some w) ws = w ∷ ws

  -- An action that cannot happen leaves the system as it is.
  unfoldable pub step : Action → System → System
  unfolding own_step callback_step State.is_cancellable
  step start_poll s = if is_outside s.owner then record s { owner = finishing } else s
  step (start_cancel wait) s =
      let started =
        if State.is_cancellable s.word
        then record s { owner = swapping wait }
        else record s { output = cancelled (ok tt) } in
      if is_outside s.owner then started else s
  step (own waker scheduled answer) s = own_step s.owner waker scheduled answer s
  step (completes code transferred) s =
      if s.in_flight
      then record s {
        in_flight = false;
        callback = spinning;
        code = code;
        transferred = transferred;
        strays =
            put_back (record { at = s.callback; code = s.code; transferred = s.transferred })
              s.strays;
      }
      else s
  step accepted s = elim s.owner [
    | registering_inline (err _) ↦ record s { queued = suc s.queued }
    | _ ↦ s
  ]
  step (stray_starts code transferred) s =
      let started = record s {
        queued = s.queued - 1;
        strays = record { at = spinning; code = code; transferred = transferred } ∷ s.strays;
      } in
      if s.queued == 0 then s else started
  step (stray_steps n) s = elim (take_out n s.strays) [
    | none ↦ s
    | some (x, rest) ↦ stray_step x rest s
  ]
  step calls_back s = callback_step s.callback s
  step wakes s =
      let (slot, waker) = aw.wake s.slot in
      let awake = record s {
        waking = s.waking - 1;
        slot = slot;
        woken = push_waker waker s.woken;
      } in
      if s.waking == 0 then s else awake

  unfoldable pub run : List Action → System → System
  unfolding step
  run [] s = s
  run (a ∷ rest) s = run rest (step a s)
