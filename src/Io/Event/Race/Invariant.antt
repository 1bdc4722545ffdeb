-- ===== src/Io/Event/Race/Invariant.antt =====
-- src/io/shared/event.rs: what holds of an event after any sequence of accesses.
use wae.Common.{
  ℕ, ◌≤◌, ◌<◌, ◌≡◌, refl, Bool, true, false, not, ◌||◌, ◌&&◌, ◌==◌, Option, some, List, [], ◌∷◌,
  Poll, IoResult, arith,
}
use wae.Io.State
use wae.Io.Cell
use wae.Io.Waker.{AtomicWaker}
use wae.Io.Event.{Answers}
use wae.Io.Event.Race.{
  Owner, Callback, absent, spinning, claiming, storing, outside, resetting, failing, arming,
  getting, got, starting, leaving_inline, registering_first, publishing, System, Action, start_poll,
  own, signals, signals_early, calls_back, wakes, init, own_step, callback_step, step, run,
}

-- The task has the word at `scheduling`.
abbrev pub claims : Owner → Bool
claims starting = true
claims (leaving_inline _) = true
claims registering_first = true
claims publishing = true
claims _ = false

-- It has started an operation, and not published that yet.
abbrev pub is_submitting : Owner → Bool
is_submitting registering_first = true
is_submitting publishing = true
is_submitting _ = false

-- It handles a result that has been stored.
abbrev pub fetches : Owner → Bool
fetches resetting = true
fetches (failing _) = true
fetches arming = true
fetches getting = true
fetches (got _) = true
fetches _ = false

-- It has armed the wait again.
abbrev pub has_armed : Owner → Bool
has_armed getting = true
has_armed (got _) = true
has_armed _ = false

abbrev pub is_failing : Owner → Bool
is_failing (failing _) = true
is_failing _ = false

abbrev pub is_present : Callback → Bool
is_present absent = false
is_present _ = true

-- The words that a callback may meet before each of its accesses.
abbrev pub Meets : Callback → ℕ → Type 0
Meets absent word = Unit
Meets spinning word = (0 < word) × (word < 3)
Meets claiming word = word ≡ State.pending
Meets _ word = word ≡ State.callback

module _ (aw : AtomicWaker) where
  -- The task holds what it has read.
  abbrev pub Held : Owner → System aw → Type 0
  Held (got r) s = Cell.get s.result ≡ some r
  Held _ s = Unit

  abbrev pub IsReported : System aw → Type 0
  IsReported s = s.result ≡ Cell.set s.code 0

  abbrev pub live : System aw → Bool
  live s = s.in_flight || is_present s.callback

  pub record Inv (s : System aw) : Type 0 where
    pub range : s.word ≤ 4
    pub claimed : s.word ≡ State.scheduling → claims s.owner ≡ true
    pub claiming : claims s.owner ≡ true → s.word ≡ State.scheduling
    pub quiet : claims s.owner ≡ true → is_submitting s.owner ≡ false → live s ≡ false
    pub fetched : fetches s.owner ≡ true → s.word ≡ State.ready
    pub one : s.in_flight ≡ true → is_present s.callback ≡ false
    pub flying : s.in_flight ≡ true → Meets spinning s.word
    pub meets : Meets s.callback s.word
    pub stored : s.callback ≡ storing → IsReported s
    pub reported : s.word ≡ State.ready → IsReported s
    pub defined : s.undefined ≡ false
    pub held : Held s.owner s
    pub on_time : s.due ≡ 0
    pub failed : is_failing s.owner ≡ true → s.reset_failed ≡ true
    -- The wait is armed unless its callback has been called and the task has not armed it again.
    pub ready_to_fire :
        s.reset_failed ≡ false
        → s.armed ≡ false
        → (is_present s.callback || (s.word == State.ready && not (has_armed s.owner))) ≡ true
    pub served : s.reset_failed ≡ false → 1 < s.word → s.word < 4 → live s ≡ true
    pub submitted : s.reset_failed ≡ false → is_submitting s.owner ≡ true → live s ≡ true
    pub holds : s.notified ≡ false → (aw.wake s.slot).1 ≡ some s.registered
    -- A result that is there has been announced, or a callback is about to announce it.
    pub announced : s.word ≡ State.ready → s.late ≡ false → s.waking ≡ 0 → s.notified ≡ true

  pub init-Inv : Inv (init aw)
  unfolding init
  init-Inv = ground arith

  own_step-Inv :
      (o : Owner) (waker : ℕ) (handle : Option ℕ) (scheduled : Poll (IoResult (Unit {0})))
      (answers : Answers) (s : System aw)
      → s.owner ≡ o
      → (own_step aw o waker handle scheduled answers s).early ≡ false
      → Inv s
      → Inv (own_step aw o waker handle scheduled answers s)
  unfolding own_step Cell.set
  own_step-Inv outside waker handle scheduled answers s e u v = v
  own_step-Inv o waker handle scheduled answers s e u v =
      ground (arith, aw.wake-register waker s.slot)

  callback_step-Inv :
      (c : Callback) (s : System aw) → s.callback ≡ c → Inv s → Inv (callback_step aw c s)
  unfolding callback_step
  callback_step-Inv absent s e v = v
  callback_step-Inv c s e v = ground arith

  pub step-Inv :
      (a : Action aw) (s : System aw) → (step aw a s).early ≡ false → Inv s → Inv (step aw a s)
  unfolding step
  step-Inv start_poll s u v = ground arith
  step-Inv (own waker handle scheduled answers) s u v =
      own_step-Inv s.owner waker handle scheduled answers s refl u v
  step-Inv (signals code) s u v = ground arith
  step-Inv (signals_early code) s u v = ground arith
  step-Inv calls_back s u v = callback_step-Inv s.callback s refl v
  step-Inv wakes s u v = ground arith

  step_late : (a : Action aw) (s : System aw) → (step aw a s).early ≡ false → s.early ≡ false
  unfolding step
  step_late a s u = ground arith

  run_late :
      (acts : List (Action aw)) (s : System aw) → (run aw acts s).early ≡ false → s.early ≡ false
  unfolding run
  run_late [] s u = u
  run_late (a ∷ rest) s u = step_late a s (run_late rest (step aw a s) u)

  pub run-Inv :
      (acts : List (Action aw)) (s : System aw)
      → (run aw acts s).early ≡ false
      → Inv s
      → Inv (run aw acts s)
  unfolding run
  run-Inv [] s u v = v
  run-Inv (a ∷ rest) s u v =
      run-Inv rest (step aw a s) u (step-Inv a s (run_late rest (step aw a s) u) v)
