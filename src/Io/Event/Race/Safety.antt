-- ===== src/Io/Event/Race/Safety.antt =====
-- src/io/shared/event.rs: the safety comments of result.rs at an event, and what becomes of a wakeup,
-- under every interleaving.
use wae.Common.{ℕ, ◌≡◌, ◌≢◌, ◌⊎◌, true, false, List, [], ◌∷◌, arith}
use wae.Io.State
use wae.Io.Cell
use wae.Io.Waker.{AtomicWaker}
use wae.Io.Event.Race.{starting, System, Action, signals, calls_back, wakes, init, run}
use wae.Io.Event.Race.Invariant.{Inv, init-Inv, run-Inv, live}

module _ (aw : AtomicWaker) where
  -- If no operation has been done at once, a result that was never stored is never read, whatever the operating system answers.
  pub event_never_undefined :
      (acts : List (Action aw))
      → (run aw acts (init aw)).early ≡ false
      → (run aw acts (init aw)).undefined ≡ false
  event_never_undefined acts u = (run-Inv aw acts (init aw) u (init-Inv aw)).defined

  -- What the operating system and the callback do for an operation, from the signal to the wake.
  abbrev pub whole_signal : ℕ → List (Action aw)
  whole_signal code = signals code ∷ calls_back ∷ calls_back ∷ calls_back ∷ calls_back ∷ wakes ∷ []

  signal_of_Inv :
      (code : ℕ) (s : System aw)
      → Inv aw s
      → s.in_flight ≡ true
      → s.word ≢ State.scheduling
      → s.reset_failed ≡ false
      → ((run aw (whole_signal code) s).word ≡ State.ready)
        × ((run aw (whole_signal code) s).notified ≡ true)
        × (live aw (run aw (whole_signal code) s) ≡ false)
  unfolding run
  signal_of_Inv code s v f n r = ground arith

  -- If `ResetEvent` has not failed and no operation has been done at once, no completion is lost: once the operation is published, the
  -- signal and its callback make the event `ready`, and the waker that was registered last is woken if
  -- nobody was since.
  pub event_completes :
      (acts : List (Action aw)) (code : ℕ)
      → (run aw acts (init aw)).early ≡ false
      → (run aw acts (init aw)).in_flight ≡ true
      → (run aw acts (init aw)).word ≢ State.scheduling
      → (run aw acts (init aw)).reset_failed ≡ false
      → ((run aw (whole_signal code) (run aw acts (init aw))).word ≡ State.ready)
        × ((run aw (whole_signal code) (run aw acts (init aw))).notified ≡ true)
        × (live aw (run aw (whole_signal code) (run aw acts (init aw))) ≡ false)
  event_completes acts code u f n r =
      signal_of_Inv code (run aw acts (init aw)) (run-Inv aw acts (init aw) u (init-Inv aw)) f n r

  -- If no operation has been done at once, and unless a poll has registered its waker when the result was there already: when a
  -- result is there and every callback has made its wake, somebody was woken since the last waker was
  -- registered.
  pub event_wakes :
      (acts : List (Action aw))
      → (run aw acts (init aw)).early ≡ false
      → (run aw acts (init aw)).word ≡ State.ready
      → (run aw acts (init aw)).waking ≡ 0
      → (run aw acts (init aw)).late ≡ false
      → (run aw acts (init aw)).notified ≡ true
  event_wakes acts u w k l = (run-Inv aw acts (init aw) u (init-Inv aw)).announced w l k

  -- If no operation has been done at once: when an operation is about to be started, and also whenever the word is not busy, which is what the
  -- drop waits for, no operation is in flight and no callback is at work on the word or the result.
  pub event_one_operation :
      (acts : List (Action aw))
      → (run aw acts (init aw)).early ≡ false
      → ((run aw acts (init aw)).owner ≡ starting)
        ⊎ (State.is_busy (run aw acts (init aw)).word ≡ false)
      → live aw (run aw acts (init aw)) ≡ false
  unfolding State.is_busy
  event_one_operation acts u h = let v = run-Inv aw acts (init aw) u (init-Inv aw) in ground arith
