-- ===== src/Io/Race/Hang.antt =====
-- src/io/shared: `cancel` of handle.rs tests the word and swaps it in two accesses. A callback that
-- stores its result between the two is overwritten.
use wae.Common.{ℕ, ◌≡◌, Bool, true, false, List, [], ◌∷◌, Poll, IoResult, arith}
use wae.Io.State
use wae.Io.Waker.{AtomicWaker}
use wae.Io.Race.{
  Owner, outside, swapping, waiting, asking, finishing, trying, registering, System, Action,
  start_poll, own, init, step, run, is_clear,
}
use wae.Io.Race.Invariant.{init-Inv, run-Inv, live}

-- Where an owner can stand that will find the half cancelled.
abbrev pub is_blocked : Owner → Bool
is_blocked outside = true
is_blocked finishing = true
is_blocked trying = true
is_blocked registering = true
is_blocked (asking false _) = true
is_blocked _ = false

module _ (aw : AtomicWaker) where
  -- No callback will come to change the word from a cancelled one.
  record IsStuck (ret : IoResult (Unit {0})) (s : System aw) : Type 0 where
    word : s.word ≡ State.cancelled_wait
    waits : s.owner ≡ waiting ret
    dead : live aw s ≡ false
    clear : is_clear aw s ≡ true

  step-IsStuck :
      (ret : IoResult (Unit {0})) (a : Action aw) (s : System aw)
      → IsStuck ret s
      → IsStuck ret (step aw a s)
  unfolding step
  step-IsStuck ret start_poll s v = ground arith
  step-IsStuck ret a s v = ground arith

  run-IsStuck :
      (ret : IoResult (Unit {0})) (acts : List (Action aw)) (s : System aw)
      → IsStuck ret s
      → IsStuck ret (run aw acts s)
  unfolding run
  run-IsStuck ret [] s v = v
  run-IsStuck ret (a ∷ acts) s v = run-IsStuck ret acts (step aw a s) (step-IsStuck ret a s v)

  -- If the callback has made the word `ready` between the owner's test and its swap, and no operation
  -- went pending before the callbacks of those that were done at once had returned, a cancellation that
  -- waits never returns, whatever happens afterwards.
  pub late_cancel_wait_hangs :
      (before after : List (Action aw)) (waker waker' : ℕ)
      (scheduled scheduled' : Poll (IoResult ℕ)) (answer answer' : IoResult (Unit {0}))
      → (run aw before (init aw)).crowded ≡ false
      → (run aw before (init aw)).owner ≡ swapping true
      → (run aw before (init aw)).word ≡ State.ready
      → (run aw after (
          step aw
            (own waker' scheduled' answer')
            (step aw (own waker scheduled answer) (run aw before (init aw))))).owner
        ≡ waiting answer'
  unfolding step
  late_cancel_wait_hangs before after waker waker' scheduled scheduled' answer answer' u o w =
      let v = run-Inv aw before (init aw) u (init-Inv aw) in
      (run-IsStuck answer' after _ (ground arith)).waits

  record IsBlocked (s : System aw) : Type 0 where
    word : s.word ≡ State.cancelled_nowait
    blocked : is_blocked s.owner ≡ true
    dead : live aw s ≡ false
    clear : is_clear aw s ≡ true

  step-IsBlocked : (a : Action aw) (s : System aw) → IsBlocked s → IsBlocked (step aw a s)
  unfolding step
  step-IsBlocked start_poll s v = ground arith
  step-IsBlocked a s v = ground arith

  run-IsBlocked :
      (acts : List (Action aw)) (s : System aw) → IsBlocked s → IsBlocked (run aw acts s)
  unfolding run
  run-IsBlocked [] s v = v
  run-IsBlocked (a ∷ acts) s v = run-IsBlocked acts (step aw a s) (step-IsBlocked a s v)

  -- If the callback has made the word `ready` between the owner's test and its swap, under the same
  -- condition, a cancellation that does not wait leaves the half cancelled for ever: no poll finds a result or starts an operation.
  pub late_cancel_nowait_blocks :
      (before after : List (Action aw)) (waker : ℕ) (scheduled : Poll (IoResult ℕ))
      (answer : IoResult (Unit {0}))
      → (run aw before (init aw)).crowded ≡ false
      → (run aw before (init aw)).owner ≡ swapping false
      → (run aw before (init aw)).word ≡ State.ready
      → let s = run aw after (step aw (own waker scheduled answer) (run aw before (init aw))) in
        (s.word ≡ State.cancelled_nowait) × (is_blocked s.owner ≡ true)
  unfolding step
  late_cancel_nowait_blocks before after waker scheduled answer u o w =
      let v = run-Inv aw before (init aw) u (init-Inv aw) in
      let b = run-IsBlocked after _ (ground arith) in (b.word, b.blocked)
