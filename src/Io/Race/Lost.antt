-- ===== src/Io/Race/Lost.antt =====
-- src/io/shared/handle.rs: a poll that finds its operation pending registers its waker last, and does
-- not look at the word again.
use wae.Common.{ℕ, ◌≡◌, Bool, true, false, ◌||◌, List, [], ◌∷◌, Poll, pending, IoResult, arith}
use wae.Io.State
use wae.Io.Waker.{AtomicWaker}
use wae.Io.Race.{
  outside, registering, System, Action, start_poll, start_cancel, own, polled, init, step, run,
  is_clear,
}
use wae.Io.Race.Invariant.{init-Inv, run-Inv, live}

module _ (aw : AtomicWaker) where
  abbrev pub is_start : Action aw → Bool
  is_start start_poll = true
  is_start (start_cancel _) = true
  is_start _ = false

  -- The owner calls one of its methods.
  abbrev pub any_start : List (Action aw) → Bool
  any_start [] = false
  any_start (a ∷ acts) = is_start a || any_start acts

  -- The owner sleeps, and no callback is left that would wake it.
  record IsAsleep (woken : List ℕ) (s : System aw) : Type 0 where
    owner : s.owner ≡ outside
    output : s.output ≡ polled pending
    dead : live aw s ≡ false
    clear : is_clear aw s ≡ true
    silent : s.waking ≡ 0
    woken_before : s.woken ≡ woken

  step-IsAsleep :
      (woken : List ℕ) (a : Action aw) (s : System aw)
      → is_start a ≡ false
      → IsAsleep woken s
      → IsAsleep woken (step aw a s)
  unfolding step
  step-IsAsleep woken start_poll s n v = ground arith
  step-IsAsleep woken a s n v = ground arith

  run-IsAsleep :
      (woken : List ℕ) (acts : List (Action aw)) (s : System aw)
      → any_start acts ≡ false
      → IsAsleep woken s
      → IsAsleep woken (run aw acts s)
  unfolding run
  run-IsAsleep woken [] s n v = v
  run-IsAsleep woken (a ∷ acts) s n v =
      run-IsAsleep woken acts (step aw a s) (ground arith)
        (step-IsAsleep woken a s (ground arith) v)

  -- Lost wakeup: if the callback publishes and wakes between the tests of a poll and its registration,
  -- and no operation went pending before the callbacks of those that were done at once had returned, the
  -- poll returns `Pending`, and its task is not woken, whatever happens, until it calls again.
  pub late_register_not_woken :
      (before after : List (Action aw)) (waker : ℕ) (scheduled : Poll (IoResult ℕ))
      (answer : IoResult (Unit {0}))
      → (run aw before (init aw)).crowded ≡ false
      → (run aw before (init aw)).owner ≡ registering
      → (run aw before (init aw)).word ≡ State.ready
      → (run aw before (init aw)).waking ≡ 0
      → any_start after ≡ false
      → let s = run aw after (step aw (own waker scheduled answer) (run aw before (init aw))) in
        (s.output ≡ polled pending)
        × (s.owner ≡ outside)
        × (s.woken ≡ (run aw before (init aw)).woken)
  unfolding step
  late_register_not_woken before after waker scheduled answer u o w k n =
      let v = run-Inv aw before (init aw) u (init-Inv aw) in
      let b = run-IsAsleep (run aw before (init aw)).woken after _ n (ground arith) in
      (b.output, b.owner, b.woken_before)
