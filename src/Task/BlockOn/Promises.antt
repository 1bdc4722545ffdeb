-- ===== src/Task/BlockOn/Promises.antt =====
-- src/task/block_on.rs and src/task/waker.rs: `block_on` of a task that keeps what a future promises.
use wae.Common.{
  ℕ, suc, ◌≡◌, ◌⊎◌, inl, inr, refl, Option, none, some, List, [], ◌∷◌, arith, Poll, ready, pending,
}
use wae.Task.Waker
use wae.Task.Waker.{System, waits, wakes}
use wae.Task.BlockOn.Frame.{
  Method, clone_fn, wake_fn, drop_fn, Task, Loop, polling, waiting, done, Frame, Action, mine,
  others, alert, stirs, start, step, run, reach, polled, mine_step, called, call,
}
use wae.Task.BlockOn.Returns.{
  Inv, step-Inv, start-Inv, stays_done, polls_out, ends, ended, poll_out, accesses_of,
}

-- What a task promises to whoever polls it, as every future does: a poll that gives `Pending` has
-- registered its waker, so that a call of it is due. The call stays due while it is in the slot of the
-- task, and while a thread that has taken it out is about to call it, until some thread calls it. The
-- task may well be ready before that.
pub record Promises {S T : Type 0} (task : Task S T) (Due : S → Type 0) : Type 0 where
  pub registers : (s s' : S) → task.poll s ≡ (s', some pending) → Due s'
  pub keeps :
      (thread : ℕ) (s : S)
      → Due s
      → ((task.work thread s).1 ≡ some wake_fn) ⊎ Due (task.work thread s).0

module _ {S T : Type 0} (task : Task S T) (Due : S → Type 0) (promises : Promises task Due) where
  -- While the loop waits a call of its waker is due, or it has been woken.
  record Heard (f : Frame S T) : Type 0 where
    inv : Inv task f
    heard : f.loop ≡ waiting → Due f.task ⊎ (f.word.state ≡ 1)

  polled_reachable :
      (p : S × Option (Poll T)) (f : Frame S T)
      → f.loop ≡ polling
      → task.poll f.task ≡ p
      → (polled task p f).loop ≡ waiting
      → Due (polled task p f).task ⊎ ((polled task p f).word.state ≡ 1)
  unfolding polled
  polled_reachable (s, none) f e q w = absurd (ground arith)
  polled_reachable (s, some (ready output)) f e q w = absurd (ground arith)
  polled_reachable (s, some pending) f e q w = inl (promises.registers f.task s q)

  mine_reachable :
      (l : Loop T) (f : Frame S T)
      → f.loop ≡ l
      → Heard f
      → (mine_step task l f).loop ≡ waiting
      → Due (mine_step task l f).task ⊎ ((mine_step task l f).word.state ≡ 1)
  unfolding mine_step
  mine_reachable polling f e h w = polled_reachable (task.poll f.task) f e refl w
  mine_reachable waiting f e h w = elim (h.heard e) [
    | inl r ↦ inl r
    | inr k ↦ inr (Waker.step-woken waits f.word k)
  ]
  mine_reachable (done output) f e h w = h.heard w

  called-woken :
      (method : Option Method) (word : System) → word.state ≡ 1 → (called method word).state ≡ 1
  unfolding call
  called-woken none word k = k
  called-woken (some clone_fn) word k = k
  called-woken (some wake_fn) word k = Waker.step-woken wakes word k
  called-woken (some drop_fn) word k = k

  called-wakes :
      (method : Option Method) (word : System)
      → Waker.Inv word
      → method ≡ some wake_fn
      → (called method word).state ≡ 1
  unfolding call
  called-wakes (some wake_fn) word v e = Waker.wakes-woken word v
  called-wakes none word v e = absurd (ground arith)
  called-wakes (some clone_fn) word v e = absurd (ground arith)
  called-wakes (some drop_fn) word v e = absurd (ground arith)

  reach_reachable :
      (l : Loop T) (thread : ℕ) (f : Frame S T)
      → f.loop ≡ l
      → Heard f
      → (reach task l
          (task.work thread f.task).1
          (record f { task = (task.work thread f.task).0 })).loop
        ≡ waiting
      → Due
          (reach task l
            (task.work thread f.task).1
            (record f { task = (task.work thread f.task).0 })).task
        ⊎ ((reach task l
              (task.work thread f.task).1
              (record f { task = (task.work thread f.task).0 })).word.state
            ≡ 1)
  unfolding reach
  reach_reachable polling thread f e h w = absurd (ground arith)
  reach_reachable (done output) thread f e h w = absurd (ground arith)
  reach_reachable waiting thread f e h w = elim (h.heard e) [
    | inr k ↦ inr (called-woken (task.work thread f.task).1 f.word k)
    | inl r ↦ elim (promises.keeps thread f.task r) [
      | inl q ↦ inr (called-wakes (task.work thread f.task).1 f.word h.inv.waker q)
      | inr r' ↦ inl r'
    ]
  ]

  unblocks_reachable :
      (a : Waker.Action) (f : Frame S T)
      → Heard f
      → f.loop ≡ waiting
      → Due f.task ⊎ ((Waker.step a f.word).state ≡ 1)
  unblocks_reachable a f h w = elim (h.heard w) [
    | inl r ↦ inl r
    | inr k ↦ inr (Waker.step-woken a f.word k)
  ]

  step_reachable :
      (a : Action) (f : Frame S T)
      → Heard f
      → (step task a f).loop ≡ waiting
      → Due (step task a f).task ⊎ ((step task a f).word.state ≡ 1)
  unfolding step
  step_reachable mine f h w = mine_reachable f.loop f refl h w
  step_reachable (others thread) f h w = reach_reachable f.loop thread f refl h w
  step_reachable alert f h w = unblocks_reachable Waker.alert f h w
  step_reachable stirs f h w = unblocks_reachable Waker.stirs f h w

  run-Heard : (acts : List Action) (f : Frame S T) → Heard f → Heard (run task acts f)
  unfolding run
  run-Heard [] f h = h
  run-Heard (a ∷ acts) f h =
      run-Heard acts (step task a f)
        (record { inv = step-Inv task a f h.inv; heard = step_reachable a f h })

  start-Heard : (s : S) → Heard (start task s)
  unfolding start
  start-Heard s = record { inv = start-Inv task s; heard = λ w. absurd (ground arith) }

  completes :
      (l : Loop T) (n : ℕ) (f : Frame S T) (output : T)
      → f.loop ≡ l
      → Heard f
      → (Due f.task → ⊥)
      → poll_out task n f.task ≡ some output
      → (run task (alert ∷ accesses_of task (suc (suc n))) (record f { loop = l })).loop
        ≡ ended task l output
  unfolding run step
  completes polling n f output e h called q =
      polls_out task n (suc (suc n)) (record f { word = Waker.step Waker.alert f.word }) output
        (omega arith) q
  completes (done o) n f output e h called q =
      stays_done task (suc (suc n)) (record f { word = Waker.step Waker.alert f.word }) o
  completes waiting n f output e h called q = elim (h.heard e) [
    | inl r ↦ absurd (called r)
    | inr k ↦ ends task n waiting f output (ground arith) h.inv.waker k q
  ]

  -- `block_on` of a task that registers its waker as a future does, with any threads at work on it and
  -- under every interleaving: no call of the waker is lost. If the task is ready, so that a poll finds it
  -- so in `n` accesses, and no call of the waker is due any more, then wherever `block_on` stands, it
  -- returns the output after the alert that may still be due and two accesses more than the poll has;
  -- unless it has returned already.
  pub completes_returns :
      (acts : List Action) (n : ℕ) (s : S) (output : T)
      → (Due (run task acts (start task s)).task → ⊥)
      → poll_out task n (run task acts (start task s)).task ≡ some output
      → (run task (alert ∷ accesses_of task (suc (suc n))) (run task acts (start task s))).loop
        ≡ ended task (run task acts (start task s)).loop output
  completes_returns acts n s output called q =
      let f = run task acts (start task s) in
      completes f.loop n f output refl (run-Heard acts (start task s) (start-Heard s)) called q
