-- ===== src/Task/Executor/Quiet.antt =====
-- src/task/spawn.rs: what the steps of a pool leave alone of an idle task.
use wae.Common.{
  ℕ, suc, ◌-◌, ◌≡◌, ◌∙◌, refl, Bool, true, false, Bool-cases, inl, inr, Option, some, ◌==◌, arith,
  option_cases,
}
use wae.Threadpool.Priority.{Priority}
use wae.Threadpool.Tasks.{Handle, ConcurrentQueue, queue_of}
use wae.Threadpool.Tasks.Laws.{AllServed}
use wae.Task.Executor.{
  idle, AsyncTask, Pool, put, schedule, scheduling, spawn_task, wake, cancel, call_back, begin_run,
  end_run, Action, spawns, wakes, cancels, calls_back, begins, ends, step,
}
use wae.Task.Executor.Counts.{push_task-queued, callback-queued}
use wae.Task.Executor.Views.{View}
use wae.Task.Executor.Invariant.{view}

-- The task is idle, and there is no `Runnable` of it and no callback that polls it.
abbrev pub Rests : View → Type 0
Rests v = (v.status ≡ some idle) × (v.queued ≡ 0) × (v.held ≡ 0) × (v.running ≡ 0)

module _ (cq : ConcurrentQueue) (at : AsyncTask) (j : ℕ) where
  -- A call of `schedule` for another task.
  scheduling-view :
      (calls : Bool) (id : ℕ) (s s' : Pool cq at)
      → AllServed cq s.queues
      → (j == id) ≡ false
      → scheduling cq at calls id s ≡ some s'
      → view cq at j s' ≡ view cq at j s
  unfolding schedule
  scheduling-view false id s s' v other e = let same : s' ≡ s = ground arith in rw same refl
  scheduling-view true id s s' v other e =
      let (qs, f, _, n) = push_task-queued cq (s.owner id) id s.queues v in
      let same : s' ≡ record s { queues = qs } = ground arith in rw same (ground (arith, n j))

  spawn_task-view :
      (handle : Handle) (id : ℕ) (s s' : Pool cq at)
      → AllServed cq s.queues
      → Rests (view cq at j s)
      → spawn_task cq at handle id s ≡ some s'
      → view cq at j s' ≡ view cq at j s
  unfolding spawn_task
  spawn_task-view handle id s s' v rests e = elim (option_cases (s.tasks id)) [
    | inr (t, there) ↦ let same : s' ≡ s = ground arith in rw same refl
    | inl new_task ↦
        let (qs, f, _, n) = push_task-queued cq handle id s.queues v in
        let other : (j == id) ≡ false = ground arith in
        let same : s' ≡ record s {
          queues = qs;
          tasks = put id (some at.new) s.tasks;
          owner = put id handle s.owner;
        } =
          ground arith in
        rw same (ground (arith, n j))
  ]

  wake-view :
      (id : ℕ) (s s' : Pool cq at)
      → AllServed cq s.queues
      → (j == id) ≡ false
      → wake cq at id s ≡ some s'
      → view cq at j s' ≡ view cq at j s
  unfolding wake
  wake-view id s s' v other e = elim (option_cases (s.tasks id)) [
    | inl no_task ↦ let same : s' ≡ s = ground arith in rw same refl
    | inr (t, there) ↦
        let (t', calls) = at.wake t in
        let s1 : Pool cq at = record s {
          tasks = put id (some t') s.tasks;
          wakes = put id (suc (s.wakes id)) s.wakes;
          owed = put id true s.owed;
        } in
        scheduling-view calls id s1 s' v other (ground arith) ∙ ground arith
  ]

  cancel-view :
      (id : ℕ) (s s' : Pool cq at)
      → AllServed cq s.queues
      → (j == id) ≡ false
      → cancel cq at id s ≡ some s'
      → view cq at j s' ≡ view cq at j s
  unfolding cancel
  cancel-view id s s' v other e = elim (option_cases (s.tasks id)) [
    | inl no_task ↦ let same : s' ≡ s = ground arith in rw same refl
    | inr (t, there) ↦
        let (t', calls) = at.cancel t in
        let s1 : Pool cq at = record s {
          tasks = put id (some t') s.tasks;
          cancelled = put id true s.cancelled;
        } in
        scheduling-view calls id s1 s' v other (ground arith) ∙ ground arith
  ]

  call_back-view :
      (i : ℕ) (context : Option Handle) (p : Priority) (s s' : Pool cq at)
      → AllServed cq s.queues
      → Rests (view cq at j s)
      → call_back cq at i context p s ≡ some s'
      → view cq at j s' ≡ view cq at j s
  unfolding call_back
  call_back-view i context p s s' v rests e =
      elim (Bool-cases ((queue_of cq p s.queues).submitted == 0)) [
        | inl none_left ↦ let same : s' ≡ s = ground arith in rw same refl
        | inr some_left ↦
            let (ran, qs, f, _, n) = callback-queued cq i context p s.queues v some_left in
            let id = ran.runnable in
            let other : (j == id) ≡ false = ground (arith, n j) in
            let same : s' ≡ record s { queues = qs; held = put id (suc (s.held id)) s.held } =
              ground arith in
            rw same (ground (arith, n j))
      ]

  begin_run-view :
      (id : ℕ) (s s' : Pool cq at)
      → Rests (view cq at j s)
      → begin_run cq at id s ≡ some s'
      → view cq at j s' ≡ view cq at j s
  unfolding begin_run
  begin_run-view id s s' rests e = elim (Bool-cases (j == id)) [
    | inl this ↦ let k : j ≡ id = ground arith in let same : s' ≡ s = ground arith in rw same refl
    | inr other ↦ ground arith
  ]

  end_run-view :
      (ready : Bool) (id : ℕ) (s s' : Pool cq at)
      → AllServed cq s.queues
      → Rests (view cq at j s)
      → end_run cq at ready id s ≡ some s'
      → view cq at j s' ≡ view cq at j s
  unfolding end_run
  end_run-view ready id s s' v rests e = elim (Bool-cases (j == id)) [
    | inl this ↦ let k : j ≡ id = ground arith in let same : s' ≡ s = ground arith in rw same refl
    | inr other ↦ elim (option_cases (s.tasks id)) [
      | inl no_task ↦ let same : s' ≡ s = ground arith in rw same refl
      | inr (t, there) ↦ elim (Bool-cases (s.running id == 0)) [
        | inl none_runs ↦ let same : s' ≡ s = ground arith in rw same refl
        | inr runs ↦
            let (t', calls) = at.end ready t in
            let s1 : Pool cq at = record s {
              tasks = put id (some t') s.tasks;
              running = put id (s.running id - 1) s.running;
            } in
            scheduling-view calls id s1 s' v other (ground arith) ∙ ground arith
      ]
    ]
  ]

  -- The action does not wake or cancel the task.
  abbrev pub Spares : Action cq at → Type 0
  Spares (wakes id) = (j == id) ≡ false
  Spares (cancels id) = (j == id) ≡ false
  Spares (spawns _ _) = Unit
  Spares (calls_back _ _ _) = Unit
  Spares (begins _) = Unit
  Spares (ends _ _) = Unit

  -- An idle task that is not woken stays as it is, whatever the pool does.
  pub step-view :
      (a : Action cq at) (s s' : Pool cq at)
      → AllServed cq s.queues
      → Rests (view cq at j s)
      → Spares a
      → step cq at a s ≡ some s'
      → view cq at j s' ≡ view cq at j s
  unfolding step
  step-view (spawns handle id) s s' v rests spares e = spawn_task-view handle id s s' v rests e
  step-view (wakes id) s s' v rests spares e = wake-view id s s' v spares e
  step-view (cancels id) s s' v rests spares e = cancel-view id s s' v spares e
  step-view (calls_back i context p) s s' v rests spares e =
      call_back-view i context p s s' v rests e
  step-view (begins id) s s' v rests spares e = begin_run-view id s s' rests e
  step-view (ends ready id) s s' v rests spares e = end_run-view ready id s s' v rests e
