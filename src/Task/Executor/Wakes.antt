-- ===== src/Task/Executor/Wakes.antt =====
-- src/task/spawn.rs and src/threadpool.rs: the queues under the tasks of a pool, and when a task that is
-- woken is taken from them.
use wae.Common.{
  option_cases, ◌⊎◌, ℕ, ◌+◌, ◌<◌, ◌≡◌, refl, Bool, true, false, Bool-cases, inl, inr, Option, none,
  some, List, [], ◌∷◌, ◌++◌, ◌==◌, if◌then◌else◌, arith, length,
}
use wae.Threadpool.Priority.{Priority}
use wae.Threadpool.Tasks.{
  Handle, Entry, ConcurrentQueue, Queues, queue_of, set_queue, push_task, callback, pushes,
}
use wae.Threadpool.Tasks
use wae.Threadpool.Tasks.Stage.{callbacks_for, is_same}
use wae.Threadpool.Tasks.Laws.{AllServed}
use wae.Threadpool.Tasks.Starts.{push_starts}
use wae.Task.Executor.Steps.{reached-Inv}
use wae.Task.Executor.{
  idle, AsyncTask, Pool, start, schedule, scheduling, spawn_task, wake, call_back, begin_run,
  end_run, cancel, cancels, Action, spawns, wakes, calls_back, begins, ends, step, run,
}

module _ (cq : ConcurrentQueue) (at : AsyncTask) where
  -- How many callbacks a history has for the queue of a priority.
  abbrev pub calls_for : Priority → Action cq at → ℕ
  calls_for p (calls_back _ _ p') = if is_same p' p then 1 else 0
  calls_for p (spawns _ _) = 0
  calls_for p (wakes _) = 0
  calls_for p (cancels _) = 0
  calls_for p (begins _) = 0
  calls_for p (ends _ _) = 0

  abbrev pub called : Priority → List (Action cq at) → ℕ
  called p [] = 0
  called p (a ∷ acts) = calls_for p a + called p acts

  -- A step does nothing to the queues, or pushes one task.
  abbrev Pushes : Pool cq at → Pool cq at → Type 0
  Pushes s s' =
      (s'.queues ≡ s.queues)
      ⊎ ((handle : Handle) × (id : ℕ) × (push_task cq handle id s.queues ≡ some s'.queues))

  scheduling-Pushes :
      (calls : Bool) (id : ℕ) (s s' : Pool cq at)
      → scheduling cq at calls id s ≡ some s'
      → Pushes s s'
  unfolding schedule
  scheduling-Pushes false id s s' e = inl (ground arith)
  scheduling-Pushes true id s s' e = inr (s.owner id, id, ground arith)

  spawn_task-Pushes :
      (handle : Handle) (id : ℕ) (s s' : Pool cq at)
      → spawn_task cq at handle id s ≡ some s'
      → Pushes s s'
  unfolding spawn_task
  spawn_task-Pushes handle id s s' e = elim (option_cases (s.tasks id)) [
    | inl no_task ↦ inr (handle, id, ground arith)
    | inr (t, there) ↦ inl (ground arith)
  ]

  wake-Pushes : (id : ℕ) (s s' : Pool cq at) → wake cq at id s ≡ some s' → Pushes s s'
  unfolding wake
  wake-Pushes id s s' e = elim (option_cases (s.tasks id)) [
    | inl no_task ↦ inl (ground arith)
    | inr (t, there) ↦ elim (Bool-cases (at.wake t).1) [
      | inl calls ↦ inr (s.owner id, id, ground arith)
      | inr no_call ↦ inl (ground arith)
    ]
  ]

  cancel-Pushes : (id : ℕ) (s s' : Pool cq at) → cancel cq at id s ≡ some s' → Pushes s s'
  unfolding cancel
  cancel-Pushes id s s' e = elim (option_cases (s.tasks id)) [
    | inl no_task ↦ inl (ground arith)
    | inr (t, there) ↦ elim (Bool-cases (at.cancel t).1) [
      | inl calls ↦ inr (s.owner id, id, ground arith)
      | inr no_call ↦ inl (ground arith)
    ]
  ]

  end_run-Pushes :
      (ready : Bool) (id : ℕ) (s s' : Pool cq at) → end_run cq at ready id s ≡ some s' → Pushes s s'
  unfolding end_run
  end_run-Pushes ready id s s' e = elim (option_cases (s.tasks id)) [
    | inl no_task ↦ inl (ground arith)
    | inr (t, there) ↦ elim (Bool-cases (at.end ready t).1) [
      | inl calls ↦ elim (Bool-cases (s.running id == 0)) [
        | inl none_runs ↦ inl (ground arith)
        | inr runs ↦ inr (s.owner id, id, ground arith)
      ]
      | inr no_call ↦ inl (ground arith)
    ]
  ]

  call_back-step :
      (i : ℕ) (context : Option Handle) (p : Priority) (s s' : Pool cq at)
      → call_back cq at i context p s ≡ some s'
      → Tasks.step cq (Tasks.calls_back i context p) s.queues ≡ some s'.queues
  unfolding call_back Tasks.step
  call_back-step i context p s s' e = ground arith

  begin_run-queues :
      (id : ℕ) (s s' : Pool cq at) → begin_run cq at id s ≡ some s' → s'.queues ≡ s.queues
  unfolding begin_run
  begin_run-queues id s s' e = ground arith

  -- The queues of a pool with tasks go through a history of `Threadpool.Tasks` with the same callbacks.
  abbrev Follows : List (Action cq at) → Pool cq at → Pool cq at → Type 0
  Follows acts s s' =
      (l : List (Tasks.Action cq)) × (Tasks.run cq l s.queues ≡ some s'.queues)
      × ((p : Priority) → callbacks_for cq p l ≡ called p acts)

  pushed-Follows :
      (a : Action cq at) (acts : List (Action cq at)) (s s1 s' : Pool cq at)
      → ((p : Priority) → calls_for p a ≡ 0)
      → Pushes s s1
      → Follows acts s1 s'
      → Follows (a ∷ acts) s s'
  unfolding Tasks.run
  pushed-Follows a acts s s1 s' none_called (inl same) (l, e, n) =
      (l, rw same at e, λ p. omega (arith, n p, none_called p))
  pushed-Follows a acts s s1 s' none_called (inr (handle, id, f)) (l, e, n) =
      (pushes handle id ∷ l, ground arith, λ p. omega (arith, n p, none_called p))

  step-Follows :
      (a : Action cq at) (acts : List (Action cq at)) (s s1 s' : Pool cq at)
      → step cq at a s ≡ some s1
      → Follows acts s1 s'
      → Follows (a ∷ acts) s s'
  unfolding step Tasks.run
  step-Follows (spawns handle id) acts s s1 s' e f =
      pushed-Follows (spawns handle id) acts s s1 s' (λ p. refl)
        (spawn_task-Pushes handle id s s1 e) f
  step-Follows (wakes id) acts s s1 s' e f =
      pushed-Follows (wakes id) acts s s1 s' (λ p. refl) (wake-Pushes id s s1 e) f
  step-Follows (cancels id) acts s s1 s' e f =
      pushed-Follows (cancels id) acts s s1 s' (λ p. refl) (cancel-Pushes id s s1 e) f
  step-Follows (calls_back i context p) acts s s1 s' e (l, g, n) =
      let first = call_back-step i context p s s1 e in
      (Tasks.calls_back i context p ∷ l, ground arith, λ q. ground (arith, n q))
  step-Follows (begins id) acts s s1 s' e f =
      pushed-Follows (begins id) acts s s1 s' (λ p. refl) (inl (begin_run-queues id s s1 e)) f
  step-Follows (ends ready id) acts s s1 s' e f =
      pushed-Follows (ends ready id) acts s s1 s' (λ p. refl) (end_run-Pushes ready id s s1 e) f

  pub run-Follows :
      (acts : List (Action cq at)) (s s' : Pool cq at)
      → run cq at acts s ≡ some s'
      → Follows acts s s'
  unfolding run Tasks.run
  run-Follows [] s s' e = ([], ground arith, λ p. refl)
  run-Follows (a ∷ acts) s s' e = go (step cq at a s) refl (λ s1. run-Follows acts s1 s')
    where
      go :
          (o : Option (Pool cq at))
          → step cq at a s ≡ o
          → ((s1 : Pool cq at) → run cq at acts s1 ≡ some s' → Follows acts s1 s')
          → Follows (a ∷ acts) s s'
      go none f ih = absurd (ground arith)
      go (some s1) f ih = step-Follows a acts s s1 s' f (ih s1 (ground arith))

  wake-pushes :
      (id : ℕ) (s s1 : Pool cq at) (t : at.State)
      → s.tasks id ≡ some t
      → at.phase t ≡ idle
      → wake cq at id s ≡ some s1
      → push_task cq (s.owner id) id s.queues ≡ some s1.queues
  unfolding wake
  wake-pushes id s s1 t there rests e =
      let law = at.phase-wake t in let calls : (at.wake t).1 ≡ true = ground arith in ground arith

  -- A wake of an idle task is answered: the task is taken from its queue, as the next after those that had
  -- been pushed there before, once the queue has had more callbacks than runnables waited in it,
  -- whatever the pool does in between.
  pub woken_starts :
      (acts later : List (Action cq at)) (handle : Handle) (s s2 : Pool cq at) (id : ℕ)
      (t : at.State)
      → run cq at acts (start cq at handle) ≡ some s
      → s.tasks id ≡ some t
      → at.phase t ≡ idle
      → run cq at (wakes id ∷ later) s ≡ some s2
      → length (cq.contents (queue_of cq (s.owner id).priority s.queues).queue)
        < called (s.owner id).priority later
      → (before after : List Entry) × ((queue_of cq (s.owner id).priority s2.queues).started
          ≡ before ++ (id, s.owner id) ∷ after)
        × (length before ≡ length (queue_of cq (s.owner id).priority s.queues).pushed)
  unfolding run
  woken_starts acts later handle s s2 id t reached there rests e enough =
      let (s', e', v) = reached-Inv cq at acts handle in
      let same : s' ≡ s = ground arith in
      let served : AllServed cq s.queues = (rw same at v).served in go (wake cq at id s) refl served
    where
      go :
          (o : Option (Pool cq at))
          → wake cq at id s ≡ o
          → AllServed cq s.queues
          → (before after : List Entry) × ((queue_of cq (s.owner id).priority s2.queues).started
              ≡ before ++ (id, s.owner id) ∷ after)
            × (length before ≡ length (queue_of cq (s.owner id).priority s.queues).pushed)
      go none f served = absurd (ground arith)
      go (some s1) f served =
          let push = wake-pushes id s s1 t there rests f in
          let (l, g, n) = run-Follows later s1 s2 (ground arith) in
          let (qs1, qs2, before, after, f', g', h, k) =
            push_starts cq l (s.owner id) id s.queues served
              (omega (arith, n (s.owner id).priority)) in
          let same1 : qs1 ≡ s1.queues = ground arith in
          let same2 : qs2 ≡ s2.queues = ground arith in (before, after, rw same2 at h, k)
