-- ===== src/Task/Executor.antt =====
-- src/task/spawn.rs and src/threadpool.rs: tasks, the queues of a pool and the callbacks that run them,
-- put together. The crate async_task is an interface.
pub mod Counts
pub mod Views
pub mod Invariant
pub mod Steps
pub mod Laws
pub mod Wakes
pub mod Reader
pub mod Quiet
pub mod Hang
use wae.Common.{
  ℕ, suc, ◌+◌, ◌-◌, ◌≡◌, Bool, true, false, Option, none, some, List, [], ◌∷◌, ◌==◌, if◌then◌else◌,
  refl,
}
use wae.Threadpool.Priority.{Priority}
use wae.Threadpool.Tasks.{
  Handle, ConcurrentQueue, Queues, Ran, new_queues, queue_of, push_task, callback,
}
use wae.Task.Join.{spawn}

-- Where a task stands: nobody has a `Runnable` of it; there is one, and the task was cancelled or not; it
-- is being polled, and has been woken since or not, and cancelled or not; its future is gone.
pub data Phase : Type 0 where
  idle completed : Phase
  scheduled : Bool → Phase
  running : Bool → Bool → Phase

-- What a wake does, and whether it calls the closure `schedule`.
abbrev pub after_wake : Phase → Phase × Bool
after_wake idle = (scheduled false, true)
after_wake (running woken false) = (running true false, false)
after_wake phase = (phase, false)

-- What a cancellation does; a `Runnable` is needed once more to drop the future.
abbrev pub after_cancel : Phase → Phase × Bool
after_cancel idle = (scheduled true, true)
after_cancel (scheduled _) = (scheduled true, false)
after_cancel (running woken _) = (running woken true, false)
after_cancel completed = (completed, false)

-- What `Runnable::run` begins with, and whether it polls.
abbrev pub after_begin : Bool → Phase × Bool
after_begin true = (completed, false)
after_begin false = (running false false, true)

-- What the end of a poll does; `ready` tells whether the future has returned or panicked.
abbrev pub after_poll : Bool → Bool → Bool → Phase × Bool
after_poll true woken cancelled = (completed, false)
after_poll false woken true = (completed, false)
after_poll false true false = (scheduled false, true)
after_poll false false false = (idle, false)

-- `async_task`, by the phases of its tasks.
pub record AsyncTask : Type 1 where
  pub State : Type 0
  pub new : State  -- after `async_task::spawn`, which gives the `Runnable`
  pub wake : State → State × Bool  -- a call of a waker; whether it calls `schedule`
  pub cancel : State → State × Bool  -- `Task::cancel`; the same
  pub begin : State → State × Bool  -- `Runnable::run` up to the poll; whether there is one
  pub end : Bool → State → State × Bool  -- its rest, which may call `schedule`
  pub phase : State → Phase
  pub phase-new : phase new ≡ scheduled false
  pub phase-wake :
      (t : State) → ◌≡◌ {A = Phase × Bool} (phase (wake t).0, (wake t).1) (after_wake (phase t))
  pub phase-cancel :
      (t : State)
      → ◌≡◌ {A = Phase × Bool} (phase (cancel t).0, (cancel t).1) (after_cancel (phase t))
  pub phase-begin :
      (cancelled : Bool) (t : State)
      → phase t ≡ scheduled cancelled
      → ◌≡◌ {A = Phase × Bool} (phase (begin t).0, (begin t).1) (after_begin cancelled)
  pub phase-end :
      (ready woken cancelled : Bool) (t : State)
      → phase t ≡ running woken cancelled
      → ◌≡◌ {A = Phase × Bool}
          (phase (end ready t).0, (end ready t).1)
          (after_poll ready woken cancelled)

-- The phases themselves meet the interface.
abbrev pub phases : AsyncTask
phases = record {
  State = Phase;
  new = scheduled false;
  wake = after_wake;
  cancel = after_cancel;
  begin = begun;
  end = ended;
  phase = λ t. t;
  phase-new = refl;
  phase-wake = λ t. refl;
  phase-cancel = λ t. refl;
  phase-begin = begun_lem;
  phase-end = ended_lem;
}
  where
    begun : Phase → Phase × Bool
    begun (scheduled cancelled) = after_begin cancelled
    begun t = (t, false)

    begun_lem :
        (cancelled : Bool) (t : Phase) → t ≡ scheduled cancelled → begun t ≡ after_begin cancelled
    begun_lem cancelled t e = rw e refl

    ended : Bool → Phase → Phase × Bool
    ended ready (running woken cancelled) = after_poll ready woken cancelled
    ended ready t = (t, false)

    ended_lem :
        (ready woken cancelled : Bool) (t : Phase)
        → t ≡ running woken cancelled
        → ended ready t ≡ after_poll ready woken cancelled
    ended_lem ready woken cancelled t e = rw e refl

abbrev pub put {ℓ} : {A : Type ℓ} → ℕ → A → (ℕ → A) → ℕ → A
put id v f j = if j == id then v else f j

module _ (cq : ConcurrentQueue) (at : AsyncTask) where
  -- A pool and its tasks. `owner` has the handle that the closure `schedule` of a task has captured;
  -- `held` and `running` count the callbacks that have popped a `Runnable` of the task and not yet run
  -- it, and those that poll it. The rest is history: how often it was polled and woken, whether it was
  -- woken after its last poll began, whether it was cancelled, and how often it was polled after that.
  pub record Pool : Type 0 where
    pub queues : Queues cq
    pub tasks : ℕ → Option at.State
    pub owner : ℕ → Handle
    pub held : ℕ → ℕ
    pub running : ℕ → ℕ
    pub polls : ℕ → ℕ
    pub wakes : ℕ → ℕ
    pub owed : ℕ → Bool
    pub cancelled : ℕ → Bool
    pub late : ℕ → ℕ

  unfoldable pub start : Handle → Pool
  unfolding new_queues
  start handle = record {
    queues = new_queues cq;
    tasks = λ id. none;
    owner = λ id. handle;
    held = λ id. 0;
    running = λ id. 0;
    polls = λ id. 0;
    wakes = λ id. 0;
    owed = λ id. false;
    cancelled = λ id. false;
    late = λ id. 0;
  }

  -- The closure `schedule` of `spawn`; `none` is a panic.
  unfoldable pub schedule : ℕ → Pool → Option Pool
  unfolding push_task
  schedule id s = elim (push_task cq (s.owner id) id s.queues) [
    | none ↦ none
    | some qs ↦ some (record s { queues = qs })
  ]

  -- After a call of async_task: whether it has called `schedule`.
  abbrev pub scheduling : Bool → ℕ → Pool → Option Pool
  scheduling calls id s = if calls then schedule id s else some s

  -- `spawn` of a task with a new number.
  unfoldable pub spawn_task : Handle → ℕ → Pool → Option Pool
  unfolding spawn
  spawn_task handle id s = elim (s.tasks id) [
    | some _ ↦ some s
    | none ↦ elim (spawn cq handle id s.queues) [
      | none ↦ none
      | some qs ↦ some (record s {
        queues = qs;
        tasks = put id (some at.new) s.tasks;
        owner = put id handle s.owner;
      })
    ]
  ]

  unfoldable pub wake : ℕ → Pool → Option Pool
  unfolding schedule
  wake id s = elim (s.tasks id) [
    | none ↦ some s
    | some t ↦
        let (t', calls) = at.wake t in
        scheduling calls id (record s {
          tasks = put id (some t') s.tasks;
          wakes = put id (suc (s.wakes id)) s.wakes;
          owed = put id true s.owed;
        })
  ]

  -- `callback` up to `runnable.run()`. The pool calls back once for each submission.
  unfoldable pub call_back : ℕ → Option Handle → Priority → Pool → Option Pool
  unfolding callback
  call_back instance_ context p s =
      let popped : Option Pool = elim (callback cq instance_ context p s.queues) [
        | none ↦ none
        | some (ran, qs) ↦
            some
              (record s { queues = qs; held = put ran.runnable (suc (s.held ran.runnable)) s.held })
      ] in
      if (queue_of cq p s.queues).submitted == 0 then some s else popped

  -- The first poll of the future of `JoinHandle::cancel`, as far as the task is concerned.
  unfoldable pub cancel : ℕ → Pool → Option Pool
  unfolding schedule
  cancel id s = elim (s.tasks id) [
    | none ↦ some s
    | some t ↦
        let (t', calls) = at.cancel t in
        scheduling calls id
          (record s { tasks = put id (some t') s.tasks; cancelled = put id true s.cancelled })
  ]

  -- A callback that has popped a `Runnable` of the task runs it, up to the poll if there is one.
  unfoldable pub begin_run : ℕ → Pool → Option Pool
  begin_run id s =
      let begun : Option Pool = elim (s.tasks id) [
        | none ↦ some s
        | some t ↦
            let (t', polls) = at.begin t in
            let released : Pool = record s {
              tasks = put id (some t') s.tasks;
              held = put id (s.held id - 1) s.held;
            } in
            some (
              if polls
              then record released {
                running = put id (suc (s.running id)) s.running;
                polls = put id (suc (s.polls id)) s.polls;
                owed = put id false s.owed;
                late = put id (if s.cancelled id then suc (s.late id) else s.late id) s.late;
              }
              else released)
      ] in
      if s.held id == 0 then some s else begun

  -- `runnable.run()` ends, and with it the callback; `ready` tells whether the future is.
  unfoldable pub end_run : Bool → ℕ → Pool → Option Pool
  unfolding schedule
  end_run ready id s =
      let ended : Option Pool = elim (s.tasks id) [
        | none ↦ some s
        | some t ↦
            let (t', calls) = at.end ready t in
            scheduling calls id (record s {
              tasks = put id (some t') s.tasks;
              running = put id (s.running id - 1) s.running;
            })
      ] in
      if s.running id == 0 then some s else ended

  pub data Action : Type 0 where
    spawns : Handle → ℕ → Action
    wakes : ℕ → Action
    cancels : ℕ → Action
    calls_back : ℕ → Option Handle → Priority → Action
    begins : ℕ → Action
    ends : Bool → ℕ → Action

  unfoldable pub step : Action → Pool → Option Pool
  unfolding spawn_task wake cancel call_back begin_run end_run
  step (spawns handle id) s = spawn_task handle id s
  step (wakes id) s = wake id s
  step (cancels id) s = cancel id s
  step (calls_back instance_ context p) s = call_back instance_ context p s
  step (begins id) s = begin_run id s
  step (ends ready id) s = end_run ready id s

  -- `none` is a panic.
  unfoldable pub run : List Action → Pool → Option Pool
  unfolding step
  run [] s = some s
  run (a ∷ acts) s = elim (step a s) [ none ↦ none | some s' ↦ run acts s' ]
