-- ===== src/Threadpool/Tasks.antt =====
-- src/threadpool.rs and src/task/spawn.rs: the three task queues, `push_task`, and the callback that
-- the thread pool runs once for every submission of a queue's work.
pub mod Laws
pub mod Bag
pub mod Stage
pub mod Starts
use wae.Common.{
  ℕ, suc, ◌-◌, ◌+◌, ◌≡◌, ◌⊎◌, Bool, true, false, Option, none, some, List, [], ◌∷◌, ◌++◌, ◌==◌,
  if◌then◌else◌,
}
use wae.Context
use wae.Threadpool.Priority.{Priority, high, normal, low}

-- `Handle`, without the state that all handles of a pool share.
pub record Handle : Type 0 where
  pub priority : Priority
  pub callback_instance : Option ℕ

-- A `Runnable` is known by a number.
abbrev pub Entry : Type 0
Entry = ℕ × Handle

-- The unbounded `ConcurrentQueue` of the crate concurrent-queue: first in, first out, never full.
pub record ConcurrentQueue : Type 1 where
  pub Queue : Type 0
  pub unbounded : Queue
  pub push : Entry → Queue → Option Queue
  pub pop : Queue → Option (Entry × Queue)
  pub contents : Queue → List Entry
  pub contents-unbounded : contents unbounded ≡ []
  pub contents-push :
      (x : Entry) (q : Queue)
      → (q' : Queue) × (push x q ≡ some q') × (contents q' ≡ contents q ++ x ∷ [])
  pub contents-pop :
      (q : Queue)
      → ((contents q ≡ []) × (pop q ≡ none))
        ⊎ ((x : Entry) × (q' : Queue) × (contents q ≡ x ∷ contents q') × (pop q ≡ some (x, q')))

module _ (cq : ConcurrentQueue) where
  -- `TaskQueue`: the queue, and how many submissions of its work have not been served. The lists are
  -- the history that the properties speak of: what was pushed and what was started, oldest first.
  pub record TaskQueue : Type 0 where
    pub queue : cq.Queue
    pub submitted : ℕ
    pub pushed : List Entry
    pub started : List Entry

  -- The queues of `HandleInner`.
  pub record Queues : Type 0 where
    pub high_queue : TaskQueue
    pub normal_queue : TaskQueue
    pub low_queue : TaskQueue

  unfoldable pub new_queue : TaskQueue
  new_queue = record { queue = cq.unbounded; submitted = 0; pushed = []; started = [] }

  unfoldable pub new_queues : Queues
  unfolding new_queue
  new_queues = record { high_queue = new_queue; normal_queue = new_queue; low_queue = new_queue }

  abbrev pub queue_of : Priority → Queues → TaskQueue
  queue_of high qs = qs.high_queue
  queue_of normal qs = qs.normal_queue
  queue_of low qs = qs.low_queue

  abbrev pub set_queue : Priority → TaskQueue → Queues → Queues
  set_queue high q qs = record qs { high_queue = q }
  set_queue normal q qs = record qs { normal_queue = q }
  set_queue low q qs = record qs { low_queue = q }

  -- `queue.queue.push(…).unwrap()` and `SubmitThreadpoolWork(queue.work)`; `none` is a panic.
  unfoldable pub submit : Entry → TaskQueue → Option TaskQueue
  submit x q = elim (cq.push x q.queue) [
    | none ↦ none
    | some queue ↦
        some (record q { queue = queue; submitted = suc q.submitted; pushed = q.pushed ++ x ∷ [] })
  ]

  -- `push_task`
  unfoldable pub push_task : Handle → ℕ → Queues → Option Queues
  unfolding submit
  push_task handle runnable qs = elim (submit (runnable, handle) (queue_of handle.priority qs)) [
    | none ↦ none
    | some q ↦ some (set_queue handle.priority q qs)
  ]

  -- `queue.pop().unwrap()` in the callback; `none` is a panic.
  unfoldable pub serve : TaskQueue → Option (Entry × TaskQueue)
  serve q = elim (cq.pop q.queue) [
    | none ↦ none
    | some (x, queue) ↦
        some (
          x,
          record q { queue = queue; submitted = q.submitted - 1; started = q.started ++ x ∷ [] },
        )
  ]

  -- What a callback did: the task that it ran, the thread's handle while the task ran, and afterwards.
  pub record Ran : Type 0 where
    pub runnable : ℕ
    pub during : Option Handle
    pub after : Option Handle

  -- The rest of `callback`, once it has an entry: the handle learns the callback's instance and is
  -- entered, and the guard is dropped after the task, which may panic.
  unfoldable pub run_task : ℕ → Option Handle → Entry → Ran
  unfolding Context.enter Context.leave Context.try_current
  run_task instance_ context (runnable, handle) =
      let handle' = record handle { callback_instance = some instance_ } in
      let (inside, guard) = Context.enter handle' context in
      record {
        runnable = runnable;
        during = Context.try_current inside;
        after = Context.leave guard inside;
      }

  -- `callback`, for the work of one of the queues.
  unfoldable pub callback : ℕ → Option Handle → Priority → Queues → Option (Ran × Queues)
  unfolding serve run_task
  callback instance_ context p qs = elim (serve (queue_of p qs)) [
    | none ↦ none
    | some (x, q) ↦ some (run_task instance_ context x, set_queue p q qs)
  ]

  -- What happens to a pool: a task is pushed through a handle, or a thread calls back for a queue,
  -- which it does only if a submission is left.
  pub data Action : Type 0 where
    pushes : Handle → ℕ → Action
    calls_back : ℕ → Option Handle → Priority → Action

  -- `none` is a panic.
  unfoldable pub step : Action → Queues → Option Queues
  unfolding push_task callback
  step (pushes handle runnable) qs = push_task handle runnable qs
  step (calls_back instance_ context p) qs =
      let served : Option Queues = elim (callback instance_ context p qs) [
        | none ↦ none
        | some (ran, qs') ↦ some qs'
      ] in
      if (queue_of p qs).submitted == 0 then some qs else served

  unfoldable pub run : List Action → Queues → Option Queues
  unfolding step
  run [] qs = some qs
  run (a ∷ acts) qs = elim (step a qs) [ none ↦ none | some qs' ↦ run acts qs' ]
