-- ===== src/Threadpool/Handle.antt =====
-- src/threadpool.rs: the limits of a running pool, and the priority of a handle.
use wae.Common.{
  ℕ, ◌≡◌, refl, Option, none, some, List, [], ◌∷◌, ◌++◌, ◌==◌, if◌then◌else◌, ok, err, IoResult, os,
  as_i32,
}
use wae.Threadpool.Priority.{Priority, Codes, as_u32}
use wae.Threadpool.Builder.{Call, set_maximum, set_minimum}
use wae.Threadpool.Tasks.{Handle, Queues, ConcurrentQueue, queue_of, push_task}
use wae.Threadpool.Tasks.Laws.{AllServed, push_task-queue}

-- The fields of the pool's environment that callbacks are made with.
pub record CallbackEnviron : Type 0 where
  pub pool : ℕ
  pub cleanup_group : ℕ
  pub callback_priority : ℕ

-- `Handle::set_max_threads`
unfoldable pub set_max_threads : ℕ → CallbackEnviron → List Call
set_max_threads maximum environ = set_maximum environ.pool maximum ∷ []

-- `Handle::try_set_min_threads`; `ret` is what `SetThreadpoolThreadMinimum` returned.
unfoldable pub try_set_min_threads : ℕ → ℕ → ℕ → CallbackEnviron → List Call × IoResult (Unit {0})
try_set_min_threads minimum ret last_error environ = (
  set_minimum environ.pool minimum ∷ [],
  if ret == 1 then ok tt else err (os (as_i32 last_error)),
)

-- `Handle::set_min_threads`: `none` is a panic.
unfoldable pub set_min_threads : ℕ → ℕ → ℕ → CallbackEnviron → Option (List Call)
unfolding try_set_min_threads
set_min_threads minimum ret last_error environ =
    let (calls, r) = try_set_min_threads minimum ret last_error environ in
    elim r [ ok _ ↦ some calls | err _ ↦ none ]

-- `Handle::priority`
unfoldable pub priority : Handle → Priority
priority handle = handle.priority

-- `Handle::set_priority`
unfoldable pub set_priority : Priority → Handle → Handle
set_priority p handle = record handle { priority = p }

-- `Handle::callback_environ`
unfoldable pub callback_environ : Codes → Handle → CallbackEnviron → CallbackEnviron
unfolding as_u32
callback_environ codes handle environ = record environ {
  callback_priority = as_u32 codes handle.priority;
}

-- After `set_priority` a task is pushed on the queue of the new priority, with the handle that has it,
-- and the callbacks that are made with the handle have the code of that priority.
pub push_task-set_priority :
    (cq : ConcurrentQueue) (codes : Codes) (p : Priority) (handle : Handle)
    (environ : CallbackEnviron) (runnable : ℕ) (qs : Queues cq)
    → AllServed cq qs
    → (qs' : Queues cq) × (push_task cq (set_priority p handle) runnable qs ≡ some qs')
      × ((queue_of cq p qs').pushed
          ≡ (queue_of cq p qs).pushed ++ (runnable, set_priority p handle) ∷ [])
      × ((callback_environ codes (set_priority p handle) environ).callback_priority
          ≡ as_u32 codes p)
unfolding set_priority callback_environ
push_task-set_priority cq codes p handle environ runnable qs v =
    let (qs', e, pushed, _) = push_task-queue cq (set_priority p handle) runnable qs p v in
    (qs', e, pushed, refl)
