-- ===== src/Task/BlockOn/Called.antt =====
-- src/task/block_on.rs: the calls of `block_on` on a handle and on the thread's handle, up to the loop.
use wae.Common.{ℕ, ◌≡◌, ◌⊎◌, Option, some, ◌>>=◌, [], ◌∷◌, ◌++◌, arith}
use wae.Context
use wae.Threadpool.Priority.{Priority}
use wae.Threadpool.Tasks.{Handle, ConcurrentQueue, Queues, queue_of}
use wae.Threadpool.Tasks.Laws.{AllServed, push_task-queue}
use wae.Task.Join.{spawn}
use wae.Task.BlockOn.Frame.{Task, Frame, start}

module _ {S T : Type 0} (cq : ConcurrentQueue) (task : Task S T) where
  -- `Handle::block_on` up to the loop: its `spawn` leaves the task at `s`, known as `runnable`.
  unfoldable pub enters_loop : Handle → ℕ → S → Queues cq → Option (Queues cq × Frame S T)
  unfolding spawn
  enters_loop handle runnable s qs = do qs' ← spawn cq handle runnable qs; some (qs', start task s)

  -- `block_on`, on the thread's `HANDLE`; `none` is a panic.
  unfoldable pub block_on_current :
      Option Handle → ℕ → S → Queues cq → Option (Queues cq × Frame S T)
  unfolding enters_loop Context.current
  block_on_current context runnable s qs = do
    handle ← Context.current context
    enters_loop handle runnable s qs

  -- The future of `block_on` is spawned: its task is the last one in the queue of the handle that was
  -- entered last, the other queues are as before, and the loop starts.
  pub block_on_current-queue :
      (handle : Handle) (runnable : ℕ) (s : S) (qs : Queues cq) (p : Priority)
      → AllServed cq qs
      → (qs' : Queues cq) × (block_on_current (some handle) runnable s qs
          ≡ some (qs', start task s))
        × ((queue_of cq handle.priority qs').pushed
            ≡ (queue_of cq handle.priority qs).pushed ++ (runnable, handle) ∷ [])
        × ((p ≡ handle.priority) ⊎ (queue_of cq p qs' ≡ queue_of cq p qs))
  unfolding block_on_current
  block_on_current-queue handle runnable s qs p v =
      let (qs', e, pushed, others) = push_task-queue cq handle runnable qs p v in
      (qs', ground arith, pushed, others)
