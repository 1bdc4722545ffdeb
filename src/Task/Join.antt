-- ===== src/Task/Join.antt =====
-- src/task/spawn.rs: `spawn` as far as it uses the pool, and `JoinHandle`, by what it does with its
-- `ManuallyDrop<Task>`. A task may be taken out of it once; a second take is undefined behaviour.
use wae.Common.{
  ℕ, ◌≡◌, refl, Bool, true, false, Option, some, ◌>>=◌, List, [], ◌∷◌, ◌++◌, if◌then◌else◌,
  count_if, arith, Poll, ready, pending,
}
use wae.Context
use wae.Threadpool.Tasks.{Entry, run_task, Handle, ConcurrentQueue, Queues, push_task}

-- `Handle::spawn`: `async_task::spawn` makes the runnable, and `runnable.schedule()` is a call of the
-- closure, which pushes it. Each later wake of the task calls the closure again.
unfoldable pub spawn : (cq : ConcurrentQueue) → Handle → ℕ → Queues cq → Option (Queues cq)
spawn cq handle runnable qs = push_task cq handle runnable qs

-- `spawn`, on the thread's `HANDLE`; `none` is a panic.
unfoldable pub spawn_current :
    (cq : ConcurrentQueue) → Option Handle → ℕ → Queues cq → Option (Queues cq)
unfolding spawn Context.current
spawn_current cq context runnable qs = do
  handle ← Context.current context
  spawn cq handle runnable qs

-- A task spawned by a task that a callback runs goes to the queue of that task's handle.
pub spawn_current-run_task :
    (cq : ConcurrentQueue) (i runnable : ℕ) (context : Option Handle) (parent : Entry)
    (qs : Queues cq)
    → spawn_current cq (run_task cq i context parent).during runnable qs
      ≡ push_task cq (record parent.1 { callback_instance = some i }) runnable qs
unfolding spawn_current run_task
spawn_current-run_task cq i runnable context parent qs = refl

-- What happens to the task of a handle.
pub data Use : Type 0 where
  takes polls cancels detaches awaits : Use

-- `JoinHandle::poll`: `task.poll(cx)` through the reference.
unfoldable pub poll : {T : Type 0} → Poll T → List Use × Poll T
poll answer = (polls ∷ [], answer)

-- `Drop::drop` of `JoinHandle`
unfoldable pub drop : List Use
drop = takes ∷ detaches ∷ []

-- Where the future of the async function `JoinHandle::cancel` stands.
pub data Cancel : Type 0 where
  unstarted : Cancel
  awaiting : Cancel
  finished : Cancel

-- A poll of that future; `answer` is what the future of `Task::cancel` returns. A poll after it was ready
-- panics, and does nothing to the task.
unfoldable pub poll_cancel : {T : Type 0} → Poll T → Cancel → List Use × Cancel × Poll T
poll_cancel (ready output) unstarted = (takes ∷ cancels ∷ awaits ∷ [], finished, ready output)
poll_cancel pending unstarted = (takes ∷ cancels ∷ awaits ∷ [], awaiting, pending)
poll_cancel (ready output) awaiting = (awaits ∷ [], finished, ready output)
poll_cancel pending awaiting = (awaits ∷ [], awaiting, pending)
poll_cancel answer finished = ([], finished, pending)

-- The drop of that future: until `mem::forget(this)` it drops the handle.
unfoldable pub drop_cancel : Cancel → List Use
unfolding drop
drop_cancel unstarted = drop
drop_cancel awaiting = drop
drop_cancel finished = []

abbrev pub is_takes : Use → Bool
is_takes takes = true
is_takes _ = false

-- A handle is cancelled, the future polled with these answers, and dropped.
unfoldable pub cancel_and_drop : {T : Type 0} → List (Poll T) → Cancel → List Use
unfolding poll_cancel drop_cancel
cancel_and_drop [] c = drop_cancel c
cancel_and_drop (answer ∷ answers) c =
    let (uses, c', _) = poll_cancel answer c in uses ++ cancel_and_drop answers c'

abbrev pub any_ready : {T : Type 0} → List (Poll T) → Bool
any_ready [] = false
any_ready (ready _ ∷ answers) = true
any_ready (pending ∷ answers) = any_ready answers

takes_finished :
    {T : Type 0} (answers : List (Poll T))
    → count_if is_takes (cancel_and_drop answers finished) ≡ 0
unfolding cancel_and_drop
takes_finished [] = refl
takes_finished (answer ∷ answers) = takes_finished answers

takes_awaiting :
    {T : Type 0} (answers : List (Poll T))
    → count_if is_takes (cancel_and_drop answers awaiting) ≡ (if any_ready answers then 0 else 1)
unfolding cancel_and_drop
takes_awaiting [] = refl
takes_awaiting (ready output ∷ answers) = takes_finished answers
takes_awaiting (pending ∷ answers) = takes_awaiting answers

-- How often the task is taken.
abbrev pub expected_takes : {T : Type 0} → List (Poll T) → ℕ
expected_takes [] = 1
expected_takes (answer ∷ answers) = if any_ready (answer ∷ answers) then 1 else 2

-- The future of `JoinHandle::cancel` takes the task once if it is dropped before its first poll or after
-- it was ready, and twice if it is dropped in between.
pub cancel_and_drop-takes :
    {T : Type 0} (answers : List (Poll T))
    → count_if is_takes (cancel_and_drop answers unstarted) ≡ expected_takes answers
unfolding cancel_and_drop
cancel_and_drop-takes [] = refl
cancel_and_drop-takes (ready output ∷ answers) = ground (arith, takes_finished answers)
cancel_and_drop-takes (pending ∷ answers) = ground (arith, takes_awaiting answers)
