-- ===== src/Task/BlockOn/Frame.antt =====
-- src/task/block_on.rs and src/task/waker.rs: `block_on` while other threads run its task, and the wakers
-- that point into its frame.
use wae.Common.{ℕ, ◌+◌, Option, none, some, List, [], ◌∷◌, Poll, ready, pending}
use wae.Task.Waker
use wae.Task.Waker.{
  System, Waiter, away, loading, calling, blocked, returned, starts, waits, wakes, Inv,
}

-- The functions of the `RawWakerVTable`.
pub data Method : Type 0 where
  clone_fn : Method
  wake_fn : Method
  drop_fn : Method

-- What a call of one does to the word that the pointer leads to: `clone_fn` copies the pointer.
unfoldable pub call : Method → System → System
unfolding Waker.step
call clone_fn word = word
call wake_fn word = Waker.step wakes word
call drop_fn word = word

-- How often it reads or writes the word.
unfoldable pub accesses : Option Method → ℕ
accesses (some wake_fn) = 1
accesses _ = 0

abbrev pub called : Option Method → System → System
called none word = word
called (some method) word = call method word

-- A task of async_task: an access of a poll through its `JoinHandle`, `none` if the poll goes on, and a
-- step of one of the other threads that run it or wake it, with what that calls on the waker.
pub record Task (S T : Type 0) : Type 0 where
  pub poll : S → S × Option (Poll T)
  pub work : ℕ → S → S × Option Method
  pub detach : S → S  -- `Task::detach`, which the drop of the `JoinHandle` calls

-- Where the loop stands.
pub data Loop (T : Type 0) : Type 0 where
  polling : Loop T
  waiting : Loop T
  done : T → Loop T

-- `stale` counts the accesses to the word after `block_on` has returned.
pub record Frame (S T : Type 0) : Type 0 where
  pub loop : Loop T
  pub word : System
  pub task : S
  pub stale : ℕ

-- An access of the waiting thread, a step of another thread, and the two ways in which
-- `WaitOnAddress` ends.
pub data Action : Type 0 where
  mine : Action
  others : ℕ → Action
  alert : Action
  stirs : Action

-- After an access of `wait`.
unfoldable pub after_wait : {T : Type 0} → Waiter → Loop T
after_wait returned = polling
after_wait _ = waiting

module _ {S T : Type 0} (task : Task S T) where
  -- `block_on` after its `spawn`, which has left the task at `s`.
  unfoldable pub start : S → Frame S T
  unfolding Waker.init
  start s = record { loop = polling; word = Waker.init; task = s; stale = 0 }

  -- The match on what the poll gave.
  unfoldable pub polled : S × Option (Poll T) → Frame S T → Frame S T
  unfolding Waker.step
  polled (s, none) f = record f { task = s }
  polled (s, some (ready output)) f = record f { loop = done output; task = task.detach s }
  polled (s, some pending) f = record f {
    loop = waiting;
    word = Waker.step starts f.word;
    task = s;
  }

  -- An access of the loop.
  unfoldable pub mine_step : Loop T → Frame S T → Frame S T
  unfolding Waker.step after_wait polled
  mine_step polling f = polled (task.poll f.task) f
  mine_step waiting f =
      let word = Waker.step waits f.word in record f { loop = after_wait word.waiter; word = word }
  mine_step (done output) f = f

  -- A call on the waker, while the frame is there and after.
  unfoldable pub reach : Loop T → Option Method → Frame S T → Frame S T
  unfolding call accesses
  reach (done output) method f = record f { stale = f.stale + accesses method }
  reach _ method f = record f { word = called method f.word }

  unfoldable pub step : Action → Frame S T → Frame S T
  unfolding Waker.step mine_step reach
  step mine f = mine_step f.loop f
  step (others thread) f =
      let (s, method) = task.work thread f.task in reach f.loop method (record f { task = s })
  step alert f = record f { word = Waker.step Waker.alert f.word }
  step stirs f = record f { word = Waker.step Waker.stirs f.word }

  unfoldable pub run : List Action → Frame S T → Frame S T
  unfolding step
  run [] f = f
  run (a ∷ acts) f = run acts (step a f)
