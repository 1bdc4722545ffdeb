-- ===== src/Task/Executor/Reader.antt =====
-- src/task/spawn.rs and src/io/shared/handle.rs: a pool, one of whose tasks awaits an operation of a half.
use wae.Common.{
  ℕ, true, false, Option, none, some, List, [], ◌∷◌, ◌==◌, if◌then◌else◌, Poll, ready, pending,
  IoResult,
}
use wae.Io.Waker.{AtomicWaker}
use wae.Io.Handle
use wae.Io.Handle.{Half, complete}
use wae.Threadpool.Tasks.{ConcurrentQueue}
use wae.Task.Executor.{
  AsyncTask, Pool, wake, end_run, spawns, wakes, cancels, calls_back, begins, ends,
}
use wae.Task.Executor

module _ (cq : ConcurrentQueue) (at : AsyncTask) (aw : AtomicWaker) (reader : ℕ) where
  -- A waker of the task is known by the task's number; `got` is what the task has returned.
  pub record System : Type 0 where
    pub pool : Pool cq at
    pub half : Half aw
    pub got : Option (IoResult ℕ)

  -- What happens to the pool, the poll of the task's future, and the completion of the operation.
  pub data Action : Type 0 where
    pools : Executor.Action cq at → Action
    polls : Poll (IoResult ℕ) → Action
    completes : ℕ → ℕ → Action

  -- How the poll of the future ends, and with it the run of the task.
  unfoldable pub polled : Half aw → Poll (IoResult ℕ) → System → Option System
  unfolding end_run
  polled half (ready result) s = elim (end_run cq at true reader s.pool) [
    | none ↦ none
    | some pool ↦ some (record { pool = pool; half = half; got = some result })
  ]
  polled half pending s = elim (end_run cq at false reader s.pool) [
    | none ↦ none
    | some pool ↦ some (record s { pool = pool; half = half })
  ]

  -- The callback that runs the task polls the half, with the task's waker. `none`: undefined behaviour.
  unfoldable pub poll_half : Poll (IoResult ℕ) → System → Option System
  unfolding Handle.poll polled
  poll_half scheduled s =
      let done : Option System = elim (Handle.poll aw reader scheduled s.half) [
        | none ↦ none
        | some (half, _, outcome) ↦ polled half outcome s
      ] in
      if s.pool.running reader == 0 then some s else done

  -- The callback of the operation, which may wake a task. `none`: it spins.
  unfoldable pub complete_half : ℕ → ℕ → System → Option System
  unfolding complete wake
  complete_half code transferred s = elim (complete aw code transferred s.half) [
    | none ↦ none
    | some (half, none) ↦ some (record s { half = half })
    | some (half, some w) ↦ elim (wake cq at w s.pool) [
      | none ↦ none
      | some pool ↦ some (record s { half = half; pool = pool })
    ]
  ]

  unfoldable pub step : Action → System → Option System
  unfolding Executor.step poll_half complete_half
  step (pools a) s = elim (Executor.step cq at a s.pool) [
    | none ↦ none
    | some pool ↦ some (record s { pool = pool })
  ]
  step (polls scheduled) s = poll_half scheduled s
  step (completes code transferred) s = complete_half code transferred s

  unfoldable pub run : List Action → System → Option System
  unfolding step
  run [] s = some s
  run (a ∷ acts) s = elim (step a s) [ none ↦ none | some s' ↦ run acts s' ]
