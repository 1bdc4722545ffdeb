-- ===== src/Examples/Hangs.antt =====
-- src/io/shared/handle.rs: a task that reads once.
use wae.Common.{◌≡◌, refl, false, none, some, List, [], ◌∷◌, pending, ready, ok}
use wae.Io.Waker.{option_waker}
use wae.Io.Handle.{new_half}
use wae.Threadpool.Priority.{high}
use wae.Examples.Pools.{list_queue, urgent}
use wae.Examples.Executors.{after}
use wae.Task.Executor.{idle, running, phases, spawns, calls_back, begins}
use wae.Task.Executor
use wae.Task.Executor.Invariant.{phase_of}
use wae.Task.Executor.Reader.{System, Action, pools, polls, completes, run}
use wae.Task.Executor.Hang.{first_read_hangs}

-- Task 1 is run.
abbrev begun : List (Executor.Action list_queue phases)
begun = spawns urgent 1 ∷ calls_back 9 none high ∷ begins 1 ∷ []

-- The operation ends with 5 bytes, and another task is spawned and run.
abbrev goes_on : List (Action list_queue phases option_waker 1)
goes_on =
    completes 0 5
    ∷ pools (spawns urgent 2)
    ∷ pools (calls_back 9 none high)
    ∷ pools (begins 2)
    ∷ polls (ready (ok 5))
    ∷ []

first_read_hangs_example :
    (s : System list_queue phases option_waker 1) × (run list_queue phases option_waker 1
        (polls pending ∷ goes_on)
        (record { pool = after begun; half = new_half option_waker 0; got = none })
      ≡ some s)
    × (phase_of list_queue phases (s.pool.tasks 1) ≡ some idle)
    × (s.got ≡ none)
    × (s.pool.polls 1 ≡ 1)
unfolding Executor.run Executor.start
first_read_hangs_example =
    first_read_hangs list_queue phases option_waker 1 begun urgent (after begun)
      (running false false) 0 goes_on refl refl refl (tt, (tt, (tt, (tt, (tt, tt)))))
