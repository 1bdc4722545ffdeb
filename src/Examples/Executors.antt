-- ===== src/Examples/Executors.antt =====
-- src/task/spawn.rs: a pool with two tasks, the first of which yields.
use wae.Common.{
  ℕ, suc, ◌+◌, ◌≤◌, ◌≡◌, ◌⊎◌, refl, true, false, none, some, List, [], ◌∷◌, ◌++◌, arith, length,
}
use wae.Threadpool.Priority.{Priority, high}
use wae.Threadpool.Tasks.{Entry, queue_of, new_queue}
use wae.Examples.Pools.{list_queue, urgent}
use wae.Task.Executor.{
  Phase, idle, completed, phases, Pool, start, Action, spawns, wakes, cancels, calls_back, begins,
  ends, run,
}
use wae.Task.Executor.Counts.{queued}
use wae.Task.Executor.Laws.{polled_by_one, rest_answers_wakes}
use wae.Task.Executor.Wakes.{woken_starts}

-- Task 1 is woken while it is polled, and task 2 is ready at once.
abbrev yields : List (Action list_queue phases)
yields =
    spawns urgent 1
    ∷ spawns urgent 2
    ∷ calls_back 9 none high
    ∷ begins 1
    ∷ wakes 1
    ∷ ends false 1
    ∷ calls_back 9 none high
    ∷ begins 2
    ∷ ends true 2
    ∷ calls_back 9 none high
    ∷ begins 1
    ∷ ends false 1
    ∷ []

abbrev pub after : List (Action list_queue phases) → Pool list_queue phases
unfolding run start
after acts = elim (run list_queue phases acts (start list_queue phases urgent)) [
  | none ↦ start list_queue phases urgent
  | some s ↦ s
]

-- Task 2 is cancelled while it waits, and task 1 while it is polled.
abbrev cuts : List (Action list_queue phases)
cuts =
    spawns urgent 1
    ∷ spawns urgent 2
    ∷ cancels 2
    ∷ calls_back 9 none high
    ∷ begins 1
    ∷ cancels 1
    ∷ ends false 1
    ∷ calls_back 9 none high
    ∷ begins 2
    ∷ []

polled_by_one_example :
    (s : Pool list_queue phases) × (run list_queue phases cuts (start list_queue phases urgent)
      ≡ some s)
    × ((id : ℕ)
        → (queued list_queue id s.queues + s.held id + s.running id ≤ 1)
          × (s.polls id ≤ suc (s.wakes id))
          × (s.late id ≡ 0))
polled_by_one_example = polled_by_one list_queue phases cuts urgent

nothing_left : (p : Priority) → (queue_of list_queue p (after yields).queues).submitted ≡ 0
unfolding after run start new_queue
nothing_left high = refl
nothing_left _ = refl

rest_answers_wakes_example : ◌⊎◌ (◌≡◌ {A = Phase} idle completed) (
    (◌≡◌ {A = Phase} idle idle)
    × ((after yields).owed 1 ≡ false)
    × ((after yields).cancelled 1 ≡ false))
unfolding run start after
rest_answers_wakes_example =
    rest_answers_wakes list_queue phases yields urgent (after yields) 1 idle refl nothing_left refl
      refl

-- Task 3 waits in the queue when task 1 is woken, and another is spawned after.
abbrev later : List (Action list_queue phases)
later = spawns urgent 4 ∷ calls_back 9 none high ∷ begins 3 ∷ calls_back 8 none high ∷ []

woken_starts_example :
    (before after_it : List Entry) × ((queue_of list_queue high
        (after (yields ++ spawns urgent 3 ∷ wakes 1 ∷ later)).queues).started
      ≡ before ++ (1, urgent) ∷ after_it)
    × (length before ≡ 4)
unfolding run start after
woken_starts_example =
    woken_starts list_queue phases (yields ++ spawns urgent 3 ∷ []) later urgent
      (after (yields ++ spawns urgent 3 ∷ [])) (after (yields ++ spawns urgent 3 ∷ wakes 1 ∷ later))
      1 idle refl refl refl refl (omega arith)
