-- ===== src/Examples/Pools.antt =====
-- src/threadpool.rs and src/task: pools and what runs on them.
use wae.Common.{
  pending, ℕ, ◌≡◌, refl, ◌⊎◌, inl, inr, true, false, Option, none, some, List, [], ◌∷◌, ◌++◌, is_ok,
  count_if,
}
use wae.Threadpool.Priority.{high}
use wae.Threadpool.Builder.{new, Answers, build}
use wae.Threadpool.Builder.Laws.{is_close_pool, build-closes}
use wae.Threadpool.Tasks.{
  Handle, Entry, ConcurrentQueue, Queues, new_queues, Action, pushes, calls_back, run,
}
use wae.Threadpool.Tasks.Bag.{bag_of, accounted, with_pushes, tasks_conserved}
use wae.Threadpool.Life
use wae.Threadpool.Life.{clones, drops, begins, closes, closing_in_callback, last_handle_hangs}
use mathlib.Mathlib.Data.Multiset.ZeroCons.{zero}
use wae.Task.Join.{is_takes, cancel_and_drop, unstarted, cancel_and_drop-takes}

abbrev pop_list : List Entry → Option (Entry × List Entry)
pop_list [] = none
pop_list (x ∷ q) = some (x, q)

abbrev pub list_queue : ConcurrentQueue
list_queue = record {
  Queue = List Entry;
  unbounded = [];
  push = λ x q. some (q ++ x ∷ []);
  pop = pop_list;
  contents = λ q. q;
  contents-unbounded = refl;
  contents-push = λ x q. (q ++ x ∷ [], refl, refl);
  contents-pop = popped;
}
  where
    popped :
        (q : List Entry)
        → ((q ≡ []) × (pop_list q ≡ none))
          ⊎ ((x : Entry) × (q' : List Entry) × (q ≡ x ∷ q') × (pop_list q ≡ some (x, q')))
    popped [] = inl (refl, refl)
    popped (x ∷ q) = inr (x, q, refl, refl)

abbrev pub urgent : Handle
urgent = record { priority = high; callback_instance = none }

-- Two tasks are pushed, and a thread serves one.
abbrev history : List (Action list_queue)
history = pushes urgent 1 ∷ pushes urgent 2 ∷ calls_back 9 none high ∷ []

-- Everything is granted but the work of the low queue.
abbrev without_low : Answers
without_low = record {
  pool = some 1;
  minimum_set = true;
  group = some 2;
  high_work = some 3;
  normal_work = some 4;
  low_work = none;
  started = none;
  last_error = 8;
}

build-closes_example :
    (is_ok (build (new 4) without_low).1 ≡ false)
    × (count_if is_close_pool (build (new 4) without_low).0 ≡ 2)
unfolding new
build-closes_example = build-closes (new 4) without_low

-- The future is dropped after one poll.
cancel_and_drop-takes_example :
    count_if is_takes (cancel_and_drop {T = ℕ} (pending ∷ []) unstarted) ≡ 2
cancel_and_drop-takes_example = cancel_and_drop-takes {T = ℕ} (pending ∷ [])

tasks_conserved_example :
    (qs : Queues list_queue) × (run list_queue history (new_queues list_queue) ≡ some qs)
    × (bag_of list_queue (accounted list_queue) qs ≡ with_pushes list_queue history zero)
tasks_conserved_example = tasks_conserved list_queue history

-- A task is pushed and run, and then the user's handle goes; or that goes while the task runs.
abbrev orderly : List Life.Action
orderly = Life.pushes ∷ begins ∷ Life.others_begin ∷ Life.lets_go ∷ drops ∷ []

abbrev early : List Life.Action
early = Life.pushes ∷ begins ∷ drops ∷ Life.lets_go ∷ []

last_handle_hangs_example :
    (Life.run (closes ∷ Life.returns ∷ closes ∷ []) (Life.run early Life.init)).phase
    ≡ closing_in_callback
unfolding Life.run Life.init
last_handle_hangs_example = last_handle_hangs early (closes ∷ Life.returns ∷ closes ∷ []) refl
