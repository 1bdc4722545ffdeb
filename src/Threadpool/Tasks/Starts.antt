-- ===== src/Threadpool/Tasks/Starts.antt =====
-- src/threadpool.rs and src/task/spawn.rs: when a task that was spawned is started.
use wae.Common.{ℕ, ◌<◌, ◌≡◌, ap, some, List, [], ◌∷◌, ◌++◌, length, length-append, arith}
use wae.Threadpool.Tasks.{
  Handle, Entry, ConcurrentQueue, Queues, new_queues, queue_of, set_queue, push_task, Action, run,
}
use wae.Task.Join.{spawn}
use wae.Threadpool.Tasks.Laws.{
  AllServed, submit-IsServed, set_queue-AllServed, new_queues-AllServed, run-AllServed,
  contents-set_queue,
}
use wae.Threadpool.Tasks.Stage.{Stage, waits, callbacks_for, run_stage, started_at_last}

module _ (cq : ConcurrentQueue) where
  all_served :
      (acts : List (Action cq)) (qs : Queues cq)
      → run cq acts (new_queues cq) ≡ some qs
      → AllServed cq qs
  all_served acts qs e =
      let (qs', f, v) = run-AllServed cq acts (new_queues cq) (new_queues-AllServed cq) in
      let same : qs' ≡ qs = ground arith in rw same at v

  pub push_starts :
      (later : List (Action cq)) (handle : Handle) (runnable : ℕ) (qs : Queues cq)
      → AllServed cq qs
      → length (cq.contents (queue_of cq handle.priority qs).queue)
        < callbacks_for cq handle.priority later
      → (qs1 qs2 : Queues cq) × (before after : List Entry) × (push_task cq handle runnable qs
          ≡ some qs1)
        × (run cq later qs1 ≡ some qs2)
        × ((queue_of cq handle.priority qs2).started ≡ before ++ (runnable, handle) ∷ after)
        × (length before ≡ length (queue_of cq handle.priority qs).pushed)
  unfolding push_task
  push_starts later handle runnable qs v enough =
      let p = handle.priority in
      let t = queue_of cq p qs in
      let (q, f, w, pushed, s, c) = submit-IsServed cq (runnable, handle) t (v p) in
      let st : Stage cq (length t.pushed) (runnable, handle) (callbacks_for cq p later) q =
        waits (cq.contents t.queue) [] c
          (omega (
            arith,
            ap length (v p).ordered,
            ap length s,
            length-append t.started (cq.contents t.queue),
          ))
          enough in
      let (qs2, g, st2) =
        run_stage cq (length t.pushed) (runnable, handle) later p (set_queue cq p q qs)
          (set_queue-AllServed cq p q qs w v) (rw (contents-set_queue cq p q qs) st) in
      let (before, after, h, l) =
        started_at_last cq (length t.pushed) (runnable, handle) (queue_of cq p qs2) st2 in
      (set_queue cq p q qs, qs2, before, after, ground arith, g, h, l)

  -- A task that is spawned on a pool with any history is started, as the one after those that its queue
  -- had been given before, once the queue has had more callbacks than tasks waited there, whatever
  -- else is pushed and called back.
  pub spawn_starts :
      (acts later : List (Action cq)) (handle : Handle) (runnable : ℕ) (qs : Queues cq)
      → run cq acts (new_queues cq) ≡ some qs
      → length (cq.contents (queue_of cq handle.priority qs).queue)
        < callbacks_for cq handle.priority later
      → (qs1 qs2 : Queues cq) × (before after : List Entry) × (spawn cq handle runnable qs
          ≡ some qs1)
        × (run cq later qs1 ≡ some qs2)
        × ((queue_of cq handle.priority qs2).started ≡ before ++ (runnable, handle) ∷ after)
        × (length before ≡ length (queue_of cq handle.priority qs).pushed)
  unfolding spawn
  spawn_starts acts later handle runnable qs e enough =
      push_starts later handle runnable qs (all_served acts qs e) enough
