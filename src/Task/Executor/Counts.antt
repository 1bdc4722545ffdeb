-- ===== src/Task/Executor/Counts.antt =====
-- src/threadpool.rs: how many runnables of a task the queues of a pool hold.
use wae.Common.{
  ℕ, suc, ◌+◌, ◌≡◌, ap, ◌∙◌, false, some, Option, List, [], ◌∷◌, ◌++◌, ◌==◌, if◌then◌else◌, arith,
}
use wae.Threadpool.Priority.{Priority, high, normal, low}
use wae.Threadpool.Tasks.{
  Handle, Entry, ConcurrentQueue, TaskQueue, Queues, Ran, queue_of, set_queue, push_task, callback,
  run_task,
}
use wae.Threadpool.Tasks.Laws.{AllServed, submit-IsServed, serve-IsServed, set_queue-AllServed}

-- How often a runnable stands in a list of entries.
abbrev pub tally : ℕ → List Entry → ℕ
tally j [] = 0
tally j ((id, _) ∷ l) = (if j == id then 1 else 0) + tally j l

tally-append : (j : ℕ) (l k : List Entry) → tally j (l ++ k) ≡ tally j l + tally j k
tally-append j [] k = omega arith
tally-append j (x ∷ l) k = omega (arith, tally-append j l k)

module _ (cq : ConcurrentQueue) where
  abbrev pub waiting : ℕ → TaskQueue cq → ℕ
  waiting j q = tally j (cq.contents q.queue)

  abbrev pub queued : ℕ → Queues cq → ℕ
  queued j qs = waiting j qs.high_queue + waiting j qs.normal_queue + waiting j qs.low_queue

  queued-set_queue :
      (j : ℕ) (p : Priority) (q : TaskQueue cq) (qs : Queues cq)
      → queued j (set_queue cq p q qs) + waiting j (queue_of cq p qs) ≡ queued j qs + waiting j q
  queued-set_queue j high q qs = omega arith
  queued-set_queue j normal q qs = omega arith
  queued-set_queue j low q qs = omega arith

  -- A push adds one runnable.
  pub push_task-queued :
      (handle : Handle) (id : ℕ) (qs : Queues cq)
      → AllServed cq qs
      → (qs' : Queues cq) × (push_task cq handle id qs ≡ some qs')
        × AllServed cq qs'
        × ((j : ℕ) → queued j qs' ≡ (if j == id then suc (queued j qs) else queued j qs))
  unfolding push_task
  push_task-queued handle id qs v =
      let p = handle.priority in
      let (q, e, w, _, _, c) = submit-IsServed cq (id, handle) (queue_of cq p qs) (v p) in
      (
        set_queue cq p q qs,
        ground arith,
        set_queue-AllServed cq p q qs w v,
        λ j.
            let added =
              ap (tally j) c
              ∙ tally-append j (cq.contents (queue_of cq p qs).queue) ((id, handle) ∷ []) in
            ground (arith, queued-set_queue j p q qs, added),
      )

  -- A callback takes one.
  pub callback-queued :
      (i : ℕ) (context : Option Handle) (p : Priority) (qs : Queues cq)
      → AllServed cq qs
      → ((queue_of cq p qs).submitted == 0) ≡ false
      → (ran : Ran cq) × (qs' : Queues cq) × (callback cq i context p qs ≡ some (ran, qs'))
        × AllServed cq qs'
        × ((j : ℕ) → queued j qs ≡ (if j == ran.runnable then suc (queued j qs') else queued j qs'))
  unfolding callback run_task
  callback-queued i context p qs v some_left =
      let (x, q, e, w, _, _, c) = serve-IsServed cq (queue_of cq p qs) (v p) some_left in
      (
        run_task cq i context x,
        set_queue cq p q qs,
        ground arith,
        set_queue-AllServed cq p q qs w v,
        λ j. let taken = ap (tally j) c in ground (arith, queued-set_queue j p q qs, taken),
      )
