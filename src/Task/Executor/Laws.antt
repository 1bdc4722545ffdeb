-- ===== src/Task/Executor/Laws.antt =====
-- src/task/spawn.rs and src/threadpool.rs: what the tasks of a pool can rely on.
use wae.Common.{ℕ, suc, ◌+◌, ◌≤◌, ◌≡◌, ◌⊎◌, false, some, List, arith, ap, length, refl, [], ◌∷◌}
use wae.Threadpool.Priority.{Priority, high, normal, low}
use wae.Threadpool.Tasks.{Handle, ConcurrentQueue, TaskQueue, queue_of}
use wae.Threadpool.Tasks.Laws.{IsServed}
use wae.Task.Executor.{Phase, idle, completed, AsyncTask, Pool, start, Action, run}
use wae.Task.Executor.Counts.{tally, waiting, queued}
use wae.Task.Executor.Views.{View, Fits}
use wae.Task.Executor.Invariant.{view, Inv, phase_of}
use wae.Task.Executor.Steps.{reached-Inv}

once :
    (v : View)
    → Fits v
    → (v.queued + v.held + v.running ≤ 1) × (v.polls ≤ suc v.wakes) × (v.late ≡ 0)
unfolding Fits
once v f = ground arith

at_rest :
    (v : View) (ph : Phase)
    → v.status ≡ some ph
    → Fits v
    → v.queued + v.held + v.running ≡ 0
    → (ph ≡ completed) ⊎ ((ph ≡ idle) × (v.owed ≡ false) × (v.cancelled ≡ false))
unfolding Fits
at_rest v ph e f z = ground arith

module _ (cq : ConcurrentQueue) (at : AsyncTask) where
  -- Whatever is spawned, woken and called back, and in whatever order, nothing panics; a task has at most
  -- one `Runnable` in the three queues and the callbacks together and is polled by at most one callback at
  -- a time, by none while a `Runnable` of it is there; it is polled at most once more than it is
  -- woken, and never after it was cancelled.
  pub polled_by_one :
      (acts : List (Action cq at)) (handle : Handle)
      → (s : Pool cq at) × (run cq at acts (start cq at handle) ≡ some s)
        × ((id : ℕ)
            → (queued cq id s.queues + s.held id + s.running id ≤ 1)
              × (s.polls id ≤ suc (s.wakes id))
              × (s.late id ≡ 0))
  polled_by_one acts handle =
      let (s, e, v) = reached-Inv cq at acts handle in
      (s, e, λ id. once (view cq at id s) (v.fits id))

  none_waiting : (j : ℕ) (q : TaskQueue cq) → IsServed cq q → q.submitted ≡ 0 → waiting cq j q ≡ 0
  none_waiting j q v e = go (cq.contents q.queue) (omega (arith, v.counted))
    where
      go : (l : List _) → length l ≡ 0 → tally j l ≡ 0
      go [] z = refl
      go (x ∷ l) z = absurd (omega arith)

  -- No wake is lost: whenever the pool has come to rest, with no submission left and no callback at work,
  -- each task that was spawned has completed, or is idle and was neither woken after its last poll began
  -- nor cancelled.
  pub rest_answers_wakes :
      (acts : List (Action cq at)) (handle : Handle) (s : Pool cq at) (id : ℕ) (t : at.State)
      → run cq at acts (start cq at handle) ≡ some s
      → ((p : Priority) → (queue_of cq p s.queues).submitted ≡ 0)
      → s.held id + s.running id ≡ 0
      → s.tasks id ≡ some t
      → (at.phase t ≡ completed)
        ⊎ ((at.phase t ≡ idle) × (s.owed id ≡ false) × (s.cancelled id ≡ false))
  rest_answers_wakes acts handle s id t e empty no_callback there =
      let (s', e', v) = reached-Inv cq at acts handle in
      let same : s' ≡ s = ground arith in
      let w : Inv cq at s = rw same at v in
      let h = none_waiting id (queue_of cq high s.queues) (w.served high) (empty high) in
      let n = none_waiting id (queue_of cq normal s.queues) (w.served normal) (empty normal) in
      let l = none_waiting id (queue_of cq low s.queues) (w.served low) (empty low) in
      at_rest (view cq at id s) (at.phase t) (ap (phase_of cq at) there) (w.fits id) (omega arith)
