-- ===== src/Task/Executor/Invariant.antt =====
-- src/task/spawn.rs: what holds of every task of a pool after every step.
use wae.Common.{
  ℕ, suc, ◌≡◌, refl, inl, inr, Bool, true, false, Bool-cases, Option, none, some, ◌==◌,
  if◌then◌else◌, arith,
}
use wae.Threadpool.Tasks.{ConcurrentQueue}
use wae.Threadpool.Tasks.Laws.{AllServed}
use wae.Task.Executor.{Phase, AsyncTask, Pool, put, schedule, scheduling, wake}
use wae.Task.Executor.Counts.{queued, push_task-queued}
use wae.Task.Executor.Views.{View, Fits, added, woken, woken-Fits}

module _ (cq : ConcurrentQueue) (at : AsyncTask) where
  abbrev pub phase_of : Option at.State → Option Phase
  phase_of none = none
  phase_of (some t) = some (at.phase t)

  -- The pool as the task `j` sees it.
  abbrev pub view : ℕ → Pool cq at → View
  view j s = record {
    status = phase_of (s.tasks j);
    queued = queued cq j s.queues;
    held = s.held j;
    running = s.running j;
    polls = s.polls j;
    wakes = s.wakes j;
    owed = s.owed j;
    cancelled = s.cancelled j;
    late = s.late j;
  }

  pub record Inv (s : Pool cq at) : Type 0 where
    pub served : AllServed cq s.queues
    pub fits : (j : ℕ) → Fits (view j s)

  abbrev pub Next : Option (Pool cq at) → Type 0
  Next o = (s' : Pool cq at) × (o ≡ some s') × Inv s'

  scheduling-Inv :
      (calls : Bool) (id : ℕ) (s : Pool cq at)
      → AllServed cq s.queues
      → ((j : ℕ) → Fits (if j == id then added calls (view j s) else view j s))
      → Next (scheduling cq at calls id s)
  unfolding schedule
  scheduling-Inv false id s v f = (s, refl, record { served = v; fits = fits })
    where
      fits : (j : ℕ) → Fits (view j s)
      fits j =
          let same : (if j == id then view j s else view j s) ≡ view j s = ground arith in
          rw same at (f j)
  scheduling-Inv true id s v f =
      let (qs, e, v', n) = push_task-queued cq (s.owner id) id s.queues v in
      let s' : Pool cq at = record s { queues = qs } in
      let same : (j : ℕ) → (if j == id then added true (view j s) else view j s) ≡ view j s' =
        λ j. ground (arith, n j) in
      (s', ground arith, record { served = v'; fits = λ j. rw (same j) at (f j) })

  -- A step that concerns one task.
  moved :
      (id : ℕ) (calls : Bool) (s s1 : Pool cq at) (w : View)
      → added calls (view id s1) ≡ w
      → Fits w
      → ((j : ℕ) → (j == id) ≡ false → view j s1 ≡ view j s)
      → Inv s
      → (j : ℕ) → Fits (if j == id then added calls (view j s1) else view j s1)
  moved id calls s s1 w e f other v j = elim (Bool-cases (j == id)) [
    | inl same ↦
        let k : j ≡ id = ground arith in
        rw k (rw (let yes_id : (id == id) ≡ true = ground arith in yes_id) (rw e f))
    | inr no_id ↦ rw no_id (rw (other j no_id) (v.fits j))
  ]

  pub wake-Inv : (id : ℕ) (s : Pool cq at) → Inv s → Next (wake cq at id s)
  unfolding wake
  wake-Inv id s v = go (s.tasks id) refl
    where
      go : (o : Option at.State) → s.tasks id ≡ o → Next (wake cq at id s)
      go none e = (s, ground arith, v)
      go (some t) e =
          let (t', calls) = at.wake t in
          let s1 : Pool cq at = record s {
            tasks = put id (some t') s.tasks;
            wakes = put id (suc (s.wakes id)) s.wakes;
            owed = put id true s.owed;
          } in
          let law = at.phase-wake t in
          let after : added calls (view id s1) ≡ woken (view id s) = ground arith in
          let (s2, f, v2) = scheduling-Inv calls id s1 v.served (
            moved id calls s s1 (woken (view id s)) after (woken-Fits (view id s) (v.fits id))
              (λ j no_id. ground arith) v) in
          (s2, ground arith, v2)

  -- A step of one task that calls `schedule` or does not.
  pub moved-Next :
      (id : ℕ) (calls : Bool) (s s1 : Pool cq at) (w : View)
      → added calls (view id s1) ≡ w
      → Fits w
      → ((j : ℕ) → (j == id) ≡ false → view j s1 ≡ view j s)
      → AllServed cq s1.queues
      → Inv s
      → Next (scheduling cq at calls id s1)
  moved-Next id calls s s1 w e f other served v =
      scheduling-Inv calls id s1 served (moved id calls s s1 w e f other v)
