-- ===== src/Task/Executor/Steps.antt =====
-- src/task/spawn.rs: each step of a pool keeps what holds of its tasks.
use wae.Common.{
  true, if◌then◌else◌, ℕ, suc, ◌-◌, ◌<◌, ◌≡◌, refl, ap, inl, inr, Bool, false, Bool-cases, Option,
  none, some, List, [], ◌∷◌, ◌==◌, arith,
}
use wae.Threadpool.Priority.{Priority}
use wae.Threadpool.Tasks.{Handle, ConcurrentQueue, queue_of}
use wae.Threadpool.Tasks.Laws.{AllServed, new_queues-AllServed}
use wae.Task.Executor.{
  AsyncTask, Pool, put, start, spawn_task, call_back, cancel, cancels, begin_run, end_run, Action,
  spawns, wakes, calls_back, begins, ends, step, run,
}
use wae.Task.Executor.Counts.{tally, queued, push_task-queued, callback-queued}
use wae.Task.Executor.Views.{
  Fits, added, spawned, popped, begun, ended, spawned-Fits, popped-Fits, begun-Fits, ended-Fits,
  running-phase, held-phase, cut, cut-Fits,
}
use wae.Task.Executor.Invariant.{wake-Inv, view, Inv, Next, moved-Next}

module _ (cq : ConcurrentQueue) (at : AsyncTask) where
  spawn_task-Inv :
      (handle : Handle) (id : ℕ) (s : Pool cq at)
      → Inv cq at s
      → Next cq at (spawn_task cq at handle id s)
  unfolding spawn_task
  spawn_task-Inv handle id s v = go (s.tasks id) refl
    where
      go : (o : Option at.State) → s.tasks id ≡ o → Next cq at (spawn_task cq at handle id s)
      go (some t) e = (s, ground arith, v)
      go none e =
          let (qs, e', v', n) = push_task-queued cq handle id s.queues v.served in
          let s1 : Pool cq at = record s {
            queues = qs;
            tasks = put id (some at.new) s.tasks;
            owner = put id handle s.owner;
          } in
          let law = at.phase-new in
          let after : view cq at id s1 ≡ spawned (view cq at id s) = ground (arith, n id) in
          let (s2, f, v2) =
            moved-Next cq at id false s s1 (spawned (view cq at id s)) after
              (spawned-Fits (view cq at id s) (v.fits id)) (λ j no_id. ground (arith, n j)) v' v in
          (s2, ground arith, v2)

  call_back-Inv :
      (i : ℕ) (context : Option Handle) (p : Priority) (s : Pool cq at)
      → Inv cq at s
      → Next cq at (call_back cq at i context p s)
  unfolding call_back
  call_back-Inv i context p s v = elim (Bool-cases ((queue_of cq p s.queues).submitted == 0)) [
    | inl none_left ↦ (s, ground arith, v)
    | inr some_left ↦
        let (ran, qs, e, v', n) = callback-queued cq i context p s.queues v.served some_left in
        let id = ran.runnable in
        let s1 : Pool cq at = record s { queues = qs; held = put id (suc (s.held id)) s.held } in
        let after : view cq at id s1 ≡ popped (view cq at id s) = ground (arith, n id) in
        let one : 0 < queued cq id s.queues = ground (arith, n id) in
        let (s2, f, v2) =
          moved-Next cq at id false s s1 (popped (view cq at id s)) after
            (popped-Fits (view cq at id s) one (v.fits id)) (λ j no_id. ground (arith, n j)) v' v in
        (s2, ground arith, v2)
  ]

  cancel-Inv : (id : ℕ) (s : Pool cq at) → Inv cq at s → Next cq at (cancel cq at id s)
  unfolding cancel
  cancel-Inv id s v = go (s.tasks id) refl
    where
      go : (o : Option at.State) → s.tasks id ≡ o → Next cq at (cancel cq at id s)
      go none e = (s, ground arith, v)
      go (some t) e =
          let (t', calls) = at.cancel t in
          let s1 : Pool cq at = record s {
            tasks = put id (some t') s.tasks;
            cancelled = put id true s.cancelled;
          } in
          let law = at.phase-cancel t in
          let after : added calls (view cq at id s1) ≡ cut (view cq at id s) = ground arith in
          let (s2, f, v2) =
            moved-Next cq at id calls s s1 (cut (view cq at id s)) after
              (cut-Fits (view cq at id s) (v.fits id)) (λ j no_id. ground arith) v.served v in
          (s2, ground arith, v2)

  begin_run-Inv : (id : ℕ) (s : Pool cq at) → Inv cq at s → Next cq at (begin_run cq at id s)
  unfolding begin_run
  begin_run-Inv id s v = go (s.tasks id) refl
    where
      go : (o : Option at.State) → s.tasks id ≡ o → Next cq at (begin_run cq at id s)
      go none e = (s, ground arith, v)
      go (some t) e = elim (Bool-cases (s.held id == 0)) [
        | inl none_held ↦ (s, ground arith, v)
        | inr one_held ↦
            let (t', polls) = at.begin t in
            let released : Pool cq at = record s {
              tasks = put id (some t') s.tasks;
              held = put id (s.held id - 1) s.held;
            } in
            let s1 : Pool cq at =
              if polls
              then record released {
                running = put id (suc (s.running id)) s.running;
                polls = put id (suc (s.polls id)) s.polls;
                owed = put id false s.owed;
                late = put id (if s.cancelled id then suc (s.late id) else s.late id) s.late;
              }
              else released in
            let one : 0 < s.held id = ground arith in
            let (c, stands) = held-phase (view cq at id s) one (v.fits id) in
            let law = at.phase-begin c t (ground arith) in
            let after : view cq at id s1 ≡ begun c (view cq at id s) = ground arith in
            let same : s1.queues ≡ s.queues = ground arith in
            let served : AllServed cq s1.queues = rw same v.served in
            let (s2, f, v2) =
              moved-Next cq at id false s s1 (begun c (view cq at id s)) after
                (begun-Fits c (view cq at id s) one stands (v.fits id)) (λ j no_id. ground arith)
                served v in
            (s2, ground arith, v2)
      ]

  pub end_run-Inv :
      (ready : Bool) (id : ℕ) (s : Pool cq at) → Inv cq at s → Next cq at (end_run cq at ready id s)
  unfolding end_run
  end_run-Inv ready id s v = go (s.tasks id) refl
    where
      go : (o : Option at.State) → s.tasks id ≡ o → Next cq at (end_run cq at ready id s)
      go none e = (s, ground arith, v)
      go (some t) e = elim (Bool-cases (s.running id == 0)) [
        | inl none_running ↦ (s, ground arith, v)
        | inr one_running ↦
            let (t', calls) = at.end ready t in
            let s1 : Pool cq at = record s {
              tasks = put id (some t') s.tasks;
              running = put id (s.running id - 1) s.running;
            } in
            let (b, c, stands) = running-phase (view cq at id s) (ground arith) (v.fits id) in
            let law = at.phase-end ready b c t (ground arith) in
            let after : added calls (view cq at id s1) ≡ ended ready b c (view cq at id s) =
              ground arith in
            let (s2, f, v2) =
              moved-Next cq at id calls s s1 (ended ready b c (view cq at id s)) after
                (ended-Fits ready b c (view cq at id s) stands (v.fits id))
                (λ j no_id. ground arith) v.served v in
            (s2, ground arith, v2)
      ]

  pub step-Inv : (a : Action cq at) (s : Pool cq at) → Inv cq at s → Next cq at (step cq at a s)
  unfolding step
  step-Inv (spawns handle id) s v = spawn_task-Inv handle id s v
  step-Inv (wakes id) s v = wake-Inv cq at id s v
  step-Inv (cancels id) s v = cancel-Inv id s v
  step-Inv (calls_back i context p) s v = call_back-Inv i context p s v
  step-Inv (begins id) s v = begin_run-Inv id s v
  step-Inv (ends ready id) s v = end_run-Inv ready id s v

  run-Inv :
      (acts : List (Action cq at)) (s : Pool cq at) → Inv cq at s → Next cq at (run cq at acts s)
  unfolding run
  run-Inv [] s v = (s, refl, v)
  run-Inv (a ∷ acts) s v =
      let (s1, e, v1) = step-Inv a s v in
      let (s2, f, v2) = run-Inv acts s1 v1 in (s2, ground arith, v2)

  start-Inv : (handle : Handle) → Inv cq at (start cq at handle)
  unfolding start Fits
  start-Inv handle = record {
    served = new_queues-AllServed cq;
    fits = λ j. ((ground (arith, ap (tally j) cq.contents-unbounded), refl, refl, refl), refl);
  }

  -- Nothing panics.
  pub reached-Inv :
      (acts : List (Action cq at)) (handle : Handle)
      → Next cq at (run cq at acts (start cq at handle))
  reached-Inv acts handle = run-Inv acts (start cq at handle) (start-Inv handle)
