-- ===== src/Task/Executor/Hang.antt =====
-- src/io/shared/handle.rs and src/task/spawn.rs: a task that awaits the first operation of a half.
use wae.Common.{
  ℕ, ◌-◌, ◌≡◌, ◌⊎◌, inl, inr, refl, ap, ◌∙◌, false, Option, none, some, List, [], ◌∷◌, pending, All,
  arith,
}
use wae.Io.State
use wae.Io.Cell
use wae.Io.Waker.{AtomicWaker}
use wae.Io.Handle
use wae.Io.Handle.{Half, new_half, complete}
use wae.Threadpool.Tasks.{Handle, ConcurrentQueue}
use wae.Task.Executor
use wae.Task.Executor.{Phase, idle, running, AsyncTask, Pool, start, end_run}
use wae.Task.Executor.Views.{View, Fits}
use wae.Task.Executor.Invariant.{view, phase_of, Inv}
use wae.Task.Executor.Steps.{step-Inv, end_run-Inv, reached-Inv}
use wae.Task.Executor.Quiet.{Rests, Spares, step-view}
use wae.Task.Executor.Reader.{System, Action, pools, polls, completes, step, run}

Rests-moves : (v w : View) → w ≡ v → Rests v → Rests w
Rests-moves v w e rests = rw e rests

-- A task that runs has no `Runnable`, and one callback.
alone :
    (v : View)
    → v.status ≡ some (running false false)
    → Fits v
    → (v.queued ≡ 0) × (v.held ≡ 0) × (v.running ≡ 1)
unfolding Fits
alone v e f = ground arith

module _ (aw : AtomicWaker) where
  -- An operation is in flight or done, and nobody is registered.
  record Unheard (half : Half aw) : Type 0 where
    word : (half.word ≡ State.pending) ⊎ (half.word ≡ State.ready)
    nobody : (aw.wake half.slot).1 ≡ none

  complete-Unheard :
      (code transferred : ℕ) (half : Half aw)
      → Unheard half
      → (half' : Half aw) × (complete aw code transferred half ≡ some (half', none)) × Unheard half'
  unfolding complete
  complete-Unheard code transferred half u = elim u.word [
    | inl in_flight ↦ (
      record half {
        word = State.ready;
        result = Cell.set code transferred;
        slot = (aw.wake half.slot).0;
      },
      (let nobody = u.nobody in ground arith),
      record { word = inr refl; nobody = aw.wake-wake half.slot },
    )
    | inr over ↦ (half, ground arith, record { word = inr over; nobody = u.nobody })
  ]

  new_half-Unheard :
      (waker address : ℕ)
      → (half : Half aw) × (calls : List Handle.Call) × (Handle.poll aw waker pending
            (new_half aw address)
          ≡ some (half, calls, pending))
        × Unheard half
  unfolding Handle.poll new_half
  new_half-Unheard waker address = (
    record (new_half aw address) { word = State.pending },
    Handle.start_io ∷ [],
    refl,
    record { word = inl refl; nobody = aw.wake-new },
  )

module _ (cq : ConcurrentQueue) (at : AsyncTask) (aw : AtomicWaker) (reader : ℕ) where
  -- The task is idle and has been polled `k` times.
  record Sleeps (k : ℕ) (s : System cq at aw reader) : Type 0 where
    pool : Inv cq at s.pool
    rests : Rests (view cq at reader s.pool)
    half : Unheard aw s.half
    nothing : s.got ≡ none
    times : s.pool.polls reader ≡ k

  -- Nothing but the operation wakes the task, and nobody cancels it.
  abbrev pub LeavesTask : Action cq at aw reader → Type 0
  LeavesTask (pools a) = Spares cq at reader a
  LeavesTask (polls _) = Unit
  LeavesTask (completes _ _) = Unit

  abbrev Sleepily : ℕ → Option (System cq at aw reader) → Type 0
  Sleepily k o = (s' : System cq at aw reader) × (o ≡ some s') × Sleeps k s'

  step-Sleeps :
      (k : ℕ) (a : Action cq at aw reader) (s : System cq at aw reader)
      → LeavesTask a
      → Sleeps k s
      → Sleepily k (step cq at aw reader a s)
  unfolding step
  step-Sleeps k (pools a) s leaves z =
      let (pool, e, v) = step-Inv cq at a s.pool z.pool in
      let same = step-view cq at reader a s.pool pool z.pool.served z.rests leaves e in
      (
        record s { pool = pool },
        ground arith,
        record {
          pool = v;
          rests = Rests-moves (view cq at reader s.pool) (view cq at reader pool) same z.rests;
          half = z.half;
          nothing = z.nothing;
          times = ap (λ (w : View). w.polls) same ∙ z.times;
        },
      )
  step-Sleeps k (polls scheduled) s leaves z = (s, (let rests = z.rests in ground arith), z)
  step-Sleeps k (completes code transferred) s leaves z =
      let (half, e, u) = complete-Unheard aw code transferred s.half z.half in
      (
        record s { half = half },
        ground arith,
        record { pool = z.pool; rests = z.rests; half = u; nothing = z.nothing; times = z.times },
      )

  run-Sleeps :
      (k : ℕ) (acts : List (Action cq at aw reader)) (s : System cq at aw reader)
      → All LeavesTask acts
      → Sleeps k s
      → Sleepily k (run cq at aw reader acts s)
  unfolding run
  run-Sleeps k [] s leaves z = (s, refl, z)
  run-Sleeps k (a ∷ acts) s (leaves, rest) z =
      let (s1, e, z1) = step-Sleeps k a s leaves z in
      let (s2, f, z2) = run-Sleeps k acts s1 rest z1 in (s2, ground arith, z2)

  -- The task has polled the half for the first time.
  first_poll-Sleeps :
      (s : Pool cq at) (t : at.State) (address : ℕ)
      → Inv cq at s
      → s.tasks reader ≡ some t
      → at.phase t ≡ running false false
      → Sleepily (s.polls reader) (
          step cq at aw reader
            (polls pending)
            (record { pool = s; half = new_half aw address; got = none }))
  unfolding step end_run
  first_poll-Sleeps s t address v there runs =
      let (half, calls, e, u) = new_half-Unheard aw reader address in
      let (pool, f, w) = end_run-Inv cq at false reader s v in
      let status : phase_of cq at (s.tasks reader) ≡ some (running false false) = ground arith in
      let (q, h, r) = alone (view cq at reader s) status (v.fits reader) in
      let law = at.phase-end false false false t runs in
      let same : pool ≡ record s {
        tasks = Executor.put reader (some (at.end false t).0) s.tasks;
        running = Executor.put reader (s.running reader - 1) s.running;
      } =
        ground arith in
      (
        record { pool = pool; half = half; got = none },
        ground arith,
        record {
          pool = w;
          rests = rw same (ground arith);
          half = u;
          nothing = refl;
          times = rw same refl;
        },
      )

  -- A task that awaits the first operation of a half is never run again: if the operation goes pending, then
  -- whatever the pool does and though the operation completes, the task stays idle after that one poll
  -- and returns nothing, unless somebody else wakes or cancels it.
  pub first_read_hangs :
      (acts : List (Executor.Action cq at)) (handle : Handle) (s : Pool cq at) (t : at.State)
      (address : ℕ) (later : List (Action cq at aw reader))
      → Executor.run cq at acts (start cq at handle) ≡ some s
      → s.tasks reader ≡ some t
      → at.phase t ≡ running false false
      → All LeavesTask later
      → (s' : System cq at aw reader) × (run cq at aw reader
            (polls pending ∷ later)
            (record { pool = s; half = new_half aw address; got = none })
          ≡ some s')
        × (phase_of cq at (s'.pool.tasks reader) ≡ some idle)
        × (s'.got ≡ none)
        × (s'.pool.polls reader ≡ s.polls reader)
  unfolding run
  first_read_hangs acts handle s t address later reached there runs leaves =
      let (s0, e0, v0) = reached-Inv cq at acts handle in
      let same : s0 ≡ s = ground arith in
      let v : Inv cq at s = rw same at v0 in
      let (s1, e, z) = first_poll-Sleeps s t address v there runs in
      let (s2, f, z2) = run-Sleeps (s.polls reader) later s1 leaves z in
      (s2, ground arith, z2.rests.0, z2.nothing, z2.times)
