-- ===== src/Task/Executor/Views.antt =====
-- src/task/spawn.rs: a pool as one of its tasks sees it, and what the steps of the pool do to that.
use wae.Common.{
  ℕ, suc, ◌+◌, ◌-◌, ◌≤◌, ◌<◌, ◌≡◌, ◌⊎◌, refl, Bool, true, false, Option, none, some, if◌then◌else◌,
  arith,
}
use wae.Task.Executor.{
  Phase, idle, scheduled, completed, running, after_wake, after_cancel, after_begin, after_poll,
}

-- Its phase (`none` before it is spawned), its runnables in the queues and in callbacks, the callbacks that
-- poll it, and its history.
pub record View : Type 0 where
  pub status : Option Phase
  pub queued : ℕ
  pub held : ℕ
  pub running : ℕ
  pub polls : ℕ
  pub wakes : ℕ
  pub owed : Bool
  pub cancelled : Bool
  pub late : ℕ

-- A call of `schedule`, if there is one.
abbrev pub added : Bool → View → View
added calls v = if calls then record v { queued = suc v.queued } else v

abbrev pub spawned : View → View
spawned v = elim v.status [
  | some _ ↦ v
  | none ↦ record v { status = some (scheduled false); queued = suc v.queued }
]

abbrev pub woken : View → View
woken v = elim v.status [
  | none ↦ v
  | some ph ↦
      added (after_wake ph).1
        (record v { status = some (after_wake ph).0; wakes = suc v.wakes; owed = true })
]

abbrev pub popped : View → View
popped v = record v { queued = v.queued - 1; held = suc v.held }

abbrev pub cut : View → View
cut v = elim v.status [
  | none ↦ v
  | some ph ↦
      added (after_cancel ph).1 (record v { status = some (after_cancel ph).0; cancelled = true })
]

abbrev pub begun : Bool → View → View
begun cancelled v =
    let released : View = record v { status = some (after_begin cancelled).0; held = v.held - 1 } in
    if (after_begin cancelled).1
    then record released {
      running = suc v.running;
      polls = suc v.polls;
      owed = false;
      late = if v.cancelled then suc v.late else v.late;
    }
    else released

abbrev pub ended : Bool → Bool → Bool → View → View
ended ready woken cancelled v =
    added (after_poll ready woken cancelled).1
      (record v { status = some (after_poll ready woken cancelled).0; running = v.running - 1 })

-- The runnables and callbacks of a task agree with its phase; it is woken if it owes a poll; its polls are
-- counted by its wakes; and none came after its cancellation.
abbrev Stands : Option Phase → View → Type 0
Stands none v =
    (v.queued + v.held + v.running ≡ 0) × (v.polls ≡ 0) × (v.owed ≡ false) × (v.cancelled ≡ false)
Stands (some idle) v =
    (v.queued + v.held + v.running ≡ 0)
    × (v.owed ≡ false)
    × (v.cancelled ≡ false)
    × (v.polls ≤ suc v.wakes)
Stands (some (scheduled c)) v =
    (v.queued + v.held ≡ 1)
    × (v.running ≡ 0)
    × (v.cancelled ≡ c)
    × (v.polls + 1 ≤ suc v.wakes + (if c then 1 else 0))
Stands (some (running w c)) v =
    (v.queued + v.held ≡ 0)
    × (v.running ≡ 1)
    × (v.cancelled ≡ c)
    × ((v.owed ≡ w) ⊎ (c ≡ true))
    × (v.polls + (if w then 1 else 0) ≤ suc v.wakes)
Stands (some completed) v = (v.queued + v.held + v.running ≡ 0) × (v.polls ≤ suc v.wakes)

unfoldable pub Fits : View → Type 0
Fits v = Stands v.status v × (v.late ≡ 0)

pub spawned-Fits : (v : View) → Fits v → Fits (spawned v)
unfolding Fits
spawned-Fits v f = ground arith

pub woken-Fits : (v : View) → Fits v → Fits (woken v)
unfolding Fits
woken-Fits v f = ground arith

pub popped-Fits : (v : View) → 0 < v.queued → Fits v → Fits (popped v)
unfolding Fits
popped-Fits v l f = ground arith

pub cut-Fits : (v : View) → Fits v → Fits (cut v)
unfolding Fits
cut-Fits v f = ground arith

pub begun-Fits :
    (cancelled : Bool) (v : View)
    → 0 < v.held
    → v.status ≡ some (scheduled cancelled)
    → Fits v
    → Fits (begun cancelled v)
unfolding Fits
begun-Fits cancelled v l e f = ground arith

pub ended-Fits :
    (ready woken cancelled : Bool) (v : View)
    → v.status ≡ some (running woken cancelled)
    → Fits v
    → Fits (ended ready woken cancelled v)
unfolding Fits
ended-Fits ready woken cancelled v e f = ground arith

-- A held `Runnable` is that of a task with the phase `scheduled`, and a callback polls a task that runs.
pub held-phase :
    (v : View) → 0 < v.held → Fits v → (cancelled : Bool) × (v.status ≡ some (scheduled cancelled))
unfolding Fits
held-phase v l f = go v.status f.0 refl
  where
    go :
        (o : Option Phase)
        → Stands o v
        → v.status ≡ o
        → (cancelled : Bool) × (v.status ≡ some (scheduled cancelled))
    go (some (scheduled c)) f e = (c, e)
    go (some idle) f e = absurd (omega arith)
    go (some (running w c)) f e = absurd (omega arith)
    go (some completed) f e = absurd (omega arith)
    go none f e = absurd (omega arith)

pub running-phase :
    (v : View)
    → 0 < v.running
    → Fits v
    → (woken cancelled : Bool) × (v.status ≡ some (running woken cancelled))
unfolding Fits
running-phase v l f = go v.status f.0 refl
  where
    go :
        (o : Option Phase)
        → Stands o v
        → v.status ≡ o
        → (woken cancelled : Bool) × (v.status ≡ some (running woken cancelled))
    go (some (running w c)) f e = (w, c, e)
    go (some idle) f e = absurd (omega arith)
    go (some (scheduled c)) f e = absurd (omega arith)
    go (some completed) f e = absurd (omega arith)
    go none f e = absurd (omega arith)
