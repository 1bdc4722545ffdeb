-- ===== src/Threadpool/Life.antt =====
-- src/threadpool.rs and src/task/spawn.rs: who holds a `Handle` of a pool, and where the drop of the last
-- one closes the pool. `CloseThreadpoolCleanupGroupMembers` returns when no callback is at work.
use wae.Common.{
  ℕ, zero, suc, ◌+◌, ◌-◌, ◌≤◌, ◌<◌, ◌≡◌, Bool, true, false, List, [], ◌∷◌, ◌==◌, ltb, if◌then◌else◌,
  arith,
}

-- Where the shared part of the handles is: in use, being dropped by the owner of a handle, or by a callback
-- of the pool itself, or gone.
pub data Phase : Type 0 where
  in_use closing closing_in_callback freed : Phase

-- The handles that users and tasks hold, those in the entries of the queues, those that callbacks of tasks
-- hold, all callbacks of tasks at work, and the other callbacks of the cleanup group at work: those of I/O
-- and waits, which hold no handle.
pub record Life : Type 0 where
  pub held : ℕ
  pub queued : ℕ
  pub keeping : ℕ
  pub running : ℕ
  pub others : ℕ
  pub phase : Phase

-- A pool that has just been built.
unfoldable pub init : Life
init = record { held = 1; queued = 0; keeping = 0; running = 0; others = 0; phase = in_use }

pub data Action : Type 0 where
  clones pushes drops begins lets_go returns others_begin others_return closes : Action

-- `Clone` of a `Handle`.
unfoldable pub clone_handle : Life → Life
clone_handle s = if s.held == 0 then s else record s { held = suc s.held }

-- `push_task` puts a clone of its handle in the queue.
unfoldable pub push_task : Life → Life
push_task s = if s.held == 0 then s else record s { queued = suc s.queued }

-- The drop of a handle by its owner; that of the last one drops the shared part.
unfoldable pub drop_handle : Life → Life
drop_handle s =
    let s' = record s { held = s.held - 1 } in
    let dropped =
      if s'.held + s'.queued + s'.keeping == 0 then record s' { phase = closing } else s' in
    if s.held == 0 then s else dropped

-- `callback` takes an entry of the queue, with its handle.
unfoldable pub begin_callback : Life → Life
begin_callback s =
    if s.queued == 0
    then s
    else record s { queued = s.queued - 1; keeping = suc s.keeping; running = suc s.running }

-- At its end `callback` drops the handle of its entry, still running.
unfoldable pub end_callback : Life → Life
end_callback s =
    let s' = record s { keeping = s.keeping - 1 } in
    let dropped =
      if s'.held + s'.queued + s'.keeping == 0
      then record s' { phase = closing_in_callback }
      else s' in
    if s.keeping == 0 then s else dropped

-- A callback that has dropped its handle returns; one that is about to free the pool does not yet.
unfoldable pub return_callback : Life → Life
return_callback s =
    let busy : ℕ = elim s.phase [ closing_in_callback ↦ suc s.keeping | _ ↦ s.keeping ] in
    if ltb busy s.running then record s { running = s.running - 1 } else s

-- The drop of the shared part, once `CloseThreadpoolCleanupGroupMembers` has returned.
unfoldable pub close : Life → Life
close s = if s.running + s.others == 0 then record s { phase = freed } else s

abbrev pub is_in_use : Phase → Bool
is_in_use in_use = true
is_in_use _ = false

-- Callbacks that have not begun when the members are closed are cancelled.
unfoldable pub step : Action → Life → Life
unfolding clone_handle push_task drop_handle begin_callback end_callback return_callback close
step closes s = elim s.phase [ closing ↦ close s | closing_in_callback ↦ close s | _ ↦ s ]
step clones s = if is_in_use s.phase then clone_handle s else s
step pushes s = if is_in_use s.phase then push_task s else s
step drops s = if is_in_use s.phase then drop_handle s else s
step begins s = if is_in_use s.phase then begin_callback s else s
step lets_go s = if is_in_use s.phase then end_callback s else s
step returns s = return_callback s
step others_begin s = if is_in_use s.phase then record s { others = suc s.others } else s
step others_return s = record s { others = s.others - 1 }

unfoldable pub run : List Action → Life → Life
unfolding step
run [] s = s
run (a ∷ acts) s = run acts (step a s)

record Inv (s : Life) : Type 0 where
  kept : s.keeping ≤ s.running
  outside : s.phase ≡ closing → s.keeping ≡ 0
  inside : s.phase ≡ closing_in_callback → (s.keeping ≡ 0) × (0 < s.running)

step-Inv : (a : Action) (s : Life) → Inv s → Inv (step a s)
unfolding step
step-Inv a s v = ground arith

run-Inv : (acts : List Action) (s : Life) → Inv s → Inv (run acts s)
unfolding run
run-Inv [] s v = v
run-Inv (a ∷ acts) s v = run-Inv acts (step a s) (step-Inv a s v)

init-Inv : Inv init
unfolding init
init-Inv = ground arith

record IsStuck (s : Life) : Type 0 where
  phase : s.phase ≡ closing_in_callback
  running : 0 < s.running

step-IsStuck : (a : Action) (s : Life) → IsStuck s → IsStuck (step a s)
unfolding step
step-IsStuck a s v = ground arith

run-IsStuck : (acts : List Action) (s : Life) → IsStuck s → IsStuck (run acts s)
unfolding run
run-IsStuck [] s v = v
run-IsStuck (a ∷ acts) s v = run-IsStuck acts (step a s) (step-IsStuck a s v)

-- Callbacks of tasks, and then as many others, return; then the members are closed.
abbrev pub all_return : ℕ → ℕ → List Action
all_return zero zero = closes ∷ []
all_return zero (suc others) = others_return ∷ all_return zero others
all_return (suc running) others = returns ∷ all_return running others

-- If the last handle is that of a callback, which drops it before it returns, the drop waits for the
-- callbacks at work and so for itself: the pool is never freed, whatever happens afterwards.
pub last_handle_hangs :
    (acts later : List Action)
    → (run acts init).phase ≡ closing_in_callback
    → (run later (run acts init)).phase ≡ closing_in_callback
last_handle_hangs acts later p =
    let v = run-Inv acts init init-Inv in
    (run-IsStuck later (run acts init) (record { phase = p; running = (v.inside p).1 })).phase
