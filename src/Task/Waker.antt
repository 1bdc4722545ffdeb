-- ===== src/Task/Waker.antt =====
-- src/task/waker.rs: `InlineWaker`, one thread that waits on a word and any number that wake it, an
-- access at a time.
use wae.Common.{ℕ, suc, ◌-◌, ◌≤◌, ◌<◌, ◌≡◌, ◌≢◌, not, List, [], ◌∷◌, ◌==◌, if◌then◌else◌, arith}

-- Where the waiting thread stands.
pub data Waiter : Type 0 where
  away : Waiter
  loading : Waiter  -- before `state.load`
  calling : Waiter  -- before `WaitOnAddress`
  blocked : Waiter  -- inside it
  returned : Waiter  -- `wait` has returned

pub record System : Type 0 where
  pub state : ℕ
  pub waiter : Waiter
  pub alerts : ℕ  -- threads that have won the exchange and not yet called `WakeByAddressAll`

-- `InlineWaker::new`
unfoldable pub init : System
init = record { state = 0; waiter = away; alerts = 0 }

-- `WaitOnAddress` blocks if the word is still 0, and may return for no reason (`stirs`).
pub data Action : Type 0 where
  starts waits wakes alert stirs : Action

unfoldable pub wait_step : Waiter → System → System
wait_step loading s = record s { waiter = if not (s.state == 1) then calling else returned }
wait_step calling s = record s { waiter = if s.state == 0 then blocked else loading }
wait_step _ s = s

abbrev pub unblocked : Waiter → Waiter
unblocked blocked = loading
unblocked w = w

abbrev pub starting : Waiter → Waiter
starting away = loading
starting returned = loading
starting w = w

unfoldable pub step : Action → System → System
unfolding wait_step
step starts s = record s { waiter = starting s.waiter }
step waits s = wait_step s.waiter s
step wakes s = if s.state == 0 then record s { state = 1; alerts = suc s.alerts } else s
step alert s =
    if s.alerts == 0 then s else record s { alerts = s.alerts - 1; waiter = unblocked s.waiter }
step stirs s = record s { waiter = unblocked s.waiter }

unfoldable pub run : List Action → System → System
unfolding step
run [] s = s
run (a ∷ acts) s = run acts (step a s)

pub record Inv (s : System) : Type 0 where
  pub binary : s.state ≤ 1
  pub once : s.alerts ≤ s.state
  pub heard : s.waiter ≡ blocked → s.state ≡ 1 → 0 < s.alerts
  pub early : s.waiter ≡ returned → s.state ≡ 1

pub step-Inv : (a : Action) (s : System) → Inv s → Inv (step a s)
unfolding step
step-Inv starts s v = ground arith
step-Inv a s v = ground arith

run-Inv : (acts : List Action) (s : System) → Inv s → Inv (run acts s)
unfolding run
run-Inv [] s v = v
run-Inv (a ∷ acts) s v = run-Inv acts (step a s) (step-Inv a s v)

pub init-Inv : Inv init
unfolding init
init-Inv = ground arith

-- `wait` returns only after some thread has called `wake`.
pub wait_needs_wake :
    (acts : List Action) → (run acts init).waiter ≡ returned → (run acts init).state ≡ 1
wait_needs_wake acts e = (run-Inv acts init init-Inv).early e

-- No wakeup is lost: once some thread has called `wake`, the waiting thread returns after the alert
-- that may still be due and three accesses of its own, wherever it stood.
pub wake_returns :
    (acts : List Action)
    → (run acts init).state ≡ 1
    → (run acts init).waiter ≢ away
    → (run (alert ∷ waits ∷ waits ∷ waits ∷ []) (run acts init)).waiter ≡ returned
unfolding run
wake_returns acts e n = let v = run-Inv acts init init-Inv in ground arith

pub step-woken : (a : Action) (s : System) → s.state ≡ 1 → (step a s).state ≡ 1
unfolding step
step-woken starts s e = ground arith
step-woken a s e = ground arith

pub wakes-woken : (s : System) → Inv s → (step wakes s).state ≡ 1
unfolding step
wakes-woken s v = ground arith

stays_woken : (acts : List Action) (s : System) → s.state ≡ 1 → (run acts s).state ≡ 1
unfolding run
stays_woken [] s e = e
stays_woken (a ∷ acts) s e = stays_woken acts (step a s) (step-woken a s e)

-- The word is never reset: after one wake, every later wait that starts returns at its first access,
-- whatever came between and though nobody wakes again.
pub later_waits_return :
    (acts later : List Action)
    → (run acts init).state ≡ 1
    → (run later (run acts init)).waiter ≡ returned
    → (run (starts ∷ waits ∷ []) (run later (run acts init))).waiter ≡ returned
unfolding run
later_waits_return acts later e r = let k = stays_woken later (run acts init) e in ground arith
