-- ===== src/Task/Util.antt =====
-- src/task/util.rs: `may_block` and `yield_now`.
use wae.Common.{
  ℕ, suc, ◌≡◌, refl, Bool, true, false, not, Option, none, some, ◌>>=◌, ◌==◌, if◌then◌else◌, Poll,
  ready, pending,
}
use wae.Context
use wae.Threadpool.Tasks.{Entry, Handle, ConcurrentQueue, run_task}
use wae.Task.BlockOn.{Future, ReadyAt}

-- `Handle::may_block`: `answer` is what `CallbackMayRunLong` returns for the instance.
unfoldable pub may_block : (ℕ → ℕ) → Handle → Bool
may_block answer handle = elim handle.callback_instance [
  | some instance_ ↦ answer instance_ == 1
  | none ↦ false
]

-- `YieldNow::poll`: the state, whether the waker is woken, and the outcome.
unfoldable pub poll_yield : Bool → Bool × Bool × Poll (Unit {0})
poll_yield yielded = if not yielded then (true, true, pending) else (yielded, false, ready tt)

-- `yield_now` as a future whose state also counts the wakes.
abbrev pub yield_now : Future (Bool × ℕ) (Unit {0})
unfolding poll_yield
yield_now = record {
  poll = λ (yielded, wakes).
      let (yielded', woken, outcome) = poll_yield yielded in
      ((yielded', if woken then suc wakes else wakes), outcome);
}

-- `yield_now` is pending at its first poll, having woken its waker once, and ready at the second, at
-- which it wakes nobody.
pub yield_now_once :
    (wakes : ℕ)
    → ReadyAt yield_now 1 (false, wakes) tt
      × ((yield_now.poll (false, wakes)).0 ≡ (true, suc wakes))
      × ((yield_now.poll (true, suc wakes)).0 ≡ (true, suc wakes))
unfolding poll_yield
yield_now_once wakes = ((refl, refl), refl, refl)

-- `may_block`, on the thread's `HANDLE`; `none` is a panic.
unfoldable pub may_block_current : (ℕ → ℕ) → Option Handle → Option Bool
unfolding may_block Context.current
may_block_current answer context = do
  handle ← Context.current context
  some (may_block answer handle)

-- The callback of a task marks the handle that it enters: within it `may_block` asks about the thread
-- that the callback is on.
pub may_block_current-run_task :
    (cq : ConcurrentQueue) (i : ℕ) (context : Option Handle) (entry : Entry) (answer : ℕ → ℕ)
    → may_block_current answer (run_task cq i context entry).during ≡ some (answer i == 1)
unfolding may_block_current run_task
may_block_current-run_task cq i context entry answer = refl
