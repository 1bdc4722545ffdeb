-- ===== src/Examples/Blocks.antt =====
-- src/task/block_on.rs: `block_on` with a task that publishes its output before it wakes.
use wae.Common.{
  arith, ℕ, zero, suc, ◌≡◌, ◌≤◌, ◌⊎◌, ◌==◌, if◌then◌else◌, refl, none, some, List, [], ◌∷◌, ready,
  pending,
}
use wae.Task.BlockOn.Frame.{wake_fn, Task, done, mine, others, alert, start, run, Action}
use wae.Task.BlockOn.Returns.{accesses_of}
use wae.Task.BlockOn.Promises.{Promises, completes_returns}

-- 0: it runs; 1: its output is there, and the waker is to be called; 2: that was done.
abbrev publishes : Task ℕ ℕ
publishes = record {
  poll = λ s. elim s [ zero ↦ (0, some pending) | suc n ↦ (suc n, some (ready 7)) ];
  work = λ thread s. if s == 0 then (1, none) else if s == 1 then (2, some wake_fn) else (s, none);
  detach = λ s. s;
}

publishes-registers : (s s' : ℕ) → publishes.poll s ≡ (s', some pending) → s' ≤ 1
publishes-registers zero s' e = ground arith
publishes-registers (suc n) s' e = absurd (ground arith)

publishes-keeps :
    (thread s : ℕ)
    → s ≤ 1
    → ((publishes.work thread s).1 ≡ some wake_fn) ⊎ ((publishes.work thread s).0 ≤ 1)
publishes-keeps thread s e = ground arith

publishes-Promises : Promises publishes (λ s. s ≤ 1)
publishes-Promises = record { registers = publishes-registers; keeps = publishes-keeps }

-- The loop waits, the output is published, and only then the waker is called.
abbrev publishing : List Action
publishing = mine ∷ mine ∷ mine ∷ others 0 ∷ others 0 ∷ []

completes_returns_example :
    (run publishes
      (alert ∷ accesses_of publishes 3)
      (run publishes publishing (start publishes 0))).loop
    ≡ done 7
unfolding run start
completes_returns_example =
    completes_returns publishes (λ s. s ≤ 1) publishes-Promises publishing 1 0 7
      (λ e. omega (arith, e)) refl
