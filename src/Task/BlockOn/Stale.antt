-- ===== src/Task/BlockOn/Stale.antt =====
-- src/task/block_on.rs and src/task/waker.rs: calls on the waker of `block_on` after it has returned, when
-- the word that the waker leads to is gone.
use wae.Common.{ℕ, ◌+◌, ◌≡◌, ap, ◌∙◌, some, List, [], ◌∷◌, arith, ready}
use wae.Task.BlockOn.Frame.{Task, polling, done, Frame, Action, mine, others, accesses, step, run}

abbrev pub all_others : List ℕ → List Action
all_others [] = []
all_others (thread ∷ threads) = others thread ∷ all_others threads

module _ {S T : Type 0} (task : Task S T) where
  -- How often steps of the other threads access the word of the waker from a state of the task on.
  abbrev pub touching : List ℕ → S → ℕ
  unfolding accesses
  touching [] s = 0
  touching (thread ∷ threads) s =
      let (s', method) = task.work thread s in accesses method + touching threads s'

  after_done :
      (threads : List ℕ) (f : Frame S T) (output : T)
      → (run task (all_others threads) (record f { loop = done output })).stale
        ≡ f.stale + touching threads f.task
  unfolding run
  after_done [] f output = omega arith
  after_done (thread ∷ threads) f output =
      let (s, method) = task.work thread f.task in
      let next : Frame S T = record f { task = s; stale = f.stale + accesses method } in
      omega (arith, after_done threads next output)

  -- Each access with which the other threads wake the task after a poll has found it ready is an access to
  -- the frame that `block_on` has left.
  pub stale_after_return :
      (threads : List ℕ) (f : Frame S T) (s : S) (output : T)
      → f.loop ≡ polling
      → task.poll f.task ≡ (s, some (ready output))
      → (run task (mine ∷ all_others threads) f).stale ≡ f.stale + touching threads (task.detach s)
  unfolding run
  stale_after_return threads f s output e q =
      let left : Frame S T = record f { loop = done output; task = task.detach s } in
      let returns : step task mine f ≡ left = ground arith in
      ap (λ g. (run task (all_others threads) g).stale) returns
      ∙ after_done threads (record f { task = task.detach s }) output
