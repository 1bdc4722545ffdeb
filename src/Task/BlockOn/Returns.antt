-- ===== src/Task/BlockOn/Returns.antt =====
-- src/task/block_on.rs and src/task/waker.rs: when `block_on` returns.
use wae.Common.{
  ap, ◌∙◌, ℕ, zero, suc, ◌≤◌, ◌-◌, ◌≡◌, refl, ◌⊎◌, inl, inr, Bool, true, false, Option, none, some,
  List, [], ◌∷◌, arith, Poll, ready, pending,
}
use wae.Task.Waker
use wae.Task.Waker.{System, Waiter, away, loading, calling, blocked, returned, starts, waits, wakes}
use wae.Task.BlockOn.Frame.{
  Method, wake_fn, Task, Loop, polling, waiting, done, Frame, Action, mine, others, alert, stirs,
  start, step, run, reach, polled, mine_step,
}

abbrev pub is_inside : Waiter → Bool
is_inside away = false
is_inside loading = true
is_inside calling = true
is_inside blocked = true
is_inside returned = false

abbrev pub in_wait : {T : Type 0} → Loop T → Bool
in_wait waiting = true
in_wait _ = false

module _ {S T : Type 0} (task : Task S T) where
  -- The thread is in `wait` exactly while the loop waits.
  pub record Inv (f : Frame S T) : Type 0 where
    pub waker : Waker.Inv f.word
    pub fits : is_inside f.word.waiter ≡ in_wait f.loop

  polled-Inv :
      (p : S × Option (Poll T)) (f : Frame S T) → f.loop ≡ polling → Inv f → Inv (polled task p f)
  unfolding polled
  polled-Inv (s, none) f e v = record { waker = v.waker; fits = v.fits }
  polled-Inv (s, some (ready output)) f e v = record { waker = v.waker; fits = ground arith }
  polled-Inv (s, some pending) f e v = record {
    waker = Waker.step-Inv starts f.word v.waker;
    fits = (let fits = v.fits in ground arith);
  }

  mine-Inv : (l : Loop T) (f : Frame S T) → f.loop ≡ l → Inv f → Inv (mine_step task l f)
  unfolding mine_step
  mine-Inv polling f e v = polled-Inv (task.poll f.task) f e v
  mine-Inv waiting f e v = record {
    waker = Waker.step-Inv waits f.word v.waker;
    fits = (let fits = v.fits in ground arith);
  }
  mine-Inv (done output) f e v = v

  reach-Inv :
      (l : Loop T) (s : S) (method : Option Method) (f : Frame S T)
      → f.loop ≡ l
      → Inv f
      → Inv (reach task l method (record f { task = s }))
  unfolding reach
  reach-Inv (done output) s method f e v = record { waker = v.waker; fits = v.fits }
  reach-Inv l s (some wake_fn) f e v = record {
    waker = Waker.step-Inv wakes f.word v.waker;
    fits = (let fits = v.fits in ground arith);
  }
  reach-Inv l s method f e v = record { waker = v.waker; fits = v.fits }

  pub step-Inv : (a : Action) (f : Frame S T) → Inv f → Inv (step task a f)
  unfolding step
  step-Inv mine f v = mine-Inv f.loop f refl v
  step-Inv (others thread) f v =
      let (s, method) = task.work thread f.task in reach-Inv f.loop s method f refl v
  step-Inv alert f v = record {
    waker = Waker.step-Inv Waker.alert f.word v.waker;
    fits = (let fits = v.fits in ground arith);
  }
  step-Inv stirs f v = record {
    waker = Waker.step-Inv Waker.stirs f.word v.waker;
    fits = (let fits = v.fits in ground arith);
  }

  pub start-Inv : (s : S) → Inv (start task s)
  unfolding start
  start-Inv s = record { waker = Waker.init-Inv; fits = refl }

  run-Inv : (acts : List Action) (f : Frame S T) → Inv f → Inv (run task acts f)
  unfolding run
  run-Inv [] f v = v
  run-Inv (a ∷ acts) f v = run-Inv acts (step task a f) (step-Inv a f v)

  -- What the loop ends with if the task is ready with `output`.
  abbrev pub ended : Loop T → T → Loop T
  ended (done output') output = done output'
  ended polling output = done output
  ended waiting output = done output

  abbrev pub settled : Option (Poll T) → Option T → Option T
  settled none rest = rest
  settled (some pending) rest = none
  settled (some (ready output)) rest = some output

  -- What the poll of a task gives in at most `n` accesses, if it finds it ready.
  abbrev pub poll_out : ℕ → S → Option T
  poll_out zero s = none
  poll_out (suc n) s = let (s', p) = task.poll s in settled p (poll_out n s')

  abbrev pub accesses_of : ℕ → List Action
  accesses_of zero = []
  accesses_of (suc n) = mine ∷ accesses_of n

  pub stays_done :
      (n : ℕ) (f : Frame S T) (output : T)
      → (run task (accesses_of n) (record f { loop = done output })).loop ≡ done output
  unfolding run
  stays_done zero f output = refl
  stays_done (suc n) f output = stays_done n f output

  -- A poll that goes on.
  pub polls_out :
      (n m : ℕ) (f : Frame S T) (output : T)
      → n ≤ m
      → poll_out n f.task ≡ some output
      → (run task (accesses_of m) (record f { loop = polling })).loop ≡ done output
  unfolding run polled
  polls_out zero m f output le q = absurd (ground arith)
  polls_out (suc n) zero f output le q = absurd (omega arith)
  polls_out (suc n) (suc m) f output le q =
      go (task.poll f.task) (λ s. polls_out n m (record f { task = s }) output (omega arith)) q
    where
      go :
          (p : S × Option (Poll T))
          → ((s : S)
              → poll_out n s ≡ some output
              → (run task (accesses_of m) (record f { loop = polling; task = s })).loop
                ≡ done output)
          → settled p.1 (poll_out n p.0) ≡ some output
          → (run task (accesses_of m) (polled task p (record f { loop = polling }))).loop
            ≡ done output
      go (s, none) rest q' = rest s q'
      go (s, some pending) rest q' = absurd (ground arith)
      go (s, some (ready o)) rest q' =
          stays_done m (record f { task = task.detach s }) o ∙ ground arith

  -- A waiting loop, and the loop once its wait has returned.
  abbrev inside : Frame S T → Frame S T
  inside f = record f { loop = waiting }

  abbrev outside : Frame S T → Frame S T
  outside f = record f {
    loop = polling;
    word = record f.word { waiter = returned; alerts = f.word.alerts - 1 };
  }

  wait_ends :
      (f : Frame S T)
      → is_inside f.word.waiter ≡ true
      → Waker.Inv f.word
      → f.word.state ≡ 1
      → (run task (alert ∷ mine ∷ []) (inside f) ≡ outside f)
        ⊎ (run task (alert ∷ mine ∷ mine ∷ []) (inside f) ≡ outside f)
  unfolding run
  wait_ends f fits v e = ground arith

  pub ends :
      (n : ℕ) (l : Loop T) (f : Frame S T) (output : T)
      → is_inside f.word.waiter ≡ in_wait l
      → Waker.Inv f.word
      → f.word.state ≡ 1
      → poll_out n f.task ≡ some output
      → (run task (alert ∷ accesses_of (suc (suc n))) (record f { loop = l })).loop ≡ ended l output
  unfolding run
  ends n polling f output fits v e q =
      polls_out n (suc (suc n)) (record f { word = Waker.step Waker.alert f.word }) output
        (omega arith) q
  ends n waiting f output fits v e q = elim (wait_ends f fits v e) [
    | inl p ↦
        ap (λ g. (run task (accesses_of (suc n)) g).loop) p
        ∙ polls_out n (suc n) (outside f) output (omega arith) q
    | inr p ↦
        ap (λ g. (run task (accesses_of n) g).loop) p
        ∙ polls_out n n (outside f) output (omega arith) q
  ]
  ends n (done o) f output fits v e q =
      stays_done (suc (suc n)) (record f { word = Waker.step Waker.alert f.word }) o

  -- Once a thread has woken a task that a poll finds ready, `block_on` returns its output after the alert
  -- that may still be due and two accesses more than the poll has, wherever it stood; unless it has
  -- returned already.
  pub woken_returns :
      (acts : List Action) (n : ℕ) (s : S) (output : T)
      → (run task acts (start task s)).word.state ≡ 1
      → poll_out n (run task acts (start task s)).task ≡ some output
      → (run task (alert ∷ accesses_of (suc (suc n))) (run task acts (start task s))).loop
        ≡ ended (run task acts (start task s)).loop output
  woken_returns acts n s output e q =
      let f = run task acts (start task s) in
      let v = run-Inv acts (start task s) (start-Inv s) in ends n f.loop f output v.fits v.waker e q
