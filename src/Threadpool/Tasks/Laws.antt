-- ===== src/Threadpool/Tasks/Laws.antt =====
-- src/threadpool.rs and src/task/spawn.rs: no callback finds its queue empty, and each queue runs its
-- tasks in order, each once.
use wae.Common.{
  ℕ, suc, ◌-◌, ◌≡◌, refl, sym, ap, ◌∙◌, ◌⊎◌, inl, inr, false, Option, some, List, [], ◌∷◌, ◌++◌,
  ◌==◌, length, length-append, arith, Bool-cases,
}
use mathlib.Core.List.{append_assoc}
use wae.Threadpool.Priority.{Priority, high, normal, low}
use wae.Threadpool.Tasks.{
  Handle, Entry, ConcurrentQueue, TaskQueue, Queues, new_queues, queue_of, set_queue, submit,
  push_task, serve, callback, Action, pushes, calls_back, step, run,
}

module _ (cq : ConcurrentQueue) where
  -- As many submissions are left as tasks, and what was pushed is what was started and then what waits.
  pub record IsServed (q : TaskQueue cq) : Type 0 where
    pub counted : q.submitted ≡ length (cq.contents q.queue)
    pub ordered : q.pushed ≡ q.started ++ cq.contents q.queue

  abbrev pub AllServed : Queues cq → Type 0
  AllServed qs = (p : Priority) → IsServed (queue_of cq p qs)

  pub new_queues-AllServed : AllServed (new_queues cq)
  unfolding new_queues
  new_queues-AllServed high = record {
    counted = omega (arith, ap length cq.contents-unbounded);
    ordered = sym cq.contents-unbounded;
  }
  new_queues-AllServed p = record {
    counted = omega (arith, ap length cq.contents-unbounded);
    ordered = sym cq.contents-unbounded;
  }

  pub submit-IsServed :
      (x : Entry) (q : TaskQueue cq)
      → IsServed q
      → (q' : TaskQueue cq) × (submit cq x q ≡ some q')
        × IsServed q'
        × (q'.pushed ≡ q.pushed ++ x ∷ [])
        × (q'.started ≡ q.started)
        × (cq.contents q'.queue ≡ cq.contents q.queue ++ x ∷ [])
  unfolding submit
  submit-IsServed x q v =
      let (queue, e, c) = cq.contents-push x q.queue in
      (
        record {
          queue = queue;
          submitted = suc q.submitted;
          pushed = q.pushed ++ x ∷ [];
          started = q.started;
        },
        ground arith,
        record {
          counted =
              omega (arith, v.counted, ap length c, length-append (cq.contents q.queue) (x ∷ []));
          ordered =
              ap (λ l. l ++ x ∷ []) v.ordered
              ∙ (append_assoc q.started (cq.contents q.queue) (x ∷ [])
                  ∙ ap (◌++◌ q.started) (sym c));
        },
        refl,
        refl,
        c,
      )

  pub serve-IsServed :
      (q : TaskQueue cq)
      → IsServed q
      → (q.submitted == 0) ≡ false
      → (x : Entry) × (q' : TaskQueue cq) × (serve cq q ≡ some (x, q'))
        × IsServed q'
        × (q'.pushed ≡ q.pushed)
        × (q'.started ≡ q.started ++ x ∷ [])
        × (cq.contents q.queue ≡ x ∷ cq.contents q'.queue)
  unfolding serve
  serve-IsServed q v pos = elim (cq.contents-pop q.queue) [
    | inl (empty, _) ↦ absurd (ground arith)
    | inr (x, queue, c, e) ↦ (
      x,
      record {
        queue = queue;
        submitted = q.submitted - 1;
        pushed = q.pushed;
        started = q.started ++ x ∷ [];
      },
      ground arith,
      record {
        counted = omega (arith, v.counted, ap length c);
        ordered =
            v.ordered
            ∙ (ap (◌++◌ q.started) c ∙ sym (append_assoc q.started (x ∷ []) (cq.contents queue)));
      },
      refl,
      refl,
      c,
    )
  ]

  pub set_queue-AllServed :
      (p : Priority) (q : TaskQueue cq) (qs : Queues cq)
      → IsServed q
      → AllServed qs
      → AllServed (set_queue cq p q qs)
  set_queue-AllServed high q qs v w high = v
  set_queue-AllServed high q qs v w normal = w normal
  set_queue-AllServed high q qs v w low = w low
  set_queue-AllServed normal q qs v w high = w high
  set_queue-AllServed normal q qs v w normal = v
  set_queue-AllServed normal q qs v w low = w low
  set_queue-AllServed low q qs v w high = w high
  set_queue-AllServed low q qs v w normal = w normal
  set_queue-AllServed low q qs v w low = v

  step-AllServed :
      (a : Action cq) (qs : Queues cq)
      → AllServed qs
      → (qs' : Queues cq) × (step cq a qs ≡ some qs') × AllServed qs'
  unfolding step push_task callback
  step-AllServed (pushes handle runnable) qs v =
      let (q, e, w, _, _, _) =
        submit-IsServed (runnable, handle) (queue_of cq handle.priority qs) (v handle.priority) in
      (
        set_queue cq handle.priority q qs,
        ground arith,
        set_queue-AllServed handle.priority q qs w v,
      )
  step-AllServed (calls_back i context p) qs v =
      elim (Bool-cases ((queue_of cq p qs).submitted == 0)) [
        | inl none_left ↦ (qs, ground arith, v)
        | inr some_left ↦
            let (x, q, e, w, _, _, _) = serve-IsServed (queue_of cq p qs) (v p) some_left in
            (set_queue cq p q qs, ground arith, set_queue-AllServed p q qs w v)
      ]

  pub run-AllServed :
      (acts : List (Action cq)) (qs : Queues cq)
      → AllServed qs
      → (qs' : Queues cq) × (run cq acts qs ≡ some qs') × AllServed qs'
  unfolding run
  run-AllServed [] qs v = (qs, refl, v)
  run-AllServed (a ∷ acts) qs v =
      let (qs1, e, w) = step-AllServed a qs v in
      let (qs2, f, x) = run-AllServed acts qs1 w in (qs2, ground arith, x)

  -- Whatever is pushed, and in whatever order threads call back for submissions, neither a push nor a
  -- callback panics; each queue has as many submissions left as tasks, and its tasks are started in the
  -- order in which they were pushed, each once, those that wait coming next.
  pub run_served :
      (acts : List (Action cq))
      → (qs : Queues cq) × (run cq acts (new_queues cq) ≡ some qs) × AllServed qs
  run_served acts = run-AllServed acts (new_queues cq) new_queues-AllServed

  -- A push goes to the queue of the handle's priority and leaves the other two alone.
  pub push_task-queue :
      (handle : Handle) (runnable : ℕ) (qs : Queues cq) (p : Priority)
      → AllServed qs
      → (qs' : Queues cq) × (push_task cq handle runnable qs ≡ some qs')
        × ((queue_of cq handle.priority qs').pushed
            ≡ (queue_of cq handle.priority qs).pushed ++ (runnable, handle) ∷ [])
        × ((p ≡ handle.priority) ⊎ (queue_of cq p qs' ≡ queue_of cq p qs))
  unfolding push_task
  push_task-queue handle runnable qs p v =
      let (q, e, _, pushed, _, _) =
        submit-IsServed (runnable, handle) (queue_of cq handle.priority qs) (v handle.priority) in
      (set_queue cq handle.priority q qs, ground arith, ground arith, ground arith)

  serve-oldest :
      (q : TaskQueue cq) (x : Entry) (others : List Entry)
      → cq.contents q.queue ≡ x ∷ others
      → (q' : TaskQueue cq) × (serve cq q ≡ some (x, q')) × (cq.contents q'.queue ≡ others)
  unfolding serve
  serve-oldest q x others e = elim (cq.contents-pop q.queue) [
    | inl (empty, _) ↦ cc
    | inr (y, queue, c, popped) ↦ (
      record {
        queue = queue;
        submitted = q.submitted - 1;
        pushed = q.pushed;
        started = q.started ++ x ∷ [];
      },
      ground arith,
      ground arith,
    )
  ]

  pub contents-set_queue :
      (p : Priority) (q : TaskQueue cq) (qs : Queues cq) → queue_of cq p (set_queue cq p q qs) ≡ q
  contents-set_queue high q qs = refl
  contents-set_queue _ q qs = refl

  -- A callback for a queue with tasks runs its oldest one, with that task's handle as the thread's
  -- current handle, marked with the callback's instance; the thread's handle is as before afterwards.
  pub callback-oldest :
      (i : ℕ) (context : Option Handle) (p : Priority) (qs : Queues cq) (runnable : ℕ)
      (handle : Handle) (others : List Entry)
      → cq.contents (queue_of cq p qs).queue ≡ (runnable, handle) ∷ others
      → (qs' : Queues cq) × (callback cq i context p qs
          ≡ some (
            record {
              runnable = runnable;
              during = some (record handle { callback_instance = some i });
              after = context;
            },
            qs',
          ))
        × (cq.contents (queue_of cq p qs').queue ≡ others)
  unfolding callback
  callback-oldest i context p qs runnable handle others e =
      let (q, served, rest) = serve-oldest (queue_of cq p qs) (runnable, handle) others e in
      (
        set_queue cq p q qs,
        ground arith,
        ap (λ t. cq.contents t.queue) (contents-set_queue p q qs) ∙ rest,
      )
