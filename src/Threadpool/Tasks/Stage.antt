-- ===== src/Threadpool/Tasks/Stage.antt =====
-- src/threadpool.rs: what the pushes and the callbacks do to one entry of a task queue.
use mathlib.Core.List.{append_assoc}
use wae.Common.{
  ℕ, suc, ◌+◌, ◌<◌, ◌≡◌, refl, ap, ◌∙◌, inl, inr, Bool, true, false, some, List, [], ◌∷◌, ◌++◌,
  ◌==◌, if◌then◌else◌, length, length-append, Bool-cases, arith,
}
use wae.Threadpool.Priority.{Priority, high, normal, low}
use wae.Threadpool.Tasks.{
  Handle, Entry, ConcurrentQueue, TaskQueue, Queues, queue_of, set_queue, push_task, callback,
  Action, pushes, calls_back, step, run,
}
use wae.Threadpool.Tasks.Laws.{
  AllServed, IsServed, submit-IsServed, serve-IsServed, set_queue-AllServed,
}

abbrev pub is_same : Priority → Priority → Bool
is_same high high = true
is_same normal normal = true
is_same low low = true
is_same _ _ = false

module _ (cq : ConcurrentQueue) where
  -- How many of the callbacks are for the queue of a priority.
  abbrev pub callbacks_for : Priority → List (Action cq) → ℕ
  callbacks_for p [] = 0
  callbacks_for p (pushes _ _ ∷ acts) = callbacks_for p acts
  callbacks_for p (calls_back _ _ p' ∷ acts) =
      let rest = callbacks_for p acts in if is_same p' p then suc rest else rest

  same_queue :
      (p' p : Priority) (qs : Queues cq)
      → is_same p' p ≡ true
      → queue_of cq p' qs ≡ queue_of cq p qs
  same_queue high p qs e = ground arith
  same_queue normal p qs e = ground arith
  same_queue low p qs e = ground arith

  module _ (k : ℕ) (x : Entry) where
    -- The entry number `k` of a queue: it waits behind fewer entries than callbacks are to come, or it has
    -- been started.
    pub data Stage (n : ℕ) (q : TaskQueue cq) : Type 0 where
      waits :
          (others more : List Entry)
          → cq.contents q.queue ≡ others ++ x ∷ more
          → length q.started + length others ≡ k
          → length others < n
          → Stage n q
      begun :
          (before after : List Entry)
          → q.started ≡ before ++ x ∷ after
          → length before ≡ k
          → Stage n q

    pushed-Stage :
        {n : ℕ} (y : Entry) (q q' : TaskQueue cq)
        → cq.contents q'.queue ≡ cq.contents q.queue ++ y ∷ []
        → q'.started ≡ q.started
        → Stage n q
        → Stage n q'
    pushed-Stage y q q' c s (waits others more e l u) =
        waits others (more ++ y ∷ [])
          (c ∙ (ap (λ z. z ++ y ∷ []) e ∙ append_assoc others (x ∷ more) (y ∷ [])))
          (omega (arith, ap length s)) u
    pushed-Stage y q q' c s (begun before after e l) = begun before after (s ∙ e) l

    served-Stage :
        {n : ℕ} (y : Entry) (q q' : TaskQueue cq)
        → cq.contents q.queue ≡ y ∷ cq.contents q'.queue
        → q'.started ≡ q.started ++ y ∷ []
        → Stage (suc n) q
        → Stage n q'
    served-Stage y q q' c s (waits [] more e l u) =
        let oldest : y ≡ x = cc in
        begun q.started [] (s ∙ ap (λ z. q.started ++ z ∷ []) oldest) (omega arith)
    served-Stage y q q' c s (waits (o ∷ others) more e l u) =
        let next : cq.contents q'.queue ≡ others ++ x ∷ more = cc in
        let longer : length q'.started ≡ suc (length q.started) =
          omega (arith, ap length s, length-append q.started (y ∷ [])) in
        waits others more next (omega arith) (omega arith)
    served-Stage y q q' c s (begun before after e l) =
        begun before (after ++ y ∷ [])
          (s ∙ (ap (λ z. z ++ y ∷ []) e ∙ append_assoc before (x ∷ after) (y ∷ []))) l

    -- A queue with no submission left has nothing that waits.
    none_left-Stage :
        {n m : ℕ} (q : TaskQueue cq)
        → IsServed cq q
        → (q.submitted == 0) ≡ true
        → Stage n q
        → Stage m q
    none_left-Stage q v e (waits others more c l u) =
        let some_wait = ap length c in
        let counted = length-append others (x ∷ more) in
        let counted' = v.counted in absurd (ground arith)
    none_left-Stage q v e (begun before after s l) = begun before after s l

    set_queue-Stage :
        {n : ℕ} (p' p : Priority) (q : TaskQueue cq) (qs : Queues cq)
        → (is_same p' p ≡ true → Stage n q)
        → (is_same p' p ≡ false → Stage n (queue_of cq p qs))
        → Stage n (queue_of cq p (set_queue cq p' q qs))
    set_queue-Stage high high q qs same other = same refl
    set_queue-Stage high normal q qs same other = other refl
    set_queue-Stage high low q qs same other = other refl
    set_queue-Stage normal high q qs same other = other refl
    set_queue-Stage normal normal q qs same other = same refl
    set_queue-Stage normal low q qs same other = other refl
    set_queue-Stage low high q qs same other = other refl
    set_queue-Stage low normal q qs same other = other refl
    set_queue-Stage low low q qs same other = same refl

    -- A push keeps the stage of an entry.
    push-Stage :
        {n : ℕ} (handle : Handle) (runnable : ℕ) (p : Priority) (qs : Queues cq)
        → AllServed cq qs
        → Stage n (queue_of cq p qs)
        → (qs' : Queues cq) × (push_task cq handle runnable qs ≡ some qs')
          × AllServed cq qs'
          × Stage n (queue_of cq p qs')
    unfolding push_task
    push-Stage handle runnable p qs v st =
        let p' = handle.priority in
        let (q, e, w, _, s, c) = submit-IsServed cq (runnable, handle) (queue_of cq p' qs) (v p') in
        (
          set_queue cq p' q qs,
          ground arith,
          set_queue-AllServed cq p' q qs w v,
          set_queue-Stage p' p q qs
              (λ same.
                pushed-Stage (runnable, handle) (queue_of cq p' qs) q c s
                  (rw (same_queue p' p qs same) st))
              (λ other. st),
        )

    -- A callback for the same queue is one of those to come.
    counted :
        (b : Bool) (n : ℕ) (q : TaskQueue cq)
        → Stage (if b then suc n else n) q
        → (b ≡ true → Stage (suc n) q) × (b ≡ false → Stage n q)
    counted true n q st = (λ e. st, λ e. absurd (ground arith))
    counted false n q st = (λ e. absurd (ground arith), λ e. st)

    pub run_stage :
        (acts : List (Action cq)) (p : Priority) (qs : Queues cq)
        → AllServed cq qs
        → Stage (callbacks_for p acts) (queue_of cq p qs)
        → (qs' : Queues cq) × (run cq acts qs ≡ some qs') × Stage 0 (queue_of cq p qs')
    unfolding run step callback
    run_stage [] p qs v st = (qs, refl, st)
    run_stage (pushes handle runnable ∷ acts) p qs v st =
        let (qs1, e, v1, st1) = push-Stage handle runnable p qs v st in
        let (qs2, f, st2) = run_stage acts p qs1 v1 st1 in (qs2, ground arith, st2)
    run_stage (calls_back i context p' ∷ acts) p qs v st =
        let (same, other) = counted (is_same p' p) (callbacks_for p acts) (queue_of cq p qs) st in
        elim (Bool-cases ((queue_of cq p' qs).submitted == 0)) [
          | inl none_left ↦
              let st1 : Stage (callbacks_for p acts) (queue_of cq p qs) =
                elim (Bool-cases (is_same p' p)) [
                  | inl e ↦ rw (same_queue p' p qs e) at (
                      none_left-Stage {n = suc (callbacks_for p acts)} {m = callbacks_for p acts}
                        (queue_of cq p' qs) (v p') none_left (rw (same_queue p' p qs e) (same e)))
                  | inr e ↦ other e
                ] in
              let (qs2, f, st2) = run_stage acts p qs v st1 in (qs2, ground arith, st2)
          | inr some_left ↦
              let (y, q, e, w, _, s, c) = serve-IsServed cq (queue_of cq p' qs) (v p') some_left in
              let st1 =
                set_queue-Stage p' p q qs
                  (λ e'.
                    served-Stage y (queue_of cq p' qs) q c s (rw (same_queue p' p qs e') (same e')))
                  other in
              let (qs2, f, st2) =
                run_stage acts p (set_queue cq p' q qs) (set_queue-AllServed cq p' q qs w v) st1 in
              (qs2, ground arith, st2)
        ]

    pub started_at_last :
        (q : TaskQueue cq)
        → Stage 0 q
        → (before after : List Entry) × (q.started ≡ before ++ x ∷ after) × (length before ≡ k)
    started_at_last q (waits others more e l u) = absurd (omega arith)
    started_at_last q (begun before after e l) = (before, after, e, l)
