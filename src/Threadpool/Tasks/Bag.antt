-- ===== src/Threadpool/Tasks/Bag.antt =====
-- src/threadpool.rs and src/task/spawn.rs: the pool as a bag of tasks, whatever their queues and order.
use mathlib.Core.List.{Perm}
use mathlib.Core.List.Perm
use mathlib.Core.Quot.{sound}
use mathlib.Mathlib.Data.Multiset.Defs.{Multiset, of_list}
use mathlib.Mathlib.Data.Multiset.ZeroCons.{zero, cons}
use wae.Common.{
  ◌≡◌, refl, sym, ap, ◌∙◌, some, List, [], ◌∷◌, ◌++◌, ◌==◌, inl, inr, Bool-cases, arith,
}
use wae.Threadpool.Priority.{Priority, high, normal, low}
use wae.Threadpool.Tasks.{
  Entry, ConcurrentQueue, TaskQueue, Queues, new_queues, queue_of, set_queue, push_task, callback,
  Action, pushes, calls_back, step, run,
}
use wae.Threadpool.Tasks.Laws.{
  AllServed, submit-IsServed, serve-IsServed, set_queue-AllServed, new_queues-AllServed,
}

-- The last entry of a list up front.
snoc-Perm : (x : Entry) (l : List Entry) → Perm (l ++ x ∷ []) (x ∷ l)
snoc-Perm x [] = Perm.refl (x ∷ [])
snoc-Perm x (y ∷ l) = Perm.trans (Perm.cons y (snoc-Perm x l)) (Perm.swap x y l)

-- An entry of a list up front.
middle-Perm : (x : Entry) (l k : List Entry) → Perm (l ++ (x ∷ k)) (x ∷ (l ++ k))
middle-Perm x [] k = Perm.refl (x ∷ k)
middle-Perm x (y ∷ l) k = Perm.trans (Perm.cons y (middle-Perm x l k)) (Perm.swap x y (l ++ k))

module _ (cq : ConcurrentQueue) where
  -- The entries of the three queues, as a bag.
  abbrev pub bag_of : (TaskQueue cq → List Entry) → Queues cq → Multiset Entry
  bag_of entries qs =
      of_list (entries qs.high_queue ++ (entries qs.normal_queue ++ entries qs.low_queue))

  abbrev pub pushed : TaskQueue cq → List Entry
  pushed q = q.pushed

  -- What was started and what waits.
  abbrev pub accounted : TaskQueue cq → List Entry
  accounted q = q.started ++ cq.contents q.queue

  -- A bag with all that is pushed from now on.
  abbrev pub with_pushes : List (Action cq) → Multiset Entry → Multiset Entry
  with_pushes [] b = b
  with_pushes (pushes handle runnable ∷ acts) b = with_pushes acts (cons (runnable, handle) b)
  with_pushes (calls_back _ _ _ ∷ acts) b = with_pushes acts b

  push-Perm :
      (x : Entry) (p : Priority) (qs : Queues cq) (q : TaskQueue cq)
      → q.pushed ≡ (queue_of cq p qs).pushed ++ x ∷ []
      → bag_of pushed (set_queue cq p q qs) ≡ cons x (bag_of pushed qs)
  push-Perm x high qs q e =
      let h = qs.high_queue.pushed in
      let rest = qs.normal_queue.pushed ++ qs.low_queue.pushed in
      ap (λ l. of_list (l ++ rest)) e ∙ sound (Perm.append_right rest (snoc-Perm x h))
  push-Perm x normal qs q e =
      let h = qs.high_queue.pushed in
      let n = qs.normal_queue.pushed in
      let l = qs.low_queue.pushed in
      ap (λ k. of_list (h ++ (k ++ l))) e
      ∙ sound (
          Perm.trans (Perm.append_left h (Perm.append_right l (snoc-Perm x n)))
            (middle-Perm x h (n ++ l)))
  push-Perm x low qs q e =
      let h = qs.high_queue.pushed in
      let n = qs.normal_queue.pushed in
      let l = qs.low_queue.pushed in
      ap (λ k. of_list (h ++ (n ++ k))) e
      ∙ sound (
          Perm.trans
            (Perm.append_left h
              (Perm.trans (Perm.append_left n (snoc-Perm x l)) (middle-Perm x n l)))
            (middle-Perm x h (n ++ l)))

  same-bag :
      (p : Priority) (qs : Queues cq) (q : TaskQueue cq)
      → q.pushed ≡ (queue_of cq p qs).pushed
      → bag_of pushed (set_queue cq p q qs) ≡ bag_of pushed qs
  same-bag high qs q e = ap (λ l. of_list (l ++ (qs.normal_queue.pushed ++ qs.low_queue.pushed))) e
  same-bag normal qs q e = ap (λ l. of_list (qs.high_queue.pushed ++ (l ++ qs.low_queue.pushed))) e
  same-bag low qs q e = ap (λ l. of_list (qs.high_queue.pushed ++ (qs.normal_queue.pushed ++ l))) e

  run_bag :
      (acts : List (Action cq)) (qs : Queues cq)
      → AllServed cq qs
      → (qs' : Queues cq) × (run cq acts qs ≡ some qs')
        × AllServed cq qs'
        × (bag_of pushed qs' ≡ with_pushes acts (bag_of pushed qs))
  unfolding run step push_task callback
  run_bag [] qs v = (qs, refl, v, refl)
  run_bag (pushes handle runnable ∷ acts) qs v =
      let p = handle.priority in
      let (q, e, w, pushes_x, _, _) =
        submit-IsServed cq (runnable, handle) (queue_of cq p qs) (v p) in
      let (qs', f, v', b) =
        run_bag acts (set_queue cq p q qs) (set_queue-AllServed cq p q qs w v) in
      (
        qs',
        ground arith,
        v',
        b ∙ ap (with_pushes acts) (push-Perm (runnable, handle) p qs q pushes_x),
      )
  run_bag (calls_back i context p ∷ acts) qs v =
      elim (Bool-cases ((queue_of cq p qs).submitted == 0)) [
        | inl none_left ↦ let (qs', f, v', b) = run_bag acts qs v in (qs', ground arith, v', b)
        | inr some_left ↦
            let (x, q, e, w, keeps, _, _) = serve-IsServed cq (queue_of cq p qs) (v p) some_left in
            let (qs', f, v', b) =
              run_bag acts (set_queue cq p q qs) (set_queue-AllServed cq p q qs w v) in
            (qs', ground arith, v', b ∙ ap (with_pushes acts) (same-bag p qs q keeps))
      ]

  accounted-bag : (qs : Queues cq) → AllServed cq qs → bag_of accounted qs ≡ bag_of pushed qs
  accounted-bag qs v = sym (
      ap (λ l. of_list (l ++ (qs.normal_queue.pushed ++ qs.low_queue.pushed))) (v high).ordered
      ∙ (ap (λ l. of_list (accounted qs.high_queue ++ (l ++ qs.low_queue.pushed)))
            (v normal).ordered
          ∙ ap (λ l. of_list (accounted qs.high_queue ++ (accounted qs.normal_queue ++ l)))
              (v low).ordered))

  -- Seen as a bag, the pool neither loses nor duplicates a task: after any history of pushes and
  -- callbacks, which never panics, what was started together with what still waits in the three queues
  -- is exactly what was pushed, each task as often and with the handle that it was pushed with.
  pub tasks_conserved :
      (acts : List (Action cq))
      → (qs : Queues cq) × (run cq acts (new_queues cq) ≡ some qs)
        × (bag_of accounted qs ≡ with_pushes acts zero)
  unfolding new_queues
  tasks_conserved acts =
      let (qs, e, v, b) = run_bag acts (new_queues cq) (new_queues-AllServed cq) in
      (qs, e, accounted-bag qs v ∙ b)
