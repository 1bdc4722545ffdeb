-- ===== src/Io/Race/Safety.antt =====
-- src/io/shared: the safety comments of result.rs, and what becomes of an operation, under every
-- interleaving.
use wae.Common.{ℕ, suc, ◌≡◌, ◌≢◌, true, false, List, [], ◌∷◌, Poll, IoResult, arith, zero}
use wae.Io.State
use wae.Io.Cell
use wae.Io.Waker.{AtomicWaker}
use wae.Io.Race.{
  setting, storing, waiting, System, Action, own, completes, calls_back, cancelled, init, step, run,
}
use wae.Io.Race.Invariant.{Inv, init-Inv, run-Inv, fetches, live}

abbrev pub replicate {ℓ} : {A : Type ℓ} → ℕ → A → List A
replicate zero a = []
replicate (suc n) a = a ∷ replicate n a

module _ (aw : AtomicWaker) where
  -- What the callback does from its start to its end.
  abbrev pub whole_callback : ℕ → ℕ → List (Action aw)
  whole_callback code transferred = completes code transferred ∷ replicate 5 calls_back

  -- As long as no operation goes pending before the callbacks of those that were done at once have
  -- returned: while the owner reads the result or has yet to free the half, no callback is about to write
  -- it or to publish it, so the cell is never used from both sides at once.
  pub result_never_shared :
      (acts : List (Action aw))
      → (run aw acts (init aw)).crowded ≡ false
      → fetches (run aw acts (init aw)).owner ≡ true
      → ((run aw acts (init aw)).callback ≢ setting) × ((run aw acts (init aw)).callback ≢ storing)
  result_never_shared acts u f =
      let v = run-Inv aw acts (init aw) u (init-Inv aw) in (ground arith, ground arith)

  -- Under the same condition, if no cancellation that waits has been made, a result that was never stored
  -- is never read.
  pub never_undefined :
      (acts : List (Action aw))
      → (run aw acts (init aw)).crowded ≡ false
      → (run aw acts (init aw)).wait_cancelled ≡ false
      → (run aw acts (init aw)).undefined ≡ false
  never_undefined acts u h = (run-Inv aw acts (init aw) u (init-Inv aw)).defined h

  completion_of_Inv :
      (code transferred : ℕ) (s : System aw)
      → Inv aw s
      → s.in_flight ≡ true
      → s.word ≢ State.scheduling
      → ((run aw (whole_callback code transferred) s).word ≡ State.ready)
        × (live aw (run aw (whole_callback code transferred) s) ≡ false)
        × ((run aw (whole_callback code transferred) s).owner ≡ s.owner)
  unfolding run
  completion_of_Inv code transferred s v f n = ground arith

  -- As long as no operation goes pending before the callbacks of those that were done at once have
  -- returned, a completion is never lost: once the owner has left `schedule`, the callback of an
  -- operation in flight needs five accesses to make the half `ready`, also if the operation was
  -- cancelled.
  pub completion_readies :
      (acts : List (Action aw)) (code transferred : ℕ)
      → (run aw acts (init aw)).crowded ≡ false
      → (run aw acts (init aw)).in_flight ≡ true
      → (run aw acts (init aw)).word ≢ State.scheduling
      → ((run aw (whole_callback code transferred) (run aw acts (init aw))).word ≡ State.ready)
        × (live aw (run aw (whole_callback code transferred) (run aw acts (init aw))) ≡ false)
  completion_readies acts code transferred u f n =
      let (e, l, _) =
        completion_of_Inv code transferred (run aw acts (init aw))
          (run-Inv aw acts (init aw) u (init-Inv aw)) f n in
      (e, l)

  -- Under the same condition, a cancellation that waits for an operation in flight returns when the
  -- callback has run.
  pub cancel_wait_returns :
      (acts : List (Action aw)) (code transferred waker : ℕ) (scheduled : Poll (IoResult ℕ))
      (answer ret : IoResult (Unit {0}))
      → (run aw acts (init aw)).crowded ≡ false
      → (run aw acts (init aw)).in_flight ≡ true
      → (run aw acts (init aw)).owner ≡ waiting ret
      → (step aw
          (own waker scheduled answer)
          (run aw (whole_callback code transferred) (run aw acts (init aw)))).output
        ≡ cancelled ret
  unfolding step
  cancel_wait_returns acts code transferred waker scheduled answer ret u f o =
      let v = run-Inv aw acts (init aw) u (init-Inv aw) in
      ground (arith, completion_of_Inv code transferred (run aw acts (init aw)) v f)
