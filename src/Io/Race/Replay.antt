-- ===== src/Io/Race/Replay.antt =====
-- src/io/shared/handle.rs: a method that no other thread interrupts does what its sequential
-- definition in `Handle` says.
use wae.Common.{ℕ, ◌≡◌, true, Option, some, List, [], ◌∷◌, ◌++◌, Poll, IoResult, arith}
use wae.Io.Waker.{AtomicWaker}
use wae.Io.Handle.{Half, Call, poll, complete}
use wae.Io.Race.{outside, System, Action, start_poll, own, wakes, polled, run, push_waker, absent}
use wae.Io.Race.Safety.{replicate, whole_callback}

module _ (aw : AtomicWaker) where
  abbrev pub half_of : ℕ → System aw → Half aw
  half_of address s = record {
    word = s.word;
    result = s.result;
    slot = s.slot;
    overlapped = address;
  }

  -- A poll, with nothing in between.
  abbrev pub whole_poll : ℕ → Poll (IoResult ℕ) → IoResult (Unit {0}) → List (Action aw)
  whole_poll waker scheduled answer = start_poll ∷ replicate 5 (own waker scheduled answer)

  -- The accesses of a poll in a row end like the sequential `poll`: with its half and what it returns.
  pub poll_replayed :
      (address waker : ℕ) (scheduled : Poll (IoResult ℕ)) (answer : IoResult (Unit {0}))
      (s : System aw) (half : Half aw) (calls : List Call) (outcome : Poll (IoResult ℕ))
      → s.owner ≡ outside
      → poll aw waker scheduled (half_of address s) ≡ some (half, calls, outcome)
      → let t = run aw (whole_poll waker scheduled answer) s in
        (half_of address t ≡ half) × (t.output ≡ polled outcome) × (t.owner ≡ outside)
  unfolding run poll
  poll_replayed address waker scheduled answer s half calls outcome o e = ground arith

  -- The accesses of a callback in a row, its wake included, end like the sequential `complete`.
  pub callback_replayed :
      (address code transferred : ℕ) (s : System aw) (half : Half aw) (woken : Option ℕ)
      → s.in_flight ≡ true
      → s.waking ≡ 0
      → complete aw code transferred (half_of address s) ≡ some (half, woken)
      → let t = run aw (whole_callback aw code transferred ++ wakes ∷ []) s in
        (half_of address t ≡ half) × (t.woken ≡ push_waker aw woken s.woken) × (t.callback ≡ absent)
  unfolding run complete
  callback_replayed address code transferred s half woken f w e = ground arith
