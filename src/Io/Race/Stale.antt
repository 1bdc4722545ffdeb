-- ===== src/Io/Race/Stale.antt =====
-- src/io/shared/handle.rs: the callback of an operation that was done at once, which `poll` leaves behind,
-- and the operation that follows.
use wae.Common.{ap, ℕ, ◌<◌, ◌≡◌, true, some, List, ◌∷◌, ok, ready, pending, IoResult, arith}
use wae.Io.State
use wae.Io.Cell
use wae.Io.Waker.{AtomicWaker}
use wae.Io.Race.{
  Owner, starting, System, Action, start_poll, own, stray_starts, stray_steps, polled, run,
}
use wae.Io.Race.Safety.{replicate}
use wae.Io.Race.Replay.{whole_poll}

module _ (aw : AtomicWaker) where
  record Stands (word : ℕ) (s : System aw) : Type 0 where
    outside : s.owner ≡ Owner.outside
    at : s.word ≡ word
    flies : s.in_flight ≡ true

  -- The callback of a completion that was due starts and runs.
  abbrev pub stray_callback : ℕ → ℕ → List (Action aw)
  stray_callback code transferred = stray_starts code transferred ∷ replicate 4 (stray_steps 0)

  done_at_once :
      (waker k : ℕ) (answer : IoResult (Unit {0})) (s : System aw)
      → s.owner ≡ Owner.outside
      → s.word ≡ State.idle
      → let t = run aw (whole_poll aw waker (ready (ok k)) answer) s in
        (t.owner ≡ Owner.outside) × (t.word ≡ State.idle) × (0 < t.queued)
  unfolding run
  done_at_once waker k answer s o w = ground arith

  goes_pending :
      (waker : ℕ) (answer : IoResult (Unit {0})) (s : System aw)
      → s.owner ≡ Owner.outside
      → s.word ≡ State.idle
      → 0 < s.queued
      → let t = run aw (whole_poll aw waker pending answer) s in
        Stands State.pending t × (0 < t.queued)
  unfolding run
  goes_pending waker answer s o w q = ground arith

  stray_ends :
      (code transferred : ℕ) (s : System aw)
      → Stands State.pending s
      → 0 < s.queued
      → let t = run aw (stray_callback code transferred) s in
        Stands State.ready t × (t.result ≡ Cell.set code transferred)
  unfolding run
  stray_ends code transferred s v q = ground arith

  fetches_stale :
      (waker : ℕ) (answer : IoResult (Unit {0})) (s : System aw) (r : IoResult ℕ)
      → Stands State.ready s
      → Cell.get s.result ≡ some r
      → let t = run aw (whole_poll aw waker pending answer) s in
        Stands State.idle t × (t.output ≡ polled (ready r))
  unfolding run
  fetches_stale waker answer s r v g = ground arith

  hands_out_again :
      (waker : ℕ) (answer : IoResult (Unit {0})) (s : System aw)
      → Stands State.idle s
      → let t = run aw (start_poll ∷ replicate 2 (own waker pending answer)) s in
        (t.owner ≡ starting) × (t.in_flight ≡ true)
  unfolding run
  hands_out_again waker answer s v = ground arith

  -- If an operation is done at once, and its callback runs only when the next operation has gone pending,
  -- that one ends with it: the poll that follows returns again what the first had transferred, and the
  -- poll after it hands out the OVERLAPPED once more, while the pending operation is still in flight.
  pub stale_callback_ends :
      (waker k : ℕ) (answer : IoResult (Unit {0})) (s : System aw)
      → s.owner ≡ Owner.outside
      → s.word ≡ State.idle
      → let done = run aw (whole_poll aw waker (ready (ok k)) answer) s in
        let pended = run aw (whole_poll aw waker pending answer) done in
        let ended = run aw (stray_callback 0 k) pended in
        let fetched = run aw (whole_poll aw waker pending answer) ended in
        let again = run aw (start_poll ∷ replicate 2 (own waker pending answer)) fetched in
        (fetched.output ≡ polled (ready (ok k)))
        × (again.owner ≡ starting)
        × (again.in_flight ≡ true)
  unfolding Cell.get Cell.set
  stale_callback_ends waker k answer s o w =
      let done = run aw (whole_poll aw waker (ready (ok k)) answer) s in
      let pended = run aw (whole_poll aw waker pending answer) done in
      let ended = run aw (stray_callback 0 k) pended in
      let fetched = run aw (whole_poll aw waker pending answer) ended in
      let (o', w', q) = done_at_once waker k answer s o w in
      let (v, due) = goes_pending waker answer done o' w' q in
      let (v', set) = stray_ends 0 k pended v due in
      let (v'', output) = fetches_stale waker answer ended (ok k) v' (ap Cell.get set) in
      let (again, flies) = hands_out_again waker answer fetched v'' in (output, again, flies)
