-- ===== src/Examples/Races.antt =====
-- src/io/shared: the accesses of a half in given orders.
use wae.Common.{◌≡◌, refl, ◌≢◌, Bool, true, false, List, [], ◌∷◌, ◌++◌, ok, ready, pending, arith}
use wae.Io.State
use wae.Io.Cell
use wae.Io.Waker.{option_waker}
use wae.Io.Race.{
  starting, setting, storing, outside, waiting, Action, start_poll, start_cancel, own, calls_back,
  wakes, polled, init, step, run,
}
use wae.Io.Race.Invariant.{live}
use wae.Io.Race.Safety.{replicate, whole_callback, result_never_shared, completion_readies}
use wae.Io.Race.Hang.{late_cancel_wait_hangs}
use wae.Io.Race.Lost.{late_register_not_woken}
use wae.Io.Race.Replay.{whole_poll}
use wae.Io.Race.Stale.{stray_callback, stale_callback_ends}

abbrev goes : Action option_waker
goes = own 7 pending (ok tt)

-- The owner submits an operation, which goes pending.
abbrev submits : List (Action option_waker)
submits = start_poll ∷ goes ∷ goes ∷ goes ∷ goes ∷ []

-- And its callback has run.
abbrev served : List (Action option_waker)
served = submits ++ whole_callback option_waker 0 5

-- The owner has found the result and is about to read it, or has read it.
abbrev finds : List (Action option_waker)
finds = served ++ start_poll ∷ goes ∷ []

abbrev reads : List (Action option_waker)
reads = finds ++ goes ∷ []

-- The owner has found the operation pending and is about to cancel it.
abbrev tests : Bool → List (Action option_waker)
tests wait = submits ++ start_cancel wait ∷ []

result_never_shared_example :
    ((run option_waker finds (init option_waker)).callback ≢ setting)
    × ((run option_waker finds (init option_waker)).callback ≢ storing)
unfolding run init
result_never_shared_example = result_never_shared option_waker finds refl refl

completion_readies_example :
    ((run option_waker
        (whole_callback option_waker 0 5)
        (run option_waker submits (init option_waker))).word
      ≡ State.ready)
    × (live option_waker (
          run option_waker
            (whole_callback option_waker 0 5)
            (run option_waker submits (init option_waker)))
        ≡ false)
unfolding run init
completion_readies_example = completion_readies option_waker submits 0 5 refl refl (omega arith)

-- The owner waits for the operation that it has cancelled in time.
abbrev waits : List (Action option_waker)
waits = tests true ++ goes ∷ goes ∷ []

abbrev inline : List (Action option_waker)
inline = whole_poll option_waker 7 (ready (ok 3)) (ok tt)

stale_callback_ends_example :
    let done = run option_waker inline (init option_waker) in
    let pended = run option_waker (whole_poll option_waker 7 pending (ok tt)) done in
    let ended = run option_waker (stray_callback option_waker 0 3) pended in
    let fetched = run option_waker (whole_poll option_waker 7 pending (ok tt)) ended in
    let again = run option_waker (start_poll ∷ replicate 2 (own 7 pending (ok tt))) fetched in
    (fetched.output ≡ polled (ready (ok 3))) × (again.owner ≡ starting) × (again.in_flight ≡ true)
unfolding run init
stale_callback_ends_example =
    stale_callback_ends option_waker 7 3 (ok tt) (init option_waker) refl refl

-- The callback has stored its result between the owner's test and its swap.
abbrev late : Bool → List (Action option_waker)
late wait = tests wait ++ whole_callback option_waker 0 5

late_cancel_wait_hangs_example :
    (run option_waker (goes ∷ calls_back ∷ wakes ∷ []) (
      step option_waker goes
        (step option_waker goes (run option_waker (late true) (init option_waker))))).owner
    ≡ waiting (ok tt)
unfolding run init
late_cancel_wait_hangs_example =
    late_cancel_wait_hangs option_waker (late true) (goes ∷ calls_back ∷ wakes ∷ []) 7 7 pending
      pending (ok tt) (ok tt) refl refl refl

-- After a cancellation that waits, the next poll reads a result that was never stored.
undefined_after_cancel_wait :
    (run option_waker
      (tests true
        ++ goes ∷ goes ∷ whole_callback option_waker 995 0
        ++ goes ∷ start_poll ∷ goes ∷ goes ∷ [])
      (init option_waker)).undefined
    ≡ true
unfolding run init
undefined_after_cancel_wait = refl

-- A second poll has found the operation pending, and then the callback runs and wakes.
abbrev overtaken : List (Action option_waker)
overtaken =
    submits ++ start_poll ∷ goes ∷ goes ∷ [] ++ whole_callback option_waker 0 5 ++ wakes ∷ []

late_register_not_woken_example :
    let s =
      run option_waker
        (wakes ∷ goes ∷ [])
        (step option_waker goes (run option_waker overtaken (init option_waker))) in
    (s.output ≡ polled pending)
    × (s.owner ≡ outside)
    × (s.woken ≡ (run option_waker overtaken (init option_waker)).woken)
unfolding run init
late_register_not_woken_example =
    late_register_not_woken option_waker overtaken (wakes ∷ goes ∷ []) 7 pending (ok tt) refl refl
      refl refl refl
