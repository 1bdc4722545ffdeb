-- ===== src/Examples/Events.antt =====
-- src/io/shared/event.rs: the accesses of an event in given orders.
use wae.Common.{◌≡◌, refl, true, false, none, List, [], ◌∷◌, ◌++◌, pending, arith}
use wae.Io.State
use wae.Io.Cell
use wae.Io.Waker.{option_waker}
use wae.Io.Event.Race.{Action, start_poll, own, init, run}
use wae.Io.Event.Race.Invariant.{live}
use wae.Io.Event.Race.Safety.{whole_signal, event_completes}

abbrev goes : Action option_waker
goes = own 7 none pending (record { reset = 1; overlapped = 1; last_error = 0 })

-- An operation goes pending.
abbrev submits : List (Action option_waker)
submits = start_poll ∷ goes ∷ goes ∷ goes ∷ goes ∷ goes ∷ []

-- Its event is signalled and the callback runs.
abbrev served : List (Action option_waker)
served = submits ++ whole_signal option_waker 0

-- The next poll has found the result.
abbrev finds : List (Action option_waker)
finds = served ++ start_poll ∷ goes ∷ []

event_completes_example :
    ((run option_waker
        (whole_signal option_waker 0)
        (run option_waker submits (init option_waker))).word
      ≡ State.ready)
    × ((run option_waker
          (whole_signal option_waker 0)
          (run option_waker submits (init option_waker))).notified
        ≡ true)
    × (live option_waker (
          run option_waker
            (whole_signal option_waker 0)
            (run option_waker submits (init option_waker)))
        ≡ false)
unfolding run init
event_completes_example = event_completes option_waker submits 0 refl refl (omega arith) refl
