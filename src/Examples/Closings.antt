-- ===== src/Examples/Closings.antt =====
-- src/io/shared/handle.rs: drops of a handle with a pending read.
use wae.Common.{◌≡◌, refl, List, [], ◌∷◌, ◌++◌, ok, pending, arith}
use wae.Io.Waker.{option_waker}
use wae.Io.Race.{start_poll, own, completes, calls_back, setting, init}
use wae.Io.Race.Safety.{replicate}
use wae.Io.Race.Drop.{Event, at_read, begin_drop, next_call, closed, new_handle, happens}
use wae.Io.Race.Drop.Closing.{IsQuiet, closed-IsQuiet}
use wae.Io.Race.Drop.Early.{overtaken, drop_during_callback}

abbrev goes : Event option_waker
goes = at_read (own 7 pending (ok tt))

-- A read is submitted and goes pending.
abbrev reads : List (Event option_waker)
reads = at_read start_poll ∷ goes ∷ goes ∷ goes ∷ goes ∷ []

-- The drop cancels it, waits for its callback and goes on.
abbrev drops : List (Event option_waker)
drops =
    reads
    ++ begin_drop ∷ goes ∷ goes ∷ at_read (completes 995 0) ∷ replicate 5 (at_read calls_back)
    ++ goes ∷ next_call ∷ next_call ∷ []

closed-IsQuiet_example :
    IsQuiet option_waker (happens option_waker drops (new_handle option_waker)).read
    × IsQuiet option_waker (happens option_waker drops (new_handle option_waker)).write
unfolding happens init
closed-IsQuiet_example = closed-IsQuiet option_waker drops (refl, refl) refl

drop_during_callback_example :
    let h = happens option_waker reads (new_handle option_waker) in
    ((happens option_waker (overtaken option_waker 0 5) h).phase ≡ closed)
    × ((happens option_waker (overtaken option_waker 0 5) h).read.callback ≡ setting)
unfolding happens init
drop_during_callback_example =
    drop_during_callback option_waker reads 0 5 refl refl refl refl refl (omega arith)
