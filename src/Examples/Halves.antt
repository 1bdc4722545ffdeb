-- ===== src/Examples/Halves.antt =====
-- src/io/shared: one half, the handle of two, and the event.
use wae.Common.{
  ℕ, ◌≡◌, refl, inl, inr, true, false, none, some, List, [], ◌∷◌, ◌++◌, ok, ready, pending, arith,
  count_if, ◌>>=◌,
}
use wae.Io.State
use wae.Io.Waker.{option_waker}
use wae.Io.Handle.{Half, Call, close}
use wae.Io.Handle.Laws.{completing}
use wae.Io.Handle.Duplex.{IoHandle, Meets, alone, drop, callback, poll_read}
use wae.Io.Handle.Duplex.Laws.{is_close, drop-closes_once}
use wae.Io.Event.{Event, Answers}
use wae.Io.Event
use wae.Io.Handle.Duplex.Halves.{ReadSteps, one_more, none_more, completes, polls}
use wae.Io.Event.Laws.{early_signal_loses_next}

abbrev half_at : ℕ → Half option_waker
half_at word = record { word = word; result = none; slot = none; overlapped = 64 }

-- A half that has served an operation before.
abbrev used_half : Half option_waker
used_half = record { word = State.pending; result = some (ok 9); slot = some 7; overlapped = 64 }

-- A handle with a pending read and no write.
abbrev reading : IoHandle option_waker
reading = record { handle = 3; ptp_io = some 4; read = used_half; write = half_at State.idle }

-- The read is cancelled and its callback runs.
abbrev cancels : Meets option_waker
cancels = record {
  before = λ half. half;
  answer = ok tt;
  during = completing option_waker 995 0 ∷ [];
}

drop-closes_once_example :
    (calls : List Call) × (drop option_waker cancels (alone option_waker) reading
      ≡ some (ok (calls ++ close 3 ∷ [])))
    × (count_if is_close calls ≡ 0)
drop-closes_once_example =
    drop-closes_once option_waker cancels (alone option_waker) reading
      (inr (refl, refl, 995, 0, refl)) (inl (omega arith))

abbrev event_at : ℕ → Event option_waker
event_at word = record {
  wait = some 1;
  word = word;
  result = none;
  slot = none;
  event = 2;
  armed = true;
}

abbrev granted : Answers
granted = record { reset = 1; overlapped = 1; last_error = 0 }

early_signal_loses_next_example :
    (do
      (early, _) ← Event.signal option_waker 0 (event_at State.idle)
      (submitted, _) ← Event.poll option_waker 7 none pending granted early
      Event.signal option_waker 0 submitted)
    ≡ some (record (event_at State.pending) { slot = some 7; armed = false }, none)
early_signal_loses_next_example =
    early_signal_loses_next option_waker 7 0 0 none granted (event_at State.idle) refl refl

-- A read and a write are pending, and then the read completes and is polled.
abbrev both : IoHandle option_waker
both = record {
  handle = 3;
  ptp_io = some 4;
  read = used_half;
  write = record { word = State.pending; result = none; slot = none; overlapped = 96 };
}

abbrev read_done : IoHandle option_waker
read_done = record both {
  read = record used_half { word = State.ready; result = some (ok 5); slot = none };
}

abbrev read_again : IoHandle option_waker
read_again = record read_done { read = record read_done.read { word = State.idle } }

reads_twice : ReadSteps option_waker both read_again
unfolding callback poll_read
reads_twice =
    one_more (completes 0 5 (some 7) refl)
      (one_more (polls 8 pending [] (ready (ok 5)) refl) none_more)
