-- ===== src/Examples/Splits.antt =====
-- src/net/tcp/split.rs and src/net/tcp/stream.rs: the halves of one stream, and its options.
use wae.Common.{ℕ, ◌≡◌, refl, none, some, Option, List, [], ◌∷◌, ok, ready, count_if}
use wae.Io.Waker.{option_waker}
use wae.Io.Handle.{Half, close_io, close, start_io, cancel}
use wae.Io.Handle.Duplex.{IoHandle, alone, cancel_unwrap}
use wae.Io.Handle.Duplex.Laws.{is_close}
use wae.Net.Tcp.Split.{drop_arc, split, poll_write}
use wae.Net.Tcp.Split.Halves.{
  Halves, Op, polls_write, drops_reader, drops_writer, split_of, apply_all,
}
use wae.Net.Tcp.Split.Laws.{split-closes_once}

abbrev half_at : ℕ → Half option_waker
half_at address = record { word = 0; result = none; slot = none; overlapped = address }

abbrev handle : IoHandle option_waker
handle = record { handle = 3; ptp_io = some 4; read = half_at 64; write = half_at 96 }

-- The reader goes first, then a byte is written at once, and the writer goes.
abbrev ops : List (Op option_waker)
ops =
    drops_reader (alone option_waker) (alone option_waker)
    ∷ polls_write 7 (ready (ok 1))
    ∷ drops_writer (alone option_waker) (alone option_waker)
    ∷ []

abbrev ended : Option (Halves option_waker)
unfolding apply_all
ended = apply_all option_waker ops (split_of option_waker handle)

abbrev gone : Halves option_waker
unfolding apply_all
gone = elim ended [ none ↦ split_of option_waker handle | some h ↦ h ]

closed_last : gone.log ≡ start_io ∷ close_io ∷ close 3 ∷ []
unfolding gone apply_all drop_arc split poll_write cancel_unwrap cancel
closed_last = refl

split-closes_once_example : count_if is_close gone.log ≡ 1
unfolding gone apply_all drop_arc split poll_write cancel_unwrap cancel
split-closes_once_example = split-closes_once option_waker ops handle gone refl
