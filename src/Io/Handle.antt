-- ===== src/Io/Handle.antt =====
-- src/io/shared/handle.rs: one half of a handle (its reads or its writes), and the handle of two
-- halves, each method as one uninterrupted run. `Race` has the same methods access by access.
pub mod Laws
pub mod Duplex
use wae.Common.{
  ℕ, Bool, true, false, not, Option, none, some, List, [], ◌∷◌, ◌++◌, ◌==◌, if◌then◌else◌, Result,
  ok, err, Poll, ready, pending, IoResult, os, as_i32, suc, ◌+◌,
}
use wae.Io.State
use wae.Io.Cell
use wae.Io.Cell.{Cell}
use wae.Io.Waker.{AtomicWaker}

-- What a method asks of the operating system, in order.
pub data Call : Type 0 where
  start_io close_io : Call
  close : ℕ → Call

module _ (aw : AtomicWaker) where
  -- `IoHalf`. `overlapped` is the address of the field; what `schedule` and `cancel` return is an
  -- argument of the methods that call them.
  pub record Half : Type 0 where
    pub word : ℕ
    pub result : Cell
    pub slot : aw.Slot
    pub overlapped : ℕ

  -- `IoHalf::new`
  unfoldable pub new_half : ℕ → Half
  unfolding State.new Cell.new
  new_half address = record {
    word = State.new;
    result = Cell.new;
    slot = aw.new;
    overlapped = address;
  }

  -- The branch of `poll` that has found the word `ready`. `none` is undefined behaviour: the result
  -- is read and was never set.
  unfoldable pub fetch : Half → Option (Half × List Call × Poll (IoResult ℕ))
  unfolding State.set_idle Cell.get
  fetch half = elim (Cell.get half.result) [
    | none ↦ none
    | some result ↦ some (record half { word = State.set_idle half.word }, [], ready result)
  ]

  -- The branch of `poll` that has won the word from `idle`; `scheduled` is what `half.schedule` returned.
  unfoldable pub submit : ℕ → Poll (IoResult ℕ) → Half → Half × List Call × Poll (IoResult ℕ)
  unfolding State.set_idle State.set_pending
  submit waker (ready result) half = (
    record half { word = State.set_idle half.word; slot = aw.register waker half.slot },
    start_io ∷ [],
    ready result,
  )
  submit waker pending half =
      (record half { word = State.set_pending half.word }, start_io ∷ [], pending)

  -- `poll`
  unfoldable pub poll : ℕ → Poll (IoResult ℕ) → Half → Option (Half × List Call × Poll (IoResult ℕ))
  unfolding State.finish State.schedule fetch submit
  poll waker scheduled half =
      let (word, finished) = State.finish half.word in
      let (word', won) = State.schedule word in
      if finished
      then fetch (record half { word = word })
      else if won
      then some (submit waker scheduled (record half { word = word' }))
      else some (record half { slot = aw.register waker half.slot }, [], pending)

  -- `set`, `set_ready` and `wake` of the callback; the waker that is woken is returned.
  unfoldable pub deliver : ℕ → ℕ → Half → Half × Option ℕ
  unfolding State.set_ready Cell.set
  deliver code transferred half =
      let (slot, woken) = aw.wake half.slot in
      (
        record half {
          word = State.set_ready half.word;
          result = Cell.set code transferred;
          slot = slot;
        },
        woken,
      )

  -- The body of `callback` once its half is known. `none`: it spins, and the word must change first.
  unfoldable pub complete : ℕ → ℕ → Half → Option (Half × Option ℕ)
  unfolding State.callback_pending State.callback_cancelled_nowait State.callback_cancelled_wait
      State.set_ready deliver
  complete code transferred half = elim (State.callback_pending (half.word ∷ []) half.word) [
    | none ↦ none
    | some (word, claimed) ↦
        let (word', claimed') = State.callback_cancelled_nowait word in
        let (word'', claimed'') = State.callback_cancelled_wait word' in
        some (
          if claimed
          then deliver code transferred (record half { word = word })
          else if claimed'
          then deliver code transferred (record half { word = word' })
          else if claimed''
          then (record half { word = State.set_ready word'' }, none)
          else (half, none))
  ]

  -- `while wait && half.state.is_busy() { yield_now() }`. The entries of the list are what the other
  -- threads do to the half between two loads; `none`: the loop still runs when they are used up.
  unfoldable pub drain : List (Half → Half) → Half → Option Half
  unfolding State.is_busy
  drain [] half = if State.is_busy half.word then none else some half
  drain (other ∷ others) half =
      let rest = drain others (other half) in if State.is_busy half.word then rest else some half

  -- `cancel`; `answer` is what `half.cancel` returns if it is called.
  unfoldable pub cancel :
      Bool → IoResult (Unit {0}) → List (Half → Half) → Half → Option (Half × IoResult (Unit {0}))
  unfolding State.is_cancellable State.cancel drain
  cancel wait answer others half =
      let (word, asks) = State.cancel wait half.word in
      let half' = record half { word = word } in
      let ret = if asks then answer else ok tt in
      let waited : Option (Half × IoResult (Unit {0})) = elim (drain others half') [
        | none ↦ none
        | some h ↦ some (h, ret)
      ] in
      if not (State.is_cancellable half.word)
      then some (half, ok tt)
      else if wait
      then waited
      else some (half', ret)
