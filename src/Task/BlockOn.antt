-- ===== src/Task/BlockOn.antt =====
-- src/task/block_on.rs: the loop of `block_on`, over any future.
pub mod Frame
pub mod Stale
pub mod Returns
pub mod Promises
pub mod Called
use wae.Common.{
  ℕ, zero, suc, ◌≤◌, ◌≡◌, Bool, true, false, ◌||◌, Option, none, some, List, [], ◌∷◌, if◌then◌else◌,
  arith, Poll, ready, pending, length,
}

-- A future with its state.
pub record Future (F T : Type 0) : Type 0 where
  pub poll : F → F × Poll T

-- `inline_waker.wait()`: the word afterwards; `woken` tells whether a waker is called before or while it
-- waits. `none`: it waits for ever.
unfoldable pub wait : Bool → Bool → Option Bool
wait state woken = if state || woken then some true else none

module _ {F T : Type 0} (future : Future F T) where
  -- The loop. An entry of the list is what happens at one wait; the list is its fuel.
  unfoldable pub block_on : List Bool → Bool → F → Option T
  unfolding wait
  block_on [] state f = elim (future.poll f).1 [ ready output ↦ some output | pending ↦ none ]
  block_on (woken ∷ wakes) state f =
      let again = block_on wakes (state || woken) (future.poll f).0 in
      elim (future.poll f).1 [
        | ready output ↦ some output
        | pending ↦ elim (wait state woken) [ none ↦ none | some _ ↦ again ]
      ]

  -- The future is ready with `output` at its poll number `k`, and pending before.
  abbrev pub ReadyAt : ℕ → F → T → Type 0
  ReadyAt zero f output = (future.poll f).1 ≡ ready output
  ReadyAt (suc k) f output = ((future.poll f).1 ≡ pending) × ReadyAt k (future.poll f).0 output

  -- Once the word is set, the loop polls on until the future is ready, though no waker is called.
  pub block_on_woken :
      (wakes : List Bool) (k : ℕ) (f : F) (output : T)
      → ReadyAt k f output
      → k ≤ length wakes
      → block_on wakes true f ≡ some output
  unfolding block_on
  block_on_woken [] zero f output r le = ground arith
  block_on_woken [] (suc k) f output r le = absurd (omega arith)
  block_on_woken (w ∷ wakes) zero f output r le = ground arith
  block_on_woken (w ∷ wakes) (suc k) f output r le =
      ground (arith, block_on_woken wakes k (future.poll f).0 output r.1)

  -- `block_on` returns the output of the future if that is ready at once, or if a waker is called by
  -- the first wait; later waits need no wake.
  pub block_on_returns :
      (wakes : List Bool) (k : ℕ) (f : F) (output : T)
      → ReadyAt k f output
      → k ≤ length wakes
      → block_on (true ∷ wakes) false f ≡ some output
  unfolding block_on
  block_on_returns wakes zero f output r le = ground arith
  block_on_returns wakes (suc k) f output r le =
      ground (arith, block_on_woken wakes k (future.poll f).0 output r.1)
