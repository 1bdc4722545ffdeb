-- ===== src/Io/Waker.antt =====
-- The `AtomicWaker` of the crate atomic-waker, as an interface: a slot that holds at most one waker.
-- A waker is known by a number.
use wae.Common.{ℕ, ◌≡◌, refl, Option, none, some}

pub record AtomicWaker : Type 1 where
  pub Slot : Type 0
  pub new : Slot
  pub register : ℕ → Slot → Slot
  -- The slot afterwards, and the waker that is woken, if any.
  pub wake : Slot → Slot × Option ℕ
  pub wake-new : (wake new).1 ≡ none
  pub wake-register : (w : ℕ) (s : Slot) → (wake (register w s)).1 ≡ some w
  pub wake-wake : (s : Slot) → (wake (wake s).0).1 ≡ none

-- A slot that is an `Option` meets the interface.
abbrev pub option_waker : AtomicWaker
option_waker = record {
  Slot = Option ℕ;
  new = none;
  register = λ w _. some w;
  wake = λ s. (none, s);
  wake-new = refl;
  wake-register = λ w s. refl;
  wake-wake = λ s. refl;
}
