-- ===== src/Io/State/Laws.antt =====
-- src/io/shared/state.rs: what the accesses do to one another.
use wae.Common.{
  ℕ, ◌≡◌, refl, ◌≢◌, inl, inr, Bool, true, false, ◌&&◌, none, some, List, [], ◌∷◌, arith,
  Bool-cases, if◌then◌else◌,
}
use wae.Io.State.{
  schedule, is_scheduling, claim_pending, callback_pending, callback_cancelled_nowait,
  callback_cancelled_wait, finish,
}

-- One conditional access of the code.
pub data Claim : Type 0 where
  schedules claims_pending claims_nowait claims_wait finishes : Claim

unfoldable pub attempt : Claim → ℕ → ℕ × Bool
unfolding schedule claim_pending callback_cancelled_nowait callback_cancelled_wait finish
attempt schedules = schedule
attempt claims_pending = claim_pending
attempt claims_nowait = callback_cancelled_nowait
attempt claims_wait = callback_cancelled_wait
attempt finishes = finish

-- On any word at most one kind of claim succeeds.
pub claims_exclusive :
    (word : ℕ) (a b : Claim) → (attempt a word).1 ≡ true → (attempt b word).1 ≡ true → a ≡ b
unfolding attempt
claims_exclusive word a b p q = ground arith

-- After a claim that succeeds, other than `finish`, every claim fails and leaves the word alone.
pub claim_locks :
    (word : ℕ) (a b : Claim)
    → a ≢ Claim.finishes
    → (attempt a word).1 ≡ true
    → attempt b (attempt a word).0 ≡ ((attempt a word).0, false)
unfolding attempt
claim_locks word a b n p = ground arith

abbrev pub all_scheduling : List ℕ → Bool
all_scheduling [] = true
all_scheduling (load ∷ loads) = is_scheduling load && all_scheduling loads

-- `callback_pending` returns exactly if one of the words that it reads is not `scheduling`, and then
-- with the outcome of its exchange at the word that this meets.
pub callback_pending_lem :
    (loads : List ℕ) (word : ℕ)
    → callback_pending loads word
      ≡ (if all_scheduling loads then none else some (claim_pending word))
unfolding callback_pending
callback_pending_lem [] word = refl
callback_pending_lem (load ∷ loads) word = elim (Bool-cases (is_scheduling load)) [
  | inl e ↦ rw e (callback_pending_lem loads word)
  | inr e ↦ rw e
]
