-- ===== src/Io/Fill/Polls.antt =====
-- src/io/read/ext.rs and src/io/write/ext.rs: a transfer polled until it is ready, under any rule for
-- what its pieces keep.
use wae.Common.{
  ℕ, zero, suc, Option, none, some, ◌+◌, ◌%◌, ◌^◌, ◌≤◌, ◌<◌, ◌≡◌, refl, ◌≢◌, inl, inr, ok, err,
  ready, pending, Poll, IoResult, arith, ◌∙◌, ap, ℕ_discrete,
}
use wae.Io.Slice.{AsyncIo}
use wae.Io.Fill.{Fill, advance, Done, poll}
use wae.Io.Fill.Laws.{IsValid, advance_shorter, poll_last, poll_again, poll_stops}
use wae.Io.Fill.Invariants.{Ends, IsKept, poll-Ends}

module _ {M S : Type 0} (a : AsyncIo M S) where
  -- The future is polled, and polled again as long as it is pending, at most so many times.
  abbrev pub polls : ℕ → ℕ → M → S → Fill → Option (Done M S)
  polls zero fuel m s f = poll a fuel m s f
  polls (suc times) fuel m s f = elim (poll a fuel m s f) [
    | none ↦ none
    | some d ↦ elim d.outcome [ pending ↦ polls times fuel d.memory d.io d.fill | ready r ↦ some d ]
  ]

module _ {M S : Type 0} (a : AsyncIo M S) (P : M → S → Fill → Type 0) (kept : IsKept a P) where
  -- However often a future is polled, it ends as one poll does.
  pub polls-Ends :
      (times fuel : ℕ) (m : M) (s : S) (f : Fill) (d : Done M S)
      → P m s f
      → polls a times fuel m s f ≡ some d
      → Ends a P f d
  polls-Ends zero fuel m s f d h e = poll-Ends a P fuel m s f d kept h e
  polls-Ends (suc times) fuel m s f d h e =
      first (poll a fuel m s f) refl
        (λ d1 h1 q. polls-Ends times fuel d1.memory d1.io d1.fill d h1 q)
    where
      Again : Type 0
      Again =
          (d1 : Done M S)
          → P d1.memory d1.io d1.fill
          → polls a times fuel d1.memory d1.io d1.fill ≡ some d
          → Ends a P d1.fill d

      ends :
          (d1 : Done M S) (o : Poll (IoResult (Unit {0})))
          → poll a fuel m s f ≡ some d1
          → d1.outcome ≡ o
          → Again
          → Ends a P f d
      ends d1 (ready x) q w again = poll-Ends a P fuel m s f d kept h (ground arith)
      ends d1 pending q w again = elim (poll-Ends a P fuel m s f d1 kept h q) [
        | inl (o, _, _, _, _) ↦ absurd (ground arith)
        | inr (_, h1, l) ↦ rw l at (again d1 h1 (ground arith))
      ]

      first : (p : Option (Done M S)) → poll a fuel m s f ≡ p → Again → Ends a P f d
      first none q again = absurd (ground arith)
      first (some d1) q again = ends d1 d1.outcome q refl again

  -- Under the rule no poll transfers more than it was asked for, nor nothing of something.
  pub record Progresses (address : ℕ) : Type 0 where
    pub valid : (m : M) (s : S) (f : Fill) → P m s f → IsValid address f
    pub bound :
        (m : M) (s : S) (f : Fill) (k : ℕ)
        → P m s f
        → (a.poll_io f.rest m s).2 ≡ ready (ok k)
        → k ≤ f.rest.len
    pub more :
        (m : M) (s : S) (f : Fill)
        → P m s f
        → 0 < f.rest.len
        → (a.poll_io f.rest m s).2 ≢ ready (ok 0)

  module _ (address : ℕ) (b : Progresses address) where
    poll_returns_under :
        (fuel : ℕ) (m : M) (s : S) (f : Fill)
        → P m s f
        → f.rest.len < fuel
        → (d : Done M S) × (poll a fuel m s f ≡ some d)
    poll_returns_under zero m s f h lt = absurd (omega arith)
    poll_returns_under (suc fuel) m s f h lt = go (a.poll_io f.rest m s).2 refl (λ k.
        poll_returns_under fuel (a.poll_io f.rest m s).0 (a.poll_io f.rest m s).1 (advance k f))
      where
        go :
            (p : Poll (IoResult ℕ))
            → (a.poll_io f.rest m s).2 ≡ p
            → ((k : ℕ)
                → P (a.poll_io f.rest m s).0 (a.poll_io f.rest m s).1 (advance k f)
                → (advance k f).rest.len < fuel
                → (d : Done M S) × (poll a fuel
                      (a.poll_io f.rest m s).0
                      (a.poll_io f.rest m s).1
                      (advance k f)
                    ≡ some d))
            → (d : Done M S) × (poll a (suc fuel) m s f ≡ some d)
        go pending e again = (_, poll_stops a fuel m s f pending (inl (e, refl)))
        go (ready (err x)) e again = (_, poll_stops a fuel m s f (ready (err x)) (inr (x, e, refl)))
        go (ready (ok k)) e again = elim (ℕ_discrete ((f.n + k) % 2 ^ 64) f.len) [
          | yes last ↦ (_, poll_last a fuel k m s f e last)
          | no next ↦
              let (d, q) = again k (kept.piece m s f k h e) (
                advance_shorter address k fuel f (b.bound m s f k h e) next
                  (λ pos z. b.more m s f h pos (e ∙ ap (λ j. ready (ok j)) z)) (b.valid m s f h)
                  lt) in
              (d, poll_again a fuel k m s f e next ∙ q)
        ]

    -- Each poll of the future returns, with fuel for one more call of itself than its buffer has bytes.
    pub polls_return :
        (times fuel : ℕ) (m : M) (s : S) (f : Fill)
        → P m s f
        → f.len < fuel
        → (d : Done M S) × (polls a times fuel m s f ≡ some d)
    polls_return zero fuel m s f h lt =
        poll_returns_under fuel m s f h (omega (arith, (b.valid m s f h).split))
    polls_return (suc times) fuel m s f h lt =
        go (poll_returns_under fuel m s f h (omega (arith, (b.valid m s f h).split)))
          (λ d1 h1 l. polls_return times fuel d1.memory d1.io d1.fill h1 l)
      where
        ends :
            (d1 : Done M S) (o : Poll (IoResult (Unit {0})))
            → poll a fuel m s f ≡ some d1
            → d1.outcome ≡ o
            → ((d : Done M S) × (polls a times fuel d1.memory d1.io d1.fill ≡ some d))
            → (d : Done M S) × (polls a (suc times) fuel m s f ≡ some d)
        ends d1 (ready x) q w (d, e) = (d1, ground arith)
        ends d1 pending q w (d, e) = (d, ground arith)

        go :
            ((d1 : Done M S) × (poll a fuel m s f ≡ some d1))
            → ((d1 : Done M S)
                → P d1.memory d1.io d1.fill
                → d1.fill.len < fuel
                → (d : Done M S) × (polls a times fuel d1.memory d1.io d1.fill ≡ some d))
            → (d : Done M S) × (polls a (suc times) fuel m s f ≡ some d)
        go (d1, q) again = elim (poll-Ends a P fuel m s f d1 kept h q) [
          | inl (o, _, _, _, _) ↦ (d1, ground arith)
          | inr (o, h1, l) ↦ ends d1 d1.outcome q refl (again d1 h1 (omega arith))
        ]
