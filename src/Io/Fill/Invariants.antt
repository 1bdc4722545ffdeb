-- ===== src/Io/Fill/Invariants.antt =====
-- src/io/read/ext.rs and src/io/write/ext.rs: the rule for what every piece of a transfer keeps.
use wae.Common.{
  ℕ, zero, suc, ◌+◌, ◌%◌, ◌^◌, ◌≡◌, refl, ◌≢◌, ◌⊎◌, inl, inr, some, ok, err, Poll, ready, pending,
  IoResult, IoError, ◌∙◌, sym, ℕ_discrete,
}
use wae.Io.Slice.{AsyncIo}
use wae.Io.Fill.{Fill, advance, Done, poll}
use wae.Io.Fill.Laws.{poll_last, poll_again, poll_stops}

module _ {M S : Type 0} (a : AsyncIo M S) (P : M → S → Fill → Type 0) where
  -- How a poll ends under an invariant `P`: it is done, and `P` holds of a future with all bytes behind
  -- it; or it is not, and `P` holds of the future that is left.
  abbrev pub Ends : Fill → Done M S → Type 0
  Ends f d =
      ((d.outcome ≡ ready (ok tt))
        × (f' : Fill) × P d.memory d.io f'
        × (f'.n ≡ f.len)
        × (f'.len ≡ f.len))
      ⊎ ((d.outcome ≢ ready (ok tt)) × P d.memory d.io d.fill × (d.fill.len ≡ f.len))

  -- `P` is kept by every piece, and by a poll that stops.
  pub record IsKept : Type 0 where
    pub piece :
        (m : M) (s : S) (f : Fill) (k : ℕ)
        → P m s f
        → (a.poll_io f.rest m s).2 ≡ ready (ok k)
        → P (a.poll_io f.rest m s).0 (a.poll_io f.rest m s).1 (advance k f)
    pub stop :
        (m : M) (s : S) (f : Fill)
        → P m s f
        → ((a.poll_io f.rest m s).2 ≡ pending)
          ⊎ ((e : IoError) × ((a.poll_io f.rest m s).2 ≡ ready (err e)))
        → P (a.poll_io f.rest m s).0 (a.poll_io f.rest m s).1 f

  some_injective : {x y : Done M S} → some x ≡ some y → x ≡ y
  some_injective e = cc

  len-advance : (k : ℕ) (f : Fill) → (advance k f).len ≡ f.len
  unfolding advance
  len-advance k f = refl

  n-advance : (k : ℕ) (f : Fill) → (advance k f).n ≡ (f.n + k) % 2 ^ 64
  unfolding advance
  n-advance k f = refl

  pub poll-Ends :
      (fuel : ℕ) (m : M) (s : S) (f : Fill) (d : Done M S)
      → IsKept
      → P m s f
      → poll a fuel m s f ≡ some d
      → Ends f d
  unfolding poll
  poll-Ends zero m s f d h p e = cc
  poll-Ends (suc fuel) m s f d h p e = go (a.poll_io f.rest m s).2 refl (λ k q.
      poll-Ends fuel (a.poll_io f.rest m s).0 (a.poll_io f.rest m s).1 (advance k f) d h
        (h.piece m s f k p q))
    where
      go :
          (r : Poll (IoResult ℕ))
          → (a.poll_io f.rest m s).2 ≡ r
          → ((k : ℕ)
              → (a.poll_io f.rest m s).2 ≡ ready (ok k)
              → poll a fuel (a.poll_io f.rest m s).0 (a.poll_io f.rest m s).1 (advance k f) ≡ some d
              → Ends (advance k f) d)
          → Ends f d
      go pending q again =
          let is : _ = some_injective (sym (poll_stops a fuel m s f pending (inl (q, refl))) ∙ e) in
          rw (← is) (inr (cc, h.stop m s f p (inl q), refl))
      go (ready (err x)) q again =
          let is : _ =
            some_injective (sym (poll_stops a fuel m s f (ready (err x)) (inr (x, q, refl))) ∙ e) in
          rw (← is) (inr (cc, h.stop m s f p (inr (x, q)), refl))
      go (ready (ok k)) q again = elim (ℕ_discrete ((f.n + k) % 2 ^ 64) f.len) [
        | yes last ↦
            let is : _ = some_injective (sym (poll_last a fuel k m s f q last) ∙ e) in
            rw (← is)
              (inl (refl, advance k f, h.piece m s f k p q, n-advance k f ∙ last, len-advance k f))
        | no more ↦ again k q (sym (poll_again a fuel k m s f q more) ∙ e)
      ]
