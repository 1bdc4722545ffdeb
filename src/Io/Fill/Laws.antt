-- ===== src/Io/Fill/Laws.antt =====
-- src/io/read/ext.rs and src/io/write/ext.rs: `read_exact` and `write_all` transfer the whole buffer,
-- however the transfer is cut into pieces, and do not return at the end of a stream.
use wae.Common.{
  ℕ, zero, suc, ◌+◌, ◌%◌, ◌^◌, ◌≤◌, ◌<◌, ◌≡◌, refl, ◌≢◌, ◌⊎◌, inl, inr, none, some, ok, err, Poll,
  ready, pending, IoResult, IoError, arith, ◌∙◌, ap, ℕ_discrete,
}
use wae.Io.Slice.{Wsabuf, AsyncIo}
use wae.Io.Fill.{Fill, start, advance, Done, poll}

-- The future has `n` bytes of the buffer at `address` behind it, and `rest` describes what is left.
pub record IsValid (address : ℕ) (f : Fill) : Type 0 where
  pub split : f.n + f.rest.len ≡ f.len
  pub place : f.rest.buf ≡ address + f.n
  pub small : f.len < 2 ^ 32
  pub fits : address + f.len < 2 ^ 64

pub start-IsValid :
    (buf : Wsabuf) → buf.len < 2 ^ 32 → buf.buf + buf.len < 2 ^ 64 → IsValid buf.buf (start buf)
unfolding start
start-IsValid buf h k = ground arith

pub advance-IsValid :
    (address k : ℕ) (f : Fill) → k ≤ f.rest.len → IsValid address f → IsValid address (advance k f)
unfolding advance
advance-IsValid address k f h v = ground arith

-- A piece that is not the last one is not empty, and leaves less.
pub advance_shorter :
    (address k fuel : ℕ) (f : Fill)
    → k ≤ f.rest.len
    → (f.n + k) % 2 ^ 64 ≢ f.len
    → (0 < f.rest.len → k ≢ 0)
    → IsValid address f
    → f.rest.len < suc fuel
    → (advance k f).rest.len < fuel
unfolding advance
advance_shorter address k fuel f le more h v lt = ground arith

module _ {M S : Type 0} (a : AsyncIo M S) where
  -- No more bytes are reported than were asked for.
  pub record IsBounded : Type 0 where
    pub bound :
        (buf : Wsabuf) (m : M) (s : S) (k : ℕ) → (a.poll_io buf m s).2 ≡ ready (ok k) → k ≤ buf.len

  -- Some bytes are transferred whenever some were asked for: the stream has not ended.
  pub record HasMore : Type 0 where
    pub more : (buf : Wsabuf) (m : M) (s : S) → 0 < buf.len → (a.poll_io buf m s).2 ≢ ready (ok 0)

  -- The stream has ended: every poll returns no bytes at once.
  abbrev pub AtEnd : S → Type 0
  AtEnd s = (buf : Wsabuf) (m : M) → a.poll_io buf m s ≡ (m, s, ready (ok 0))

  -- The last poll of a future, and one that goes on.
  pub poll_last :
      (fuel k : ℕ) (m : M) (s : S) (f : Fill)
      → (a.poll_io f.rest m s).2 ≡ ready (ok k)
      → (f.n + k) % 2 ^ 64 ≡ f.len
      → poll a (suc fuel) m s f
        ≡ some (record {
          memory = (a.poll_io f.rest m s).0;
          io = (a.poll_io f.rest m s).1;
          fill = record f { n = (f.n + k) % 2 ^ 64 };
          outcome = ready (ok tt);
        })
  unfolding poll
  poll_last fuel k m s f e h = ground arith

  pub poll_again :
      (fuel k : ℕ) (m : M) (s : S) (f : Fill)
      → (a.poll_io f.rest m s).2 ≡ ready (ok k)
      → (f.n + k) % 2 ^ 64 ≢ f.len
      → poll a (suc fuel) m s f
        ≡ poll a fuel (a.poll_io f.rest m s).0 (a.poll_io f.rest m s).1 (advance k f)
  unfolding poll
  poll_again fuel k m s f e h = ground arith

  -- A poll that makes no progress hands on what the reader or writer returned.
  pub poll_stops :
      (fuel : ℕ) (m : M) (s : S) (f : Fill) (o : Poll (IoResult (Unit {0})))
      → ((a.poll_io f.rest m s).2 ≡ pending) × (o ≡ pending)
        ⊎ ((e : IoError) × ((a.poll_io f.rest m s).2 ≡ ready (err e)) × (o ≡ ready (err e)))
      → poll a (suc fuel) m s f
        ≡ some (record {
          memory = (a.poll_io f.rest m s).0;
          io = (a.poll_io f.rest m s).1;
          fill = f;
          outcome = o;
        })
  unfolding poll
  poll_stops fuel m s f o h = ground arith

  -- On a reader or writer that never ends, a poll of a valid future returns, with as much fuel as there
  -- are bytes left and one.
  pub poll_returns :
      (address fuel : ℕ) (m : M) (s : S) (f : Fill)
      → IsBounded
      → HasMore
      → IsValid address f
      → f.rest.len < fuel
      → (d : Done M S) × (poll a fuel m s f ≡ some d)
  poll_returns address zero m s f b h v lt = absurd (omega arith)
  poll_returns address (suc fuel) m s f b h v lt = go (a.poll_io f.rest m s).2 refl (λ k.
      poll_returns address fuel (a.poll_io f.rest m s).0 (a.poll_io f.rest m s).1 (advance k f) b h)
    where
      go :
          (p : Poll (IoResult ℕ))
          → (a.poll_io f.rest m s).2 ≡ p
          → ((k : ℕ)
              → IsValid address (advance k f)
              → (advance k f).rest.len < fuel
              → (d : Done M S) × (poll a fuel
                    (a.poll_io f.rest m s).0
                    (a.poll_io f.rest m s).1
                    (advance k f)
                  ≡ some d))
          → (d : Done M S) × (poll a (suc fuel) m s f ≡ some d)
      go pending e again = (_, poll_stops fuel m s f pending (inl (e, refl)))
      go (ready (err x)) e again = (_, poll_stops fuel m s f (ready (err x)) (inr (x, e, refl)))
      go (ready (ok k)) e again = elim (ℕ_discrete ((f.n + k) % 2 ^ 64) f.len) [
        | yes last ↦ (_, poll_last fuel k m s f e last)
        | no more ↦
            let le = b.bound f.rest m s k e in
            let (d, q) = again k (advance-IsValid address k f le v) (
              advance_shorter address k fuel f le more
                (λ pos z. h.more f.rest m s pos (e ∙ ap (λ j. ready (ok j)) z)) v lt) in
            (d, poll_again fuel k m s f e more ∙ q)
      ]

  -- At the end of the stream, a future that has bytes left never returns: no fuel is enough.
  pub poll-AtEnd :
      (fuel : ℕ) (m : M) (s : S) (f : Fill)
      → AtEnd s
      → f.n ≢ f.len
      → f.n < 2 ^ 64
      → poll a fuel m s f ≡ none
  unfolding poll
  poll-AtEnd zero m s f end ne lt = refl
  poll-AtEnd (suc fuel) m s f end ne lt =
      ground (arith, end f.rest m, poll-AtEnd fuel m s (advance 0 f) end)
