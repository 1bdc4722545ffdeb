-- ===== src/Io/Fill/Writes.antt =====
-- src/io/write/ext.rs: `write_all` sends the whole buffer in order, and changes no memory.
use wae.Common.{
  ℕ, ◌+◌, ◌-◌, ◌^◌, ◌≤◌, ◌<◌, ◌≡◌, refl, ◌≢◌, ◌⊎◌, inl, inr, some, ok, err, ready, pending, IoError,
  arith, ◌∙◌, ap, dec_lt,
}
use wae.Io.Slice.{Wsabuf, AsyncIo}
use wae.Io.Fill.{Fill, start, advance, Done, poll}
use wae.Io.Fill.Laws.{IsValid, start-IsValid, advance-IsValid}
use wae.Io.Fill.Invariants.{Ends, IsKept, poll-Ends}

abbrev pub Memory : Type 0
Memory = ℕ → ℕ

module _ {S : Type 0} (a : AsyncIo Memory S) (sent : S → ℕ → ℕ) (count : S → ℕ)
    (Lends : Wsabuf → S → Type 0) where
  -- `a` sends a stream: `count s` bytes so far, of which `sent s` gives each. A poll leaves memory and
  -- what was sent alone, and what it reports as written is sent. This holds of polls that lend a buffer
  -- as `Lends` says: while a write is pending, the same one.
  pub record IsWriter : Type 0 where
    pub bound :
        (buf : Wsabuf) (m : Memory) (s : S) (k : ℕ)
        → Lends buf s
        → (a.poll_io buf m s).2 ≡ ready (ok k)
        → k ≤ buf.len
    pub moves :
        (buf : Wsabuf) (m : Memory) (s : S) (k : ℕ)
        → Lends buf s
        → (a.poll_io buf m s).2 ≡ ready (ok k)
        → count (a.poll_io buf m s).1 ≡ count s + k
    pub stays :
        (buf : Wsabuf) (m : Memory) (s : S)
        → Lends buf s
        → ((a.poll_io buf m s).2 ≡ pending)
          ⊎ ((e : IoError) × ((a.poll_io buf m s).2 ≡ ready (err e)))
        → count (a.poll_io buf m s).1 ≡ count s
    pub writes :
        (buf : Wsabuf) (m : Memory) (s : S) (k x : ℕ)
        → Lends buf s
        → (a.poll_io buf m s).2 ≡ ready (ok k)
        → x < k
        → sent (a.poll_io buf m s).1 (count s + x) ≡ m (buf.buf + x)
    pub before :
        (buf : Wsabuf) (m : Memory) (s : S) (x : ℕ)
        → Lends buf s
        → x < count s
        → sent (a.poll_io buf m s).1 x ≡ sent s x
    pub leaves :
        (buf : Wsabuf) (m : Memory) (s : S) (x : ℕ) → Lends buf s → (a.poll_io buf m s).0 x ≡ m x
    pub frees :
        (buf buf' : Wsabuf) (m : Memory) (s : S) (k : ℕ)
        → Lends buf s
        → (a.poll_io buf m s).2 ≡ ready (ok k)
        → Lends buf' (a.poll_io buf m s).1
    pub keeps :
        (buf : Wsabuf) (m : Memory) (s : S)
        → Lends buf s
        → ((a.poll_io buf m s).2 ≡ pending)
          ⊎ ((e : IoError) × ((a.poll_io buf m s).2 ≡ ready (err e)))
        → Lends buf (a.poll_io buf m s).1

  -- The future has sent the first bytes of the buffer at `address` of memory `m0`, after `from` bytes
  -- that were `old`.
  pub record HasSent (address from : ℕ) (old m0 m : Memory) (s : S) (f : Fill) : Type 0 where
    pub valid : IsValid address f
    pub lent : Lends f.rest s
    pub at : count s ≡ from + f.n
    pub done : (x : ℕ) → x < f.n → sent s (from + x) ≡ m0 (address + x)
    pub earlier : (x : ℕ) → x < from → sent s x ≡ old x
    pub same : (x : ℕ) → m x ≡ m0 x

  module _ (w : IsWriter) (address from : ℕ) (old m0 : Memory) where
    n-advance_small :
        (k : ℕ) (f : Fill) → k ≤ f.rest.len → IsValid address f → (advance k f).n ≡ f.n + k
    unfolding advance
    n-advance_small k f le v = ground arith

    piece-HasSent :
        (m : Memory) (s : S) (f : Fill) (k : ℕ)
        → HasSent address from old m0 m s f
        → (a.poll_io f.rest m s).2 ≡ ready (ok k)
        → HasSent address from old m0
            (a.poll_io f.rest m s).0
            (a.poll_io f.rest m s).1
            (advance k f)
    piece-HasSent m s f k h e = record {
      valid = advance-IsValid address k f le h.valid;
      lent = w.frees f.rest (advance k f).rest m s k h.lent e;
      at = omega (arith, w.moves f.rest m s k h.lent e, h.at, n-advance_small k f le h.valid);
      done = λ x lt. elim (dec_lt x f.n) [
        | yes past ↦ w.before f.rest m s (from + x) h.lent (omega (arith, h.at)) ∙ h.done x past
        | no new ↦
            ap (sent (a.poll_io f.rest m s).1) (omega (arith, h.at))
            ∙ (w.writes f.rest m s k (x - f.n) h.lent e
                  (omega (arith, n-advance_small k f le h.valid))
                ∙ (ap m (omega (arith, h.valid.place)) ∙ h.same (address + x)))
      ];
      earlier = λ x lt. w.before f.rest m s x h.lent (omega (arith, h.at)) ∙ h.earlier x lt;
      same = λ x. w.leaves f.rest m s x h.lent ∙ h.same x;
    }
      where
        le : k ≤ f.rest.len
        le = w.bound f.rest m s k h.lent e

    stop-HasSent :
        (m : Memory) (s : S) (f : Fill)
        → HasSent address from old m0 m s f
        → ((a.poll_io f.rest m s).2 ≡ pending)
          ⊎ ((e : IoError) × ((a.poll_io f.rest m s).2 ≡ ready (err e)))
        → HasSent address from old m0 (a.poll_io f.rest m s).0 (a.poll_io f.rest m s).1 f
    stop-HasSent m s f h e = record {
      valid = h.valid;
      lent = w.keeps f.rest m s h.lent e;
      at = w.stays f.rest m s h.lent e ∙ h.at;
      done = λ x lt. w.before f.rest m s (from + x) h.lent (omega (arith, h.at)) ∙ h.done x lt;
      earlier = λ x lt. w.before f.rest m s x h.lent (omega (arith, h.at)) ∙ h.earlier x lt;
      same = λ x. w.leaves f.rest m s x h.lent ∙ h.same x;
    }

    -- The buffer of `len` bytes was sent after what was sent before.
    abbrev pub IsSent : ℕ → Done Memory S → Type 0
    IsSent len d =
        (count d.io ≡ from + len)
        × ((x : ℕ) → x < len → sent d.io (from + x) ≡ m0 (address + x))
        × ((x : ℕ) → x < from → sent d.io x ≡ old x)
        × ((x : ℕ) → d.memory x ≡ m0 x)

    pub kept-HasSent : IsKept a (HasSent address from old m0)
    kept-HasSent = record { piece = piece-HasSent; stop = stop-HasSent }

    -- The outcome is `Ok` and the buffer was sent, or the future has kept count of what was.
    abbrev pub IsSentOrKept : Fill → Done Memory S → Type 0
    IsSentOrKept f d =
        ((d.outcome ≡ ready (ok tt)) × IsSent f.len d)
        ⊎ ((d.outcome ≢ ready (ok tt))
            × HasSent address from old m0 d.memory d.io d.fill
            × (d.fill.len ≡ f.len))

    pub sent-Ends :
        (f : Fill) (d : Done Memory S) → Ends a (HasSent address from old m0) f d → IsSentOrKept f d
    sent-Ends f d (inl (o, f', h', n, l)) = inl (
      o,
      (h'.at ∙ ap (λ (j : ℕ). from + j) n, λ x lt. h'.done x (omega arith), h'.earlier, h'.same),
    )
    sent-Ends f d (inr (o, h', l)) = inr (o, h', l)

    -- A poll of `write_all` that is `Ok` has sent the whole buffer, in order and once, after what was sent
    -- before; one that is not keeps count of what has been sent, for the poll after it.
    pub write_all_sends :
        (fuel : ℕ) (m : Memory) (s : S) (f : Fill) (d : Done Memory S)
        → HasSent address from old m0 m s f
        → poll a fuel m s f ≡ some d
        → IsSentOrKept f d
    write_all_sends fuel m s f d h e =
        sent-Ends f d (poll-Ends a (HasSent address from old m0) fuel m s f d kept-HasSent h e)

  -- Before its first poll `write_all` has sent nothing.
  pub start-HasSent :
      (buf : Wsabuf) (m : Memory) (s : S)
      → buf.len < 2 ^ 32
      → buf.buf + buf.len < 2 ^ 64
      → Lends buf s
      → HasSent buf.buf (count s) (sent s) m m s (start buf)
  unfolding start
  start-HasSent buf m s small fits lends = record {
    valid = start-IsValid buf small fits;
    lent = lends;
    at = omega arith;
    done = λ x lt. absurd (omega arith);
    earlier = λ x lt. refl;
    same = λ x. refl;
  }
