-- ===== src/Io/Fill/Reads.antt =====
-- src/io/read/ext.rs: `read_exact` fills its buffer with the next bytes of the stream, and touches no
-- other memory.
use wae.Common.{
  ℕ, ◌+◌, ◌-◌, ◌^◌, ◌≤◌, ◌<◌, ◌≡◌, refl, ◌≢◌, ◌⊎◌, inl, inr, some, ok, err, ready, pending, IoError,
  arith, ◌∙◌, ap, dec_lt,
}
use wae.Io.Slice.{Wsabuf, AsyncIo}
use wae.Io.Fill.{Fill, start, advance, Done, poll}
use wae.Io.Fill.Laws.{IsValid, start-IsValid, advance-IsValid}
use wae.Io.Fill.Invariants.{Ends, IsKept, poll-Ends}

abbrev pub Memory : Type 0
Memory = ℕ → ℕ

module _ {S : Type 0} (a : AsyncIo Memory S) (bytes : ℕ → ℕ) (position : S → ℕ)
    (Lends : Wsabuf → S → Type 0) where
  -- `a` reads the stream `bytes`, from the position of its state on. A poll writes within its buffer
  -- only, and what it reports as read is there. A poll that reads nothing may have written there too.
  -- This holds of polls that lend a buffer as `Lends` says: while a read is pending, the same one.
  pub record IsReader : Type 0 where
    pub bound :
        (buf : Wsabuf) (m : Memory) (s : S) (k : ℕ)
        → Lends buf s
        → (a.poll_io buf m s).2 ≡ ready (ok k)
        → k ≤ buf.len
    pub moves :
        (buf : Wsabuf) (m : Memory) (s : S) (k : ℕ)
        → Lends buf s
        → (a.poll_io buf m s).2 ≡ ready (ok k)
        → position (a.poll_io buf m s).1 ≡ position s + k
    pub stays :
        (buf : Wsabuf) (m : Memory) (s : S)
        → Lends buf s
        → ((a.poll_io buf m s).2 ≡ pending)
          ⊎ ((e : IoError) × ((a.poll_io buf m s).2 ≡ ready (err e)))
        → position (a.poll_io buf m s).1 ≡ position s
    pub reads :
        (buf : Wsabuf) (m : Memory) (s : S) (k x : ℕ)
        → Lends buf s
        → (a.poll_io buf m s).2 ≡ ready (ok k)
        → x < k
        → (a.poll_io buf m s).0 (buf.buf + x) ≡ bytes (position s + x)
    pub outside :
        (buf : Wsabuf) (m : Memory) (s : S) (x : ℕ)
        → Lends buf s
        → (x < buf.buf) ⊎ (buf.buf + buf.len ≤ x)
        → (a.poll_io buf m s).0 x ≡ m x
    pub frees :
        (buf buf' : Wsabuf) (m : Memory) (s : S) (k : ℕ)
        → Lends buf s
        → (a.poll_io buf m s).2 ≡ ready (ok k)
        → Lends buf' (a.poll_io buf m s).1
    pub keeps :
        (buf : Wsabuf) (m : Memory) (s : S)
        → Lends buf s
        → ((a.poll_io buf m s).2 ≡ pending)
          ⊎ ((e : IoError) × ((a.poll_io buf m s).2 ≡ ready (err e)))
        → Lends buf (a.poll_io buf m s).1

  -- The future has read into the buffer at `address` from position `from` of the stream on, in a memory
  -- that was `before`.
  pub record HasRead (address from : ℕ) (before m : Memory) (s : S) (f : Fill) : Type 0 where
    pub valid : IsValid address f
    pub lent : Lends f.rest s
    pub at : position s ≡ from + f.n
    pub filled : (x : ℕ) → x < f.n → m (address + x) ≡ bytes (from + x)
    pub untouched : (x : ℕ) → (x < address) ⊎ (address + f.len ≤ x) → m x ≡ before x

  module _ (r : IsReader) (address from : ℕ) (before : Memory) where
    n-advance_small :
        (k : ℕ) (f : Fill) → k ≤ f.rest.len → IsValid address f → (advance k f).n ≡ f.n + k
    unfolding advance
    n-advance_small k f le v = ground arith

    len-advance : (k : ℕ) (f : Fill) → (advance k f).len ≡ f.len
    unfolding advance
    len-advance k f = refl

    shift : (m : Memory) (x y : ℕ) → x ≡ y → m x ≡ m y
    shift m x y e = ap m e

    pub piece-HasRead :
        (m : Memory) (s : S) (f : Fill) (k : ℕ)
        → HasRead address from before m s f
        → (a.poll_io f.rest m s).2 ≡ ready (ok k)
        → HasRead address from before
            (a.poll_io f.rest m s).0
            (a.poll_io f.rest m s).1
            (advance k f)
    piece-HasRead m s f k h e = record {
      valid = advance-IsValid address k f le h.valid;
      lent = r.frees f.rest (advance k f).rest m s k h.lent e;
      at = omega (arith, r.moves f.rest m s k h.lent e, h.at, n-advance_small k f le h.valid);
      filled = λ x lt. elim (dec_lt x f.n) [
        | yes old ↦
            r.outside f.rest m s (address + x) h.lent (inl (omega (arith, h.valid.place)))
            ∙ h.filled x old
        | no new ↦
            shift (a.poll_io f.rest m s).0 (address + x) (f.rest.buf + (x - f.n))
              (omega (arith, h.valid.place))
            ∙ (r.reads f.rest m s k (x - f.n) h.lent e
                  (omega (arith, n-advance_small k f le h.valid))
                ∙ shift bytes (position s + (x - f.n)) (from + x) (omega (arith, h.at)))
      ];
      untouched = λ x o.
          r.outside f.rest m s x h.lent (out x o) ∙ h.untouched x (rw (len-advance k f) at o);
    }
      where
        le : k ≤ f.rest.len
        le = r.bound f.rest m s k h.lent e

        out :
            (x : ℕ)
            → (x < address) ⊎ (address + (advance k f).len ≤ x)
            → (x < f.rest.buf) ⊎ (f.rest.buf + f.rest.len ≤ x)
        out x (inl lt) = inl (omega (arith, h.valid.place))
        out x (inr ge) = inr (omega (arith, h.valid.place, h.valid.split, len-advance k f))

    pub stop-HasRead :
        (m : Memory) (s : S) (f : Fill)
        → HasRead address from before m s f
        → ((a.poll_io f.rest m s).2 ≡ pending)
          ⊎ ((e : IoError) × ((a.poll_io f.rest m s).2 ≡ ready (err e)))
        → HasRead address from before (a.poll_io f.rest m s).0 (a.poll_io f.rest m s).1 f
    stop-HasRead m s f h e = record {
      valid = h.valid;
      lent = r.keeps f.rest m s h.lent e;
      at = r.stays f.rest m s h.lent e ∙ h.at;
      filled = λ x lt.
          r.outside f.rest m s (address + x) h.lent (inl (omega (arith, h.valid.place)))
          ∙ h.filled x lt;
      untouched = λ x o. r.outside f.rest m s x h.lent (out x o) ∙ h.untouched x o;
    }
      where
        out :
            (x : ℕ)
            → (x < address) ⊎ (address + f.len ≤ x)
            → (x < f.rest.buf) ⊎ (f.rest.buf + f.rest.len ≤ x)
        out x (inl lt) = inl (omega (arith, h.valid.place))
        out x (inr ge) = inr (omega (arith, h.valid.place, h.valid.split))

    -- The buffer of `len` bytes holds the next bytes of the stream, and all other memory is as before.
    abbrev pub IsFilled : ℕ → Done Memory S → Type 0
    IsFilled len d =
        (position d.io ≡ from + len)
        × ((x : ℕ) → x < len → d.memory (address + x) ≡ bytes (from + x))
        × ((x : ℕ) → (x < address) ⊎ (address + len ≤ x) → d.memory x ≡ before x)

    pub kept-HasRead : IsKept a (HasRead address from before)
    kept-HasRead = record { piece = piece-HasRead; stop = stop-HasRead }

    -- The outcome is `Ok` and the buffer is filled, or the future has kept what has been read.
    abbrev pub IsFilledOrKept : Fill → Done Memory S → Type 0
    IsFilledOrKept f d =
        ((d.outcome ≡ ready (ok tt)) × IsFilled f.len d)
        ⊎ ((d.outcome ≢ ready (ok tt))
            × HasRead address from before d.memory d.io d.fill
            × (d.fill.len ≡ f.len))

    pub filled-Ends :
        (f : Fill) (d : Done Memory S)
        → Ends a (HasRead address from before) f d
        → IsFilledOrKept f d
    filled-Ends f d (inl (o, f', h', n, l)) = inl (
      o,
      (
        h'.at ∙ ap (λ (j : ℕ). from + j) n,
        λ x lt. h'.filled x (omega arith),
        λ x out. h'.untouched x (rw (← l) at out),
      ),
    )
    filled-Ends f d (inr (o, h', l)) = inr (o, h', l)

    -- A poll of `read_exact` that is `Ok` has filled the whole buffer, in order, with the bytes of the
    -- stream that follow; one that is not keeps what has been read, for the poll after it.
    pub read_exact_fills :
        (fuel : ℕ) (m : Memory) (s : S) (f : Fill) (d : Done Memory S)
        → HasRead address from before m s f
        → poll a fuel m s f ≡ some d
        → IsFilledOrKept f d
    read_exact_fills fuel m s f d h e =
        filled-Ends f d (poll-Ends a (HasRead address from before) fuel m s f d kept-HasRead h e)

  -- Before its first poll `read_exact` has read nothing.
  pub start-HasRead :
      (buf : Wsabuf) (m : Memory) (s : S)
      → buf.len < 2 ^ 32
      → buf.buf + buf.len < 2 ^ 64
      → Lends buf s
      → HasRead buf.buf (position s) m m s (start buf)
  unfolding start
  start-HasRead buf m s small fits lends = record {
    valid = start-IsValid buf small fits;
    lent = lends;
    at = omega arith;
    filled = λ x lt. absurd (omega arith);
    untouched = λ x o. refl;
  }
