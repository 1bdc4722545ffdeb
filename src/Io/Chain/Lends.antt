-- ===== src/Io/Chain/Lends.antt =====
-- src/io/read/ext.rs: what a `Chain` has lent after a poll, by which of its readers has answered.
use wae.Common.{
  ℕ, zero, suc, ◌<◌, ◌≡◌, refl, ◌≢◌, ◌⊎◌, inl, inr, false, ok, err, ready, pending, Poll, IoResult,
  IoError, ◌∙◌, arith,
}
use wae.Io.Slice.{Wsabuf}
use wae.Io.Chain.{Chain, poll_read}
use wae.Io.Chain.Laws.{
  Source, HasLength, Lends, Stops, position, chain_reader, followed_by, chain-moves, chain-bound,
  chain-stays, chain-reads, chain-outside,
}
use wae.Io.Fill.Reads.{Memory, IsReader}

module _ {S T : Type 0} (f : Source S) (g : Source T) (length : ℕ) (l : HasLength f length) where
  -- What `Lends` says of a chain's two readers.
  abbrev Both : Wsabuf → S → T → Type 0
  Both buf s t =
      f.lends buf s
      × g.lends buf t
      × ((f.position s ≡ length)
          ⊎ ((g.position t ≡ 0) × (0 < buf.len → (buf' : Wsabuf) → g.lends buf' t)))

  flagged :
      {s : S} {t : T} (buf : Wsabuf) (c : Chain S T)
      → c.chained ≡ false
      → Both buf s t
      → Lends f g length buf (record c { first = s; next = t })
  flagged buf c n (v, w, h) = (n, v, w, h)

  -- A read of the second reader is of no bytes or after the end of the first.
  second_after :
      (buf : Wsabuf) (m : Memory) (c : Chain S T)
      → Lends f g length buf c
      → (f.io.poll_io buf m c.first).2 ≡ ready (ok 0)
      → (f.position (f.io.poll_io buf m c.first).1 ≡ length)
        ⊎ ((buf.len ≡ 0) × (g.position c.next ≡ 0))
  second_after buf m c (n, v, w, h) e =
      ground (arith, f.law.moves buf m c.first 0 v, l.ends buf m c.first v)

  second-frees :
      (buf buf' : Wsabuf) (m : Memory) (c : Chain S T) (k : ℕ)
      → Lends f g length buf c
      → (f.io.poll_io buf m c.first).2 ≡ ready (ok 0)
      → (g.io.poll_io buf (f.io.poll_io buf m c.first).0 c.next).2 ≡ ready (ok k)
      → Both buf'
          (f.io.poll_io buf m c.first).1
          (g.io.poll_io buf (f.io.poll_io buf m c.first).0 c.next).1
  second-frees buf buf' m c k (n, v, w, h) e e' =
      let m' = (f.io.poll_io buf m c.first).0 in
      (
        f.law.frees buf buf' m c.first 0 v e,
        g.law.frees buf buf' m' c.next k w e',
        elim (second_after buf m c (n, v, w, h) e) [
          | inl at ↦ inl at
          | inr (z, z') ↦ inr (
            omega
                (arith, g.law.bound buf m' c.next k w e', g.law.moves buf m' c.next k w e', z, z'),
            λ lt to. g.law.frees buf to m' c.next k w e',
          )
        ],
      )

  second-keeps :
      (buf : Wsabuf) (m : Memory) (c : Chain S T)
      → Lends f g length buf c
      → (f.io.poll_io buf m c.first).2 ≡ ready (ok 0)
      → ((g.io.poll_io buf (f.io.poll_io buf m c.first).0 c.next).2 ≡ pending)
        ⊎ ((x : IoError) × ((g.io.poll_io buf (f.io.poll_io buf m c.first).0 c.next).2
              ≡ ready (err x)))
      → Both buf
          (f.io.poll_io buf m c.first).1
          (g.io.poll_io buf (f.io.poll_io buf m c.first).0 c.next).1
  second-keeps buf m c (n, v, w, h) e e' =
      let m' = (f.io.poll_io buf m c.first).0 in
      (
        f.law.frees buf buf m c.first 0 v e,
        g.law.keeps buf m' c.next w e',
        elim (second_after buf m c (n, v, w, h) e) [
          | inl at ↦ inl at
          | inr (z, z') ↦ inr (
            omega (arith, g.law.stays buf m' c.next w e', z'),
            λ lt. absurd (omega (arith, z, lt)),
          )
        ],
      )

  first-frees :
      (buf buf' : Wsabuf) (m : Memory) (c : Chain S T) (k : ℕ)
      → Lends f g length buf c
      → (f.io.poll_io buf m c.first).2 ≡ ready (ok k)
      → 0 < k
      → Both buf' (f.io.poll_io buf m c.first).1 c.next
  first-frees buf buf' m c k (n, v, w, h) e pos = elim h [
    | inl at ↦ absurd (omega (arith, l.within buf m c.first k v e, at, pos))
    | inr (z, free) ↦
        let lt : 0 < buf.len = omega (arith, f.law.bound buf m c.first k v e, pos) in
        (f.law.frees buf buf' m c.first k v e, free lt buf', inr (z, λ _. free lt))
  ]

  first-keeps :
      (buf : Wsabuf) (m : Memory) (c : Chain S T)
      → Lends f g length buf c
      → ((f.io.poll_io buf m c.first).2 ≡ pending)
        ⊎ ((x : IoError) × ((f.io.poll_io buf m c.first).2 ≡ ready (err x)))
      → Both buf (f.io.poll_io buf m c.first).1 c.next
  first-keeps buf m c (n, v, w, h) e = (
    f.law.keeps buf m c.first v e,
    w,
    elim h [ inl at ↦ inl (f.law.stays buf m c.first v e ∙ at) | inr free ↦ inr free ],
  )

  -- A poll that is answered by the first reader, and one that goes on to the second.
  by_first :
      (buf : Wsabuf) (m : Memory) (c : Chain S T)
      → c.chained ≡ false
      → (f.io.poll_io buf m c.first).2 ≢ ready (ok 0)
      → poll_read f.io g.io buf m c ≡ (
        (f.io.poll_io buf m c.first).0,
        record c { first = (f.io.poll_io buf m c.first).1 },
        (f.io.poll_io buf m c.first).2,
      )
  unfolding poll_read
  by_first buf m c n ne = ground arith

  by_second :
      (buf : Wsabuf) (m : Memory) (c : Chain S T)
      → c.chained ≡ false
      → (f.io.poll_io buf m c.first).2 ≡ ready (ok 0)
      → poll_read f.io g.io buf m c ≡ (
        (g.io.poll_io buf (f.io.poll_io buf m c.first).0 c.next).0,
        record c {
          first = (f.io.poll_io buf m c.first).1;
          next = (g.io.poll_io buf (f.io.poll_io buf m c.first).0 c.next).1;
        },
        (g.io.poll_io buf (f.io.poll_io buf m c.first).0 c.next).2,
      )
  unfolding poll_read
  by_second buf m c n e = ground arith

  chain-frees :
      (buf buf' : Wsabuf) (m : Memory) (c : Chain S T) (k : ℕ)
      → Lends f g length buf c
      → (poll_read f.io g.io buf m c).2 ≡ ready (ok k)
      → Lends f g length buf' (poll_read f.io g.io buf m c).1
  chain-frees buf buf' m c k (n, v, w, h) e = go (f.io.poll_io buf m c.first).2 refl
    where
      go :
          (o : Poll (IoResult ℕ))
          → (f.io.poll_io buf m c.first).2 ≡ o
          → Lends f g length buf' (poll_read f.io g.io buf m c).1
      go (ready (ok zero)) q = rw (by_second buf m c n q) (
          flagged buf' c n
            (second-frees buf buf' m c k (n, v, w, h) q (rw (by_second buf m c n q) at e)))
      go (ready (ok (suc j))) q =
          let ne : (f.io.poll_io buf m c.first).2 ≢ ready (ok 0) = ground arith in
          rw (by_first buf m c n ne)
            (flagged buf' c n (first-frees buf buf' m c (suc j) (n, v, w, h) q (omega arith)))
      go (ready (err x)) q = absurd (ground (arith, by_first buf m c n, e, q))
      go pending q = absurd (ground (arith, by_first buf m c n, e, q))

  chain-keeps :
      (buf : Wsabuf) (m : Memory) (c : Chain S T)
      → Lends f g length buf c
      → Stops f g length buf m c
      → Lends f g length buf (poll_read f.io g.io buf m c).1
  chain-keeps buf m c (n, v, w, h) e = go (f.io.poll_io buf m c.first).2 refl
    where
      go :
          (o : Poll (IoResult ℕ))
          → (f.io.poll_io buf m c.first).2 ≡ o
          → Lends f g length buf (poll_read f.io g.io buf m c).1
      go (ready (ok zero)) q =
          rw (by_second buf m c n q) (
            flagged buf c n (second-keeps buf m c (n, v, w, h) q (rw (by_second buf m c n q) at e)))
      go (ready (ok (suc j))) q = absurd (ground (arith, by_first buf m c n, e, q))
      go (ready (err x)) q =
          let ne : (f.io.poll_io buf m c.first).2 ≢ ready (ok 0) = ground arith in
          rw (by_first buf m c n ne)
            (flagged buf c n (first-keeps buf m c (n, v, w, h) (inr (x, q))))
      go pending q =
          let ne : (f.io.poll_io buf m c.first).2 ≢ ready (ok 0) = ground arith in
          rw (by_first buf m c n ne) (flagged buf c n (first-keeps buf m c (n, v, w, h) (inl q)))

  pub chain-IsReader :
      IsReader
        (chain_reader f g length)
        (followed_by length f.bytes g.bytes)
        (position f g length)
        (Lends f g length)
  chain-IsReader = record {
    bound = chain-bound f g length l;
    moves = chain-moves f g length l;
    stays = chain-stays f g length l;
    reads = chain-reads f g length l;
    outside = chain-outside f g length l;
    frees = chain-frees;
    keeps = chain-keeps;
  }
