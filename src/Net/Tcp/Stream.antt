-- ===== src/Net/Tcp/Stream.antt =====
-- src/net/tcp/read.rs: a `TcpStream` as a reader, with what the operating system does to the buffer.
use wae.Common.{
  IoError, ℕ, suc, ◌+◌, ◌-◌, ◌≤◌, ◌<◌, ◌≡◌, refl, ◌∙◌, ap, ◌⊎◌, inl, inr, Bool, true, ◌&&◌, none,
  some, List, [], ◌∷◌, ◌++◌, ltb, leb, ◌==◌, is_code, if◌then◌else◌, ok, err, Poll, ready, pending,
  IoResult, arith,
}
use wae.Io.State
use wae.Io.Waker.{AtomicWaker}
use wae.Io.Handle.{Half, poll, complete, cancel}
use wae.Io.Slice.{Wsabuf, AsyncIo}
use wae.Io.Fill.{Fill}
use wae.Io.Fill.Reads.{Memory, IsReader, HasRead}
use wae.Net.Tcp.Transfer.{Answers, schedule_read, is_deferred}

-- What one poll of a stream meets: whether the callbacks that are due have run before, and whether then a
-- pending receive has completed, with which code and how many bytes; and what Winsock answers if the poll
-- starts a receive.
pub record Meets : Type 0 where
  pub waker : ℕ
  pub calls : Bool
  pub arrives : Bool
  pub code : ℕ
  pub count : ℕ
  pub answers : Answers

abbrev pub at_most : ℕ → ℕ → ℕ
at_most len n = if ltb len n then len else n

-- `n` bytes of the stream, from `position` on, are put at `address`.
abbrev pub received : (ℕ → ℕ) → ℕ → ℕ → ℕ → Memory → Memory
received bytes position address n m x =
    if leb address x && ltb x (address + n) then bytes (position + (x - address)) else m x

-- Receives are deferred only when the callbacks of those that were done at once have run.
abbrev pub IsTimely : (ℕ → Meets) → Type 0
IsTimely plan = (t : ℕ) → is_deferred (plan t).answers ≡ true → (plan t).calls ≡ true

-- The callbacks of completions with these codes and bytes run, one after the other.
unfoldable pub call_due : (aw : AtomicWaker) → List (ℕ × ℕ) → Half aw → Half aw
unfolding complete
call_due aw [] half = half
call_due aw ((code, n) ∷ due) half = elim (complete aw code n half) [
  | none ↦ call_due aw due half
  | some (half', _) ↦ call_due aw due half'
]

complete-idle :
    (aw : AtomicWaker) (code n : ℕ) (half : Half aw)
    → half.word ≡ State.idle
    → complete aw code n half ≡ some (half, none)
unfolding complete
complete-idle aw code n half w = ground arith

pub call_due-idle :
    (aw : AtomicWaker) (due : List (ℕ × ℕ)) (half : Half aw)
    → half.word ≡ State.idle
    → call_due aw due half ≡ half
unfolding call_due
call_due-idle aw [] half w = refl
call_due-idle aw ((code, n) ∷ due) half w =
    let same : complete aw code n half ≡ some (half, none) = complete-idle aw code n half w in
    let rest = call_due-idle aw due half w in ground (arith, same, rest)

pub call_due-none :
    (aw : AtomicWaker) (due : List (ℕ × ℕ)) (half : Half aw)
    → due ≡ []
    → call_due aw due half ≡ half
unfolding call_due
call_due-none aw [] half e = refl
call_due-none aw (n ∷ due) half e = absurd (ground arith)

module _ (aw : AtomicWaker) (bytes : ℕ → ℕ) (plan : ℕ → Meets) where
  -- The read half of a stream; the buffers of the receives in flight, which complete in order; how many
  -- bytes of the stream have been put in buffers and how many have been returned; the completions of
  -- receives that were done at once whose callbacks have not run, each with its code and bytes; and how often it
  -- was polled. `plan` is what each poll meets.
  pub record Stream : Type 0 where
    pub half : Half aw
    pub flying : List Wsabuf
    pub delivered : ℕ
    pub position : ℕ
    pub due : List (ℕ × ℕ)
    pub time : ℕ

  -- The callbacks that are due run, if they do.
  unfoldable pub called : Meets → Stream → Stream
  unfolding call_due
  called w s = if w.calls then record s { half = call_due aw s.due s.half; due = [] } else s

  -- The first receive in flight completes, which one that was cancelled without waiting may do as well:
  -- its bytes are in the buffer that it was given, and its callback runs.
  unfoldable pub arrive : Meets → Memory → Stream → Memory × Stream
  unfolding complete
  arrive w m s = elim s.flying [
    | [] ↦ (m, s)
    | lent ∷ others ↦
        let n = if w.code == 0 then at_most lent.len w.count else 0 in
        let there : Memory × Stream = elim (complete aw w.code n s.half) [
          | none ↦ (m, s)
          | some (half, _) ↦ (
            received bytes s.delivered lent.buf n m,
            record s { half = half; flying = others; delivered = s.delivered + n },
          )
        ] in
        if w.arrives then there else (m, s)
  ]

  -- The poll of the half, with the receive that `schedule` may start. If that is done at once, its bytes
  -- are in the buffer and its callback is due; if it is deferred, it is in flight. No poll here reads a
  -- result that was not stored, so the first branch does not occur.
  unfoldable pub poll_half : Meets → Wsabuf → Memory → Stream → Memory × Stream × Poll (IoResult ℕ)
  unfolding poll schedule_read
  poll_half w buf m s =
      let submits = s.half.word == State.idle in
      let answers = record w.answers { transferred = at_most buf.len w.answers.transferred } in
      elim (poll aw w.waker (schedule_read answers) s.half) [
        | none ↦ (m, s, pending)
        | some (half, _, pending) ↦ (
          m,
          record s { half = half; flying = if submits then s.flying ++ buf ∷ [] else s.flying },
          pending,
        )
        | some (half, _, ready (err e)) ↦ (
          m,
          record s {
            half = half;
            due =
                if submits && is_code 0 w.answers.ret
                then (w.answers.last_error, 0) ∷ s.due
                else s.due;
          },
          ready (err e),
        )
        | some (half, _, ready (ok k)) ↦ (
          if submits then received bytes s.delivered buf.buf k m else m,
          record s {
            half = half;
            position = s.position + k;
            delivered = if submits then s.delivered + k else s.delivered;
            due = if submits then (0, k) ∷ s.due else s.due;
          },
          ready (ok k),
        )
      ]

  -- `TcpStream::poll_read`, with what happens before it.
  unfoldable pub poll_read : Wsabuf → Memory → Stream → Memory × Stream × Poll (IoResult ℕ)
  unfolding called arrive poll_half
  poll_read buf m s =
      let w = plan s.time in
      let (m', s') = arrive w m (called w (record s { time = suc s.time })) in poll_half w buf m' s'

  -- `TcpStream::cancel_read` that the operating system grants, the receives being cancelled at once.
  unfoldable pub cancel_read : Bool → Stream → Stream × IoResult (Unit {0})
  unfolding cancel
  cancel_read wait s =
      let completing : Half aw → Half aw =
        λ half. elim (complete aw 995 0 half) [ none ↦ half | some (half', _) ↦ half' ] in
      let waits = wait && s.half.word == State.pending in
      elim (cancel aw wait (ok tt) (completing ∷ []) s.half) [
        | none ↦ (s, ok tt)
        | some (half, ret) ↦
            (record s { half = half; flying = if waits then [] else s.flying }, ret)
      ]

  abbrev pub stream_reader : AsyncIo Memory Stream
  stream_reader = record { poll_io = poll_read; cancel_io = cancel_read }

  -- No receive is in flight, and all that were delivered have been returned.
  abbrev pub IsIdle : Stream → Type 0
  IsIdle s = (s.half.word ≡ State.idle) × (s.flying ≡ []) × (s.delivered ≡ s.position)

  -- No receive is pending, or it was given this buffer and no other callback is due.
  abbrev pub Lends : Wsabuf → Stream → Type 0
  Lends buf s =
      IsIdle s
      ⊎ ((s.half.word ≡ State.pending)
          × (s.flying ≡ buf ∷ [])
          × (s.delivered ≡ s.position)
          × (s.due ≡ []))

  -- The same once the callbacks have been called that a poll meets.
  abbrev Meeting : Meets → Wsabuf → Stream → Type 0
  Meeting w buf s = Lends buf s × (is_deferred w.answers ≡ true → s.due ≡ [])

  abbrev after : Meets → Wsabuf → Memory → Stream → Memory × Stream × Poll (IoResult ℕ)
  after w buf m s = let (m', s') = arrive w m s in poll_half w buf m' s'

  called-Meeting :
      (w : Meets) (buf : Wsabuf) (s : Stream)
      → (is_deferred w.answers ≡ true → w.calls ≡ true)
      → Lends buf s
      → Meeting w buf (called w s) × ((called w s).position ≡ s.position)
  unfolding called
  called-Meeting w buf s timely (inl v) = ground (arith, call_due-idle aw s.due s.half v.0)
  called-Meeting w buf s timely (inr v) = ground (arith, call_due-none aw s.due s.half v.3)

  -- What a poll has done.
  abbrev IsRead : Wsabuf → Memory → Stream → Memory × Stream × Poll (IoResult ℕ) → Type 0
  IsRead buf m s (m', s', ready (ok k)) = (k ≤ buf.len) × (s'.position ≡ s.position + k) × IsIdle s'
  IsRead buf m s (m', s', o) = (s'.position ≡ s.position) × Lends buf s'

  after-IsRead :
      (w : Meets) (buf : Wsabuf) (m : Memory) (s : Stream)
      → Meeting w buf s
      → IsRead buf m s (after w buf m s)
  unfolding arrive poll_half
  after-IsRead w buf m s v = ground arith

  after-outside :
      (w : Meets) (buf : Wsabuf) (m : Memory) (s : Stream) (x : ℕ)
      → Meeting w buf s
      → (x < buf.buf) ⊎ (buf.buf + buf.len ≤ x)
      → (after w buf m s).0 x ≡ m x
  unfolding arrive poll_half
  after-outside w buf m s x v o = ground arith

  after-reads :
      (w : Meets) (buf : Wsabuf) (m : Memory) (s : Stream) (k x : ℕ)
      → Meeting w buf s
      → (after w buf m s).2 ≡ ready (ok k)
      → x < k
      → (after w buf m s).0 (buf.buf + x) ≡ bytes (s.position + x)
  unfolding arrive poll_half
  after-reads w buf m s k x v e lt = ground arith

  IsRead-ok :
      (buf : Wsabuf) (m : Memory) (s : Stream) (o : Memory × Stream × Poll (IoResult ℕ)) (k : ℕ)
      → IsRead buf m s o
      → o.2 ≡ ready (ok k)
      → (k ≤ buf.len) × (o.1.position ≡ s.position + k) × IsIdle o.1
  IsRead-ok buf m s (m', s', ready (ok j)) k v e = ground arith
  IsRead-ok buf m s (m', s', o) k v e = absurd (ground arith)

  IsRead-kept :
      (buf : Wsabuf) (m : Memory) (s : Stream) (o : Memory × Stream × Poll (IoResult ℕ))
      → IsRead buf m s o
      → (o.2 ≡ pending) ⊎ ((e : IoError) × (o.2 ≡ ready (err e)))
      → (o.1.position ≡ s.position) × Lends buf o.1
  IsRead-kept buf m s (m', s', ready (ok j)) v (inl e) = absurd (ground arith)
  IsRead-kept buf m s (m', s', ready (ok j)) v (inr e) = absurd (ground arith)
  IsRead-kept buf m s (m', s', pending) v e = v
  IsRead-kept buf m s (m', s', ready (err e')) v e = v

  -- The stream once the callbacks have been called that its next poll meets.
  abbrev met : Stream → Stream
  met s = called (plan s.time) (record s { time = suc s.time })

  module _ (timely : IsTimely plan) where
    met-Meeting :
        (buf : Wsabuf) (s : Stream)
        → Lends buf s
        → Meeting (plan s.time) buf (met s) × ((met s).position ≡ s.position)
    met-Meeting buf s v =
        called-Meeting (plan s.time) buf (record s { time = suc s.time }) (timely s.time) v

    poll_read-ok :
        (buf : Wsabuf) (m : Memory) (s : Stream) (k : ℕ)
        → Lends buf s
        → (poll_read buf m s).2 ≡ ready (ok k)
        → (k ≤ buf.len)
          × ((poll_read buf m s).1.position ≡ s.position + k)
          × IsIdle (poll_read buf m s).1
    unfolding poll_read
    poll_read-ok buf m s k v e =
        let (meets, at) = met-Meeting buf s v in
        let w = plan s.time in
        let (bound, moves, idle) =
          IsRead-ok buf m (met s) (after w buf m (met s)) k (after-IsRead w buf m (met s) meets)
            e in
        (bound, moves ∙ ap (λ (j : ℕ). j + k) at, idle)

    poll_read-kept :
        (buf : Wsabuf) (m : Memory) (s : Stream)
        → Lends buf s
        → ((poll_read buf m s).2 ≡ pending)
          ⊎ ((e : IoError) × ((poll_read buf m s).2 ≡ ready (err e)))
        → ((poll_read buf m s).1.position ≡ s.position) × Lends buf (poll_read buf m s).1
    unfolding poll_read
    poll_read-kept buf m s v e =
        let (meets, at) = met-Meeting buf s v in
        let w = plan s.time in
        let (stays, keeps) =
          IsRead-kept buf m (met s) (after w buf m (met s)) (after-IsRead w buf m (met s) meets)
            e in
        (stays ∙ at, keeps)

    poll_read-reads :
        (buf : Wsabuf) (m : Memory) (s : Stream) (k x : ℕ)
        → Lends buf s
        → (poll_read buf m s).2 ≡ ready (ok k)
        → x < k
        → (poll_read buf m s).0 (buf.buf + x) ≡ bytes (s.position + x)
    unfolding poll_read
    poll_read-reads buf m s k x v e lt =
        let (meets, at) = met-Meeting buf s v in
        after-reads (plan s.time) buf m (met s) k x meets e lt ∙ ap (λ (j : ℕ). bytes (j + x)) at

    poll_read-outside :
        (buf : Wsabuf) (m : Memory) (s : Stream) (x : ℕ)
        → Lends buf s
        → (x < buf.buf) ⊎ (buf.buf + buf.len ≤ x)
        → (poll_read buf m s).0 x ≡ m x
    unfolding poll_read
    poll_read-outside buf m s x v o =
        let (meets, at) = met-Meeting buf s v in after-outside (plan s.time) buf m (met s) x meets o

    pub stream-IsReader : IsReader stream_reader bytes (λ s. s.position) Lends
    stream-IsReader = record {
      bound = λ buf m s k v e. (poll_read-ok buf m s k v e).0;
      moves = λ buf m s k v e. (poll_read-ok buf m s k v e).1;
      stays = λ buf m s v e. (poll_read-kept buf m s v e).0;
      reads = λ buf m s k x v e lt. poll_read-reads buf m s k x v e lt;
      outside = λ buf m s x v o. poll_read-outside buf m s x v o;
      frees = λ buf buf' m s k v e. inl (poll_read-ok buf m s k v e).2;
      keeps = λ buf m s v e. (poll_read-kept buf m s v e).1;
    }

  -- What `read_exact` into `buf` keeps.
  abbrev Rule : Wsabuf → Stream → Memory → Memory → Stream → Fill → Type 0
  Rule buf s m = HasRead stream_reader bytes (λ t. t.position) Lends buf.buf s.position m

  -- No receive that the operating system completes is empty.
  abbrev pub HasMoreBytes : Type 0
  HasMoreBytes = (t : ℕ) → (0 < (plan t).count) × (0 < (plan t).answers.transferred)
