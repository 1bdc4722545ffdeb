-- ===== src/Net/Tcp/Sender.antt =====
-- src/net/tcp/write.rs: a `TcpStream` as a writer, with what the operating system takes from the buffer.
use wae.Common.{
  IoError, sym, ℕ, suc, ◌+◌, ◌-◌, ◌^◌, ◌≤◌, ◌<◌, ◌≡◌, ◌∙◌, ap, ◌≢◌, ◌⊎◌, inl, inr, Bool, true, ◌&&◌,
  none, some, List, [], ◌∷◌, ◌++◌, ltb, ◌==◌, is_code, if◌then◌else◌, ok, err, Poll, ready, pending,
  IoResult, arith,
}
use wae.Io.State
use wae.Io.Waker.{AtomicWaker}
use wae.Io.Handle.{Half, poll, complete, cancel}
use wae.Io.Slice.{Wsabuf, AsyncIo}
use wae.Io.Fill.{Fill, start, Done}
use wae.Io.Fill.Invariants.{IsKept}
use wae.Io.Fill.Polls.{polls, Progresses, polls_return}
use wae.Io.Fill.Writes.{Memory, IsWriter, HasSent, start-HasSent, kept-HasSent}
use wae.Net.Tcp.Stream.{Meets, at_most, IsTimely, call_due, call_due-idle, call_due-none}
use wae.Net.Tcp.Transfer.{schedule_write, is_deferred}

-- What was sent after the first `count` bytes is `n` bytes from `address` on.
abbrev pub taken : (ℕ → ℕ) → ℕ → ℕ → Memory → ℕ → ℕ
taken sent count address m x = if ltb x count then sent x else m (address + (x - count))

module _ (aw : AtomicWaker) (plan : ℕ → Meets) where
  -- The write half of a stream; the buffers of the sends in flight, which complete in order; the bytes
  -- that have been sent, how many, and how many of them were reported; the completions of sends that were
  -- done at once whose callbacks have not run, each with its code and bytes; and how often it was polled. `plan` is
  -- what each poll meets.
  pub record Sender : Type 0 where
    pub half : Half aw
    pub flying : List Wsabuf
    pub sent : ℕ → ℕ
    pub departed : ℕ
    pub count : ℕ
    pub due : List (ℕ × ℕ)
    pub time : ℕ

  -- The callbacks that are due run, if they do.
  unfoldable pub called : Meets → Sender → Sender
  unfolding call_due
  called w s = if w.calls then record s { half = call_due aw s.due s.half; due = [] } else s

  -- The first send in flight completes, which one that was cancelled without waiting may do as well: the
  -- operating system has taken the bytes from the buffer that it was given, and its callback runs.
  unfoldable pub depart : Meets → Memory → Sender → Sender
  unfolding complete
  depart w m s = elim s.flying [
    | [] ↦ s
    | lent ∷ others ↦
        let n = if w.code == 0 then at_most lent.len w.count else 0 in
        let gone : Sender = elim (complete aw w.code n s.half) [
          | none ↦ s
          | some (half, _) ↦ record s {
            half = half;
            flying = others;
            sent = taken s.sent s.departed lent.buf m;
            departed = s.departed + n;
          }
        ] in
        if w.arrives then gone else s
  ]

  -- The poll of the half, with the send that `schedule` may start. If that is done at once, its bytes have
  -- been taken and its callback is due; if it is deferred, it is in flight. No poll here reads a result
  -- that was not stored, so the first branch does not occur.
  unfoldable pub poll_half : Meets → Wsabuf → Memory → Sender → Memory × Sender × Poll (IoResult ℕ)
  unfolding poll schedule_write
  poll_half w buf m s =
      let submits = s.half.word == State.idle in
      let answers = record w.answers { transferred = at_most buf.len w.answers.transferred } in
      elim (poll aw w.waker (schedule_write answers) s.half) [
        | none ↦ (m, s, pending)
        | some (half, _, pending) ↦ (
          m,
          record s { half = half; flying = if submits then s.flying ++ buf ∷ [] else s.flying },
          pending,
        )
        | some (half, _, ready (err e)) ↦ (
          m,
          record s {
            half = half;
            due =
                if submits && is_code 0 w.answers.ret
                then (w.answers.last_error, 0) ∷ s.due
                else s.due;
          },
          ready (err e),
        )
        | some (half, _, ready (ok k)) ↦ (
          m,
          record s {
            half = half;
            sent = if submits then taken s.sent s.departed buf.buf m else s.sent;
            departed = if submits then s.departed + k else s.departed;
            count = s.count + k;
            due = if submits then (0, k) ∷ s.due else s.due;
          },
          ready (ok k),
        )
      ]

  -- `TcpStream::poll_write`, with what happens before it.
  unfoldable pub poll_write : Wsabuf → Memory → Sender → Memory × Sender × Poll (IoResult ℕ)
  unfolding called depart poll_half
  poll_write buf m s =
      let w = plan s.time in
      poll_half w buf m (depart w m (called w (record s { time = suc s.time })))

  -- `TcpStream::cancel_write` that the operating system grants, the sends being cancelled at once.
  unfoldable pub cancel_write : Bool → Sender → Sender × IoResult (Unit {0})
  unfolding cancel
  cancel_write wait s =
      let completing : Half aw → Half aw =
        λ half. elim (complete aw 995 0 half) [ none ↦ half | some (half', _) ↦ half' ] in
      let waits = wait && s.half.word == State.pending in
      elim (cancel aw wait (ok tt) (completing ∷ []) s.half) [
        | none ↦ (s, ok tt)
        | some (half, ret) ↦
            (record s { half = half; flying = if waits then [] else s.flying }, ret)
      ]

  abbrev pub stream_writer : AsyncIo Memory Sender
  stream_writer = record { poll_io = poll_write; cancel_io = cancel_write }

  -- No send is in flight, and all that were taken have been reported.
  abbrev pub IsIdle : Sender → Type 0
  IsIdle s = (s.half.word ≡ State.idle) × (s.flying ≡ []) × (s.departed ≡ s.count)

  -- No send is pending, or it was given this buffer and no other callback is due.
  abbrev pub Lends : Wsabuf → Sender → Type 0
  Lends buf s =
      IsIdle s
      ⊎ ((s.half.word ≡ State.pending)
          × (s.flying ≡ buf ∷ [])
          × (s.departed ≡ s.count)
          × (s.due ≡ []))

  -- The same once the callbacks have been called that a poll meets.
  abbrev Meeting : Meets → Wsabuf → Sender → Type 0
  Meeting w buf s = Lends buf s × (is_deferred w.answers ≡ true → s.due ≡ [])

  abbrev after : Meets → Wsabuf → Memory → Sender → Memory × Sender × Poll (IoResult ℕ)
  after w buf m s = poll_half w buf m (depart w m s)

  called-Meeting :
      (w : Meets) (buf : Wsabuf) (s : Sender)
      → (is_deferred w.answers ≡ true → w.calls ≡ true)
      → Lends buf s
      → Meeting w buf (called w s) × ((called w s).count ≡ s.count) × ((called w s).sent ≡ s.sent)
  unfolding called
  called-Meeting w buf s timely (inl v) = ground (arith, call_due-idle aw s.due s.half v.0)
  called-Meeting w buf s timely (inr v) = ground (arith, call_due-none aw s.due s.half v.3)

  -- What a poll has done.
  abbrev IsWritten : Wsabuf → Memory → Sender → Memory × Sender × Poll (IoResult ℕ) → Type 0
  IsWritten buf m s (m', s', ready (ok k)) = (k ≤ buf.len) × (s'.count ≡ s.count + k) × IsIdle s'
  IsWritten buf m s (m', s', o) = (s'.count ≡ s.count) × Lends buf s'

  after-IsWritten :
      (w : Meets) (buf : Wsabuf) (m : Memory) (s : Sender)
      → Meeting w buf s
      → IsWritten buf m s (after w buf m s)
  unfolding depart poll_half
  after-IsWritten w buf m s v = ground arith

  after-before :
      (w : Meets) (buf : Wsabuf) (m : Memory) (s : Sender) (x : ℕ)
      → Meeting w buf s
      → x < s.count
      → (after w buf m s).1.sent x ≡ s.sent x
  unfolding depart poll_half
  after-before w buf m s x v lt = ground arith

  after-leaves :
      (w : Meets) (buf : Wsabuf) (m : Memory) (s : Sender) (x : ℕ)
      → Meeting w buf s
      → (after w buf m s).0 x ≡ m x
  unfolding depart poll_half
  after-leaves w buf m s x v = ground arith

  after-writes :
      (w : Meets) (buf : Wsabuf) (m : Memory) (s : Sender) (k x : ℕ)
      → Meeting w buf s
      → (after w buf m s).2 ≡ ready (ok k)
      → x < k
      → (after w buf m s).1.sent (s.count + x) ≡ m (buf.buf + x)
  unfolding depart poll_half
  after-writes w buf m s k x v e lt = ground arith

  IsWritten-ok :
      (buf : Wsabuf) (m : Memory) (s : Sender) (o : Memory × Sender × Poll (IoResult ℕ)) (k : ℕ)
      → IsWritten buf m s o
      → o.2 ≡ ready (ok k)
      → (k ≤ buf.len) × (o.1.count ≡ s.count + k) × IsIdle o.1
  IsWritten-ok buf m s (m', s', ready (ok j)) k v e = ground arith
  IsWritten-ok buf m s (m', s', o) k v e = absurd (ground arith)

  IsWritten-kept :
      (buf : Wsabuf) (m : Memory) (s : Sender) (o : Memory × Sender × Poll (IoResult ℕ))
      → IsWritten buf m s o
      → (o.2 ≡ pending) ⊎ ((e : IoError) × (o.2 ≡ ready (err e)))
      → (o.1.count ≡ s.count) × Lends buf o.1
  IsWritten-kept buf m s (m', s', ready (ok j)) v (inl e) = absurd (ground arith)
  IsWritten-kept buf m s (m', s', ready (ok j)) v (inr e) = absurd (ground arith)
  IsWritten-kept buf m s (m', s', pending) v e = v
  IsWritten-kept buf m s (m', s', ready (err e')) v e = v

  -- The stream once the callbacks have been called that its next poll meets.
  abbrev met : Sender → Sender
  met s = called (plan s.time) (record s { time = suc s.time })

  module _ (timely : IsTimely plan) where
    met-Meeting :
        (buf : Wsabuf) (s : Sender)
        → Lends buf s
        → Meeting (plan s.time) buf (met s) × ((met s).count ≡ s.count) × ((met s).sent ≡ s.sent)
    met-Meeting buf s v =
        called-Meeting (plan s.time) buf (record s { time = suc s.time }) (timely s.time) v

    poll_write-ok :
        (buf : Wsabuf) (m : Memory) (s : Sender) (k : ℕ)
        → Lends buf s
        → (poll_write buf m s).2 ≡ ready (ok k)
        → (k ≤ buf.len)
          × ((poll_write buf m s).1.count ≡ s.count + k)
          × IsIdle (poll_write buf m s).1
    unfolding poll_write
    poll_write-ok buf m s k v e =
        let (meets, at, _) = met-Meeting buf s v in
        let w = plan s.time in
        let (bound, moves, idle) =
          IsWritten-ok buf m (met s) (after w buf m (met s)) k
            (after-IsWritten w buf m (met s) meets) e in
        (bound, moves ∙ ap (λ (j : ℕ). j + k) at, idle)

    poll_write-kept :
        (buf : Wsabuf) (m : Memory) (s : Sender)
        → Lends buf s
        → ((poll_write buf m s).2 ≡ pending)
          ⊎ ((e : IoError) × ((poll_write buf m s).2 ≡ ready (err e)))
        → ((poll_write buf m s).1.count ≡ s.count) × Lends buf (poll_write buf m s).1
    unfolding poll_write
    poll_write-kept buf m s v e =
        let (meets, at, _) = met-Meeting buf s v in
        let w = plan s.time in
        let (stays, keeps) =
          IsWritten-kept buf m (met s) (after w buf m (met s))
            (after-IsWritten w buf m (met s) meets) e in
        (stays ∙ at, keeps)

    poll_write-writes :
        (buf : Wsabuf) (m : Memory) (s : Sender) (k x : ℕ)
        → Lends buf s
        → (poll_write buf m s).2 ≡ ready (ok k)
        → x < k
        → (poll_write buf m s).1.sent (s.count + x) ≡ m (buf.buf + x)
    unfolding poll_write
    poll_write-writes buf m s k x v e lt =
        let (meets, at, _) = met-Meeting buf s v in
        ap (λ (j : ℕ). (after (plan s.time) buf m (met s)).1.sent (j + x)) (sym at)
        ∙ after-writes (plan s.time) buf m (met s) k x meets e lt

    poll_write-before :
        (buf : Wsabuf) (m : Memory) (s : Sender) (x : ℕ)
        → Lends buf s
        → x < s.count
        → (poll_write buf m s).1.sent x ≡ s.sent x
    unfolding poll_write
    poll_write-before buf m s x v lt =
        let (meets, at, same) = met-Meeting buf s v in
        after-before (plan s.time) buf m (met s) x meets (omega (arith, at, lt))
        ∙ ap (λ (f : ℕ → ℕ). f x) same

    poll_write-leaves :
        (buf : Wsabuf) (m : Memory) (s : Sender) (x : ℕ)
        → Lends buf s
        → (poll_write buf m s).0 x ≡ m x
    unfolding poll_write
    poll_write-leaves buf m s x v =
        let (meets, _, _) = met-Meeting buf s v in after-leaves (plan s.time) buf m (met s) x meets

    pub stream-IsWriter : IsWriter stream_writer (λ s. s.sent) (λ s. s.count) Lends
    stream-IsWriter = record {
      bound = λ buf m s k v e. (poll_write-ok buf m s k v e).0;
      moves = λ buf m s k v e. (poll_write-ok buf m s k v e).1;
      stays = λ buf m s v e. (poll_write-kept buf m s v e).0;
      writes = λ buf m s k x v e lt. poll_write-writes buf m s k x v e lt;
      before = λ buf m s x v lt. poll_write-before buf m s x v lt;
      leaves = λ buf m s x v. poll_write-leaves buf m s x v;
      frees = λ buf buf' m s k v e. inl (poll_write-ok buf m s k v e).2;
      keeps = λ buf m s v e. (poll_write-kept buf m s v e).1;
    }

  -- What `write_all` of `buf` keeps.
  abbrev Rule : Wsabuf → Sender → Memory → Memory → Sender → Fill → Type 0
  Rule buf s m = HasSent stream_writer (λ t. t.sent) (λ t. t.count) Lends buf.buf s.count s.sent m

  kept-Rule :
      IsTimely plan → (buf : Wsabuf) (s : Sender) (m : Memory) → IsKept stream_writer (Rule buf s m)
  kept-Rule timely buf s m =
      kept-HasSent stream_writer (λ t. t.sent) (λ t. t.count) Lends (stream-IsWriter timely) buf.buf
        s.count s.sent m

  -- No send that the operating system completes is empty.
  abbrev pub TakesSome : Type 0
  TakesSome = (t : ℕ) → (0 < (plan t).count) × (0 < (plan t).answers.transferred)

  after_progresses :
      (w : Meets) (buf : Wsabuf) (m : Memory) (s : Sender)
      → (0 < w.count) × (0 < w.answers.transferred)
      → Meeting w buf s
      → 0 < buf.len
      → (after w buf m s).2 ≢ ready (ok 0)
  unfolding depart poll_half
  after_progresses w buf m s more v lt e = ground arith

  sender_progresses :
      IsTimely plan
      → TakesSome
      → (buf : Wsabuf) (m : Memory) (s : Sender) → Lends buf s
      → 0 < buf.len
      → (poll_write buf m s).2 ≢ ready (ok 0)
  unfolding poll_write
  sender_progresses timely more buf m s v lt =
      after_progresses (plan s.time) buf m (met s) (more s.time) (met-Meeting timely buf s v).0 lt

  rule-Progresses :
      (timely : IsTimely plan)
      → TakesSome
      → (buf : Wsabuf) (s : Sender) (m : Memory)
      → Progresses stream_writer (Rule buf s m) (kept-Rule timely buf s m) buf.buf
  rule-Progresses timely more buf s m = record {
    valid = λ m' s' f h. h.valid;
    bound = λ m' s' f k h e. (poll_write-ok timely f.rest m' s' k h.lent e).0;
    more = λ m' s' f h lt. sender_progresses timely more f.rest m' s' h.lent lt;
  }

  -- As long as no send is done without a byte, and none is deferred before the callbacks of those that were
  -- done at once have run, `write_all` on a TCP stream returns from each of its polls,
  -- with fuel for one more call of itself than its buffer has bytes.
  pub stream_write_returns :
      (times fuel : ℕ) (buf : Wsabuf) (m : Memory) (s : Sender)
      → IsTimely plan
      → TakesSome
      → IsIdle s
      → buf.len < 2 ^ 32
      → buf.buf + buf.len < 2 ^ 64
      → buf.len < fuel
      → (d : Done Memory Sender) × (polls stream_writer times fuel m s (start buf) ≡ some d)
  unfolding start
  stream_write_returns times fuel buf m s timely more w small fits lt =
      polls_return stream_writer (Rule buf s m) (kept-Rule timely buf s m) buf.buf
        (rule-Progresses timely more buf s m) times fuel m s (start buf)
        (start-HasSent stream_writer (λ t. t.sent) (λ t. t.count) Lends buf m s small fits (inl w))
        lt
