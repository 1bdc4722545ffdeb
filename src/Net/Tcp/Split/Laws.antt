-- ===== src/Net/Tcp/Split/Laws.antt =====
-- src/net/tcp/split.rs: the handle of a split stream is closed once, when both halves are gone.
use wae.Common.{
  ℕ, suc, ◌+◌, ◌-◌, ◌==◌, ◌≡◌, refl, Bool, true, false, ◌||◌, Option, none, some, List, [], ◌∷◌,
  if◌then◌else◌, Result, ok, err, Poll, IoResult, IoError, ◌>>=◌, count_if, count_if-append, arith,
}
use wae.Io.Waker.{AtomicWaker}
use wae.Io.Handle.{Half, Call, poll}
use wae.Io.Handle.Duplex.{IoHandle, Meets, callback}
use wae.Io.Handle.Duplex
use wae.Io.Handle.Duplex.Laws.{is_close}
use wae.Net.Tcp.Split.{Shared, split, drop_arc, poll_read, cancel_read, poll_write, cancel_write}
use wae.Net.Tcp.Split.Halves.{
  Halves, Op, polls_read, polls_write, cancels_read, cancels_write, calls_back, drops_reader,
  drops_writer, polled, cancelled, dropped, apply, apply_all, count, split_of,
}

module _ (aw : AtomicWaker) where
  record HalvesInv (h : Halves aw) : Type 0 where
    strong : h.shared.strong ≡ count h.reader + count h.writer
    closes : count_if is_close h.log ≡ (if h.reader || h.writer then 0 else 1)

  closes-drop :
      (at_read at_write : Meets aw) (handle : IoHandle aw) (calls : List Call)
      → Duplex.drop aw at_read at_write handle ≡ some (ok calls)
      → count_if is_close calls ≡ 1
  unfolding Duplex.drop
  closes-drop at_read at_write handle calls e = ground arith

  closes-poll_read :
      (waker : ℕ) (scheduled : Poll (IoResult ℕ)) (s s' : Shared aw) (calls : List Call)
      (outcome : Poll (IoResult ℕ))
      → poll_read aw waker scheduled s ≡ some (s', calls, outcome)
      → (count_if is_close calls ≡ 0) × (s'.strong ≡ s.strong)
  unfolding poll_read Duplex.poll_read poll
  closes-poll_read waker scheduled s s' calls outcome e = ground arith

  closes-poll_write :
      (waker : ℕ) (scheduled : Poll (IoResult ℕ)) (s s' : Shared aw) (calls : List Call)
      (outcome : Poll (IoResult ℕ))
      → poll_write aw waker scheduled s ≡ some (s', calls, outcome)
      → (count_if is_close calls ≡ 0) × (s'.strong ≡ s.strong)
  unfolding poll_write Duplex.poll_write poll
  closes-poll_write waker scheduled s s' calls outcome e = ground arith

  polled-HalvesInv :
      (h h' : Halves aw) (o : Option (Shared aw × List Call × Poll (IoResult ℕ)))
      → ((s : Shared aw) (calls : List Call) (outcome : Poll (IoResult ℕ))
          → o ≡ some (s, calls, outcome)
          → (count_if is_close calls ≡ 0) × (s.strong ≡ h.shared.strong))
      → HalvesInv h
      → polled aw h o ≡ some h'
      → HalvesInv h'
  polled-HalvesInv h h' none q v e = absurd (ground arith)
  polled-HalvesInv h h' (some (s, calls, outcome)) q v e =
      ground (arith, q s calls outcome refl, count_if-append is_close h.log calls)

  cancelled-HalvesInv :
      (h h' : Halves aw) (o : Option (Shared aw × IoResult (Unit {0})))
      → ((s : Shared aw) (ret : IoResult (Unit {0}))
          → o ≡ some (s, ret)
          → s.strong ≡ h.shared.strong)
      → HalvesInv h
      → cancelled aw h o ≡ some h'
      → HalvesInv h'
  cancelled-HalvesInv h h' none q v e = absurd (ground arith)
  cancelled-HalvesInv h h' (some (s, ret)) q v e = ground (arith, q s ret refl)

  -- The drop of an `Arc` closes the handle if it is the last, and only then.
  closes-drop_arc :
      (at_read at_write : Meets aw) (s s' : Shared aw) (calls : List Call)
      → drop_arc aw at_read at_write s ≡ some (ok (s', calls))
      → (s'.strong ≡ s.strong - 1) × (count_if is_close calls ≡ (if s.strong == 1 then 1 else 0))
  unfolding drop_arc
  closes-drop_arc at_read at_write s s' calls e =
      ground (arith, closes-drop at_read at_write s.handle calls)

  -- A half is dropped that was there.
  dropped-HalvesInv :
      (h k h' : Halves aw) (at_read at_write : Meets aw)
      (o : Option (Result (Shared aw × List Call) IoError))
      → drop_arc aw at_read at_write h.shared ≡ o
      → HalvesInv h
      → suc (count k.reader + count k.writer) ≡ count h.reader + count h.writer
      → k.log ≡ h.log
      → dropped aw k o ≡ some h'
      → HalvesInv h'
  dropped-HalvesInv h k h' at_read at_write none q v c l e = absurd (ground arith)
  dropped-HalvesInv h k h' at_read at_write (some (err x)) q v c l e = absurd (ground arith)
  dropped-HalvesInv h k h' at_read at_write (some (ok (s, calls))) q v c l e = ground (
    arith,
    closes-drop_arc at_read at_write h.shared s calls,
    count_if-append is_close h.log calls,
  )

  strong-cancel_read :
      (wait : Bool) (answer : IoResult (Unit {0})) (others : List (Half aw → Half aw))
      (s s' : Shared aw) (ret : IoResult (Unit {0}))
      → cancel_read aw wait answer others s ≡ some (s', ret)
      → s'.strong ≡ s.strong
  unfolding cancel_read Duplex.cancel_read
  strong-cancel_read wait answer others s s' ret e = ground arith

  strong-cancel_write :
      (wait : Bool) (answer : IoResult (Unit {0})) (others : List (Half aw → Half aw))
      (s s' : Shared aw) (ret : IoResult (Unit {0}))
      → cancel_write aw wait answer others s ≡ some (s', ret)
      → s'.strong ≡ s.strong
  unfolding cancel_write Duplex.cancel_write
  strong-cancel_write wait answer others s s' ret e = ground arith

  guarded :
      (b : Bool) (o : Option (Halves aw)) (h' : Halves aw)
      → (if b then o else none) ≡ some h'
      → (b ≡ true) × (o ≡ some h')
  guarded true o h' e = (refl, e)
  guarded false o h' e = absurd (ground arith)

  apply-HalvesInv :
      (op : Op aw) (h h' : Halves aw) → HalvesInv h → apply aw op h ≡ some h' → HalvesInv h'
  unfolding apply
  apply-HalvesInv (polls_read waker scheduled) h h' v e =
      polled-HalvesInv h h' (poll_read aw waker scheduled h.shared)
        (closes-poll_read waker scheduled h.shared) v (guarded h.reader _ h' e).1
  apply-HalvesInv (polls_write waker scheduled) h h' v e =
      polled-HalvesInv h h' (poll_write aw waker scheduled h.shared)
        (closes-poll_write waker scheduled h.shared) v (guarded h.writer _ h' e).1
  apply-HalvesInv (cancels_read wait answer others) h h' v e =
      cancelled-HalvesInv h h' (cancel_read aw wait answer others h.shared)
        (strong-cancel_read wait answer others h.shared) v (guarded h.reader _ h' e).1
  apply-HalvesInv (cancels_write wait answer others) h h' v e =
      cancelled-HalvesInv h h' (cancel_write aw wait answer others h.shared)
        (strong-cancel_write wait answer others h.shared) v (guarded h.writer _ h' e).1
  apply-HalvesInv (calls_back overlapped code transferred) h h' v e = ground arith
  apply-HalvesInv (drops_reader at_read at_write) h h' v e =
      let (there, e') = guarded h.reader _ h' e in
      dropped-HalvesInv h (record h { reader = false }) h' at_read at_write
        (drop_arc aw at_read at_write h.shared) refl v (ground arith) refl e'
  apply-HalvesInv (drops_writer at_read at_write) h h' v e =
      let (there, e') = guarded h.writer _ h' e in
      dropped-HalvesInv h (record h { writer = false }) h' at_read at_write
        (drop_arc aw at_read at_write h.shared) refl v (ground arith) refl e'

  apply_all-HalvesInv :
      (ops : List (Op aw)) (h h' : Halves aw)
      → HalvesInv h
      → apply_all aw ops h ≡ some h'
      → HalvesInv h'
  unfolding apply_all
  apply_all-HalvesInv [] h h' v e = ground arith
  apply_all-HalvesInv (op ∷ ops) h h' v e = go (apply aw op h) refl (apply_all-HalvesInv ops) e
    where
      go :
          (o : Option (Halves aw))
          → apply aw op h ≡ o
          → ((k k' : Halves aw) → HalvesInv k → apply_all aw ops k ≡ some k' → HalvesInv k')
          → (o >>= apply_all aw ops) ≡ some h'
          → HalvesInv h'
      go none q ih e' = absurd (ground arith)
      go (some k) q ih e' = ih k h' (apply-HalvesInv op h k v q) e'

  -- The halves of a stream that was split, the only one of its handle: whatever the owners of the two do
  -- and the operating system completes, as long as none of these calls, the drop of the handle included,
  -- panics or waits for ever, the handle is closed exactly once, namely by the drop of the
  -- half that goes last, and not as long as one of them is there.
  pub split-closes_once :
      (ops : List (Op aw)) (handle : IoHandle aw) (h : Halves aw)
      → apply_all aw ops (split_of aw handle) ≡ some h
      → count_if is_close h.log ≡ (if h.reader || h.writer then 0 else 1)
  unfolding split
  split-closes_once ops handle h e =
      (apply_all-HalvesInv ops (split_of aw handle) h (ground arith) e).closes
