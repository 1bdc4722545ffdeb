-- ===== src/Io/Race/Drop/Closing.antt =====
-- src/io/shared/handle.rs: what is still at work on a handle that its drop has closed.
use wae.Common.{◌≡◌, ◌≢◌, ◌⊎◌, Bool, true, false, List, [], ◌∷◌, arith}
use wae.Io.State
use wae.Io.Waker.{AtomicWaker}
use wae.Io.Race.{
  Owner, outside, swapping, asking, waiting, System, Action, start_cancel, stray_steps, init, step,
}
use wae.Io.Race.Invariant.{
  Inv, init-Inv, step-Inv, stray_steps-strays, step-uncrowded, live, is_swapping,
}
use wae.Io.Race.Drop.{
  Handle, Event, at_read, at_write, begin_drop, next_call, in_use, cancelling_read,
  cancelling_write, closed, panicked, Phase, new_handle, starts, access, happen, happens,
}

-- Where the owner stands while its waiting cancellation holds the word.
abbrev pub is_waiting : Owner → Bool
is_waiting (asking true _) = true
is_waiting (waiting _) = true
is_waiting _ = false

-- Where the owner can stand in a waiting cancellation.
abbrev pub is_closing : Owner → Bool
is_closing outside = true
is_closing (swapping true) = true
is_closing (asking true _) = true
is_closing (waiting _) = true
is_closing _ = false

module _ (aw : AtomicWaker) where
  -- A word that waits for a callback belongs to an owner that does.
  pub record HalfInv (s : System aw) : Type 0 where
    pub inv : Inv aw s
    pub waits : s.word ≡ State.cancelled_wait → is_waiting s.owner ≡ true

  step-waits :
      (a : Action aw) (s : System aw)
      → HalfInv s
      → (step aw a s).word ≡ State.cancelled_wait
      → is_waiting (step aw a s).owner ≡ true
  unfolding step
  step-waits (stray_steps n) s v w =
      let (strays, e, _, _) = stray_steps-strays aw n s v.inv in
      let waits = v.waits in rw e (ground arith)
  step-waits a s v w = ground arith

  step-HalfInv :
      (a : Action aw) (s : System aw)
      → (step aw a s).crowded ≡ false
      → HalfInv s
      → HalfInv (step aw a s)
  step-HalfInv a s u v = record { inv = step-Inv aw a s u v.inv; waits = step-waits a s v }

  -- The drop is done with the half, or its cancellation is under way.
  abbrev pub IsLeft : System aw → Type 0
  IsLeft s = (s.owner ≡ outside) × (s.word ≢ State.pending)

  abbrev pub IsClosing : System aw → Type 0
  IsClosing s = (is_closing s.owner ≡ true) × (is_swapping s.owner ≡ false → s.word ≢ State.pending)

  access-IsLeft :
      (a : Action aw) (s : System aw)
      → starts aw a ≡ false
      → HalfInv s
      → IsLeft s
      → IsLeft (step aw a s)
  unfolding step
  access-IsLeft (stray_steps n') s n v l =
      let (strays, e, _, _) = stray_steps-strays aw n' s v.inv in rw e l
  access-IsLeft a s n v l = ground arith

  access-IsClosing :
      (a : Action aw) (s : System aw)
      → starts aw a ≡ false
      → HalfInv s
      → IsClosing s
      → IsClosing (step aw a s)
  unfolding step
  access-IsClosing (stray_steps n') s n v l =
      let (strays, e, _, _) = stray_steps-strays aw n' s v.inv in rw e l
  access-IsClosing a s n v l = ground arith

  access-outside :
      (a : Action aw) (s : System aw)
      → starts aw a ≡ false
      → HalfInv s
      → s.owner ≡ outside
      → (step aw a s).owner ≡ outside
  unfolding step
  access-outside (stray_steps n') s n v l =
      let (strays, e, _, _) = stray_steps-strays aw n' s v.inv in rw e l
  access-outside a s n v l = ground arith

  start_cancel-IsClosing :
      (s : System aw) → s.owner ≡ outside → IsClosing (step aw (start_cancel true) s)
  unfolding step
  start_cancel-IsClosing s o = ground arith

  -- What holds of the halves in each phase of the drop.
  abbrev pub AtPhase : Phase → System aw → System aw → Type 0
  AtPhase cancelling_read r w = IsClosing r × (w.owner ≡ outside)
  AtPhase cancelling_write r w = IsLeft r × IsClosing w
  AtPhase closed r w = IsLeft r × IsLeft w
  AtPhase _ r w = Unit

  pub record HandleInv (h : Handle aw) : Type 0 where
    pub read : HalfInv h.read
    pub write : HalfInv h.write
    pub at : AtPhase h.phase h.read h.write

  new_handle-HandleInv : HandleInv (new_handle aw)
  unfolding init
  new_handle-HandleInv = record {
    read = record { inv = init-Inv aw; waits = ground arith };
    write = record { inv = init-Inv aw; waits = ground arith };
    at = tt;
  }

  access-HalfInv :
      (phase : Phase) (a : Action aw) (s : System aw)
      → (access aw phase a s).crowded ≡ false
      → HalfInv s
      → HalfInv (access aw phase a s)
  access-HalfInv phase a s u v = ground (arith, step-HalfInv a s)

  access-AtPhase :
      (phase : Phase) (a : Action aw) (r w : System aw)
      → HalfInv r
      → HalfInv w
      → AtPhase phase r w
      → AtPhase phase (access aw phase a r) w × AtPhase phase r (access aw phase a w)
  access-AtPhase in_use a r w v v' l = (tt, tt)
  access-AtPhase panicked a r w v v' l = (tt, tt)
  access-AtPhase cancelling_read a r w v v' l =
      ground (arith, access-IsClosing a r, access-outside a w)
  access-AtPhase cancelling_write a r w v v' l =
      ground (arith, access-IsLeft a r, access-IsClosing a w)
  access-AtPhase closed a r w v v' l = ground (arith, access-IsLeft a r, access-IsLeft a w)

  -- Neither half has had an operation go pending before the callbacks of those that were done at once
  -- had returned.
  abbrev pub IsUncrowded : Handle aw → Type 0
  IsUncrowded h = (h.read.crowded ≡ false) × (h.write.crowded ≡ false)

  access-IsUncrowded :
      (phase : Phase) (a : Action aw) (s : System aw)
      → (access aw phase a s).crowded ≡ false
      → s.crowded ≡ false
  access-IsUncrowded phase a s u = ground (arith, step-uncrowded aw a s)

  happen-IsUncrowded : (e : Event aw) (h : Handle aw) → IsUncrowded (happen aw e h) → IsUncrowded h
  unfolding happen
  happen-IsUncrowded (at_read a) h u = (access-IsUncrowded h.phase a h.read u.0, u.1)
  happen-IsUncrowded (at_write a) h u = (u.0, access-IsUncrowded h.phase a h.write u.1)
  happen-IsUncrowded begin_drop h u =
      let r = step-uncrowded aw (start_cancel true) h.read in ground arith
  happen-IsUncrowded next_call h u =
      let w = step-uncrowded aw (start_cancel true) h.write in ground arith

  happens-IsUncrowded :
      (es : List (Event aw)) (h : Handle aw) → IsUncrowded (happens aw es h) → IsUncrowded h
  unfolding happens
  happens-IsUncrowded [] h u = u
  happens-IsUncrowded (e ∷ es) h u =
      happen-IsUncrowded e h (happens-IsUncrowded es (happen aw e h) u)

  start_cancel-HalfInv :
      (s : System aw) → s.crowded ≡ false → HalfInv s → HalfInv (step aw (start_cancel true) s)
  unfolding step
  start_cancel-HalfInv s u v = step-HalfInv (start_cancel true) s (ground arith) v

  begins-HandleInv :
      (h : Handle aw) → h.read.crowded ≡ false → HandleInv h → HandleInv (happen aw begin_drop h)
  unfolding happen
  begins-HandleInv h u v =
      let r = start_cancel-HalfInv h.read u v.read in
      let c = start_cancel-IsClosing h.read in ground arith

  calls-HandleInv :
      (h : Handle aw) → h.write.crowded ≡ false → HandleInv h → HandleInv (happen aw next_call h)
  unfolding happen
  calls-HandleInv h u v =
      let w = start_cancel-HalfInv h.write u v.write in
      let c = start_cancel-IsClosing h.write in ground arith

  happen-HandleInv :
      (e : Event aw) (h : Handle aw)
      → IsUncrowded (happen aw e h)
      → HandleInv h
      → HandleInv (happen aw e h)
  unfolding happen
  happen-HandleInv (at_read a) h u v = record {
    read = access-HalfInv h.phase a h.read u.0 v.read;
    write = v.write;
    at = (access-AtPhase h.phase a h.read h.write v.read v.write v.at).0;
  }
  happen-HandleInv (at_write a) h u v = record {
    read = v.read;
    write = access-HalfInv h.phase a h.write u.1 v.write;
    at = (access-AtPhase h.phase a h.read h.write v.read v.write v.at).1;
  }
  happen-HandleInv begin_drop h u v = begins-HandleInv h (happen-IsUncrowded begin_drop h u).0 v
  happen-HandleInv next_call h u v = calls-HandleInv h (happen-IsUncrowded next_call h u).1 v

  happens-HandleInv :
      (es : List (Event aw)) (h : Handle aw)
      → IsUncrowded (happens aw es h)
      → HandleInv h
      → HandleInv (happens aw es h)
  unfolding happens
  happens-HandleInv [] h u v = v
  happens-HandleInv (e ∷ es) h u v =
      happens-HandleInv es (happen aw e h) u
        (happen-HandleInv e h (happens-IsUncrowded es (happen aw e h) u) v)

  -- What may still be at work on a half that a handle was closed with.
  abbrev pub IsQuiet : System aw → Type 0
  IsQuiet s =
      (s.in_flight ≡ true → s.word ≡ State.cancelled_nowait)
      × (live aw s ≡ true → (s.word ≡ State.callback) ⊎ (s.word ≡ State.cancelled_nowait))

  left-IsQuiet : (s : System aw) → HalfInv s → IsLeft s → IsQuiet s
  left-IsQuiet s v l = let i = v.inv in (ground arith, ground arith)

  pub reached-HandleInv :
      (es : List (Event aw))
      → IsUncrowded (happens aw es (new_handle aw))
      → HandleInv (happens aw es (new_handle aw))
  reached-HandleInv es u = happens-HandleInv es (new_handle aw) u new_handle-HandleInv

  -- Under every interleaving of the tasks, the callbacks and the drop in which no operation goes pending
  -- before the callbacks of those that were done at once have returned: when the drop calls `close`, an
  -- operation of either half that went pending is still in flight only if it was cancelled without waiting, and a callback
  -- of one is still at work only if it had claimed the word already or its operation was so cancelled.
  pub closed-IsQuiet :
      (es : List (Event aw))
      → IsUncrowded (happens aw es (new_handle aw))
      → (happens aw es (new_handle aw)).phase ≡ closed
      → IsQuiet (happens aw es (new_handle aw)).read × IsQuiet (happens aw es (new_handle aw)).write
  closed-IsQuiet es u p =
      let h = happens aw es (new_handle aw) in
      let v = reached-HandleInv es u in
      let (l, l') = rw p at v.at in (left-IsQuiet h.read v.read l, left-IsQuiet h.write v.write l')
