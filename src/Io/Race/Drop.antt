-- ===== src/Io/Race/Drop.antt =====
-- src/io/shared/handle.rs: the drop of a handle, access by access, with what its callbacks do meanwhile.
pub mod Closing
pub mod Early
use wae.Common.{ℕ, Bool, true, false, ◌&&◌, if◌then◌else◌, List, [], ◌∷◌, ok, err}
use wae.Io.Waker.{AtomicWaker}
use wae.Io.Race.{
  System, Action, Output, nothing, polled, cancelled, start_poll, start_cancel, is_outside, init,
  step,
}

-- How far the drop is. Both of its cancellations are unwrapped.
pub data Phase : Type 0 where
  in_use cancelling_read cancelling_write closed panicked : Phase

module _ (aw : AtomicWaker) where
  pub record Handle : Type 0 where
    pub read : System aw
    pub write : System aw
    pub phase : Phase

  -- An access to a half, the begin of the drop, and its next call once a cancellation has returned.
  pub data Event : Type 0 where
    at_read : Action aw → Event
    at_write : Action aw → Event
    begin_drop : Event
    next_call : Event

  abbrev pub new_handle : Handle
  new_handle = record { read = init aw; write = init aw; phase = in_use }

  -- Nobody else starts a method of a handle that is dropped.
  abbrev pub starts : Action aw → Bool
  starts start_poll = true
  starts (start_cancel _) = true
  starts _ = false

  abbrev pub is_in_use : Phase → Bool
  is_in_use in_use = true
  is_in_use _ = false

  abbrev pub access : Phase → Action aw → System aw → System aw
  access phase a s =
      let s' = step aw a s in if is_in_use phase then s' else if starts a then s else s'

  -- `unwrap` of what a cancellation has returned.
  abbrev pub unwrap : Phase → Output → Phase
  unwrap phase (cancelled (err _)) = panicked
  unwrap phase _ = phase

  -- An event that cannot happen leaves the handle as it is.
  unfoldable pub happen : Event → Handle → Handle
  unfolding step
  happen (at_read a) h = record h { read = access h.phase a h.read }
  happen (at_write a) h = record h { write = access h.phase a h.write }
  happen begin_drop h =
      if is_in_use h.phase && (is_outside aw h.read.owner && is_outside aw h.write.owner)
      then record h { phase = cancelling_read; read = step aw (start_cancel true) h.read }
      else h
  happen next_call h = elim h.phase [
    | cancelling_read ↦
        let cancelling : Handle = record h {
          phase = cancelling_write;
          write = step aw (start_cancel true) h.write;
        } in
        let after : Handle = elim (unwrap cancelling_write h.read.output) [
          | panicked ↦ record h { phase = panicked }
          | _ ↦ cancelling
        ] in
        if is_outside aw h.read.owner then after else h
    | cancelling_write ↦
        if is_outside aw h.write.owner then record h { phase = unwrap closed h.write.output } else h
    | _ ↦ h
  ]

  unfoldable pub happens : List Event → Handle → Handle
  unfolding happen
  happens [] h = h
  happens (e ∷ es) h = happens es (happen e h)
