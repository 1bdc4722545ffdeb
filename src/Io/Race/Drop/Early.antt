-- ===== src/Io/Race/Drop/Early.antt =====
-- src/io/shared/handle.rs: a drop does not wait for a callback that has claimed the word.
use wae.Common.{ℕ, ◌≡◌, ◌≢◌, true, List, [], ◌∷◌, arith}
use wae.Io.State
use wae.Io.Waker.{AtomicWaker}
use wae.Io.Race.{outside, completes, calls_back, setting}
use wae.Io.Race.Drop.{
  Handle, Event, at_read, begin_drop, next_call, in_use, closed, new_handle, happens,
}

module _ (aw : AtomicWaker) where
  -- The callback of the pending read begins and claims the word, and then the whole drop runs.
  abbrev pub overtaken : ℕ → ℕ → List (Event aw)
  overtaken code transferred =
      at_read (completes code transferred)
      ∷ at_read calls_back
      ∷ at_read calls_back
      ∷ begin_drop
      ∷ next_call
      ∷ next_call
      ∷ []

  overtaken_lem :
      (code transferred : ℕ) (h : Handle aw)
      → h.phase ≡ in_use
      → h.read.owner ≡ outside
      → h.read.in_flight ≡ true
      → h.read.word ≡ State.pending
      → h.write.owner ≡ outside
      → h.write.word ≢ State.pending
      → ((happens aw (overtaken code transferred) h).phase ≡ closed)
        × ((happens aw (overtaken code transferred) h).read.callback ≡ setting)
  unfolding happens
  overtaken_lem code transferred h p o f w o' w' = ground arith

  -- Whenever a read is pending and the writes are not, its callback can claim the word and be overtaken by
  -- a drop of the handle: the drop sees no word that it must wait for and closes the handle, while the
  -- callback is about to store its result in the half that is freed.
  pub drop_during_callback :
      (es : List (Event aw)) (code transferred : ℕ)
      → let h = happens aw es (new_handle aw) in
        h.phase ≡ in_use
        → h.read.owner ≡ outside
        → h.read.in_flight ≡ true
        → h.read.word ≡ State.pending
        → h.write.owner ≡ outside
        → h.write.word ≢ State.pending
        → ((happens aw (overtaken code transferred) h).phase ≡ closed)
          × ((happens aw (overtaken code transferred) h).read.callback ≡ setting)
  drop_during_callback es code transferred =
      overtaken_lem code transferred (happens aw es (new_handle aw))
