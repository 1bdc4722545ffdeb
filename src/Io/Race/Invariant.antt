-- ===== src/Io/Race/Invariant.antt =====
-- src/io/shared/handle.rs and state.rs: what holds of a half after any sequence of accesses.
use wae.Common.{
  ℕ, zero, suc, ◌≤◌, ◌<◌, ◌≡◌, refl, ◌≢◌, Bool, true, false, ◌||◌, Option, none, some, List, [],
  ◌∷◌, Poll, IoResult, arith,
}
use wae.Io.State
use wae.Io.Cell
use wae.Io.Waker.{AtomicWaker}
use wae.Io.Race.{
  Stray, take_out, setting, accepted, stray_starts, stray_steps, is_clear, stray_step, Owner,
  Callback, absent, spinning, claiming, claiming_nowait, claiming_wait, storing, releasing, outside,
  getting, got, starting, registering_inline, leaving_inline, publishing, swapping, System, Action,
  start_poll, start_cancel, own, completes, calls_back, wakes, init, own_step, callback_step, step,
  run,
}

-- The owner has the word at `scheduling`.
abbrev pub claims : Owner → Bool
claims starting = true
claims (registering_inline _) = true
claims (leaving_inline _) = true
claims publishing = true
claims _ = false

abbrev pub is_publishing : Owner → Bool
is_publishing publishing = true
is_publishing _ = false

abbrev pub is_swapping : Owner → Bool
is_swapping (swapping _) = true
is_swapping _ = false

-- The owner reads the result, or has read it and not yet freed the half.
abbrev pub fetches : Owner → Bool
fetches getting = true
fetches (got _) = true
fetches _ = false

abbrev pub is_present : Callback → Bool
is_present absent = false
is_present _ = true

-- The words that a callback may meet before each of its accesses.
abbrev pub Meets : Callback → ℕ → Type 0
Meets absent word = Unit
Meets spinning word = (0 < word) × (word ≢ State.callback) × (word ≢ State.ready)
Meets claiming word = (1 < word) × (word ≢ State.callback) × (word ≢ State.ready)
Meets claiming_nowait word = 4 < word
Meets claiming_wait word = word ≡ State.cancelled_wait
Meets _ word = (2 < word) × (word ≢ State.ready)

-- A callback that has not claimed the word.
abbrev pub IsHarmless : Callback → Type 0
IsHarmless setting = ⊥
IsHarmless storing = ⊥
IsHarmless releasing = ⊥
IsHarmless _ = Unit

abbrev pub AllHarmless : List Stray → Type 0
AllHarmless [] = Unit
AllHarmless (x ∷ strays) = IsHarmless x.at × AllHarmless strays

taken-Harmless :
    (n : ℕ) (strays rest : List Stray) (x : Stray)
    → take_out n strays ≡ some (x, rest)
    → AllHarmless strays
    → IsHarmless x.at × AllHarmless rest
taken-Harmless n [] rest x e h = absurd (ground arith)
taken-Harmless zero (y ∷ strays) rest x e h = ground arith
taken-Harmless (suc n) (y ∷ strays) rest x e h =
    go (take_out n strays) refl e (λ rest' z q. taken-Harmless n strays rest' z q h.1)
  where
    go :
        (o : Option (Stray × List Stray))
        → take_out n strays ≡ o
        → take_out (suc n) (y ∷ strays) ≡ some (x, rest)
        → ((rest' : List Stray) (z : Stray)
            → take_out n strays ≡ some (z, rest')
            → IsHarmless z.at × AllHarmless rest')
        → IsHarmless x.at × AllHarmless rest
    go none q e' ih = absurd (ground arith)
    go (some (z, rest')) q e' ih = let (hz, hr) = ih rest' z q in ground arith

module _ (aw : AtomicWaker) where
  -- The owner holds what it has read.
  abbrev pub Held : Owner → System aw → Type 0
  Held (got r) s = Cell.get s.result ≡ some r
  Held _ s = Unit

  -- The result cell has what the callback was given.
  abbrev pub IsReported : System aw → Type 0
  IsReported s = s.result ≡ Cell.set s.code s.transferred

  abbrev pub live : System aw → Bool
  live s = s.in_flight || is_present s.callback

  pub record Inv (s : System aw) : Type 0 where
    pub range : s.word ≤ 6
    pub claimed : s.word ≡ State.scheduling → claims s.owner ≡ true
    pub claiming : claims s.owner ≡ true → s.word ≡ State.scheduling
    pub quiet : claims s.owner ≡ true → is_publishing s.owner ≡ false → live s ≡ false
    pub published : is_publishing s.owner ≡ true → live s ≡ true
    pub fetched : fetches s.owner ≡ true → s.word ≡ State.ready
    pub swapped : is_swapping s.owner ≡ true → (1 < s.word) × (s.word < 5)
    pub one : s.in_flight ≡ true → is_present s.callback ≡ false
    pub flying : s.in_flight ≡ true → Meets spinning s.word
    pub meets : Meets s.callback s.word
    pub served : 1 < s.word → s.word < 4 → live s ≡ true
    pub word_waits : s.word ≡ State.cancelled_wait → s.wait_cancelled ≡ true
    pub releases : s.callback ≡ releasing → s.wait_cancelled ≡ true
    pub stored : s.callback ≡ storing → IsReported s
    pub reported : s.word ≡ State.ready → s.wait_cancelled ≡ false → IsReported s
    pub defined : s.wait_cancelled ≡ false → s.undefined ≡ false
    pub held : Held s.owner s
    pub alone : live s ≡ true → is_clear aw s ≡ true
    pub low : is_clear aw s ≡ false → s.word ≤ 1
    pub harmless : AllHarmless s.strays

  pub init-Inv : Inv (init aw)
  unfolding init
  init-Inv = ground arith

  own_step-Inv :
      (o : Owner) (waker : ℕ) (scheduled : Poll (IoResult ℕ)) (answer : IoResult (Unit {0}))
      (s : System aw)
      → s.owner ≡ o
      → (own_step aw o waker scheduled answer s).crowded ≡ false
      → Inv s
      → Inv (own_step aw o waker scheduled answer s)
  unfolding own_step Cell.set
  own_step-Inv outside waker scheduled answer s e u v = v
  own_step-Inv o waker scheduled answer s e u v = ground arith

  callback_step-Inv :
      (c : Callback) (s : System aw) → s.callback ≡ c → Inv s → Inv (callback_step aw c s)
  unfolding callback_step
  callback_step-Inv absent s e v = v
  callback_step-Inv c s e v = ground arith

  -- A stray callback that meets a word below `pending` does nothing but move on.
  stray_step-strays :
      (x : Stray) (rest : List Stray) (s : System aw)
      → IsHarmless x.at
      → AllHarmless rest
      → s.word ≤ 1
      → (strays : List Stray) × (stray_step aw x rest s ≡ record s { strays = strays })
        × AllHarmless strays
  unfolding callback_step
  stray_step-strays x rest s h hs low =
      ((stray_step aw x rest s).strays, ground arith, ground arith)

  pub stray_steps-strays :
      (n : ℕ) (s : System aw)
      → Inv s
      → (strays : List Stray) × (step aw (stray_steps n) s ≡ record s { strays = strays })
        × AllHarmless strays
        × (is_clear aw s ≡ true → strays ≡ [])
  unfolding step
  stray_steps-strays n s v = go (take_out n s.strays) refl
    where
      go :
          (o : Option (Stray × List Stray))
          → take_out n s.strays ≡ o
          → (strays : List Stray) × (step aw (stray_steps n) s ≡ record s { strays = strays })
            × AllHarmless strays
            × (is_clear aw s ≡ true → strays ≡ [])
      go none q = (s.strays, ground arith, v.harmless, ground arith)
      go (some (x, rest)) q =
          let (hx, hs) = taken-Harmless n s.strays rest x q v.harmless in
          let low : s.word ≤ 1 = ground arith in
          let (strays, e, hs') = stray_step-strays x rest s hx hs low in
          (strays, ground arith, hs', ground arith)

  pub step-Inv :
      (a : Action aw) (s : System aw) → (step aw a s).crowded ≡ false → Inv s → Inv (step aw a s)
  unfolding step
  step-Inv start_poll s u v = ground arith
  step-Inv (start_cancel wait) s u v = ground arith
  step-Inv (own waker scheduled answer) s u v =
      own_step-Inv s.owner waker scheduled answer s refl u v
  step-Inv (completes code transferred) s u v = ground arith
  step-Inv calls_back s u v = callback_step-Inv s.callback s refl v
  step-Inv accepted s u v = ground arith
  step-Inv (stray_starts code transferred) s u v = ground arith
  step-Inv (stray_steps n) s u v =
      let (strays, e, h, empty) = stray_steps-strays n s v in
      let same : Inv (record s { strays = strays }) = ground arith in rw e same
  step-Inv wakes s u v = ground arith

  pub step-uncrowded :
      (a : Action aw) (s : System aw) → (step aw a s).crowded ≡ false → s.crowded ≡ false
  unfolding step
  step-uncrowded a s u = ground arith

  pub run-uncrowded :
      (acts : List (Action aw)) (s : System aw)
      → (run aw acts s).crowded ≡ false
      → s.crowded ≡ false
  unfolding run
  run-uncrowded [] s u = u
  run-uncrowded (a ∷ rest) s u = step-uncrowded a s (run-uncrowded rest (step aw a s) u)

  pub run-Inv :
      (acts : List (Action aw)) (s : System aw)
      → (run aw acts s).crowded ≡ false
      → Inv s
      → Inv (run aw acts s)
  unfolding run
  run-Inv [] s u v = v
  run-Inv (a ∷ rest) s u v =
      run-Inv rest (step aw a s) u (step-Inv a s (run-uncrowded rest (step aw a s) u) v)
