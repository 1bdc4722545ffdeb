-- ===== src/Net/Sockaddr/Dropping.antt =====
-- src/net/sockaddr/get_addr_info.rs: the drop of a `GetAddrInfoFuture`, whose fields go in the order of
-- their declaration, while the lookup that it has started may still be at work on them.
use wae.Common.{
  ℕ, ◌≡◌, ◌⊎◌, inl, Bool, true, false, ◌||◌, none, some, List, [], ◌∷◌, if◌then◌else◌, arith,
}
use wae.Io.State
use wae.Io.Waker.{AtomicWaker}
use wae.Io.Event.{Event}
use wae.Io.Event

-- The field that is dropped next.
pub data Field : Type 0 where
  host port inner event : Field
  no_more : Field

-- The box of the result is gone.
abbrev pub past_inner : Field → Bool
past_inner event = true
past_inner no_more = true
past_inner _ = false

module _ (aw : AtomicWaker) where
  -- A lookup: its event, where its drop stands, whether `GetAddrInfoExW` is at work, and whether that has
  -- written its result to memory that was freed.
  pub record Lookup : Type 0 where
    pub event_field : Event aw
    pub next_field : Field
    pub in_flight : Bool
    pub wrote_freed : Bool

  -- The drop goes on by a field, or the lookup ends: it writes its result and signals its event.
  pub data Action : Type 0 where
    drops : Action
    ends : ℕ → Action

  -- The next field of the drop; that of the event waits until its word is not busy.
  unfoldable pub drop_field : Field → Lookup → Lookup
  unfolding Event.drop
  drop_field host s = record s { next_field = port }
  drop_field port s = record s { next_field = inner }
  drop_field inner s = record s { next_field = event }
  drop_field event s = elim (Event.drop aw s.event_field) [
    | none ↦ s
    | some calls ↦ record s { next_field = no_more }
  ]
  drop_field no_more s = s

  -- The end of the lookup; a callback that spins has to wait.
  unfoldable pub end_lookup : ℕ → Lookup → Lookup
  unfolding Event.signal
  end_lookup code s =
      let ended : Lookup = elim (Event.signal aw code s.event_field) [
        | none ↦ s
        | some (e, woken) ↦ record s {
          event_field = e;
          in_flight = false;
          wrote_freed = s.wrote_freed || past_inner s.next_field;
        }
      ] in
      if s.in_flight then ended else s

  unfoldable pub step : Action → Lookup → Lookup
  unfolding drop_field end_lookup
  step drops s = drop_field s.next_field s
  step (ends code) s = end_lookup code s

  unfoldable pub run : List Action → Lookup → Lookup
  unfolding step
  run [] s = s
  run (a ∷ acts) s = run acts (step a s)

  -- The drop of a future that has started its lookup.
  abbrev pub started : Event aw → Lookup
  started e = record { event_field = e; next_field = host; in_flight = true; wrote_freed = false }

  IsPending : Lookup → Type 0
  IsPending s = s.in_flight ≡ true → s.event_field.word ≡ State.pending

  step-IsPending : (a : Action) (s : Lookup) → IsPending s → IsPending (step a s)
  unfolding step IsPending
  step-IsPending a s v = ground arith

  run-IsPending : (acts : List Action) (s : Lookup) → IsPending s → IsPending (run acts s)
  unfolding run
  run-IsPending [] s v = v
  run-IsPending (a ∷ acts) s v = run-IsPending acts (step a s) (step-IsPending a s v)

  -- The lookup is awaited with its result freed, or has written there.
  IsDoomed : Lookup → Type 0
  IsDoomed s =
      ((s.in_flight ≡ true) × (s.event_field.word ≡ State.pending) × (s.next_field ≡ event))
      ⊎ (s.wrote_freed ≡ true)

  step-IsDoomed : (a : Action) (s : Lookup) → IsDoomed s → IsDoomed (step a s)
  unfolding step IsDoomed
  step-IsDoomed a s v = ground arith

  run-IsDoomed : (acts : List Action) (s : Lookup) → IsDoomed s → IsDoomed (run acts s)
  unfolding run
  run-IsDoomed [] s v = v
  run-IsDoomed (a ∷ acts) s v = run-IsDoomed acts (step a s) (step-IsDoomed a s v)

  -- If a lookup is still at work when the drop of its future has come to the event, which is the last
  -- field, the drop ends only after the lookup has written its result to the box that was freed.
  pub late_lookup_writes_freed :
      (before after : List Action) (e : Event aw)
      → e.word ≡ State.pending
      → (run before (started e)).next_field ≡ event
      → (run before (started e)).in_flight ≡ true
      → (run after (run before (started e))).next_field ≡ no_more
      → (run after (run before (started e))).wrote_freed ≡ true
  unfolding IsPending IsDoomed
  late_lookup_writes_freed before after e w at flying gone =
      let p = run-IsPending before (started e) (λ _. w) in
      let d = run-IsDoomed after (run before (started e)) (inl (flying, p flying, at)) in
      ground arith
