-- ===== src/Net/Tcp/Accept/Incoming.antt =====
-- src/net/tcp/listener.rs: `Incoming` over any number of polls.
use wae.Common.{
  ℕ, ℤ, ◌≡◌, refl, ◌∙◌, Option, none, some, List, [], ◌∷◌, ◌++◌, ap, Result, ok, err, Poll, ready,
  pending, IoResult, arith,
}
use wae.Io.Waker.{AtomicWaker}
use wae.Io.Event
use wae.Io.Handle.Duplex.{IoHandle}
use wae.Net.Tcp.Accept.{Accept, Meets, poll, poll_next, poll-client}

module _ (aw : AtomicWaker) where
  abbrev pub Item : Type 0
  Item = IoResult (IoHandle aw × ℕ)

  -- What a poll meets, and whether the event of the `Accept` was signalled before it, with which code.
  pub record Turn : Type 0 where
    pub signalled : Option ℕ
    pub meets : Meets aw

  -- The signal before a poll; `none`: its callback spins.
  unfoldable pub signal : Option ℕ → Accept aw → Option (Accept aw)
  unfolding Event.signal
  signal none a = some a
  signal (some code) a = elim a.event [
    | err _ ↦ some a
    | ok event ↦ elim (Event.signal aw code event) [
      | none ↦ none
      | some (event', _) ↦ some (record a { event = ok event' })
    ]
  ]

  client-signal :
      (signalled : Option ℕ) (a b : Accept aw) → signal signalled a ≡ some b → b.client ≡ a.client
  unfolding signal
  client-signal signalled a b e = ground arith

  -- The items of a run of polls, each with the client of the `Accept` that gave it, the `Accept` at the
  -- end, and those that are not made yet.
  pub record Ran : Type 0 where
    pub items : List (Result ℕ ℤ × Item)
    pub last : Accept aw
    pub rest : List (Accept aw)

  abbrev given : Result ℕ ℤ × Item → Option Ran → Option Ran
  given item none = none
  given item (some ran) = some (record ran { items = item ∷ ran.items })

  abbrev first : List (Accept aw) → Option (Accept aw)
  first [] = none
  first (a ∷ _) = some a

  abbrev others : List (Accept aw) → List (Accept aw)
  others [] = []
  others (_ ∷ fresh) = fresh

  -- A run of polls; `fresh` is what `listener.accept()` makes each time. `none`: one of them panics or
  -- spins.
  unfoldable pub polls : List Turn → List (Accept aw) → Accept aw → Option Ran
  unfolding signal poll_next
  polls [] fresh a = some (record { items = []; last = a; rest = fresh })
  polls (turn ∷ turns) fresh a = elim (signal turn.signalled a) [
    | none ↦ none
    | some b ↦ elim (poll_next aw turn.meets (first fresh) b) [
      | none ↦ none
      | some (a', pending) ↦ polls turns fresh a'
      | some (a', ready item) ↦ given (b.client, item) (polls turns (others fresh) a')
    ]
  ]

  -- The clients of the `Accept`s that gave the items.
  abbrev pub clients : List (Result ℕ ℤ × Item) → List (Result ℕ ℤ)
  clients [] = []
  clients ((client, item) ∷ items) = client ∷ clients items

  -- A connection stands on the client socket that was made for it.
  abbrev pub StandsOn : Result ℕ ℤ → Item → Type 0
  StandsOn client (ok (handle, address)) = client ≡ ok handle.handle
  StandsOn client (err e) = Unit

  abbrev pub AllStand : List (Result ℕ ℤ × Item) → Type 0
  AllStand [] = Unit
  AllStand ((client, item) ∷ items) = StandsOn client item × AllStand items

  -- The client sockets made for them.
  abbrev pub clients_of : List (Accept aw) → List (Result ℕ ℤ)
  clients_of [] = []
  clients_of (a ∷ fresh) = a.client ∷ clients_of fresh

  item-StandsOn :
      (meets : Meets aw) (fresh : Option (Accept aw)) (a a' : Accept aw) (item : Item)
      → poll_next aw meets fresh a ≡ some (a', ready item)
      → StandsOn a.client item
  unfolding poll_next
  item-StandsOn meets fresh a a' (err e) q = tt
  item-StandsOn meets fresh a a' (ok (handle, address)) q = go (poll aw meets a) refl
    where
      go : (o : Option (Accept aw × Poll Item)) → poll aw meets a ≡ o → a.client ≡ ok handle.handle
      go none e = absurd (ground arith)
      go (some (b, pending)) e = absurd (ground arith)
      go (some (b, ready (err x))) e = absurd (ground arith)
      go (some (b, ready (ok (h, x)))) e =
          (poll-client aw meets a b handle address (ground arith)).0

  client-pending :
      (meets : Meets aw) (fresh : Option (Accept aw)) (a a' : Accept aw)
      → poll_next aw meets fresh a ≡ some (a', pending)
      → a'.client ≡ a.client
  unfolding poll_next poll
  client-pending meets fresh a a' e = ground arith

  next_fresh :
      (meets : Meets aw) (fresh : List (Accept aw)) (a a' : Accept aw) (item : Item)
      → poll_next aw meets (first fresh) a ≡ some (a', ready item)
      → clients_of fresh ≡ a'.client ∷ clients_of (others fresh)
  unfolding poll_next poll
  next_fresh meets [] a a' item e = absurd (ground arith)
  next_fresh meets (x ∷ fresh) a a' item e = ground arith

  -- What a run has used and given: no socket is lost or used twice.
  abbrev Accounts : List (Accept aw) → Result ℕ ℤ → Ran → Type 0
  Accounts fresh client ran =
      AllStand ran.items
      × (client ∷ clients_of fresh ≡ clients ran.items ++ ran.last.client ∷ clients_of ran.rest)

  after_item :
      (turn : Turn) (fresh : List (Accept aw)) (b a' : Accept aw) (item : Item) (ran : Ran)
      (o : Option Ran)
      → poll_next aw turn.meets (first fresh) b ≡ some (a', ready item)
      → given (b.client, item) o ≡ some ran
      → ((ran' : Ran) → o ≡ some ran' → Accounts (others fresh) a'.client ran')
      → Accounts fresh b.client ran
  after_item turn fresh b a' item ran none q e ih = absurd (ground arith)
  after_item turn fresh b a' item ran (some ran') q e ih =
      let (all, used) = ih ran' refl in
      let same : ran ≡ record ran' { items = (b.client, item) ∷ ran'.items } = ground arith in
      rw same (
        (item-StandsOn turn.meets (first fresh) b a' item q, all),
        ap (λ l. b.client ∷ l) (next_fresh turn.meets fresh b a' item q ∙ used),
      )

  -- Over any number of polls, each connection that `Incoming` gives stands on a client socket of its own,
  -- made for it beforehand: the sockets that were made are those of its items, one each and in order, and
  -- the one of the `Accept` at the end.
  pub incoming_clients :
      (turns : List Turn) (fresh : List (Accept aw)) (a : Accept aw) (ran : Ran)
      → polls turns fresh a ≡ some ran
      → AllStand ran.items
        × (a.client ∷ clients_of fresh ≡ clients ran.items ++ ran.last.client ∷ clients_of ran.rest)
  unfolding polls
  incoming_clients [] fresh a ran e =
      let same : ran ≡ record { items = []; last = a; rest = fresh } = ground arith in
      rw same (tt, refl)
  incoming_clients (turn ∷ turns) fresh a ran e =
      signalled (signal turn.signalled a) refl (incoming_clients turns) e
    where
      Rest : Type 0
      Rest =
          (fresh' : List (Accept aw)) (a' : Accept aw) (ran' : Ran)
          → polls turns fresh' a' ≡ some ran'
          → Accounts fresh' a'.client ran'

      polled :
          (b : Accept aw) (o : Option (Accept aw × Poll Item))
          → signal turn.signalled a ≡ some b
          → poll_next aw turn.meets (first fresh) b ≡ o
          → Rest
          → polls (turn ∷ turns) fresh a ≡ some ran
          → Accounts fresh b.client ran
      polled b none g q ih e' = absurd (ground arith)
      polled b (some (a', pending)) g q ih e' =
          rw (client-pending turn.meets (first fresh) b a' q) at (ih fresh a' ran (ground arith))
      polled b (some (a', ready item)) g q ih e' =
          after_item turn fresh b a' item ran (polls turns (others fresh) a') q (ground arith)
            (ih (others fresh) a')

      signalled :
          (o : Option (Accept aw))
          → signal turn.signalled a ≡ o
          → Rest
          → polls (turn ∷ turns) fresh a ≡ some ran
          → Accounts fresh a.client ran
      signalled none g ih e' = absurd (ground arith)
      signalled (some b) g ih e' =
          rw (client-signal turn.signalled a b g) at
            (polled b (poll_next aw turn.meets (first fresh) b) g refl ih e')
