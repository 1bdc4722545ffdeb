-- ===== src/Io/State.antt =====
-- src/io/shared/state.rs: the atomic state word of an I/O half or event. A method that changes the
-- word returns the new word; each definition is one atomic access.
pub mod Laws
use wae.Common.{
  ℕ, ◌≤◌, Bool, true, false, not, ◌||◌, Option, none, some, List, [], ◌∷◌, ◌==◌, if◌then◌else◌,
}

abbrev pub idle : ℕ
idle = 0

abbrev pub scheduling : ℕ
scheduling = 1

abbrev pub pending : ℕ
pending = 2

abbrev pub callback : ℕ
callback = 3

abbrev pub ready : ℕ
ready = 4

abbrev pub cancelled_nowait : ℕ
cancelled_nowait = 5

abbrev pub cancelled_wait : ℕ
cancelled_wait = 6

-- The words that the code gives a meaning to.
abbrev pub IsWord : ℕ → Type 0
IsWord s = s ≤ 6

-- `AtomicUsize::compare_exchange(expected, new, …).is_ok()`
unfoldable pub compare_exchange : ℕ → ℕ → ℕ → ℕ × Bool
compare_exchange word expected new = if word == expected then (new, true) else (word, false)

unfoldable pub new : ℕ
new = idle

unfoldable pub set_idle : ℕ → ℕ
set_idle _ = idle

unfoldable pub schedule : ℕ → ℕ × Bool
unfolding compare_exchange
schedule word = compare_exchange word idle scheduling

unfoldable pub set_pending : ℕ → ℕ
set_pending _ = pending

-- The swap happens on every word, and the result tells whether the old one was `cancelled_nowait`.
unfoldable pub cancel : Bool → ℕ → ℕ × Bool
cancel wait word =
    (if not wait then cancelled_nowait else cancelled_wait, not (word == cancelled_nowait))

-- The test of the loop at the head of `callback_pending`.
unfoldable pub is_scheduling : ℕ → Bool
is_scheduling word = word == scheduling

-- The exchange at the end of `callback_pending`.
unfoldable pub claim_pending : ℕ → ℕ × Bool
unfolding compare_exchange
claim_pending word = compare_exchange word pending callback

-- `callback_pending`: the loop reads the words `loads` in turn, and the exchange meets `word`. `none`
-- means that the loop is still running when the loads are used up.
unfoldable pub callback_pending : List ℕ → ℕ → Option (ℕ × Bool)
unfolding is_scheduling claim_pending
callback_pending [] word = none
callback_pending (load ∷ loads) word =
    let rest = callback_pending loads word in
    if is_scheduling load then rest else some (claim_pending word)

unfoldable pub callback_cancelled_nowait : ℕ → ℕ × Bool
unfolding compare_exchange
callback_cancelled_nowait word = compare_exchange word cancelled_nowait callback

unfoldable pub callback_cancelled_wait : ℕ → ℕ × Bool
unfolding compare_exchange
callback_cancelled_wait word = compare_exchange word cancelled_wait callback

unfoldable pub set_ready : ℕ → ℕ
set_ready _ = ready

unfoldable pub finish : ℕ → ℕ × Bool
unfolding compare_exchange
finish word = compare_exchange word ready ready

unfoldable pub is_cancellable : ℕ → Bool
is_cancellable word = word == pending

unfoldable pub is_busy : ℕ → Bool
is_busy word = not (word == idle || word == ready)
