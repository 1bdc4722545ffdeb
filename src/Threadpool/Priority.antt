-- ===== src/Threadpool/Priority.antt =====
-- src/threadpool.rs: `Priority` and its order.
use Prim.Native.Nat.{compare, Ordering}
use wae.Common.{ℕ, ◌<◌, ◌≡◌, Option, some, arith}

pub data Priority : Type 0 where
  high normal low : Priority

-- The codes that winapi gives the three priorities: the more urgent, the smaller.
pub record Codes : Type 0 where
  pub high_code : ℕ
  pub normal_code : ℕ
  pub low_code : ℕ
  pub above : high_code < normal_code
  pub below : normal_code < low_code

-- `Default::default`
unfoldable pub default : Priority
default = normal

module _ (c : Codes) where
  -- `priority as u32`
  unfoldable pub as_u32 : Priority → ℕ
  as_u32 high = c.high_code
  as_u32 normal = c.normal_code
  as_u32 low = c.low_code

  -- `priority_ord!`, which is `Ord::cmp`.
  unfoldable pub cmp : Priority → Priority → Ordering
  unfolding as_u32
  cmp p q = elim (compare (as_u32 p) (as_u32 q)) [
    | Ordering.lt ↦ Ordering.gt
    | Ordering.eq ↦ Ordering.eq
    | Ordering.gt ↦ Ordering.lt
  ]

  -- `PartialOrd::partial_cmp`
  unfoldable pub partial_cmp : Priority → Priority → Option Ordering
  unfolding cmp
  partial_cmp p q = some (cmp p q)

  -- How urgent a priority is.
  abbrev pub urgency : Priority → ℕ
  urgency high = 2
  urgency normal = 1
  urgency low = 0

  -- Priorities are compared by urgency, though their codes fall as it rises: the comparison is a total
  -- order with `high` on top.
  pub cmp-urgency : (p q : Priority) → partial_cmp p q ≡ some (compare (urgency p) (urgency q))
  unfolding partial_cmp
  cmp-urgency high q = ground (arith, c.above, c.below)
  cmp-urgency p q = ground (arith, c.above, c.below)
