-- ===== src/Io/Cell.antt =====
-- src/io/shared/result.rs: the cell in which a callback leaves its result. `none` is memory that is
-- not initialised; an error is a non-zero `u32`.
use wae.Common.{
  ℕ, ◌≡◌, ◌^◌, ◌<◌, ◌==◌, if◌then◌else◌, Option, none, some, Result, ok, err, map_err, os, IoResult,
  as_i32, as_u32, as_u32-as_i32, arith,
}

abbrev pub Cell : Type 0
Cell = Option (Result ℕ ℕ)

unfoldable pub new : Cell
new = none

-- `NonZeroU32::new`
abbrev non_zero : ℕ → Option ℕ
non_zero n = if n == 0 then none else some n

unfoldable pub set : ℕ → ℕ → Cell
set code transferred = elim (non_zero code) [ none ↦ some (ok transferred) | some e ↦ some (err e) ]

-- `none`: the cell was read before it was set.
unfoldable pub get : Cell → Option (IoResult ℕ)
get none = none
get (some val) = some (map_err (λ e. os (as_i32 e)) val)

-- What a callback stores is what `get` returns: the transferred bytes if the code is 0, and otherwise
-- the OS error of the code, from which the code can be had back.
pub get-set :
    (code transferred : ℕ)
    → code < 2 ^ 32
    → (get (set code transferred)
        ≡ some (if code == 0 then ok transferred else err (os (as_i32 code))))
      × (as_u32 (as_i32 code) ≡ code)
unfolding get set
get-set code transferred small = (ground arith, as_u32-as_i32 code small)
