-- ===== src/Threadpool/Builder/Laws.antt =====
-- src/threadpool.rs: which limits a built pool has, and how often it is closed.
use wae.Common.{
  ℕ, ◌≡◌, Bool, true, false, not, ◌&&◌, Option, none, some, List, [], ◌∷◌, ◌++◌, if◌then◌else◌, ok,
  is_ok, count_if, arith,
}
use wae.Threadpool.Builder.{
  Builder, min_threads, max_threads, Call, set_maximum, set_minimum, close_group, close_pool,
  Answers, Inner, drop, build,
}

abbrev pub is_close_pool : Call → Bool
is_close_pool (close_pool _) = true
is_close_pool _ = false

abbrev pub is_close_group : Call → Bool
is_close_group (close_group _) = true
is_close_group _ = false

abbrev pub is_there : {A : Type 0} → Option A → Bool
is_there none = false
is_there (some _) = true

-- `build` gets past the minimum and the cleanup group.
abbrev pub is_grouped : Answers → Bool
is_grouped answers = answers.minimum_set && is_there answers.group

-- All that `build` asks for is granted.
abbrev pub is_granted : Builder → Answers → Bool
is_granted b answers =
    is_there answers.pool
    && is_grouped answers
    && is_there answers.high_work
    && is_there answers.normal_work
    && is_there answers.low_work
    && not (b.net && is_there answers.started)

-- `build` succeeds exactly if the operating system grants everything, and then closes nothing. If not
-- even the pool is made, nothing is closed; if the minimum or the cleanup group is refused, the pool is
-- closed once. On every later failure the pool is closed twice.
pub build-closes :
    (b : Builder) (answers : Answers)
    → (is_ok (build b answers).1 ≡ is_granted b answers)
      × (count_if is_close_pool (build b answers).0 ≡ (
          if is_granted b answers
          then 0
          else if not (is_there answers.pool)
          then 0
          else if not (is_grouped answers)
          then 1
          else 2))
unfolding build
build-closes b answers = ground arith

-- The pool and the cleanup group of a pool that was built are closed once, by the drop.
pub build-drop :
    (b : Builder) (answers : Answers) (inner : Inner)
    → (build b answers).1 ≡ ok inner
    → (count_if is_close_pool ((build b answers).0 ++ drop inner.pool inner.group) ≡ 1)
      × (count_if is_close_group ((build b answers).0 ++ drop inner.pool inner.group) ≡ 1)
unfolding build
build-drop b answers inner e = (ground arith, ground arith)

-- The limits that a pool is given, by its list of calls.
abbrev pub limits : List Call → Option ℕ × Option ℕ
limits [] = (none, none)
limits (set_maximum _ n ∷ calls) = let (most, least) = limits calls in (some n, least)
limits (set_minimum _ n ∷ calls) = let (most, least) = limits calls in (most, some n)
limits (_ ∷ calls) = limits calls

-- The setters are crossed: whoever asks for at most `most` and at least `least` threads gets a pool with
-- at least `most` and at most `least` of them.
pub limits_crossed :
    (b : Builder) (answers : Answers) (most least pool : ℕ)
    → answers.pool ≡ some pool
    → limits (build (max_threads most (min_threads least b)) answers).0 ≡ (some least, some most)
unfolding build max_threads min_threads
limits_crossed b answers most least pool e = ground arith
