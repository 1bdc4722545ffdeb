-- ===== src/Threadpool/Builder.antt =====
-- src/threadpool.rs: `Builder`, the sequence of Win32 calls that `build` makes, and the drop of what it
-- has made.
pub mod Laws
use wae.Common.{
  ℕ, ℤ, ◌≡◌, Bool, true, false, not, Option, none, some, List, [], ◌∷◌, ◌++◌, if◌then◌else◌, Result,
  ok, err, IoResult, IoError, os, as_i32,
}
use wae.Threadpool.Priority.{Priority, high, normal, low}

pub record Builder : Type 0 where
  pub max_threads : ℕ
  pub min_threads : ℕ
  pub net : Bool

-- `Builder::new`, on a machine with so many processors.
unfoldable pub new : ℕ → Builder
new processors = record { max_threads = 512; min_threads = processors; net = true }

-- The two setters as they stand in the source.
unfoldable pub min_threads : ℕ → Builder → Builder
min_threads max b = record b { max_threads = max }

unfoldable pub max_threads : ℕ → Builder → Builder
max_threads min b = record b { min_threads = min }

unfoldable pub net : Bool → Builder → Builder
net enabled b = record b { net = enabled }

-- A Win32 call, with what matters of its arguments.
pub data Call : Type 0 where
  create_pool create_group startup : Call
  set_maximum set_minimum : ℕ → ℕ → Call
  create_work : Priority → Call
  close_members close_group close_pool : ℕ → Call

-- What the calls return: `none` is a null pointer. `last_error` is the thread's last error where the
-- source asks for it, which is after the calls that clean up.
pub record Answers : Type 0 where
  pub pool : Option ℕ
  pub minimum_set : Bool
  pub group : Option ℕ
  pub high_work : Option ℕ
  pub normal_work : Option ℕ
  pub low_work : Option ℕ
  pub started : Option ℤ  -- `some ret` if `WSAStartup` returns an error
  pub last_error : ℕ

-- `HandleInner`, with the works of its three queues.
pub record Inner : Type 0 where
  pub pool : ℕ
  pub group : ℕ
  pub high_work : ℕ
  pub normal_work : ℕ
  pub low_work : ℕ

-- `Drop` of `HandleInner`. It needs no work, so it is the same for one that is half built.
unfoldable pub drop : ℕ → ℕ → List Call
drop pool group = close_members group ∷ close_group group ∷ close_pool pool ∷ []

-- `create_work`: the calls, and the work or an error.
unfoldable pub make_work : Priority → ℕ → ℕ → Option ℕ → ℕ → List Call × IoResult ℕ
make_work priority pool group none last_error = (
  create_work priority ∷ close_members group ∷ close_group group ∷ close_pool pool ∷ [],
  err (os (as_i32 last_error)),
)
make_work priority pool group (some work) last_error = (create_work priority ∷ [], ok work)

-- The last part of `build`, once the three works are there.
unfoldable pub start_net : Bool → Answers → Inner → List Call × IoResult Inner
unfolding drop
start_net enabled answers inner =
    let refused : List Call × IoResult Inner = elim answers.started [
      | some ret ↦ (startup ∷ close_pool inner.pool ∷ drop inner.pool inner.group, err (os ret))
      | none ↦ (startup ∷ [], ok inner)
    ] in
    if enabled then refused else ([], ok inner)

-- The calls of a step and its result, then those of the next step; where the step fails, `undo` is what
-- the early return of `?` drops.
abbrev pub and_then :
    {A B : Type 0}
    → List Call × IoResult A
    → List Call
    → (A → List Call × IoResult B)
    → List Call × IoResult B
and_then (calls, ok a) undo f = let (more, r) = f a in (calls ++ more, r)
and_then (calls, err e) undo f = (calls ++ undo, err e)

-- The part of `build` after the cleanup group has been made, `inner` being dropped if it returns early.
unfoldable pub make_works : Builder → Answers → ℕ → ℕ → List Call × IoResult Inner
unfolding make_work drop start_net
make_works b answers pool group =
    and_then (make_work high pool group answers.high_work answers.last_error) (drop pool group) λ h.
      and_then (make_work normal pool group answers.normal_work answers.last_error)
        (drop pool group)
        λ n.
          and_then (make_work low pool group answers.low_work answers.last_error) (drop pool group)
            λ l.
              start_net b.net answers (record {
                pool = pool;
                group = group;
                high_work = h;
                normal_work = n;
                low_work = l;
              })

-- The part of `build` after the pool has been made.
unfoldable pub make_group : Builder → Answers → ℕ → List Call × IoResult Inner
unfolding make_works
make_group b answers pool =
    let failed : IoResult Inner = err (os (as_i32 answers.last_error)) in
    let grouped : List Call × IoResult Inner = elim answers.group [
      | none ↦ (create_group ∷ close_pool pool ∷ [], failed)
      | some group ↦ let (calls, r) = make_works b answers pool group in (create_group ∷ calls, r)
    ] in
    let (calls, r) = if not answers.minimum_set then (close_pool pool ∷ [], failed) else grouped in
    (set_maximum pool b.max_threads ∷ set_minimum pool b.min_threads ∷ calls, r)

-- `build`: every call in order, and the inner handle or an error.
unfoldable pub build : Builder → Answers → List Call × IoResult Inner
unfolding make_group
build b answers = elim answers.pool [
  | none ↦ (create_pool ∷ [], err (os (as_i32 answers.last_error)))
  | some pool ↦ let (calls, r) = make_group b answers pool in (create_pool ∷ calls, r)
]
