-- ===== src/Threadpool/Pool.antt =====
-- src/threadpool.rs: `Threadpool`, which `build` returns.
use wae.Common.{ℕ, none, List, ok, err, IoResult}
use wae.Threadpool.Priority.{normal}
use wae.Threadpool.Builder.{Builder, Call, Answers, Inner, build}
use wae.Threadpool.Builder
use wae.Threadpool.Tasks.{Handle}

-- `Threadpool` with the `Handle` in it, whose shared part is `inner`.
pub record Threadpool : Type 0 where
  pub inner : Inner
  pub handle : Handle

-- `Threadpool::builder`, and `Default` of `Builder`, on a machine with so many processors.
unfoldable pub builder : ℕ → Builder
unfolding Builder.new
builder processors = Builder.new processors

-- The end of `Builder::build`.
unfoldable pub build_pool : Builder → Answers → List Call × IoResult Threadpool
unfolding build
build_pool b answers =
    let (calls, made) = build b answers in
    elim made [
      | err e ↦ (calls, err e)
      | ok inner ↦ (
        calls,
        ok (record {
          inner = inner;
          handle = record { priority = normal; callback_instance = none };
        }),
      )
    ]

-- `Threadpool::new`
unfoldable pub new : ℕ → Answers → List Call × IoResult Threadpool
unfolding build_pool builder
new processors answers = build_pool (builder processors) answers

-- `Deref` of `Threadpool`
unfoldable pub deref : Threadpool → Handle
deref pool = pool.handle
