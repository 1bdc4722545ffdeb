-- ===== src/Macros/Laws.antt =====
-- macros/src/lib.rs: the function that an attribute macro writes, read back as calls of a builder.
use text.Mathlib.Text.{◌==◌}
use wae.Common.{
  ℕ, ◌≡◌, refl, ap, Bool, true, not, ◌&&◌, Option, none, some, List, [], ◌∷◌, ◌++◌, if◌then◌else◌,
  ok, arith,
}
use wae.Threadpool.Builder.{new, Answers, build}
use wae.Threadpool.Builder.Laws.{limits}
use wae.Macros.{
  Output, unwrap_or, wae_path, setting, is_call, Token, word, number, punct, opens, closes, Setting,
  sets_max_threads, sets_min_threads, EntryArgs, ItemFn, entry, apply,
}
use wae.Macros.Quote.{quote_settings, quote_end, quote}
use wae.Macros.Expand.{Parsers, expand}

abbrev before : Setting → Option (List Setting × List Token) → Option (List Setting × List Token)
before s none = none
before s (some (settings, rest)) = some (s ∷ settings, rest)

-- Reads method calls on a builder up to `.build()`: the settings, and the tokens that follow.
abbrev pub read_calls : List Token → Option (List Setting × List Token)
read_calls (punct c ∷ word w ∷ opens d ∷ number n ∷ closes e ∷ rest) =
    let after = read_calls rest in
    if not (is_call c d e)
    then none
    else if w == "max_threads"
    then before (sets_max_threads n) after
    else if w == "min_threads"
    then before (sets_min_threads n) after
    else none
read_calls (punct c ∷ word w ∷ opens d ∷ closes e ∷ rest) =
    if is_call c d e && w == "build" then some ([], rest) else none
read_calls _ = none

-- The calls that are written read back as the settings.
read_calls-quote_settings :
    (settings : List Setting) (rest calls : List Token)
    → read_calls calls ≡ some ([], rest)
    → read_calls (quote_settings settings ++ calls) ≡ some (settings, rest)
unfolding quote_settings
read_calls-quote_settings [] rest calls e = e
read_calls-quote_settings (sets_max_threads n ∷ settings) rest calls e =
    ap (before (sets_max_threads n)) (read_calls-quote_settings settings rest calls e)
read_calls-quote_settings (sets_min_threads n ∷ settings) rest calls e =
    ap (before (sets_min_threads n)) (read_calls-quote_settings settings rest calls e)

abbrev pub or : Option ℕ → ℕ → ℕ
or none d = d
or (some n) d = n

-- What `entry` gives for a function that is `async`.
abbrev written : EntryArgs → ItemFn → Bool → Output
written args function test = record {
  test = test;
  attrs = function.attrs;
  vis = function.vis;
  sig = function.sig;
  path = unwrap_or args.path wae_path;
  settings = setting sets_max_threads args.max_threads ++ setting sets_min_threads args.min_threads;
  block = function.block;
}

expand-written :
    (ps : Parsers) (test : Bool) (args input : List Token) (list : ps.AttributeArgs)
    (entry_args : EntryArgs) (function : ItemFn)
    → ps.attribute_args args ≡ ok list
    → ps.item_fn input ≡ ok function
    → ps.from_list list ≡ ok entry_args
    → function.is_async ≡ true
    → expand ps test args input ≡ quote (written entry_args function test)
unfolding expand entry
expand-written ps test args input list entry_args function a i l is_async = ground arith

settings-limits :
    (args : EntryArgs) (function : ItemFn) (test : Bool) (processors pool : ℕ) (answers : Answers)
    → answers.pool ≡ some pool
    → limits (build (apply (written args function test).settings (new processors)) answers).0
      ≡ (some (or args.min_threads 512), some (or args.max_threads processors))
unfolding apply new build
settings-limits args function test processors pool answers p = ground arith

-- What a function that runs its body on a pool starts with: `#[::core::prelude::v1::test]` if it is a
-- test, what stands before its body, and then a builder of the crate at `path`.
abbrev pub head_of : Bool → List Token → ItemFn → List Token
head_of test path function =
    let colon = punct b':' in
    let attribute =
      if test
      then punct b'#'
        ∷ opens b'['
        ∷ colon
        ∷ colon
        ∷ word "core"
        ∷ colon
        ∷ colon
        ∷ word "prelude"
        ∷ colon
        ∷ colon
        ∷ word "v1"
        ∷ colon
        ∷ colon
        ∷ word "test"
        ∷ closes b']'
        ∷ []
      else [] in
    let pool =
      colon
      ∷ colon
      ∷ word "Threadpool"
      ∷ colon
      ∷ colon
      ∷ word "builder"
      ∷ opens b'('
      ∷ closes b')'
      ∷ [] in
    attribute
    ++ (function.attrs ++ (function.vis ++ (function.sig ++ (opens b'{' ∷ (path ++ pool)))))

-- And what it ends with: `.unwrap().block_on(async …)` with the block, and the end of the body.
abbrev pub end_of : ItemFn → List Token
end_of function =
    punct b'.'
    ∷ word "unwrap"
    ∷ opens b'('
    ∷ closes b')'
    ∷ punct b'.'
    ∷ word "block_on"
    ∷ opens b'('
    ∷ word "async"
    ∷ (function.block ++ (closes b')' ∷ closes b'}' ∷ []))

-- On a function that is `async`, an attribute macro whose arguments parse writes the function with its
-- attributes, visibility and signature, as a test if it is the macro for tests. Its body is a chain of
-- calls on `::Threadpool::builder()` of the crate. Read back up to `.build()`, the calls make a pool with
-- the two limits crossed: its maximum is the `min_threads` of the attribute, or 512, and its minimum the
-- `max_threads`, or the number of processors. What follows is `.unwrap().block_on(async …)` with the block
-- of the function, once, and the end of the body.
pub expand-pool :
    (ps : Parsers) (test : Bool) (args input : List Token) (list : ps.AttributeArgs)
    (entry_args : EntryArgs) (function : ItemFn) (processors pool : ℕ) (answers : Answers)
    → ps.attribute_args args ≡ ok list
    → ps.item_fn input ≡ ok function
    → ps.from_list list ≡ ok entry_args
    → function.is_async ≡ true
    → answers.pool ≡ some pool
    → (calls : List Token) × (settings : List Setting) × (expand ps test args input
        ≡ head_of test (unwrap_or entry_args.path wae_path) function ++ calls)
      × (read_calls calls ≡ some (settings, end_of function))
      × (limits (build (apply settings (new processors)) answers).0
          ≡ (some (or entry_args.min_threads 512), some (or entry_args.max_threads processors)))
unfolding quote quote_end
expand-pool ps test args input list entry_args function processors pool answers a i l is_async p =
    let out = written entry_args function test in
    (
      quote_settings out.settings ++ quote_end out.block,
      out.settings,
      expand-written ps test args input list entry_args function a i l is_async,
      read_calls-quote_settings out.settings (end_of function) (quote_end out.block) refl,
      settings-limits entry_args function test processors pool answers p,
    )
