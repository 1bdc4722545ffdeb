-- ===== src/Examples/Expansions.antt =====
-- macros/src/lib.rs: `#[wae::main(max_threads = 4)] async fn main() {}`.
use text.Mathlib.Text.{◌==◌}
use wae.Common.{
  ◌≡◌, refl, true, false, none, some, List, [], ◌∷◌, ◌++◌, if◌then◌else◌, Result, ok, err,
}
use wae.Threadpool.Builder.{Answers, build, new}
use wae.Threadpool.Builder.Laws.{limits}
use wae.Macros.{
  Token, word, number, punct, opens, closes, Setting, EntryArgs, ItemFn, apply, wae_path,
}
use wae.Macros.Expand.{Parsers, expand}
use wae.Macros.Laws.{read_calls, head_of, end_of, expand-pool}

-- The error of a macro, as tokens.
abbrev failure : List Token
failure = word "compile_error" ∷ []

-- Reads `name = number`, and functions with no arguments and an empty block.
abbrev small_args : List Token → Result EntryArgs (Unit {0})
small_args (word w ∷ punct c ∷ number n ∷ []) =
    if w == "max_threads"
    then ok (record { max_threads = some n; min_threads = none; path = none })
    else ok (record { max_threads = none; min_threads = some n; path = none })
small_args _ = err tt

abbrev small_fn : List Token → Result ItemFn (Unit {0})
small_fn (word a ∷ word f ∷ word name ∷ opens o ∷ closes c ∷ block) = ok (record {
  attrs = [];
  vis = [];
  is_async = a == "async";
  sig = word f ∷ word name ∷ opens o ∷ closes c ∷ [];
  block = block;
})
small_fn _ = err tt

abbrev small : Parsers
small = record {
  AttributeArgs = EntryArgs;
  SynError = Unit;
  DarlingError = Unit;
  attribute_args = small_args;
  item_fn = small_fn;
  from_list = ok;
  compile_error = λ e. failure;
  write_errors = λ e. failure;
  entry_error = λ e. failure;
}

abbrev args : EntryArgs
args = record { max_threads = some 4; min_threads = none; path = none }

abbrev empty_main : ItemFn
empty_main = record {
  attrs = [];
  vis = [];
  is_async = true;
  sig = word "fn" ∷ word "main" ∷ opens b'(' ∷ closes b')' ∷ [];
  block = opens b'{' ∷ closes b'}' ∷ [];
}

abbrev granted : Answers
granted = record {
  pool = some 1;
  minimum_set = true;
  group = some 2;
  high_work = some 3;
  normal_work = some 4;
  low_work = some 5;
  started = none;
  last_error = 0;
}

abbrev tokens : List Token
tokens =
    word "async"
    ∷ word "fn"
    ∷ word "main"
    ∷ opens b'('
    ∷ closes b')'
    ∷ opens b'{'
    ∷ closes b'}'
    ∷ []

expand-pool_example :
    (calls : List Token) × (settings : List Setting) × (expand small false
        (word "max_threads" ∷ punct b'=' ∷ number 4 ∷ [])
        tokens
      ≡ head_of false wae_path empty_main ++ calls)
    × (read_calls calls ≡ some (settings, end_of empty_main))
    × (limits (build (apply settings (new 8)) granted).0 ≡ (some 512, some 4))
expand-pool_example =
    expand-pool small false (word "max_threads" ∷ punct b'=' ∷ number 4 ∷ []) tokens args args
      empty_main 8 1 granted refl refl refl refl refl
