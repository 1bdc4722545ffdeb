-- ===== src/Macros.antt =====
-- macros/src/lib.rs: `entry`, the function that the attribute macros write.
pub mod Quote
pub mod Expand
pub mod Laws
use wae.Common.{
  ℕ, Bool, not, Option, none, some, List, [], ◌∷◌, ◌++◌, ◌==◌, ◌&&◌, if◌then◌else◌, Result, ok, err,
}
use Prim.Native.String.{String}
use wae.Threadpool.Builder.{Builder, min_threads, max_threads}

-- A token: an identifier, keyword or literal, or a character of punctuation, or one side of a pair of
-- brackets.
pub data Token : Type 0 where
  word : String → Token
  number : ℕ → Token
  punct opens closes : ℕ → Token

-- `EntryArgs`
pub record EntryArgs : Type 0 where
  pub max_threads : Option ℕ
  pub min_threads : Option ℕ
  pub path : Option (List Token)

-- `ItemFn`: attributes, visibility and block pass through as they are. The signature is its tokens
-- without the keyword, and whether it is `async`.
pub record ItemFn : Type 0 where
  pub attrs : List Token
  pub vis : List Token
  pub is_async : Bool
  pub sig : List Token
  pub block : List Token

-- A method call on the builder that the macro writes.
pub data Setting : Type 0 where
  sets_max_threads sets_min_threads : ℕ → Setting

-- The error "the async keyword is missing from the function declaration".
pub data Error : Type 0 where
  missing_async : Error

-- The parts of the function that is written: whether it has the attribute `test`, what passes through, the
-- path of the crate, and the settings between `builder()` and `build()`.
pub record Output : Type 0 where
  pub test : Bool
  pub attrs : List Token
  pub vis : List Token
  pub sig : List Token
  pub path : List Token
  pub settings : List Setting
  pub block : List Token

-- The punctuation of a method call, `.` and a pair of parentheses.
abbrev pub is_call : ℕ → ℕ → ℕ → Bool
is_call dot left right = dot == b'.' && left == b'(' && right == b')'

-- `::`
abbrev pub colons : List Token
colons = punct b':' ∷ punct b':' ∷ []

-- `::wae`
abbrev pub wae_path : List Token
wae_path = colons ++ word "wae" ∷ []

abbrev pub unwrap_or : Option (List Token) → List Token → List Token
unwrap_or none d = d
unwrap_or (some p) d = p

abbrev pub setting : (ℕ → Setting) → Option ℕ → List Setting
setting s none = []
setting s (some n) = s n ∷ []

-- `entry`
unfoldable pub entry : EntryArgs → ItemFn → Bool → Result Output Error
entry args input test =
    if not input.is_async
    then err missing_async
    else ok (record {
      test = test;
      attrs = input.attrs;
      vis = input.vis;
      sig = input.sig;
      path = unwrap_or args.path wae_path;
      settings =
          setting sets_max_threads args.max_threads ++ setting sets_min_threads args.min_threads;
      block = input.block;
    })

-- What the written settings do to a builder.
unfoldable pub apply : List Setting → Builder → Builder
unfolding min_threads max_threads
apply [] b = b
apply (sets_max_threads n ∷ settings) b = apply settings (max_threads n b)
apply (sets_min_threads n ∷ settings) b = apply settings (min_threads n b)
