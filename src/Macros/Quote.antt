-- ===== src/Macros/Quote.antt =====
-- macros/src/lib.rs: the tokens that the `quote!` of `entry` makes.
use wae.Common.{List, [], ◌∷◌, ◌++◌, if◌then◌else◌}
use wae.Macros.{
  Token, word, number, punct, opens, closes, Setting, sets_max_threads, sets_min_threads, Output,
  colons,
}

-- `#[::core::prelude::v1::test]`
abbrev pub test_header : List Token
test_header =
    punct b'#'
    ∷ opens b'['
    ∷ (colons
        ++ (word "core"
            ∷ (colons
                ++ (word "prelude"
                    ∷ (colons ++ (word "v1" ∷ (colons ++ (word "test" ∷ closes b']' ∷ []))))))))

-- `.max_threads(#maximum)` and `.min_threads(#minimum)`
unfoldable pub quote_setting : Setting → List Token
quote_setting (sets_max_threads n) =
    punct b'.' ∷ word "max_threads" ∷ opens b'(' ∷ number n ∷ closes b')' ∷ []
quote_setting (sets_min_threads n) =
    punct b'.' ∷ word "min_threads" ∷ opens b'(' ∷ number n ∷ closes b')' ∷ []

unfoldable pub quote_settings : List Setting → List Token
unfolding quote_setting
quote_settings [] = []
quote_settings (s ∷ settings) = quote_setting s ++ quote_settings settings

-- `.build().unwrap().block_on(async #block)`, and the end of the body
unfoldable pub quote_end : List Token → List Token
quote_end block =
    punct b'.'
    ∷ word "build"
    ∷ opens b'('
    ∷ closes b')'
    ∷ punct b'.'
    ∷ word "unwrap"
    ∷ opens b'('
    ∷ closes b')'
    ∷ punct b'.'
    ∷ word "block_on"
    ∷ opens b'('
    ∷ word "async"
    ∷ (block ++ (closes b')' ∷ closes b'}' ∷ []))

-- `::Threadpool::builder()`
abbrev pub builder : List Token
builder =
    colons ++ (word "Threadpool" ∷ (colons ++ (word "builder" ∷ opens b'(' ∷ closes b')' ∷ [])))

-- What stands before the settings.
unfoldable pub quote_start : Output → List Token
quote_start out =
    (if out.test then test_header else [])
    ++ (out.attrs ++ (out.vis ++ (out.sig ++ (opens b'{' ∷ (out.path ++ builder)))))

unfoldable pub quote : Output → List Token
unfolding quote_start quote_settings quote_end
quote out = quote_start out ++ (quote_settings out.settings ++ quote_end out.block)
