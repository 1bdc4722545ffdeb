-- ===== src/Macros/Expand.antt =====
-- macros/src/lib.rs: the attribute macros `main` and `test`. The crates syn and darling are an interface.
use wae.Common.{Bool, true, false, List, Result, ok, err}
use wae.Macros.{Token, EntryArgs, ItemFn, Error, entry}
use wae.Macros.Quote.{quote}

-- `parse_macro_input!` for the two inputs, `EntryArgs::from_list`, and the tokens of their errors.
pub record Parsers : Type 1 where
  pub AttributeArgs : Type 0
  pub SynError : Type 0
  pub DarlingError : Type 0
  pub attribute_args : List Token → Result AttributeArgs SynError
  pub item_fn : List Token → Result ItemFn SynError
  pub from_list : AttributeArgs → Result EntryArgs DarlingError
  pub compile_error : SynError → List Token
  pub write_errors : DarlingError → List Token
  pub entry_error : Error → List Token

module _ (ps : Parsers) where
  -- What `main` and `test` share: all but the last argument of `entry`.
  unfoldable pub expand : Bool → List Token → List Token → List Token
  unfolding entry quote
  expand test args input = elim (ps.attribute_args args) [
    | err e ↦ ps.compile_error e
    | ok list ↦ elim (ps.item_fn input) [
      | err e ↦ ps.compile_error e
      | ok function ↦ elim (ps.from_list list) [
        | err e ↦ ps.write_errors e
        | ok entry_args ↦ elim (entry entry_args function test) [
          | err e ↦ ps.entry_error e
          | ok out ↦ quote out
        ]
      ]
    ]
  ]

  -- `main`
  unfoldable pub main : List Token → List Token → List Token
  unfolding expand
  main = expand false

  -- `test`
  unfoldable pub test : List Token → List Token → List Token
  unfolding expand
  test = expand true
