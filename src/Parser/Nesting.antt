-- ===== src/Parser/Nesting.antt =====
-- src/parser.cc, `function_into_operations`: the search for the token that opens a block, what its
-- `end` closes, and the effect of a function, over the tokens in reverse.
use stacky.Common.{
  ℕ, suc, ◌-◌, Bool, true, false, Option, none, some, List, [], ◌∷◌, ◌++◌, ◌==◌, if◌then◌else◌,
  get_or,
}
use stacky.Syntax.{Token, TokenKind, KeywordKind, StackEffect, Typestack, Text}
use stacky.Report.{Outcome, ok, exited, unreachable_code, key_not_found, bad_type_specification}
use stacky.Parser.Definitions.{anonymous_name}
use stacky.Parser.Translate.{type_from}

-- The blocks that are still open before a token, read backwards.
abbrev pub blocks : TokenKind → KeywordKind → ℕ → ℕ
blocks TokenKind.keyword KeywordKind.end n = suc n
blocks TokenKind.keyword KeywordKind.function n = n - 1
blocks TokenKind.keyword KeywordKind.if_ n = n - 1
blocks TokenKind.keyword KeywordKind.while n = n - 1
blocks _ _ n = n

abbrev pub open_blocks : Token → ℕ → ℕ
open_blocks token n = blocks token.kind token.kval n

-- A block: the tokens in it, the token that opens it, and those before.
pub record Opened : Type 0 where
  pub inner : List Token
  pub start : Token
  pub before : List Token

abbrev pub add_inner : Token → Option Opened → Option Opened
add_inner token none = none
add_inner token (some o) = some (record o { inner = token ∷ o.inner })

unfoldable pub find_open : ℕ → List Token → Option Opened
find_open n [] = none
find_open n (token ∷ tokens) =
    let rest = add_inner token (find_open (open_blocks token n) tokens) in
    if open_blocks token n == 0
    then some (record { inner = []; start = token; before = tokens })
    else rest

-- The types of a stack effect, from its `is` backwards: the output first.
unfoldable pub effect_loop : List Token → Bool → Typestack → Typestack → Outcome StackEffect
unfolding type_from
effect_loop [] seen input output = ok (record { input = input; output = output })
effect_loop (token ∷ tokens) seen input output = elim token.kind [
  | TokenKind.integer ↦ exited unreachable_code
  | TokenKind.keyword ↦ elim token.kval [
    | KeywordKind.stack_effect_divider ↦ elim seen [
      | true ↦ exited bad_type_specification
      | false ↦ effect_loop tokens true input output
    ]
    | KeywordKind.typename ↦ elim (type_from token) [
      | exited c ↦ exited c
      | ok type ↦ elim seen [
        | true ↦ effect_loop tokens true (input ++ type ∷ []) output
        | false ↦ effect_loop tokens false input (output ++ type ∷ [])
      ]
    ]
    | _ ↦ exited bad_type_specification
  ]
  | _ ↦ exited bad_type_specification
]

-- An `end`: of a function, with its word and the tokens before it, or of another block. The name
-- before a function is there, since `register_definitions` has asked for it.
pub data Ending : Type 0 where
  of_lambda : Text → Ending
  of_function : Text → List Token → Ending
  of_block : Ending

abbrev pub named_ending : List Token → Outcome Ending
named_ending [] = exited key_not_found
named_ending (name ∷ rest) = ok (of_function name.sval rest)

unfoldable pub keyword_ending : KeywordKind → Opened → Outcome Ending
unfolding anonymous_name
keyword_ending KeywordKind.function o =
    if get_or o.start.sval 0 0 == b'&'
    then ok (of_lambda (anonymous_name o.start.ival))
    else named_ending o.before
keyword_ending _ o = ok of_block

unfoldable pub ending : Opened → Outcome Ending
unfolding keyword_ending
ending o = keyword_ending o.start.kval o
