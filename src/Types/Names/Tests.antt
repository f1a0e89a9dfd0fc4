-- ===== src/Types/Names/Tests.antt =====
-- The names of `u64` and of an empty effect.
use stacky.Common.{◌≡◌, refl, [], codes}
use stacky.Syntax.{StackEffect, TypeKind, Token, no_token, type_of_kind}
use stacky.Report.{ok}
use stacky.Parser.Translate.{type_from}
use stacky.Types.Names.{
  stack_effect_string, stack_effect_string-empty, type_from-type_name, type_name,
}

abbrev empty : StackEffect
empty = record { input = []; output = [] }

stack_effect_string-empty_example :
    (empty.input ≡ []) × (empty.output ≡ []) × (codes " -- " ≡ codes " -- ")
unfolding stack_effect_string
stack_effect_string-empty_example = stack_effect_string-empty empty (codes " -- ") refl

abbrev token : Token
token = record no_token { sval = codes "u64" }

type_from-type_name_example :
    type_from token ≡ ok (record (type_of_kind TypeKind.int) { location = token.location })
unfolding type_name
type_from-type_name_example = type_from-type_name TypeKind.int token tt refl
