-- ===== src/Parser/Translate.antt =====
-- src/parser.cc, `translate_operation`, and `Type::from` of src/types.cc: the operation of one token.
use stacky.Common.{◌-◌, Bool, false, none, some, ◌==◌, if◌then◌else◌, length, get_or, take, drop}
use stacky.Syntax.{
  Token, TokenKind, KeywordKind, Operation, OperationKind, StackType, TypeKind, Text, Word,
  WordKind, SymbolPrefix, new_operation, type_of_kind,
}
use stacky.Report.{Outcome, ok, exited, ◌>>=◌, unreachable_code, key_not_found, word_not_defined}
use stacky.Dictionary.{Words, find_word}
use stacky.Parser.Stringlike.{parse_char}

-- The operation, whether an `error` was reported, and whether a shift was undefined.
pub record Translated : Type 0 where
  pub operation : Operation
  pub failed : Bool
  pub undefined : Bool

abbrev pub plainly : Operation → Outcome Translated
plainly op = ok (record { operation = op; failed = false; undefined = false })

-- `words.at(name)`, which throws.
unfoldable pub word_at : Text → Words → Outcome Word
word_at name words = elim (find_word name words) [ none ↦ exited key_not_found | some w ↦ ok w ]

unfoldable pub type_from : Token → Outcome StackType
type_from token =
    let first = get_or token.sval 0 0 in
    let typed = λ (k : TypeKind). ok (record (type_of_kind k) { location = token.location }) in
    if first == b'b'
    then typed TypeKind.bool
    else (if first == b'p'
        then typed TypeKind.pointer
        else (if first == b'u'
            then typed TypeKind.int
            else (if first == b'a' then typed TypeKind.any else exited unreachable_code)))

-- `token.sval.substr(1, token.sval.size() - 2)`
abbrev pub unquoted : Text → Text
unquoted s = take (length s - 2) (drop 1 s)

-- `body.emplace_back(kind)` with its token and its location.
abbrev pub at_token : OperationKind → Token → Operation
at_token kind token = record (new_operation kind) { token = token; location = token.location }

-- `body.emplace_back(kind, token)`
abbrev pub with_token : OperationKind → Token → Operation
with_token kind token = record (new_operation kind) { token = token }

unfoldable pub translate_word : Token → Word → WordKind → Operation
translate_word token word WordKind.intrinsic = record (at_token OperationKind.intrinsic token) {
  intrinsic = word.intrinsic;
}
translate_word token word WordKind.integer = record (at_token OperationKind.push_int token) {
  ival = word.ival;
}
translate_word token word WordKind.array = record (at_token OperationKind.push_symbol token) {
  symbol_prefix = SymbolPrefix.symbol_prefix;
  ival = word.id;
  sval = token.sval;
}
translate_word token word WordKind.function = record (at_token OperationKind.call_symbol token) {
  symbol_prefix = SymbolPrefix.function_prefix;
  ival = word.id;
  sval = token.sval;
  word = some token.sval;
}

unfoldable pub translate_keyword : Token → KeywordKind → Outcome Translated
unfolding type_from
translate_keyword token KeywordKind.do_ = plainly (with_token OperationKind.do_ token)
translate_keyword token KeywordKind.else_ = plainly (with_token OperationKind.else_ token)
translate_keyword token KeywordKind.if_ = plainly (with_token OperationKind.if_ token)
translate_keyword token KeywordKind.return = plainly (with_token OperationKind.return token)
translate_keyword token KeywordKind.while = plainly (with_token OperationKind.while token)
translate_keyword token KeywordKind.bool = plainly (record (at_token OperationKind.push_int token) {
  ival = if get_or token.sval 0 0 == b't' then 1 else 0;
  type = type_of_kind TypeKind.bool;
})
translate_keyword token KeywordKind.typename = do
  type ← type_from token
  plainly (record (at_token OperationKind.cast token) { type = type })
translate_keyword token _ = exited unreachable_code

unfoldable pub translate_char : Token → Outcome Translated
translate_char token = do
  read ← parse_char (unquoted token.sval)
  ok (record {
    operation = record (at_token OperationKind.push_int token) { ival = read.state.value };
    failed = read.failed;
    undefined = read.state.undefined;
  })

unfoldable pub translate_operation : Words → Token → Outcome Translated
unfolding word_at translate_word translate_keyword translate_char
translate_operation words token = elim token.kind [
  | TokenKind.address_of ↦ do
    word ← word_at (drop 1 token.sval) words
    plainly (record (at_token OperationKind.push_symbol token) {
      symbol_prefix = SymbolPrefix.function_prefix;
      ival = word.id;
    })
  | TokenKind.char ↦ translate_char token
  | TokenKind.integer ↦
      plainly (record (at_token OperationKind.push_int token) { ival = token.ival })
  | TokenKind.string ↦ plainly (record (at_token OperationKind.push_symbol token) {
    symbol_prefix = SymbolPrefix.string_prefix;
    ival = token.ival;
  })
  | TokenKind.word ↦ elim (find_word token.sval words) [
    | none ↦ exited word_not_defined
    | some word ↦ plainly (translate_word token word word.kind)
  ]
  | TokenKind.keyword ↦ translate_keyword token token.kval
]
