-- ===== src/Parser/Extract.antt =====
-- src/parser.cc, `extract_strings` and `extract_include_or_import`: the table of the strings of a
-- program, and the first file that its tokens ask for.
pub mod Numbered
pub mod Tests
use stacky.Common.{
  ℕ, suc, Bool, true, false, ◌||◌, Option, none, some, List, [], ◌∷◌, ◌+◌, ◌-◌, if◌then◌else◌,
  text_eq,
}
use stacky.Syntax.{Token, TokenKind, KeywordKind, Text}
use stacky.Report.{Outcome, ok, exited, ◌>>=◌, ◌>>◌, ensure, missing_path}
use stacky.Parser.Stringlike.{Parsed, parse_string}
use stacky.Parser.Translate.{unquoted}

-- The map and the static `next_string_id`.
pub record Strings : Type 0 where
  pub table : List (Text × ℕ)
  pub next_id : ℕ
  pub failed : Bool

unfoldable pub find_string : Text → List (Text × ℕ) → Option ℕ
unfolding text_eq
find_string s [] = none
find_string s ((key, id) ∷ table) = if text_eq key s then some id else find_string s table

-- `try_emplace`: the number of the text, and the strings with it.
unfoldable pub intern : Text → Strings → ℕ × Strings
unfolding find_string
intern s strings = elim (find_string s strings.table) [
  | some id ↦ (id, strings)
  | none ↦ (
    strings.next_id,
    record strings { table = (s, strings.next_id) ∷ strings.table; next_id = suc strings.next_id },
  )
]

unfoldable pub extract_string : TokenKind → Token → Strings → Outcome (Token × Strings)
unfolding intern parse_string
extract_string TokenKind.string token strings = do
  read ← parse_string (unquoted token.sval)
  let (id, strings') = intern read.state strings
  ok (record token { ival = id }, record strings' { failed = strings'.failed || read.failed })
extract_string _ token strings = ok (token, strings)

unfoldable pub extract_strings : List Token → Strings → Outcome (List Token × Strings)
unfolding extract_string
extract_strings [] strings = ok ([], strings)
extract_strings (token ∷ tokens) strings = do
  (token', strings') ← extract_string token.kind token strings
  (rest, strings'') ← extract_strings tokens strings'
  ok (token' ∷ rest, strings'')

-- The keyword, the file of the token that asks, the path between the quotes, and the path's index.
pub record Inclusion : Type 0 where
  pub keyword : KeywordKind
  pub includer : Text
  pub path : Text
  pub index : ℕ

abbrev pub is_inclusion : TokenKind → KeywordKind → Bool
is_inclusion TokenKind.keyword KeywordKind.include = true
is_inclusion TokenKind.keyword KeywordKind.import = true
is_inclusion _ _ = false

abbrev pub is_string : TokenKind → Bool
is_string TokenKind.string = true
is_string _ = false

-- At index `i`, with the token before it, if there is one. `parent_path` is the file system library's.
unfoldable pub inclusion_loop :
    (Text → Text) → ℕ → Option Token → List Token → Outcome (Option Inclusion)
inclusion_loop parent_path i before [] = ok none
inclusion_loop parent_path i before (token ∷ tokens) = elim (is_inclusion token.kind token.kval) [
  | false ↦ inclusion_loop parent_path (suc i) (some token) tokens
  | true ↦ elim before [
    | none ↦ exited missing_path
    | some path ↦ do
      ensure (is_string path.kind) missing_path
      ok (
          some (record {
            keyword = token.kval;
            includer = parent_path token.location.file;
            path = unquoted path.sval;
            index = i - 1;
          }))
  ]
]

unfoldable pub extract_include_or_import : (Text → Text) → List Token → Outcome (Option Inclusion)
unfolding inclusion_loop
extract_include_or_import parent_path tokens = inclusion_loop parent_path 0 none tokens
