-- ===== src/Parser/Extract/Tests.antt =====
-- The strings of `"a" x "b" "a"`, and the include of `"f" include`.
use stacky.Common.{ℕ, false, ◌≡◌, refl, some, List, [], ◌∷◌, map, codes, arith}
use stacky.Syntax.{Token, TokenKind, KeywordKind, Text, no_token}
use stacky.Report.{Outcome, ok, exited, missing_path}
use stacky.Parser.Extract.{Strings, find_string, extract_strings, extract_include_or_import}
use stacky.Parser.Extract.Numbered.{IsTable, AllResolved, Extends, extract_strings-IsTable}

abbrev literal : Text → Token
literal s = record no_token { kind = TokenKind.string; sval = s }

abbrev tokens : List Token
tokens =
    literal (codes "\"a\"")
    ∷ record no_token { sval = codes "x" }
    ∷ literal (codes "\"b\"")
    ∷ literal (codes "\"a\"")
    ∷ []

abbrev none_yet : Strings
none_yet = record { table = []; next_id = 0; failed = false }

abbrev tokens_in : Outcome (List Token × Strings) → List Token
tokens_in (exited c) = []
tokens_in (ok (ts, s)) = ts

abbrev strings_in : Outcome (List Token × Strings) → Strings
strings_in (exited c) = none_yet
strings_in (ok (ts, s)) = s

numbers :
    map {B = ℕ} (λ (t : Token). t.ival) (tokens_in (extract_strings tokens none_yet))
    ≡ 0 ∷ 18446744073709551615 ∷ 1 ∷ 0 ∷ []
unfolding extract_strings
numbers = refl

extracted :
    extract_strings tokens none_yet
    ≡ ok (tokens_in (extract_strings tokens none_yet), strings_in (extract_strings tokens none_yet))
unfolding extract_strings
extracted = refl

empty-IsTable : IsTable [] 0
unfolding find_string
empty-IsTable = (λ s id h. absurd (ground (arith, h)), λ s t id h k. absurd (ground (arith, h)))

extract_strings-IsTable_example :
    IsTable
      (strings_in (extract_strings tokens none_yet)).table
      (strings_in (extract_strings tokens none_yet)).next_id
    × AllResolved
        (tokens_in (extract_strings tokens none_yet))
        (strings_in (extract_strings tokens none_yet)).table
    × Extends [] (strings_in (extract_strings tokens none_yet)).table
extract_strings-IsTable_example =
    extract_strings-IsTable tokens (tokens_in (extract_strings tokens none_yet)) none_yet
      (strings_in (extract_strings tokens none_yet)) empty-IsTable extracted

abbrev asks : Token
asks = record no_token { kind = TokenKind.keyword; kval = KeywordKind.include }

included :
    extract_include_or_import (λ s. s) (literal (codes "\"f\"") ∷ asks ∷ [])
    ≡ ok (
        some (record { keyword = KeywordKind.include; includer = []; path = codes "f"; index = 0 }))
unfolding extract_include_or_import
included = refl

no_path : extract_include_or_import (λ s. s) (asks ∷ []) ≡ exited missing_path
unfolding extract_include_or_import
no_path = refl
