-- ===== src/Lexer/Tokens.antt =====
-- src/lexer.cc, `lex`, and its table of keywords. The index is the list of the bytes from there on.
-- The table is sorted at compile time and searched by `lower_bound`, which finds an equal entry if
-- there is one: a search from the front here. A comment that ends with the file makes the index pass
-- the end, and the reads from there are undefined.
pub mod Shape
pub mod Literals
pub mod Covers
pub mod Returns
pub mod Open
pub mod Tests
use stacky.Common.{
  ℕ, zero, suc, ◌+◌, Bool, true, false, ◌&&◌, ◌||◌, Option, none, some, List, [], ◌∷◌, leb, ◌==◌,
  if◌then◌else◌, length, get_or, take, drop, codes, text_eq, ◌++◌,
}
use stacky.Syntax.{Token, TokenKind, KeywordKind, Text, Location, no_token}
use stacky.Report.{Check, Outcome, ok, exited, missing_quote, empty_literal}
use stacky.Lexer.Integer.{parse_int}

abbrev pub keywords : List (Text × KeywordKind)
keywords =
    (codes "&fun", KeywordKind.function)
    ∷ (codes "--", KeywordKind.stack_effect_divider)
    ∷ (codes "is", KeywordKind.stack_effect_definition)
    ∷ (codes "[]byte", KeywordKind.array)
    ∷ (codes "[]u16", KeywordKind.array)
    ∷ (codes "[]u32", KeywordKind.array)
    ∷ (codes "[]u64", KeywordKind.array)
    ∷ (codes "[]u8", KeywordKind.array)
    ∷ (codes "[]usize", KeywordKind.array)
    ∷ (codes "any", KeywordKind.typename)
    ∷ (codes "bool", KeywordKind.typename)
    ∷ (codes "constant", KeywordKind.constant)
    ∷ (codes "do", KeywordKind.do_)
    ∷ (codes "dyn", KeywordKind.dynamic)
    ∷ (codes "else", KeywordKind.else_)
    ∷ (codes "end", KeywordKind.end)
    ∷ (codes "false", KeywordKind.bool)
    ∷ (codes "fun", KeywordKind.function)
    ∷ (codes "i16", KeywordKind.typename)
    ∷ (codes "i32", KeywordKind.typename)
    ∷ (codes "i64", KeywordKind.typename)
    ∷ (codes "i8", KeywordKind.typename)
    ∷ (codes "if", KeywordKind.if_)
    ∷ (codes "import", KeywordKind.import)
    ∷ (codes "include", KeywordKind.include)
    ∷ (codes "ptr", KeywordKind.typename)
    ∷ (codes "return", KeywordKind.return)
    ∷ (codes "true", KeywordKind.bool)
    ∷ (codes "u16", KeywordKind.typename)
    ∷ (codes "u32", KeywordKind.typename)
    ∷ (codes "u64", KeywordKind.typename)
    ∷ (codes "u64", KeywordKind.typename)
    ∷ (codes "u8", KeywordKind.typename)
    ∷ (codes "while", KeywordKind.while)
    ∷ []

unfoldable pub find_keyword : Text → List (Text × KeywordKind) → Option KeywordKind
unfolding text_eq
find_keyword s [] = none
find_keyword s ((key, k) ∷ table) = if text_eq key s then some k else find_keyword s table

-- `std::isspace` of the "C" locale.
unfoldable pub is_space : ℕ → Bool
is_space c = (leb 9 c && leb c 13) || c == 32

pub record Position : Type 0 where
  pub rest : Text
  pub line : ℕ
  pub column : ℕ

-- The loop over blanks and comments, whose flag says that it is in a comment. `none`: undefined.
unfoldable pub skip_blanks : Bool → Text → ℕ → ℕ → Option Position
skip_blanks false [] line column = some (record { rest = []; line = line; column = column })
skip_blanks true [] line column = none
skip_blanks false (c ∷ s) line column = elim (is_space c) [
  | true ↦ elim (c == b'\n') [
    | true ↦ skip_blanks false s (suc line) 1
    | false ↦ skip_blanks false s line (suc column)
  ]
  | false ↦ elim (c == b'#') [
    | true ↦ skip_blanks true s line column
    | false ↦ some (record { rest = c ∷ s; line = line; column = column })
  ]
]
skip_blanks true (c ∷ s) line column = elim (c == b'\n') [
  | true ↦ skip_blanks false s (suc line) 1
  | false ↦ skip_blanks true s line column
]

-- `std::adjacent_find` behind the opening quote: the length up to the closing quote.
unfoldable pub closing : ℕ → Text → Option ℕ
closing q [] = none
closing q (a ∷ []) = none
closing q (a ∷ b ∷ s) = elim ((if a == b'\\' then false else true) && b == q) [
  | true ↦ some 2
  | false ↦ elim (closing q (b ∷ s)) [ none ↦ none | some n ↦ some (suc n) ]
]

-- A string or a character literal, with its quotes. Behind the end is the terminator, 0.
unfoldable pub read_quoted : ℕ → Text → Outcome Text
unfolding closing
read_quoted q s = elim (get_or s 0 0 == q) [
  | true ↦ elim (q == b'\'') [ true ↦ exited empty_literal | false ↦ ok (codes "\"\"") ]
  | false ↦ elim (closing q s) [ none ↦ exited missing_quote | some n ↦ ok (q ∷ take n s) ]
]

unfoldable pub until_space : Text → Text
until_space [] = []
until_space (c ∷ s) = elim (is_space c) [ true ↦ [] | false ↦ c ∷ until_space s ]

-- The bases of `0b`, `0s`, `0o` and `0x`.
abbrev pub base_of : ℕ → Option ℕ
base_of c =
    if c == b'b'
    then some 2
    else (if c == b's'
        then some 6
        else (if c == b'o' then some 8 else (if c == b'x' then some 16 else none)))

-- A refused attempt may have changed the token's number.
unfoldable pub parse_based : Token → Option (Bool × Token)
unfolding parse_int
parse_based token = elim (get_or token.sval 0 0 == b'0') [
  | false ↦ some (false, token)
  | true ↦ elim (base_of (get_or token.sval 1 0)) [
    | none ↦ some (false, token)
    | some base ↦ parse_int base token
  ]
]

unfoldable pub parse_number : Token → Option (Bool × Token)
unfolding parse_based
parse_number token = elim (parse_based token) [
  | none ↦ none
  | some (true, t) ↦ some (true, t)
  | some (false, t) ↦ parse_int 10 t
]

abbrev pub named_kind : Token → TokenKind
named_kind t = if get_or t.sval 0 0 == b'&' then TokenKind.address_of else TokenKind.word

unfoldable pub read_word : Token → Option Token
unfolding parse_number find_keyword
read_word token = elim (find_keyword token.sval keywords) [
  | some k ↦ some (record token { kind = TokenKind.keyword; kval = k })
  | none ↦ elim (parse_number token) [
    | none ↦ none
    | some (true, t) ↦ some (record t { kind = TokenKind.integer })
    | some (false, t) ↦ some (record t { kind = named_kind t })
  ]
]

-- What `lex` does: `unfinished` means that the fuel ran out.
pub data Lexed : Type 0 where
  lexed : List Token → Lexed
  reported : Check → Lexed
  undefined unfinished : Lexed

abbrev pub with_first : Token → Lexed → Lexed
with_first t (lexed ts) = lexed (t ∷ ts)
with_first t r = r

abbrev pub quoted_kind : ℕ → TokenKind
quoted_kind c = if c == b'"' then TokenKind.string else TokenKind.char

-- The next token, which starts with `c`, and what goes on behind it.
unfoldable pub read_token : Location → ℕ → Text → (Token → Lexed) → Lexed
unfolding read_quoted read_word until_space
read_token location c s on = elim (c == b'"' || c == b'\'') [
  | true ↦ elim (read_quoted c s) [
    | exited e ↦ reported e
    | ok sval ↦ on (record no_token { location = location; kind = quoted_kind c; sval = sval })
  ]
  | false ↦ elim (read_word (record no_token { location = location; sval = until_space (c ∷ s) })) [
    | none ↦ undefined
    | some t ↦ on t
  ]
]

-- Behind the blanks: the end of the file, or a token and what `on` makes of the rest.
unfoldable pub lex_at : Text → (Text → ℕ → ℕ → Lexed) → Text → ℕ → ℕ → Lexed
unfolding read_token
lex_at path on [] line column = lexed []
lex_at path on (c ∷ s) line column =
    read_token (record { file = path; column = column; line = line; function_name = [] }) c s
      λ t. with_first t (on (drop (length t.sval) (c ∷ s)) line (column + length t.sval))

unfoldable pub lex_loop : ℕ → Text → Text → ℕ → ℕ → Lexed
unfolding skip_blanks lex_at
lex_loop zero path file line column = unfinished
lex_loop (suc fuel) path file line column = elim (skip_blanks false file line column) [
  | none ↦ undefined
  | some p ↦ lex_at path (lex_loop fuel path) p.rest p.line p.column
]

abbrev pub append_to : List Token → Lexed → Lexed
append_to tokens (lexed ts) = lexed (tokens ++ ts)
append_to tokens r = r

unfoldable pub lex : ℕ → Text → Text → List Token → Lexed
unfolding lex_loop
lex fuel file path tokens = append_to tokens (lex_loop fuel path file 1 1)
