-- ===== src/Parser/Definitions.antt =====
-- src/parser.cc, `register_definitions`: the words that the tokens define. The loop has the tokens
-- before its index in reverse. The counters are static variables of the source, and count no more
-- than the tokens, so that no wrap-around of an `unsigned` is written out. A warning of a
-- second definition is printed and is left out.
pub mod Numbered
pub mod Tests
use stacky.Common.{
  ℕ, zero, suc, ◌+◌, ◌*◌, ◌/◌, ◌%◌, ◌^◌, Bool, true, false, ◌||◌, Option, none, some, List, [], ◌∷◌,
  ◌++◌, ltb, ◌==◌, if◌then◌else◌, get_or, codes,
}
use stacky.Syntax.{Token, TokenKind, KeywordKind, Text, Word, WordKind}
use stacky.Report.{
  Check, Outcome, ok, exited, ◌>>=◌, ◌>>◌, ensure, unreachable_code, needs_identifier,
  needs_integer,
}
use stacky.Dictionary.{Words, find_word, change_word}

-- `std::to_string`: the decimal digits, the lowest last.
decimal_loop : ℕ → ℕ → Text → Text
decimal_loop zero n digits = digits
decimal_loop (suc fuel) n digits =
    let digits' = (b'0' + n % 10) ∷ digits in
    let rest = decimal_loop fuel (n / 10) digits' in if ltb n 10 then digits' else rest

unfoldable pub to_string : ℕ → Text
unfolding decimal_loop
to_string n = decimal_loop (suc n) n []

-- `Anonymous_Function_Prefix + std::to_string(id)`
unfoldable pub anonymous_name : ℕ → Text
unfolding to_string
anonymous_name id = codes "_Stacky_anonymous_" ++ to_string id

pub record Defined : Type 0 where
  pub words : Words
  pub word_count : ℕ
  pub lambda_count : ℕ
  pub failed : Bool

abbrev is_kind : TokenKind → TokenKind → Bool
is_kind TokenKind.word TokenKind.word = true
is_kind TokenKind.integer TokenKind.integer = true
is_kind _ _ = false

-- The token `n + 1` before the current one, if it is of this kind.
abbrev pub token_before : ℕ → TokenKind → Check → List Token → Outcome Token
token_before n kind check [] = exited check
token_before zero kind check (t ∷ before) = do ensure (is_kind kind t.kind) check; ok t
token_before (suc n) kind check (t ∷ before) = token_before n kind check before

-- What becomes of the words, with their numbers.
abbrev pub as_function : ℕ → Token → Word → Word
as_function id token w = record w { kind = WordKind.function; id = id; location = token.location }

abbrev pub as_constant : ℕ → Token → ℕ → Word → Word
as_constant id name value w = record w {
  kind = WordKind.integer;
  id = id;
  ival = value;
  location = name.location;
}

abbrev pub as_array : ℕ → Token → ℕ → Word → Word
as_array id name size w = record w {
  kind = WordKind.array;
  byte_size = size;
  id = id;
  location = name.location;
}

-- A function's word, under its name.
unfoldable pub define_function : Text → Token → Defined → Defined
unfolding change_word
define_function name token d = record d {
  words = change_word name (as_function d.word_count token) d.words;
  word_count = suc d.word_count;
}

unfoldable pub register_function : List Token → Token → Defined → Outcome (Token × Defined)
unfolding define_function anonymous_name
register_function before token d =
    if get_or token.sval 0 0 == b'&'
    then ok (
      record token { ival = d.lambda_count },
      define_function (anonymous_name d.lambda_count) token
          (record d { lambda_count = suc d.lambda_count }),
    )
    else (do
      name ← token_before 0 TokenKind.word needs_identifier before
      ok (token, define_function name.sval token d))

unfoldable pub register_constant : List Token → Token → Defined → Outcome (Token × Defined)
unfolding change_word
register_constant before token d = do
  name ← token_before 1 TokenKind.word needs_identifier before
  value ← token_before 0 TokenKind.integer needs_integer before
  ok (
    token,
    record d {
      words = change_word name.sval (as_constant d.word_count name value.ival) d.words;
      word_count = suc d.word_count;
    },
  )

-- The number of elements: an `unsigned`, and 0 after the report of an `error`.
unfoldable pub array_length : Words → Token → ℕ × Bool
array_length words t = elim t.kind [
  | TokenKind.integer ↦ (t.ival % 2 ^ 32, false)
  | TokenKind.word ↦ elim (find_word t.sval words) [
    | none ↦ (0, true)
    | some w ↦ elim w.kind [ WordKind.integer ↦ (w.ival % 2 ^ 32, false) | _ ↦ (0, true) ]
  ]
  | _ ↦ (0, true)
]

-- The size of an element, from the fourth letter of `[]byte`, `[]u8` and the others.
unfoldable pub element_size : Text → Option ℕ
element_size s =
    let c = get_or s 3 0 in
    if c == b'y' || c == b'8'
    then some 1
    else (if c == b'1'
        then some 2
        else (if c == b'3' then some 4 else (if c == b's' || c == b'6' then some 8 else none)))

unfoldable pub register_array : List Token → Token → Defined → Outcome (Token × Defined)
unfolding array_length element_size change_word
register_array before token d = do
  name ← token_before 1 TokenKind.word needs_identifier before
  let (n, failed) = array_length d.words (get_or before 0 name)
  elim (element_size token.sval) [
    | none ↦ exited unreachable_code
    | some size ↦ ok (
      token,
      record d {
        words = change_word name.sval (as_array d.word_count name (n * size % 2 ^ 32)) d.words;
        word_count = suc d.word_count;
        failed = d.failed || failed;
      },
    )
  ]

unfoldable pub register_keyword :
    KeywordKind → List Token → Token → Defined → Outcome (Token × Defined)
unfolding register_function register_constant register_array
register_keyword KeywordKind.function before token d = register_function before token d
register_keyword KeywordKind.constant before token d = register_constant before token d
register_keyword KeywordKind.array before token d = register_array before token d
register_keyword _ before token d = ok (token, d)

unfoldable pub register_token : List Token → Token → Defined → Outcome (Token × Defined)
unfolding register_keyword
register_token before token d = elim token.kind [
  | TokenKind.keyword ↦ register_keyword token.kval before token d
  | _ ↦ ok (token, d)
]

-- The loop; it gives back the tokens in their order.
unfoldable pub register_loop : List Token → List Token → Defined → Outcome (List Token × Defined)
unfolding register_token
register_loop before [] d = ok ([], d)
register_loop before (token ∷ tokens) d = do
  (token', d') ← register_token before token d
  (rest, d'') ← register_loop (token' ∷ before) tokens d'
  ok (token' ∷ rest, d'')

unfoldable pub register_definitions : List Token → Defined → Outcome (List Token × Defined)
unfolding register_loop
register_definitions tokens d = register_loop [] tokens d
