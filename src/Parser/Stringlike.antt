-- ===== src/Parser/Stringlike.antt =====
-- src/parser.cc, `parse_stringlike`, and the two accumulators that it is called with: of
-- `extract_strings` and of a character literal. Instead of moving its index, the loop is told how
-- many bytes an escape has used up.
pub mod Spelling
pub mod Chars
pub mod Tests
use Prim.Native.Nat.{bit_or}
use stacky.Common.{
  ℕ, zero, suc, ◌+◌, ◌-◌, ◌*◌, ◌%◌, ◌^◌, Bool, true, false, ◌&&◌, ◌||◌, Option, none, some, List,
  [], ◌∷◌, ◌++◌, ltb, leb, ◌==◌, if◌then◌else◌, length, get_or,
}
use stacky.Syntax.{Text}
use stacky.Report.{Outcome, ok, exited, bad_escape_length, bad_escape_digit}
use stacky.Unicode.{encode_rune}

-- What is accumulated, and whether an `error` was reported.
pub record Parsed (S : Type 0) : Type 0 where
  pub state : S
  pub failed : Bool

-- What an accumulator answers: its new state, whether it goes on, and whether it reported.
pub record Fed (S : Type 0) : Type 0 where
  pub state : S
  pub goes_on : Bool
  pub failed : Bool

unfoldable pub hex_digit : ℕ → Option ℕ
hex_digit c =
    if leb b'0' c && leb c b'9'
    then some (c - b'0')
    else (if leb b'a' c && leb c b'f'
        then some (c - b'a' + 10)
        else (if leb b'A' c && leb c b'F' then some (c - b'A' + 10) else none))

-- `std::from_chars` in base 16 on exactly `n` bytes that must all be digits.
unfoldable pub from_hex : ℕ → ℕ → Text → Option ℕ
unfolding hex_digit
from_hex zero value s = some value
from_hex (suc n) value [] = none
from_hex (suc n) value (c ∷ s) = elim (hex_digit c) [
  | none ↦ none
  | some d ↦ from_hex n (value * 16 + d) s
]

-- One of the two digits behind `\x`: the value, and whether a report was made.
unfoldable pub hex_step : ℕ → ℕ → ℕ × Bool → ℕ × Bool
unfolding hex_digit
hex_step j c (value, failed) = elim (hex_digit c) [
  | none ↦ (value, true)
  | some d ↦ (bit_or (value * 2 ^ (4 * j)) d, failed)
]

-- What the loop does with a byte: it begins an escape, gives bytes to the accumulator and passes over
-- some more, or ends the program.
pub data Action : Type 0 where
  begins_escape : Action
  gives : List ℕ → ℕ → Bool → Action

abbrev give : ℕ → Action
give v = gives (v ∷ []) 0 false

unfoldable pub unicode_escape : ℕ → Text → Outcome Action
unfolding from_hex
unicode_escape n rest =
    if leb n (length rest)
    then elim (from_hex n 0 rest) [
      | none ↦ exited bad_escape_digit
      | some rune ↦ ok (gives (encode_rune rune) n false)
    ]
    else exited bad_escape_length

unfoldable pub byte_escape : Text → Outcome Action
unfolding hex_step
byte_escape rest =
    if leb 2 (length rest)
    then (let (value, failed) =
          hex_step 1 (get_or rest 1 0) (hex_step 0 (get_or rest 0 0) (0, false)) in
        ok (gives (value % 256 ∷ []) 2 failed))
    else exited bad_escape_length

-- The switch over an escaped byte.
unfoldable pub escape_action : ℕ → Text → Outcome Action
unfolding unicode_escape byte_escape
escape_action v rest =
    if v == b'0'
    then ok (give 0)
    else if v == b'"'
    then ok (give b'"')
    else if v == b'\''
    then ok (give b'\'')
    else if v == b'\\'
    then ok (give b'\\')
    else if v == b'e'
    then ok (give 27)
    else if v == b'n'
    then ok (give 10)
    else if v == b'r'
    then ok (give 13)
    else if v == b't'
    then ok (give 9)
    else if v == b'u'
    then unicode_escape 4 rest
    else if v == b'U'
    then unicode_escape 8 rest
    else if v == b'x'
    then byte_escape rest
    else ok (gives (v ∷ []) 0 true)

unfoldable pub byte_action : Bool → ℕ → Text → Outcome Action
unfolding escape_action
byte_action escaped v rest =
    if v == b'\\' then ok begins_escape else if escaped then escape_action v rest else ok (give v)

module _ {S : Type 0} (accumulator : S → ℕ → Fed S) where
  -- The bytes of one character, until the accumulator stops.
  unfoldable pub feed : List ℕ → Fed S → Fed S
  feed [] fed = fed
  feed (c ∷ cs) fed =
      let next = accumulator fed.state c in
      elim next.goes_on [
        | true ↦ feed cs (record next { failed = fed.failed || next.failed })
        | false ↦ record next { failed = fed.failed || next.failed }
      ]

  -- The loop, with the number of bytes to pass over and `next_escaped`.
  unfoldable pub scan : ℕ → Bool → Text → S → Bool → Outcome (Parsed S)
  unfolding byte_action feed
  scan skip escaped [] state failed = ok (record { state = state; failed = failed })
  scan (suc n) escaped (v ∷ rest) state failed = scan n escaped rest state failed
  scan zero escaped (v ∷ rest) state failed = elim (byte_action escaped v rest) [
    | exited c ↦ exited c
    | ok begins_escape ↦ scan zero true rest state failed
    | ok (gives bytes skip bad) ↦
        let fed = feed bytes (record { state = state; goes_on = true; failed = failed || bad }) in
        elim fed.goes_on [
          | true ↦ scan skip false rest fed.state fed.failed
          | false ↦ ok (record { state = fed.state; failed = fed.failed })
        ]
  ]

  unfoldable pub parse_stringlike : Text → S → Outcome (Parsed S)
  unfolding scan
  parse_stringlike sequence state = scan zero false sequence state false

-- `s.push_back(c)`
abbrev pub push_back : List ℕ → ℕ → Fed (List ℕ)
push_back s c = record { state = s ++ c ∷ []; goes_on = true; failed = false }

-- A character literal's value so far. A shift of an `int` by its width is undefined.
pub record CharValue : Type 0 where
  pub value : ℕ
  pub offset : ℕ
  pub undefined : Bool

-- `c << 8 * offset` on a signed `char` and `int`, as a `uint64_t`
unfoldable pub shifted_char : ℕ → ℕ → ℕ
shifted_char c offset =
    let shifted = ((if ltb c 128 then c else 2 ^ 32 - 256 + c) * 2 ^ (8 * offset)) % 2 ^ 32 in
    if ltb shifted (2 ^ 31) then shifted else shifted + 2 ^ 64 - 2 ^ 32

unfoldable pub pack_char : CharValue → ℕ → Fed CharValue
unfolding shifted_char
pack_char s c = record {
  state = record {
    value = bit_or s.value (shifted_char c s.offset);
    offset = suc s.offset;
    undefined = s.undefined || leb 4 s.offset;
  };
  goes_on = leb (suc s.offset) 8;
  failed = ltb 8 (suc s.offset);
}

unfoldable pub parse_string : Text → Outcome (Parsed (List ℕ))
unfolding parse_stringlike
parse_string sequence = parse_stringlike push_back sequence []

unfoldable pub parse_char : Text → Outcome (Parsed CharValue)
unfolding parse_stringlike pack_char
parse_char sequence =
    parse_stringlike pack_char sequence (record { value = 0; offset = 0; undefined = false })
