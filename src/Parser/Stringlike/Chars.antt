-- ===== src/Parser/Stringlike/Chars.antt =====
-- src/parser.cc, the value of a character literal.
use Prim.Native.Nat.{bit_or, bit_or-bitwise}
use stacky.Common.{ℕ, ◌+◌, ◌-◌, ◌^◌, ◌<◌, ◌≡◌, ◌≢◌, false, [], ◌∷◌, arith, ltb, if◌then◌else◌}
use stacky.Report.{ok}
use stacky.Parser.Stringlike.{parse_char, byte_action, feed, pack_char, scan, shifted_char}

or_zero : (n : ℕ) → bit_or 0 n ≡ n
or_zero n = bit_or-bitwise 0 n

-- A byte as a signed 64-bit number, in two's complement.
abbrev pub sign_extended : ℕ → ℕ
sign_extended c = if ltb c 128 then c else 2 ^ 64 - 256 + c

shifted_char_first : (c : ℕ) → c < 256 → shifted_char c 0 ≡ sign_extended c
unfolding shifted_char
shifted_char_first c h = ground arith

-- A character literal of one byte other than the backslash is read without a report, and its value is
-- the byte with its sign extended: the byte itself where it is ASCII, and 2^64 - 256 more elsewhere.
pub parse_char-byte :
    (c : ℕ)
    → c < 256
    → c ≢ 92
    → parse_char (c ∷ [])
      ≡ ok (record {
        state = record { value = sign_extended c; offset = 1; undefined = false };
        failed = false;
      })
unfolding parse_char scan feed pack_char byte_action
parse_char-byte c h hn = ground (arith, shifted_char_first c h, or_zero (sign_extended c))
