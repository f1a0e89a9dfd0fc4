-- ===== src/Lexer/Integer.antt =====
-- src/lexer.cc, `parse_int`, and its table of powers (src/utilities.cc, `max_digits64` and `pow`).
-- A read past the end of the table is undefined behaviour in the source and `none` here.
pub mod Value
pub mod Suffix
pub mod Literal
pub mod Overlong
mod Tests
use stacky.Common.{
  ℕ, zero, suc, ◌+◌, ◌-◌, ◌*◌, ◌%◌, ◌^◌, Bool, true, false, ◌&&◌, ◌||◌, Option, none, some, List,
  [], ◌∷◌, ltb, leb, ◌==◌, if◌then◌else◌, length, get_elem?, get_or, take, drop,
}
use stacky.Syntax.{Text, Token}

-- `none` is the thrown `std::invalid_argument`.
unfoldable pub max_digits64 : ℕ → Option ℕ
max_digits64 base =
    if base == 2
    then some 64
    else (if base == 4
        then some 32
        else (if base == 6
            then some 25
            else (if base == 8
                then some 22
                else (if base == 10 then some 20 else (if base == 16 then some 16 else none)))))

-- `for (; n > 0; --n) r *= x;` on `uint64_t`.
unfoldable pub pow_loop : ℕ → ℕ → ℕ → ℕ
pow_loop x zero r = r
pow_loop x (suc n) r = pow_loop x n (r * x % 2 ^ 64)

unfoldable pub pow : ℕ → ℕ → ℕ
unfolding pow_loop
pow x n = pow_loop x n 1

-- The entry at index I is `pow(Base, Max_Digits - I - 1)`.
unfoldable pub powers_lookup : ℕ → ℕ → List ℕ
unfolding pow
powers_lookup base zero = []
powers_lookup base (suc n) = pow base n ∷ powers_lookup base n

-- `s.front()` of an empty view is the terminator of the string behind it.
abbrev pub front : Text → ℕ
front s = get_or s 0 0

-- `while (s.front() == '0' || s.front() == '_') s.remove_prefix(1);`
-- On a literal of zeros the source reads the front of an empty view, which C++ leaves undefined; the byte
-- there is the terminator of the token's `std::string`, where the loop stops.
unfoldable pub skip_zeros : Text → Text
skip_zeros [] = []
skip_zeros (c ∷ s) = let rest = skip_zeros s in if c == b'0' || c == b'_' then rest else c ∷ s

unfoldable pub count_underscores : Text → ℕ
count_underscores [] = 0
count_underscores (c ∷ s) = if c == b'_' then suc (count_underscores s) else count_underscores s

-- The character `k` places before the end, for `k` at least 1; 0 where there is none.
unfoldable pub from_end : ℕ → Text → ℕ
from_end k s = if leb k (length s) then get_or s (length s - k) 0 else 0

abbrev is_sign : ℕ → Bool
is_sign c = c == b'i' || c == b'u'

abbrev remove_suffix : ℕ → Text → Text
remove_suffix n s = take (length s - n) s

-- The size suffix (`i8`, `u16`, …): `none` refuses the literal; else the new byte size and the rest.
unfoldable pub size_suffix : Text → ℕ → Option (ℕ × Text)
unfolding from_end
size_suffix s byte_size =
    if leb 2 (length s) && is_sign (from_end 2 s)
    then (if from_end 1 s == b'8' then some (1, remove_suffix 2 s) else none)
    else (if leb 3 (length s) && is_sign (from_end 3 s)
        then (if from_end 2 s == b'1' && from_end 1 s == b'6'
            then some (2, remove_suffix 3 s)
            else (if from_end 2 s == b'3' && from_end 1 s == b'2'
                then some (4, remove_suffix 3 s)
                else (if from_end 2 s == b'6' && from_end 1 s == b'4'
                    then some (8, remove_suffix 3 s)
                    else none)))
        else some (byte_size, s))

-- `std::uint64_t const value`, where -1 stands for no digit.
unfoldable pub digit_value : ℕ → ℕ
digit_value c =
    if leb b'0' c && leb c b'9'
    then c - b'0'
    else (if leb b'a' c && leb c b'z'
        then c - b'a' + 10
        else (if leb b'A' c && leb c b'Z' then c - b'A' + 10 else 2 ^ 64 - 1))

-- The loop over the digits: its result and the final `token.ival`.
unfoldable pub digits_loop : ℕ → List ℕ → Text → ℕ → ℕ → Option (Bool × ℕ)
digits_loop base table [] i ival = some (true, ival)
digits_loop base table (c ∷ s) i ival = elim (c == b'_') [
  | true ↦ digits_loop base table s i ival
  | false ↦ elim (leb base (digit_value c)) [
    | true ↦ some (false, ival)
    | false ↦ elim (get_elem? table i) [
      | none ↦ none
      | some p ↦ digits_loop base table s (i + 1) ((ival + p * digit_value c) % 2 ^ 64)
    ]
  ]
]

-- The body behind the prefix. The index is computed on `size_t`.
unfoldable pub parse_digits : ℕ → ℕ → Text → Token → Option (Bool × Token)
unfolding digits_loop digit_value size_suffix powers_lookup count_underscores
parse_digits base max_digits s token = elim (size_suffix s token.byte_size) [
  | none ↦ some (false, token)
  | some (size, rest) ↦
      elim (digits_loop base (powers_lookup base max_digits) rest
        ((max_digits + (2 ^ 64 - length rest % 2 ^ 64) + count_underscores s) % 2 ^ 64) 0) [
          | none ↦ none
          | some (consumed, ival) ↦ some (consumed, record token { ival = ival; byte_size = size })
        ]
]

-- `none` is undefined behaviour, or the exception for a base without a table.
unfoldable pub parse_int : ℕ → Token → Option (Bool × Token)
unfolding parse_digits max_digits64 skip_zeros
parse_int base token =
    let s : Text = (if base == 10 then token.sval else drop 2 token.sval) in
    elim (max_digits64 base) [
      | none ↦ none
      | some max_digits ↦ parse_digits base max_digits (skip_zeros s) token
    ]
