-- ===== src/Unicode.antt =====
-- src/unicode.cc: the UTF-8 encoder. A `char` is the byte that it holds.
pub mod RoundTrip
mod Tests
use Prim.Native.Nat.{bit_and, bit_or}
use stacky.Common.{ℕ, ◌-◌, ◌/◌, ◌%◌, ◌^◌, List, [], ◌∷◌, ltb, if◌then◌else◌}

abbrev pub rune_max_1 : ℕ
rune_max_1 = 2 ^ 7 - 1

abbrev pub rune_max_2 : ℕ
rune_max_2 = 2 ^ 11 - 1

abbrev pub rune_max_3 : ℕ
rune_max_3 = 2 ^ 16 - 1

-- `char(n)`
abbrev to_char : ℕ → ℕ
to_char n = n % 256

abbrev shr : ℕ → ℕ → ℕ
shr r k = r / 2 ^ k

-- `Tx | char(n) & Maskx`: `&` binds tighter.
continuation : ℕ → ℕ
continuation n = bit_or 0b10000000 (bit_and (to_char n) 0b00111111)

unfoldable pub encode_rune : ℕ → List ℕ
unfolding continuation
encode_rune r =
    if ltb r rune_max_1
    then to_char r ∷ []
    else (if ltb r rune_max_2
        then to_char (bit_or 0b11000000 (to_char (shr r 6))) ∷ continuation r ∷ []
        else (if ltb r rune_max_3
            then to_char (bit_or 0b11100000 (to_char (shr r 12)))
              ∷ continuation (shr r 6)
              ∷ continuation r
              ∷ []
            else to_char (bit_or 0b11110000 (to_char (shr r 18)))
              ∷ continuation (shr r 12)
              ∷ continuation (shr r 6)
              ∷ continuation r
              ∷ []))
