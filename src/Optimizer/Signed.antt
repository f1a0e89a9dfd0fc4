-- ===== src/Optimizer/Signed.antt =====
-- `std::int64_t` arithmetic as src/optimizer.cc uses it at compile time, on two's complement bit
-- patterns below 2^64. `none` is undefined behaviour in C++20: an overflow of `+ - *`, a division by
-- zero or one that overflows, and a shift by a negative count or by 64 and more.
use stacky.Common.{
  ℕ, ◌+◌, ◌-◌, ◌*◌, ◌/◌, ◌%◌, ◌^◌, Bool, ◌&&◌, Option, none, some, ltb, leb, ◌==◌, if◌then◌else◌,
}
use stacky.Machine.{word, shift_left, shift_right}

abbrev pub is_negative : ℕ → Bool
is_negative a = leb (2 ^ 63) a

abbrev pub same_sign : ℕ → ℕ → Bool
same_sign a b = if is_negative a then is_negative b else ltb b (2 ^ 63)

abbrev pub magnitude : ℕ → ℕ
magnitude a = if is_negative a then 2 ^ 64 - a else a

abbrev pub negate : ℕ → ℕ
negate m = (2 ^ 64 - m) % 2 ^ 64

-- A sum overflows where the signs are the same and the result has another.
unfoldable pub add_int64 : ℕ → ℕ → Option ℕ
add_int64 a b =
    let sum = word (a + b) in
    if same_sign a b then (if same_sign a sum then some sum else none) else some sum

unfoldable pub sub_int64 : ℕ → ℕ → Option ℕ
sub_int64 a b =
    let difference = word (a + 2 ^ 64 - b) in
    if same_sign a b
    then some difference
    else (if same_sign a difference then some difference else none)

unfoldable pub mul_int64 : ℕ → ℕ → Option ℕ
mul_int64 a b =
    let product = magnitude a * magnitude b in
    if same_sign a b
    then (if ltb product (2 ^ 63) then some product else none)
    else (if leb product (2 ^ 63) then some (negate product) else none)

-- Division truncates towards zero.
unfoldable pub div_int64 : ℕ → ℕ → Option ℕ
div_int64 a b =
    let quotient = magnitude a / magnitude b in
    if b == 0
    then none
    else (if same_sign a b
        then (if ltb quotient (2 ^ 63) then some quotient else none)
        else some (negate quotient))

-- The remainder has the sign of the dividend.
unfoldable pub mod_int64 : ℕ → ℕ → Option ℕ
mod_int64 a b =
    let remainder = magnitude a % magnitude b in
    if b == 0
    then none
    else (if a == 2 ^ 63 && b == 2 ^ 64 - 1
        then none
        else (if is_negative a then some (negate remainder) else some remainder))

unfoldable pub shl_int64 : ℕ → ℕ → Option ℕ
shl_int64 a c = if ltb c 64 then some (shift_left a c) else none

unfoldable pub shr_int64 : ℕ → ℕ → Option ℕ
shr_int64 a c = if ltb c 64 then some (shift_right a c) else none

-- The order of the signed values: flip the sign bit.
abbrev pub biased : ℕ → ℕ
biased a = (a + 2 ^ 63) % 2 ^ 64

abbrev pub less_int64 : ℕ → ℕ → Bool
less_int64 a b = ltb (biased a) (biased b)

abbrev pub less_eq_int64 : ℕ → ℕ → Bool
less_eq_int64 a b = leb (biased a) (biased b)
