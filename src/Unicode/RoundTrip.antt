-- ===== src/Unicode/RoundTrip.antt =====
-- What the encoder of src/unicode.cc produces, read back by the decoding rule of UTF-8.
use Prim.Native.Nat.{bit_and, bit_or}
use stacky.Common.{
  ℕ, zero, suc, ◌+◌, ◌-◌, ◌*◌, ◌/◌, ◌%◌, ◌^◌, ◌<◌, ◌≡◌, refl, ◌⊎◌, Bool, false, ◌||◌, Option, none,
  some, List, [], ◌∷◌, ◌++◌, arith, ltb, ◌==◌, if◌then◌else◌, length, agrees_from, table_entry,
}
use stacky.Unicode.{continuation, encode_rune}

-- The value of the six low bits of each of `n` continuation bytes (10xxxxxx), below `acc`.
unfoldable pub decode_tail : ℕ → ℕ → List ℕ → Option (ℕ × List ℕ)
decode_tail zero acc bs = some (acc, bs)
decode_tail (suc n) acc [] = none
decode_tail (suc n) acc (b ∷ bs) =
    let rest = decode_tail n (acc * 64 + (b - 128)) bs in
    if ltb b 128 then none else if ltb b 192 then rest else none

-- Only the code points that need so many bytes are well-formed.
abbrev within : ℕ → ℕ → Option (ℕ × List ℕ) → Option (ℕ × List ℕ)
within low high none = none
within low high (some (r, rest)) = if ltb r low || ltb high r then none else some (r, rest)

-- Surrogates have no encoding.
abbrev no_surrogate : Option (ℕ × List ℕ) → Option (ℕ × List ℕ)
no_surrogate none = none
no_surrogate (some (r, rest)) = if ltb r 0xd800 || ltb 0xdfff r then some (r, rest) else none

-- Decoding by RFC 3629: the first byte says how many continuation bytes follow; overlong sequences,
-- surrogates and what lies above 0x10ffff are ill-formed.
unfoldable pub decode_rune : List ℕ → Option (ℕ × List ℕ)
unfolding decode_tail
decode_rune [] = none
decode_rune (b ∷ bs) =
    if ltb b 128
    then some (b, bs)
    else (if ltb b 192
        then none
        else (if ltb b 224
            then within 0x80 0x7ff (decode_tail 1 (b - 192) bs)
            else (if ltb b 240
                then no_surrogate (within 0x800 0xffff (decode_tail 2 (b - 224) bs))
                else (if ltb b 248
                    then within 0x1_0000 0x10_ffff (decode_tail 3 (b - 240) bs)
                    else none))))

-- A Unicode scalar value: a code point that is no surrogate.
abbrev pub IsScalar : ℕ → Type 0
IsScalar r = (r < 0xd800) ⊎ ((0xdfff < r) × (r < 0x11_0000))

-- The three runes at the ends of the encoder's ranges.
abbrev pub at_bound : ℕ → Bool
at_bound r = r == 0x7f || r == 0x7ff || r == 0xffff

-- The number of bytes that RFC 3629 gives a code point.
unfoldable pub utf8_length : ℕ → ℕ
utf8_length r = if ltb r 0x80 then 1 else if ltb r 0x800 then 2 else if ltb r 0x1_0000 then 3 else 4

continuation_lem : (n : ℕ) → continuation n ≡ 128 + n % 64
unfolding continuation agrees_from
continuation_lem n =
    omega
      (arith, table_entry (λ x. bit_or 128 (bit_and x 63)) 128 64 256 (n % 256) (omega arith) refl)

-- A lead byte keeps its mark above the bits of the rune.
lead2 : (x : ℕ) → x < 32 → bit_or 192 x ≡ 192 + x
unfolding agrees_from
lead2 x h = omega (arith, table_entry (bit_or 192) 192 32 32 x h refl)

lead3 : (x : ℕ) → x < 16 → bit_or 224 x ≡ 224 + x
unfolding agrees_from
lead3 x h = omega (arith, table_entry (bit_or 224) 224 16 16 x h refl)

lead4 : (x : ℕ) → x < 8 → bit_or 240 x ≡ 240 + x
unfolding agrees_from
lead4 x h = omega (arith, table_entry (bit_or 240) 240 8 8 x h refl)

-- The encoder's four branches in arithmetic.
bytes2 : ℕ → List ℕ
bytes2 r = (192 + r / 64) ∷ (128 + r % 64) ∷ []

bytes3 : ℕ → List ℕ
bytes3 r = (224 + r / 4096) ∷ (128 + r / 64 % 64) ∷ (128 + r % 64) ∷ []

bytes4 : ℕ → List ℕ
bytes4 r = (240 + r / 262144) ∷ (128 + r / 4096 % 64) ∷ (128 + r / 64 % 64) ∷ (128 + r % 64) ∷ []

encode_arith : ℕ → List ℕ
encode_arith r =
    if ltb r 127
    then r ∷ []
    else if ltb r 2047
    then bytes2 r
    else if ltb r 65535
    then bytes3 r
    else bytes4 r

encode_rune-arith : (r : ℕ) → r < 0x20_0000 → encode_rune r ≡ encode_arith r
unfolding encode_rune encode_arith bytes2 bytes3 bytes4
encode_rune-arith r h =
    rw (continuation_lem r, continuation_lem (r / 2 ^ 6), continuation_lem (r / 2 ^ 12))
      (ground (arith, lead2 (r / 2 ^ 6 % 256), lead3 (r / 2 ^ 12 % 256), lead4 (r / 2 ^ 18 % 256)))

-- The bytes that RFC 3629 gives a scalar value.
unfoldable pub utf8_bytes : ℕ → List ℕ
unfolding bytes2 bytes3 bytes4
utf8_bytes r =
    if ltb r 0x80
    then r ∷ []
    else if ltb r 0x800
    then bytes2 r
    else if ltb r 0x1_0000
    then bytes3 r
    else bytes4 r

-- Other than at its three bounds the encoder writes what the standard gives.
pub encode_rune-utf8_bytes :
    (r : ℕ) → r < 0x20_0000 → at_bound r ≡ false → encode_rune r ≡ utf8_bytes r
unfolding encode_arith utf8_bytes
encode_rune-utf8_bytes r h b = rw (encode_rune-arith r h) (ground (arith, b))

decode_rune-arith :
    (r : ℕ) (rest : List ℕ)
    → IsScalar r
    → decode_rune (encode_arith r ++ rest) ≡ (if at_bound r then none else some (r, rest))
unfolding decode_rune encode_arith bytes2 bytes3 bytes4
decode_rune-arith r rest h = ground arith

-- Decoding by RFC 3629 what the encoder wrote for a scalar value, with anything behind it, gives back
-- the value and the rest, except at 0x7f, 0x7ff and 0xffff, whose bytes are ill-formed.
pub decode_rune-encode_rune :
    (r : ℕ) (rest : List ℕ)
    → IsScalar r
    → decode_rune (encode_rune r ++ rest) ≡ (if at_bound r then none else some (r, rest))
decode_rune-encode_rune r rest h =
    rw (encode_rune-arith r (omega (arith, h))) (decode_rune-arith r rest h)

-- A rune below 2^21 gets one byte more than UTF-8 gives it at exactly the three runes 0x7f, 0x7ff
-- and 0xffff, and the bytes that UTF-8 gives it at every other.
pub length-encode_rune :
    (r : ℕ)
    → r < 0x20_0000
    → length (encode_rune r)
      ≡ (if r == 0x7f || r == 0x7ff || r == 0xffff then utf8_length r + 1 else utf8_length r)
unfolding encode_arith utf8_length bytes2 bytes3 bytes4
length-encode_rune r h = rw (encode_rune-arith r h) (ground arith)
