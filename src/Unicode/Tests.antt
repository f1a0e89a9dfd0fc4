-- ===== src/Unicode/Tests.antt =====
-- Runs of the encoder, and its theorems at concrete runes.
use stacky.Common.{
  ◌+◌, inr, ◌≡◌, refl, ◌||◌, [], ◌∷◌, ◌++◌, some, arith, ◌==◌, if◌then◌else◌, length,
}
use stacky.Unicode.{encode_rune}
use stacky.Unicode.RoundTrip.{decode_rune, decode_rune-encode_rune, length-encode_rune, utf8_length}

encode_euro : encode_rune 0x20ac ≡ 0xe2 ∷ 0x82 ∷ 0xac ∷ []
unfolding encode_rune
encode_euro = refl

encode_delete : encode_rune 0x7f ≡ 0xc1 ∷ 0xbf ∷ []
unfolding encode_rune
encode_delete = refl

decode_rune-encode_rune_example :
    decode_rune (encode_rune 0x1f600 ++ 33 ∷ []) ≡ some (0x1f600, 33 ∷ [])
decode_rune-encode_rune_example =
    decode_rune-encode_rune 0x1f600 (33 ∷ []) (inr (omega arith, omega arith))

length-encode_rune_example : length (encode_rune 0x7ff) ≡ (
    if 0x7ff == 0x7f || 0x7ff == 0x7ff || 0x7ff == 0xffff
    then utf8_length 0x7ff + 1
    else utf8_length 0x7ff)
length-encode_rune_example = length-encode_rune 0x7ff (omega arith)
