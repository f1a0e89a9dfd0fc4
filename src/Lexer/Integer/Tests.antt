-- ===== src/Lexer/Integer/Tests.antt =====
-- Runs of `parse_int`, and its theorems at concrete literals.
use stacky.Common.{ℕ, ◌≡◌, refl, true, false, Option, none, some, [], ◌∷◌, codes, arith}
use stacky.Syntax.{Text, Token, no_token}
use stacky.Lexer.Integer.{parse_int, max_digits64}
use stacky.Lexer.Integer.Value.{Glyphs, digit_char, render, digits}
use stacky.Lexer.Integer.Suffix.{signed, plain, w16}
use stacky.Lexer.Integer.Literal.{strip, literal_token, parse_int-literal}
use stacky.Lexer.Integer.Overlong.{parse_int-overlong}

abbrev spelled : Text → Token
spelled s = record no_token { sval = s }

value : ℕ → Text → Option ℕ
unfolding parse_int
value base s = elim (parse_int base (spelled s)) [
  | none ↦ none
  | some (consumed, token) ↦ elim consumed [ true ↦ some token.ival | false ↦ none ]
]

values :
    (value 10 (codes "1_000u32") ≡ some 1000)
    × (value 16 (codes "0xff") ≡ some 255)
    × (value 10 (codes "sub") ≡ none)
    × (value 10 (codes "0") ≡ some 0)
unfolding value
values = (refl, refl, refl, refl)

-- 0x0Fa_1i16
abbrev hex : Glyphs
hex = some (false, 0) ∷ some (true, 15) ∷ some (false, 10) ∷ none ∷ some (false, 1) ∷ []

abbrev hex_token : Token
hex_token = spelled (codes "0x0Fa_1i16")

parse_int-literal_example :
    parse_int 16 hex_token ≡ some (true, literal_token 16 hex (signed w16) hex_token)
unfolding max_digits64 strip digits render digit_char
parse_int-literal_example =
    parse_int-literal 16 16 hex (signed w16) hex_token refl (omega arith) (omega arith) refl

-- The 21 digits of 111…1.
abbrev ones : Glyphs
ones =
    some (false, 1)
    ∷ some (false, 1)
    ∷ some (false, 1)
    ∷ some (false, 1)
    ∷ some (false, 1)
    ∷ some (false, 1)
    ∷ some (false, 1)
    ∷ some (false, 1)
    ∷ some (false, 1)
    ∷ some (false, 1)
    ∷ some (false, 1)
    ∷ some (false, 1)
    ∷ some (false, 1)
    ∷ some (false, 1)
    ∷ some (false, 1)
    ∷ some (false, 1)
    ∷ some (false, 1)
    ∷ some (false, 1)
    ∷ some (false, 1)
    ∷ some (false, 1)
    ∷ some (false, 1)
    ∷ []

parse_int-overlong_example : parse_int 10 (spelled (codes "111111111111111111111")) ≡ none
unfolding max_digits64 strip digits render digit_char
parse_int-overlong_example =
    parse_int-overlong 10 20 ones plain (spelled (codes "111111111111111111111")) refl (omega arith)
      (omega arith) (omega arith) refl
