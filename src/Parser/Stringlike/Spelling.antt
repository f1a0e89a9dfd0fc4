-- ===== src/Parser/Stringlike/Spelling.antt =====
-- How the characters of a string literal may be spelled, and that src/parser.cc reads them back.
use stacky.Common.{ℕ, ◌+◌, ◌*◌, ◌<◌, ◌≡◌, ◌≢◌, false, List, [], ◌∷◌, ◌++◌, ltb, if◌then◌else◌}
use stacky.Syntax.{Text}
use stacky.Report.{Outcome, ok}
use stacky.Unicode.RoundTrip.{IsScalar, at_bound, utf8_bytes}
use stacky.Parser.Stringlike.{Parsed}

-- The escapes of one letter: `\0`, `\"`, `\'`, `\e`, `\n`, `\r`, `\t`.
pub data Letter : Type 0 where
  null quote apostrophe escape newline return tab : Letter

abbrev letter : Letter → ℕ
letter null = b'0'
letter quote = b'"'
letter apostrophe = b'\''
letter escape = b'e'
letter newline = b'n'
letter return = b'r'
letter tab = b't'

abbrev meant : Letter → ℕ
meant null = 0
meant quote = 34
meant apostrophe = 39
meant escape = 27
meant newline = 10
meant return = 13
meant tab = 9

abbrev pub hex_char : ℕ → ℕ
hex_char d = if ltb d 10 then 48 + d else 87 + d

-- A byte as itself, an escape of one letter, `\xHH`, and `\uHHHH` of a code point, by their digits.
pub data Spelled : Type 0 where
  itself : ℕ → Spelled
  escaped : Letter → Spelled
  byte : ℕ → ℕ → Spelled
  rune : ℕ → ℕ → ℕ → ℕ → Spelled

abbrev pub code_point : ℕ → ℕ → ℕ → ℕ → ℕ
code_point a b c d = ((a * 16 + b) * 16 + c) * 16 + d

-- A code point is a scalar value, and none of the three that the encoder writes wrongly.
abbrev pub IsSpelled : Spelled → Type 0
IsSpelled (itself c) = c ≢ 92
IsSpelled (escaped l) = Unit {0}
IsSpelled (byte h l) = (h < 16) × (l < 16)
IsSpelled (rune a b c d) =
    (a < 16)
    × (b < 16)
    × (c < 16)
    × (d < 16)
    × IsScalar (code_point a b c d)
    × (at_bound (code_point a b c d) ≡ false)

abbrev pub AllSpelled : List Spelled → Type 0
AllSpelled [] = Unit {0}
AllSpelled (x ∷ xs) = IsSpelled x × AllSpelled xs

-- A literal without its quotes.
unfoldable pub spell : List Spelled → Text
spell [] = []
spell (itself c ∷ xs) = c ∷ spell xs
spell (escaped l ∷ xs) = b'\\' ∷ letter l ∷ spell xs
spell (byte h l ∷ xs) = b'\\' ∷ b'x' ∷ hex_char h ∷ hex_char l ∷ spell xs
spell (rune a b c d ∷ xs) =
    b'\\' ∷ b'u' ∷ hex_char a ∷ hex_char b ∷ hex_char c ∷ hex_char d ∷ spell xs

-- The bytes that it stands for; those of a code point are the ones of RFC 3629.
unfoldable pub denote : List Spelled → List ℕ
denote [] = []
denote (itself c ∷ xs) = c ∷ denote xs
denote (escaped l ∷ xs) = meant l ∷ denote xs
denote (byte h l ∷ xs) = (h * 16 + l) ∷ denote xs
denote (rune a b c d ∷ xs) = utf8_bytes (code_point a b c d) ++ denote xs

-- What is read, with no report.
abbrev pub reads : List ℕ → Outcome (Parsed (List ℕ))
reads bytes = ok (record { state = bytes; failed = false })
