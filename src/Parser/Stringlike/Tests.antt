-- ===== src/Parser/Stringlike/Tests.antt =====
-- String and character literals, read.
use stacky.Common.{◌≡◌, refl, true, false, List, [], ◌∷◌, arith, codes}
use stacky.Unicode.{encode_rune}
use stacky.Report.{ok, exited, bad_escape_length}
use stacky.Parser.Stringlike.{parse_string, parse_char}
use stacky.Parser.Stringlike.Spelling.{Spelled, itself, escaped, byte, rune, newline, reads}
use stacky.Parser.Stringlike.Chars.{parse_char-byte}

two_lines : parse_string (codes "a\\n\\x5c\\u0105") ≡ reads (97 ∷ 10 ∷ 92 ∷ 196 ∷ 133 ∷ [])
unfolding parse_string encode_rune
two_lines = refl

cut_short : parse_string (codes "\\u12") ≡ exited bad_escape_length
unfolding parse_string
cut_short = refl

-- The second backslash only escapes again.
backslashes : parse_string (codes "\\\\n") ≡ reads (10 ∷ [])
unfolding parse_string
backslashes = refl

-- Four bytes are packed with the first one lowest; the fifth is shifted by the width of an `int`.
packed :
    parse_char (codes "abcde")
    ≡ ok (record {
      state = record { value = 0x6463_6261; offset = 5; undefined = true };
      failed = false;
    })
unfolding parse_char
packed = refl

abbrev ogonek : List Spelled
ogonek = itself 65 ∷ escaped newline ∷ byte 5 12 ∷ rune 0 1 0 5 ∷ []

parse_char-byte_example :
    parse_char (196 ∷ [])
    ≡ ok (record {
      state = record { value = 18446744073709551556; offset = 1; undefined = false };
      failed = false;
    })
parse_char-byte_example = parse_char-byte 196 (omega arith) (omega arith)
