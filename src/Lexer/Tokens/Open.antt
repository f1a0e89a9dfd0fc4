-- ===== src/Lexer/Tokens/Open.antt =====
-- src/lexer.cc, `lex`: a comment that ends with the file.
use stacky.Common.{
  ℕ, suc, ◌≡◌, refl, subst, sym, inl, inr, Bool, true, false, none, List, [], ◌∷◌, ◌++◌, ◌==◌,
  Bool-cases,
}
use stacky.Syntax.{Token, Text}
use stacky.Lexer.Tokens.{skip_blanks, is_space, undefined, lex, lex_loop}
use stacky.Lexer.Tokens.Shape.{IsBlank}

-- No line break.
abbrev pub IsLine : Text → Type 0
IsLine [] = Unit {0}
IsLine (c ∷ s) = (c == b'\n' ≡ false) × IsLine s

skip_blanks-IsLine : (s : Text) (line column : ℕ) → IsLine s → skip_blanks true s line column ≡ none
unfolding skip_blanks
skip_blanks-IsLine [] line column h = refl
skip_blanks-IsLine (c ∷ s) line column h =
    rw (skip_blanks, h.0) (skip_blanks-IsLine s line column h.1)

skip_blanks-open :
    (b : Bool) (gap comment : Text) (line column : ℕ)
    → IsBlank b gap
    → IsLine comment
    → skip_blanks b (gap ++ b'#' ∷ comment) line column ≡ none
unfolding skip_blanks is_space
skip_blanks-open false [] comment line column h k = skip_blanks-IsLine comment line column k
skip_blanks-open true [] comment line column h k = absurd h
skip_blanks-open false (c ∷ gap) comment line column (inl (s, h)) k =
    elim (Bool-cases (c == b'\n')) [
      | inl n ↦ rw (skip_blanks, s, n) (skip_blanks-open false gap comment (suc line) 1 h k)
      | inr n ↦ rw (skip_blanks, s, n) (skip_blanks-open false gap comment line (suc column) h k)
    ]
skip_blanks-open false (c ∷ gap) comment line column (inr (e, h)) k =
    subst (λ d. skip_blanks false (d ∷ gap ++ b'#' ∷ comment) line column ≡ none) (sym e)
      (skip_blanks-open true gap comment line column h k)
skip_blanks-open true (c ∷ gap) comment line column (inl (e, h)) k =
    subst (λ d. skip_blanks true (d ∷ gap ++ b'#' ∷ comment) line column ≡ none) (sym e)
      (skip_blanks-open false gap comment (suc line) 1 h k)
skip_blanks-open true (c ∷ gap) comment line column (inr (n, h)) k =
    rw (skip_blanks, n) (skip_blanks-open true gap comment line column h k)

skipped_past_end :
    (fuel : ℕ) (file path : Text) (tokens : List Token)
    → skip_blanks false file 1 1 ≡ none
    → lex (suc fuel) file path tokens ≡ undefined
unfolding lex
skipped_past_end fuel file path tokens e = rw (lex_loop, e) refl

-- In a file of blanks and comments whose last comment ends with the file, without a line break, the
-- lexer reads behind the end of the file.
pub lex-open_comment :
    (fuel : ℕ) (gap comment path : Text) (tokens : List Token)
    → IsBlank false gap
    → IsLine comment
    → lex (suc fuel) (gap ++ b'#' ∷ comment) path tokens ≡ undefined
lex-open_comment fuel gap comment path tokens h k =
    skipped_past_end fuel (gap ++ b'#' ∷ comment) path tokens
      (skip_blanks-open false gap comment 1 1 h k)
