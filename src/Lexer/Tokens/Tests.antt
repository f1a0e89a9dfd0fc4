-- ===== src/Lexer/Tokens/Tests.antt =====
-- The tokens of `2 dup # more`, a line break and `"hi" x`.
use stacky.Common.{ℕ, suc, ◌≡◌, ◌≢◌, refl, inl, List, [], ◌∷◌, ◌++◌, map, codes, length}
use stacky.Syntax.{Token, Text}
use stacky.Report.{empty_literal, missing_quote}
use stacky.Lexer.Tokens.{Lexed, lexed, reported, undefined, unfinished, lex, is_space}
use stacky.Lexer.Tokens.Covers.{Covers, lex-Covers}
use stacky.Lexer.Tokens.Returns.{lex-returns}
use stacky.Lexer.Tokens.Open.{lex-open_comment}

abbrev source : Text
source = codes "2 dup # more" ++ b'\n' ∷ codes "\"hi\" x"

abbrev tokens_of : Lexed → List Token
tokens_of (lexed ts) = ts
tokens_of r = []

abbrev texts : List Token → List (Text × ℕ)
texts = map {B = Text × ℕ} (λ t. (t.sval, t.location.line))

texts_read :
    texts (tokens_of (lex 20 source [] []))
    ≡ (codes "2", 1) ∷ (codes "dup", 1) ∷ (codes "\"hi\"", 2) ∷ (codes "x", 2) ∷ []
unfolding lex is_space
texts_read = refl

source_lexed : lex 20 source [] [] ≡ lexed (tokens_of (lex 20 source [] []))
unfolding lex is_space
source_lexed = refl

empty_char : lex 20 (codes "''") [] [] ≡ reported empty_literal
unfolding lex is_space
empty_char = refl

open_string : lex 20 (codes "\"a") [] [] ≡ reported missing_quote
unfolding lex is_space
open_string = refl

lex-Covers_example : Covers 1 (tokens_of (lex 20 source [] [])) source
lex-Covers_example = lex-Covers 20 source [] (tokens_of (lex 20 source [] [])) source_lexed

lex-returns_example : lex (suc (length source)) source [] [] ≢ unfinished
lex-returns_example = lex-returns source [] []

lex-open_comment_example : lex 20 (codes " " ++ b'#' ∷ codes "end") [] [] ≡ undefined
unfolding is_space
lex-open_comment_example =
    lex-open_comment 19 (codes " ") (codes "end") [] [] (inl (refl, tt)) (refl, (refl, (refl, tt)))
