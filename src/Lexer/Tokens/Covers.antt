-- ===== src/Lexer/Tokens/Covers.antt =====
-- src/lexer.cc, `lex`: it comes to an end, and its tokens are the whole file but for blanks.
use mathlib.Core.List.{append-nil}
use stacky.Common.{
  ℕ, zero, suc, ◌+◌, ◌≡◌, refl, sym, ap, ◌∙◌, subst, false, Option, none, some, List, [], ◌∷◌, ◌++◌,
  length, drop,
}
use stacky.Syntax.{Token, Text}
use stacky.Lexer.Tokens.{
  Lexed, lexed, reported, undefined, unfinished, Position, skip_blanks, with_first, lex_at,
  append_to, lex_loop, lex,
}
use stacky.Lexer.Tokens.Shape.{
  IsBlank, newlines, Skipped, skip_blanks-Skipped, Stops, FrontVisible, skip_blanks-Stops, HasShape,
  IsPrefix,
}
use stacky.Lexer.Tokens.Literals.{read_token-Holds}

-- The tokens are the text from a line on, in order, with blanks and comments between and behind them;
-- each has its kind's shape and the line on which the blanks before it end.
abbrev pub Covers : ℕ → List Token → Text → Type 0
Covers line [] text = IsBlank false text
Covers line (t ∷ ts) text =
    (gap : Text) × (rest : Text) × (text ≡ gap ++ (t.sval ++ rest))
    × IsBlank false gap
    × HasShape t.kind t.sval
    × (t.location.line ≡ line + newlines gap)
    × Covers (line + newlines gap) ts rest

abbrev pub LexedCovers : ℕ → Text → Lexed → Type 0
LexedCovers line text (lexed ts) = Covers line ts text
LexedCovers line text r = Unit {0}

with_first-LexedCovers :
    (line : ℕ) (gap text tail : Text) (t : Token) (r : Lexed)
    → text ≡ gap ++ tail
    → IsBlank false gap
    → IsPrefix t.sval tail
    → HasShape t.kind t.sval
    → t.location.line ≡ line + newlines gap
    → LexedCovers (line + newlines gap) (drop (length t.sval) tail) r
    → LexedCovers line text (with_first t r)
with_first-LexedCovers line gap text tail t (lexed ts) e b p s l h =
    (gap, drop (length t.sval) tail, e ∙ ap (λ u. gap ++ u) p, b, s, l, h)
with_first-LexedCovers line gap text tail t (reported c) e b p s l h = tt
with_first-LexedCovers line gap text tail t undefined e b p s l h = tt
with_first-LexedCovers line gap text tail t unfinished e b p s l h = tt

-- The end of the text is a blank too.
to_the_end : (gap text : Text) → text ≡ gap ++ [] → IsBlank false gap → IsBlank false text
to_the_end gap text e b = subst (IsBlank false) (sym (e ∙ append-nil gap)) b

module _ (path : Text) (on : Text → ℕ → ℕ → Lexed)
    (covers : (text : Text) (line column : ℕ) → LexedCovers line text (on text line column)) where
  lex_at-LexedCovers :
      (line column : ℕ) (gap text rest : Text)
      → text ≡ gap ++ rest
      → IsBlank false gap
      → FrontVisible rest
      → LexedCovers line text (lex_at path on rest (line + newlines gap) column)
  unfolding lex_at
  lex_at-LexedCovers line column gap text [] e b v = to_the_end gap text e b
  lex_at-LexedCovers line column gap text (c ∷ s) e b v =
      read_token-Holds (LexedCovers line text) _ c s _ tt (λ k. tt) v
        λ t l p h.
          with_first-LexedCovers line gap text (c ∷ s) t _ e b p h (ap (λ x. x.line) l)
            (covers _ (line + newlines gap) _)

after_blanks :
    (path : Text) (on : Text → ℕ → ℕ → Lexed)
    (covers : (text : Text) (line column : ℕ) → LexedCovers line text (on text line column))
    (text : Text) (line : ℕ) (r : Option Position)
    → Skipped false text line r
    → Stops r
    → LexedCovers line text
        (elim r [ none ↦ undefined | some p ↦ lex_at path on p.rest p.line p.column ])
after_blanks path on covers text line none h v = tt
after_blanks path on covers text line (some p) (gap, e, b, l) v =
    subst (λ n. LexedCovers line text (lex_at path on p.rest n p.column)) (sym l)
      (lex_at-LexedCovers path on covers line p.column gap text p.rest e b v)

lex_loop-LexedCovers :
    (fuel : ℕ) (path text : Text) (line column : ℕ)
    → LexedCovers line text (lex_loop fuel path text line column)
unfolding lex_loop
lex_loop-LexedCovers zero path text line column = tt
lex_loop-LexedCovers (suc fuel) path text line column =
    after_blanks path (lex_loop fuel path) (lex_loop-LexedCovers fuel path) text line
      (skip_blanks false text line column) (skip_blanks-Skipped false text line column)
      (skip_blanks-Stops false text line column)

-- Where the lexer gives tokens, they are the whole file in order but for blanks and comments: no byte
-- is lost or read twice. A string or a character literal stands in its quotes, any other token has no
-- blank in it, none is empty, and its line counts the line breaks of the blanks before it.
pub lex-Covers :
    (fuel : ℕ) (file path : Text) (tokens : List Token)
    → lex fuel file path [] ≡ lexed tokens
    → Covers 1 tokens file
unfolding lex
lex-Covers fuel file path tokens e =
    subst (LexedCovers 1 file) (append_to-nil (lex_loop fuel path file 1 1) ∙ e)
      (lex_loop-LexedCovers fuel path file 1 1)
  where
    append_to-nil : (r : Lexed) → r ≡ append_to [] r
    append_to-nil (lexed ts) = refl
    append_to-nil (reported c) = refl
    append_to-nil undefined = refl
    append_to-nil unfinished = refl
