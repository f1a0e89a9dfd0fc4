-- ===== src/Lexer/Tokens/Returns.antt =====
-- src/lexer.cc, `lex`: it comes to an end.
use stacky.Common.{
  ℕ, zero, suc, ◌≡◌, ◌≢◌, refl, ap, ◌∙◌, subst, true, false, Option, none, some, List, [], ◌∷◌,
  arith, leb, length, length-append, drop,
}
use stacky.Syntax.{Token, TokenKind, Text}
use stacky.Lexer.Tokens.{
  Lexed, lexed, reported, undefined, unfinished, Position, skip_blanks, with_first, lex_at,
  append_to, lex_loop, lex,
}
use stacky.Lexer.Tokens.Shape.{
  Skipped, skip_blanks-Skipped, Stops, FrontVisible, skip_blanks-Stops, HasShape, IsPrefix,
}
use stacky.Lexer.Tokens.Literals.{read_token-Holds}

abbrev Finishes : Lexed → Type 0
Finishes unfinished = ⊥
Finishes _ = Unit {0}

with_first-Finishes : (t : Token) (r : Lexed) → Finishes r → Finishes (with_first t r)
with_first-Finishes t (lexed ts) h = tt
with_first-Finishes t (reported c) h = tt
with_first-Finishes t undefined h = tt
with_first-Finishes t unfinished h = h

HasShape-nonempty : (k : TokenKind) (s : Text) → HasShape k s → leb 1 (length s) ≡ true
HasShape-nonempty TokenKind.string s (body, e) = rw e (ground arith)
HasShape-nonempty TokenKind.char s (body, e) = rw e (ground arith)
HasShape-nonempty _ s h = h.0

drop-shorter :
    (a s : Text) (n : ℕ)
    → IsPrefix a s
    → leb 1 (length a) ≡ true
    → leb (length s) (suc n) ≡ true
    → leb (length (drop (length a) s)) n ≡ true
drop-shorter a s n p h k = ground (arith, h, k, ap length p ∙ length-append a (drop (length a) s))

lex_at-Finishes :
    (path : Text) (on : Text → ℕ → ℕ → Lexed) (n : ℕ) (rest : Text) (line column : ℕ)
    → ((text : Text) (l k : ℕ) → leb (length text) n ≡ true → Finishes (on text l k))
    → leb (length rest) (suc n) ≡ true
    → FrontVisible rest
    → Finishes (lex_at path on rest line column)
unfolding lex_at
lex_at-Finishes path on n [] line column f h v = tt
lex_at-Finishes path on n (c ∷ s) line column f h v =
    read_token-Holds Finishes _ c s _ tt (λ k. tt) v
      λ t l p k.
        with_first-Finishes t _
          (f _ line _ (drop-shorter t.sval (c ∷ s) n p (HasShape-nonempty t.kind t.sval k) h))

after_blanks-Finishes :
    (path : Text) (on : Text → ℕ → ℕ → Lexed) (n : ℕ) (text : Text) (line : ℕ) (r : Option Position)
    → ((t : Text) (l k : ℕ) → leb (length t) n ≡ true → Finishes (on t l k))
    → leb (length text) (suc n) ≡ true
    → Skipped false text line r
    → Stops r
    → Finishes (elim r [ none ↦ undefined | some p ↦ lex_at path on p.rest p.line p.column ])
after_blanks-Finishes path on n text line none f h k v = tt
after_blanks-Finishes path on n text line (some p) f h (gap, e, b, l) v =
    lex_at-Finishes path on n p.rest p.line p.column f
      (ground (arith, h, ap length e ∙ length-append gap p.rest)) v

end_of_text :
    (path : Text) (on : Text → ℕ → ℕ → Lexed) (line column : ℕ) (r : Option Position)
    → Skipped false [] line r
    → Finishes (elim r [ none ↦ undefined | some p ↦ lex_at path on p.rest p.line p.column ])
unfolding lex_at
end_of_text path on line column none h = tt
end_of_text path on line column (some p) (gap, e, b, l) =
    subst (λ r. Finishes (lex_at path on r p.line p.column))
      (nothing p.rest (ground (arith, ap length e ∙ length-append gap p.rest))) tt
  where
    nothing : (s : Text) → length s ≡ 0 → [] ≡ s
    nothing [] h = refl
    nothing (c ∷ s) h = absurd (ground (arith, h))

lex_loop-Finishes :
    (fuel : ℕ) (path text : Text) (line column : ℕ)
    → leb (length text) fuel ≡ true
    → Finishes (lex_loop (suc fuel) path text line column)
unfolding lex_loop
lex_loop-Finishes zero path [] line column h =
    end_of_text path (lex_loop zero path) line column (skip_blanks false [] line column)
      (skip_blanks-Skipped false [] line column)
lex_loop-Finishes zero path (c ∷ s) line column h = absurd (ground (arith, h))
lex_loop-Finishes (suc fuel) path text line column h =
    after_blanks-Finishes path (lex_loop (suc fuel) path) fuel text line
      (skip_blanks false text line column) (lex_loop-Finishes fuel path) h
      (skip_blanks-Skipped false text line column) (skip_blanks-Stops false text line column)

-- One round more than the file has bytes is enough for the lexer's loop: it gives tokens, reports a
-- literal, or reads behind the file's end or a table's.
pub lex-returns :
    (file path : Text) (tokens : List Token) → lex (suc (length file)) file path tokens ≢ unfinished
unfolding lex
lex-returns file path tokens e =
    not_unfinished (lex_loop (suc (length file)) path file 1 1)
      (lex_loop-Finishes (length file) path file 1 1 (ground arith)) e
  where
    not_unfinished : (r : Lexed) → Finishes r → append_to tokens r ≢ unfinished
    not_unfinished (lexed ts) h e = subst (λ r. Finishes r) e tt
    not_unfinished (reported c) h e = subst (λ r. Finishes r) e tt
    not_unfinished undefined h e = subst (λ r. Finishes r) e tt
    not_unfinished unfinished h e = h
