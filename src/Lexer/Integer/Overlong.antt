-- ===== src/Lexer/Integer/Overlong.antt =====
-- src/lexer.cc, `parse_int` on a literal with more digits than `Powers_Lookup` has entries.
use stacky.Common.{
  ℕ, zero, suc, ◌+◌, ◌-◌, ◌%◌, ◌^◌, ◌≤◌, ◌<◌, ◌≡◌, none, some, [], ◌∷◌, ◌++◌, arith, ◌==◌,
  if◌then◌else◌, drop, length,
}
use stacky.Syntax.{Token}
use stacky.Lexer.Integer.{count_underscores, parse_digits, parse_int, max_digits64}
use stacky.Lexer.Integer.Value.{Glyphs, render, digits, AllBelow, digits_loop-beyond}
use stacky.Lexer.Integer.Suffix.{Suffix, suffix_text, size_suffix-render}
use stacky.Lexer.Integer.Literal.{
  strip, strip-AllBelow, suffix-Stops, skip_zeros-render, count_underscores-render,
  max_digits64_bounds,
}

-- The index has wrapped around.
index_beyond :
    (n len underscores count : ℕ)
    → n ≤ 64
    → underscores + count ≡ len
    → n < count
    → count < 2 ^ 63
    → n ≤ (n + (2 ^ 64 - len % 2 ^ 64) + underscores) % 2 ^ 64
index_beyond n len underscores count hn h hd hc = omega arith

parse_digits-beyond :
    (base n : ℕ) (gs : Glyphs) (sf : Suffix) (token : Token)
    → base ≤ 16
    → n ≤ 64
    → AllBelow base (strip gs)
    → n < digits (strip gs)
    → digits (strip gs) < 2 ^ 63
    → parse_digits base n (render (strip gs) ++ suffix_text sf) token ≡ none
unfolding strip
parse_digits-beyond base n [] sf token hb hn h hd hc = absurd (unfold digits in omega arith)
parse_digits-beyond base n (none ∷ gs) sf token hb hn h hd hc =
    parse_digits-beyond base n gs sf token hb hn h hd hc
parse_digits-beyond base n (some (u, zero) ∷ gs) sf token hb hn h hd hc =
    parse_digits-beyond base n gs sf token hb hn h hd hc
parse_digits-beyond base n (some (u, suc d) ∷ gs) sf token hb hn h hd hc =
    unfold parse_digits in
    rw (
      size_suffix-render base (some (u, suc d) ∷ gs) sf token.byte_size hb h,
      parse_digits,
      digits_loop-beyond base n u (suc d) gs
          ((n
              + (2 ^ 64 - length (render (some (u, suc d) ∷ gs)) % 2 ^ 64)
              + count_underscores (render (some (u, suc d) ∷ gs) ++ suffix_text sf))
            % 2 ^ 64)
          0 hb h.0
          (index_beyond n (length (render (some (u, suc d) ∷ gs)))
            (count_underscores (render (some (u, suc d) ∷ gs) ++ suffix_text sf))
            (digits (some (u, suc d) ∷ gs)) hn
            (count_underscores-render base (some (u, suc d) ∷ gs) sf hb h) hd hc),
    )

-- In a base with a table, a literal that has more digits than the table has entries (leading zeros
-- aside, and fewer than 2^63) reads past the end of the table: it is neither refused nor given a
-- value.
pub parse_int-overlong :
    (base n : ℕ) (gs : Glyphs) (sf : Suffix) (token : Token)
    → max_digits64 base ≡ some n
    → AllBelow base gs
    → n < digits (strip gs)
    → digits (strip gs) < 2 ^ 63
    → (if base == 10 then token.sval else drop 2 token.sval) ≡ render gs ++ suffix_text sf
    → parse_int base token ≡ none
unfolding parse_int
parse_int-overlong base n gs sf token hn h hd hc hs =
    let (hb, hm) = max_digits64_bounds base n hn in
    rw (
      hn,
      parse_int,
      hs,
      skip_zeros-render base gs (suffix_text sf) hb h (suffix-Stops sf),
      parse_digits-beyond base n gs sf token hb hm (strip-AllBelow base gs h) hd hc,
    )
