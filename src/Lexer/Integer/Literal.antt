-- ===== src/Lexer/Integer/Literal.antt =====
-- src/lexer.cc, `parse_int` as a whole: leading zeros, underscores, digits and a size suffix.
use stacky.Common.{
  ℕ, zero, suc, ◌+◌, ◌-◌, ◌%◌, ◌^◌, ◌≤◌, ◌<◌, ◌≡◌, refl, ap, ◌∙◌, Bool, true, false, ◌||◌, none,
  some, List, [], ◌∷◌, ◌++◌, arith, ◌==◌, if◌then◌else◌, length, drop,
}
use stacky.Syntax.{Token}
use stacky.Lexer.Integer.{skip_zeros, count_underscores, parse_digits, parse_int, max_digits64}
use stacky.Lexer.Integer.Value.{
  Glyphs, digit_char, render, written, digits, AllBelow, digits_loop-render,
}
use stacky.Lexer.Integer.Suffix.{
  Suffix, plain, signed, unsigned, suffix_text, suffix_size, size_suffix-render,
}

-- The literal without its leading zeros and underscores.
unfoldable pub strip : Glyphs → Glyphs
strip [] = []
strip (none ∷ gs) = strip gs
strip (some (u, zero) ∷ gs) = strip gs
strip (some (u, suc d) ∷ gs) = some (u, suc d) ∷ gs

pub strip-AllBelow : (base : ℕ) (gs : Glyphs) → AllBelow base gs → AllBelow base (strip gs)
unfolding strip
strip-AllBelow base [] h = h
strip-AllBelow base (none ∷ gs) h = strip-AllBelow base gs h
strip-AllBelow base (some (u, zero) ∷ gs) h = strip-AllBelow base gs h.1
strip-AllBelow base (some (u, suc d) ∷ gs) h = h

written-strip : (base : ℕ) (gs : Glyphs) → written base 0 (strip gs) ≡ written base 0 gs
unfolding strip written
written-strip base [] = refl
written-strip base (none ∷ gs) = written-strip base gs
written-strip base (some (u, zero) ∷ gs) =
    written-strip base gs ∙ ap (λ t. written base t gs) (omega arith)
written-strip base (some (u, suc d) ∷ gs) = refl

-- What may stand behind the digits: it begins with neither `0` nor `_`.
abbrev pub Stops : List ℕ → Type 0
Stops t = skip_zeros t ≡ t

pub suffix-Stops : (sf : Suffix) → Stops (suffix_text sf)
unfolding skip_zeros
suffix-Stops plain = refl
suffix-Stops (signed w) = refl
suffix-Stops (unsigned w) = refl

digit_char_zero : (u : Bool) → digit_char u 0 ≡ b'0'
unfolding digit_char
digit_char_zero true = refl
digit_char_zero false = refl

digit_char-ne-zero :
    (u : Bool) (d : ℕ)
    → suc d < 16
    → (digit_char u (suc d) == b'0' || digit_char u (suc d) == b'_') ≡ false
unfolding digit_char
digit_char-ne-zero true d h = ground arith
digit_char-ne-zero false d h = ground arith

pub skip_zeros-render :
    (base : ℕ) (gs : Glyphs) (t : List ℕ)
    → base ≤ 16
    → AllBelow base gs
    → Stops t
    → skip_zeros (render gs ++ t) ≡ render (strip gs) ++ t
unfolding skip_zeros render strip
skip_zeros-render base [] t hb h st = st
skip_zeros-render base (none ∷ gs) t hb h st = skip_zeros-render base gs t hb h st
skip_zeros-render base (some (u, zero) ∷ gs) t hb h st =
    rw (digit_char_zero u) (skip_zeros-render base gs t hb h.1 st)
skip_zeros-render base (some (u, suc d) ∷ gs) t hb h st =
    rw (digit_char-ne-zero u d (omega (arith, h.0)))

pub count_underscores-render :
    (base : ℕ) (gs : Glyphs) (sf : Suffix)
    → base ≤ 16
    → AllBelow base gs
    → count_underscores (render gs ++ suffix_text sf) + digits gs ≡ length (render gs)
unfolding count_underscores render digits digit_char
count_underscores-render base [] plain hb h = omega arith
count_underscores-render base [] (signed w) hb h = ground arith
count_underscores-render base [] (unsigned w) hb h = ground arith
count_underscores-render base (none ∷ gs) sf hb h =
    ground (arith, count_underscores-render base gs sf hb h)
count_underscores-render base (some (true, d) ∷ gs) sf hb h =
    ground (arith, count_underscores-render base gs sf hb h.1)
count_underscores-render base (some (false, d) ∷ gs) sf hb h =
    ground (arith, count_underscores-render base gs sf hb h.1)

-- The token that the literal should give.
abbrev pub literal_token : ℕ → Glyphs → Suffix → Token → Token
literal_token base gs sf token = record token {
  ival = written base 0 gs % 2 ^ 64;
  byte_size = suffix_size sf token.byte_size;
}

index_eq :
    (n len underscores count : ℕ)
    → n ≤ 64
    → underscores + count ≡ len
    → count ≤ n
    → (n + (2 ^ 64 - len % 2 ^ 64) + underscores) % 2 ^ 64 ≡ n - count
index_eq n len underscores count hn h hd = omega arith

parse_digits-render :
    (base n : ℕ) (gs : Glyphs) (sf : Suffix) (token : Token)
    → base ≤ 16
    → n ≤ 64
    → AllBelow base gs
    → digits gs ≤ n
    → parse_digits base n (render gs ++ suffix_text sf) token
      ≡ some (true, literal_token base gs sf token)
unfolding parse_digits
parse_digits-render base n gs sf token hb hn h hd =
    rw
      (
        size_suffix-render base gs sf token.byte_size hb h,
        parse_digits,
        index_eq n (length (render gs)) (count_underscores (render gs ++ suffix_text sf))
            (digits gs) hn (count_underscores-render base gs sf hb h) hd,
        digits_loop-render base n gs (n - digits gs) 0 hb h (omega arith),
      )
      (ap
        (λ t.
          some
            (true, record token { ival = t % 2 ^ 64; byte_size = suffix_size sf token.byte_size }))
        (omega arith))

pub max_digits64_bounds : (base n : ℕ) → max_digits64 base ≡ some n → (base ≤ 16) × (n ≤ 64)
unfolding max_digits64
max_digits64_bounds base n h = ground arith

-- In a base with a table, a literal whose digits, leading zeros aside, are at most as many as the
-- table has entries is consumed: it may begin with zeros, hold underscores anywhere and end in a
-- size suffix, and a letter may be in either case. Its value is the number that its digits write modulo 2^64, its byte size is the
-- suffix's if it has one and stays otherwise, and no other field of the token changes.
pub parse_int-literal :
    (base n : ℕ) (gs : Glyphs) (sf : Suffix) (token : Token)
    → max_digits64 base ≡ some n
    → AllBelow base gs
    → digits (strip gs) ≤ n
    → (if base == 10 then token.sval else drop 2 token.sval) ≡ render gs ++ suffix_text sf
    → parse_int base token ≡ some (true, literal_token base gs sf token)
unfolding parse_int
parse_int-literal base n gs sf token hn h hd hs =
    let (hb, hm) = max_digits64_bounds base n hn in
    rw (
      hn,
      parse_int,
      hs,
      skip_zeros-render base gs (suffix_text sf) hb h (suffix-Stops sf),
      parse_digits-render base n (strip gs) sf token hb hm (strip-AllBelow base gs h) hd,
      written-strip base gs,
    )
