-- ===== src/Lexer/Tokens/Literals.antt =====
-- src/lexer.cc, `lex`: what is read of a token is a prefix of the file, and has its kind's shape.
use stacky.Common.{
  ℕ, suc, ◌+◌, ◌-◌, ◌%◌, ◌^◌, ◌≡◌, refl, sym, ap, ◌∙◌, subst, inl, inr, Bool, true, false, Option,
  none, some, [], ◌∷◌, ◌++◌, arith, ◌==◌, ◌||◌, ◌&&◌, if◌then◌else◌, length, take, drop,
  drop-append, get_or, codes, Bool-cases, Option-cases,
}
use stacky.Syntax.{Token, TokenKind, Text, Location, no_token}
use stacky.Report.{Check, Outcome, ok, exited, Outcome-cases}
use stacky.Lexer.Integer.{
  parse_int, parse_digits, max_digits64, size_suffix, digits_loop, powers_lookup, skip_zeros,
  count_underscores,
}
use stacky.Lexer.Tokens.{
  keywords, find_keyword, is_space, closing, read_quoted, until_space, base_of, parse_based,
  parse_number, read_word, named_kind, quoted_kind, read_token, Lexed, undefined, reported,
}
use stacky.Lexer.Tokens.Shape.{
  Quoted, Bare, HasShape, IsPrefix, until_space-IsPrefix, until_space-AllVisible,
}

prefix_of : (a rest s : Text) → s ≡ a ++ rest → IsPrefix a s
prefix_of a rest s e =
    e ∙ ap (λ r. a ++ r) (sym (ap (drop (length a)) e ∙ drop-append a rest (length a) refl))

-- The text up to the closing quote.
abbrev ClosedBy : ℕ → Text → Option ℕ → Type 0
ClosedBy q s none = Unit {0}
ClosedBy q s (some n) =
    (body : Text) × (rest : Text) × (take n s ≡ body ++ q ∷ []) × (s ≡ take n s ++ rest)

closing-more :
    (q a : ℕ) (s : Text) (r : Option ℕ)
    → ClosedBy q s r
    → ClosedBy q (a ∷ s) (elim r [ none ↦ none | some n ↦ some (suc n) ])
closing-more q a s none h = tt
closing-more q a s (some n) (body, rest, e, f) =
    (a ∷ body, rest, ap (λ t. a ∷ t) e, ap (λ t. a ∷ t) f)

closing-ClosedBy : (q : ℕ) (s : Text) → ClosedBy q s (closing q s)
unfolding closing
closing-ClosedBy q [] = tt
closing-ClosedBy q (a ∷ []) = tt
closing-ClosedBy q (a ∷ b ∷ s) =
    elim (Bool-cases ((if a == b'\\' then false else true) && b == q)) [
      | inl h ↦
          let e : b ≡ q = ground (arith, h) in
          rw (closing, h) (a ∷ [], s, ap (λ c. a ∷ c ∷ []) e, refl)
      | inr h ↦ rw (closing, h) (closing-more q a (b ∷ s) _ (closing-ClosedBy q (b ∷ s)))
    ]

abbrev pub ReadAs : ℕ → Text → Outcome Text → Type 0
ReadAs q s (exited c) = Unit {0}
ReadAs q s (ok sval) = Quoted q sval × IsPrefix sval (q ∷ s)

empty_quotes :
    (q : ℕ) (s : Text) → q ≡ b'"' → get_or s 0 0 == q ≡ true → ReadAs q s (ok (codes "\"\""))
empty_quotes q [] e h = absurd (ground (arith, e, h))
empty_quotes q (c ∷ s) e h =
    let f : c ≡ b'"' = ground (arith, e, h) in
    (
      ([], ap (λ d. b'"' ∷ d ∷ []) (sym e) ∙ ap (λ d. d ∷ q ∷ []) (sym e)),
      prefix_of (codes "\"\"") s (q ∷ c ∷ s) (ap (λ d. d ∷ c ∷ s) e ∙ ap (λ d. b'"' ∷ d ∷ s) f),
    )

read_closed : (q : ℕ) (s : Text) (n : ℕ) → ClosedBy q s (some n) → ReadAs q s (ok (q ∷ take n s))
read_closed q s n (body, rest, e, f) =
    ((body, ap (λ t. q ∷ t) e), prefix_of (q ∷ take n s) rest (q ∷ s) (ap (λ t. q ∷ t) f))

pub read_quoted-ReadAs :
    (q : ℕ) (s : Text) → (q == b'"' || q == b'\'') ≡ true → ReadAs q s (read_quoted q s)
unfolding read_quoted
read_quoted-ReadAs q s h = elim (Bool-cases (get_or s 0 0 == q)) [
  | inl b ↦ elim (Bool-cases (q == b'\'')) [
    | inl k ↦ rw (read_quoted, b, k) tt
    | inr k ↦ rw (read_quoted, b, k) (empty_quotes q s (ground (arith, h, k)) b)
  ]
  | inr b ↦ elim (Option-cases (closing q s)) [
    | inl e ↦ rw (read_quoted, b, e) tt
    | inr (n, e) ↦
        rw (read_quoted, b, e) (read_closed q s n (subst (ClosedBy q s) e (closing-ClosedBy q s)))
  ]
]

-- The attempts at a number change neither the text nor the place.
abbrev Same : Token → Token → Type 0
Same token t = (t.sval ≡ token.sval) × (t.location ≡ token.location)

abbrev AllSame : Token → Option (Bool × Token) → Type 0
AllSame token none = Unit {0}
AllSame token (some (b, t)) = Same token t

parse_digits-AllSame :
    (base n : ℕ) (s : Text) (token : Token) → AllSame token (parse_digits base n s token)
unfolding parse_digits
parse_digits-AllSame base n s token = elim (Option-cases (size_suffix s token.byte_size)) [
  | inl e ↦ rw (parse_digits, e) (refl, refl)
  | inr ((size, rest), e) ↦
      elim (Option-cases (
        digits_loop base (powers_lookup base n) rest
          ((n + (2 ^ 64 - length rest % 2 ^ 64) + count_underscores s) % 2 ^ 64) 0)) [
            | inl f ↦ rw (parse_digits, e, f) tt
            | inr (r, f) ↦ rw (parse_digits, e, f) (refl, refl)
          ]
]

parse_int-AllSame : (base : ℕ) (token : Token) → AllSame token (parse_int base token)
unfolding parse_int
parse_int-AllSame base token = elim (Option-cases (max_digits64 base)) [
  | inl e ↦ rw (parse_int, e) tt
  | inr (n, e) ↦
      rw (parse_int, e)
        (parse_digits-AllSame base n
          (skip_zeros (if base == 10 then token.sval else drop 2 token.sval)) token)
]

parse_based-AllSame : (token : Token) → AllSame token (parse_based token)
unfolding parse_based
parse_based-AllSame token = elim (Bool-cases (get_or token.sval 0 0 == b'0')) [
  | inr b ↦ rw (parse_based, b) (refl, refl)
  | inl b ↦ elim (Option-cases (base_of (get_or token.sval 1 0))) [
    | inl e ↦ rw (parse_based, b, e) (refl, refl)
    | inr (base, e) ↦ rw (parse_based, b, e) (parse_int-AllSame base token)
  ]
]

second_attempt :
    (token : Token) (r : Option (Bool × Token))
    → AllSame token r
    → AllSame token (elim r [
      | none ↦ none
      | some (true, t) ↦ some (true, t)
      | some (false, t) ↦ parse_int 10 t
    ])
second_attempt token none h = tt
second_attempt token (some (true, t)) h = h
second_attempt token (some (false, t)) h = again (parse_int 10 t) (parse_int-AllSame 10 t)
  where
    again : (r : Option (Bool × Token)) → AllSame t r → AllSame token r
    again none k = tt
    again (some (b, u)) k = (k.0 ∙ h.0, k.1 ∙ h.1)

parse_number-AllSame : (token : Token) → AllSame token (parse_number token)
unfolding parse_number
parse_number-AllSame token = second_attempt token (parse_based token) (parse_based-AllSame token)

-- A word is none of the quoted literals.
abbrev pub ReadWord : Token → Option Token → Type 0
ReadWord token none = Unit {0}
ReadWord token (some t) =
    (t.sval ≡ token.sval) × (t.location ≡ token.location) × (Bare t.sval → HasShape t.kind t.sval)

named_kind-Bare : (t : Token) → Bare t.sval → HasShape (named_kind t) t.sval
named_kind-Bare t h = elim (Bool-cases (get_or t.sval 0 0 == b'&')) [
  | inl b ↦ rw b h
  | inr b ↦ rw b h
]

number_or_word :
    (token : Token) (r : Option (Bool × Token))
    → AllSame token r
    → ReadWord token (elim r [
      | none ↦ none
      | some (true, t) ↦ some (record t { kind = TokenKind.integer })
      | some (false, t) ↦ some (record t { kind = named_kind t })
    ])
number_or_word token none h = tt
number_or_word token (some (true, t)) h = (h.0, h.1, λ b. b)
number_or_word token (some (false, t)) h = (h.0, h.1, named_kind-Bare t)

read_word-ReadWord : (token : Token) → ReadWord token (read_word token)
unfolding read_word
read_word-ReadWord token = elim (Option-cases (find_keyword token.sval keywords)) [
  | inr (k, e) ↦ rw (read_word, e) (refl, refl, λ b. b)
  | inl e ↦
      rw (read_word, e) (number_or_word token (parse_number token) (parse_number-AllSame token))
]

quoted_kind-HasShape :
    (q : ℕ) (s : Text) → (q == b'"' || q == b'\'') ≡ true → Quoted q s → HasShape (quoted_kind q) s
quoted_kind-HasShape q s h k = elim (Bool-cases (q == b'"')) [
  | inl b ↦ let e : q ≡ b'"' = ground (arith, b) in rw b (subst (λ c. Quoted c s) e k)
  | inr b ↦ let e : q ≡ b'\'' = ground (arith, b, h) in rw b (subst (λ c. Quoted c s) e k)
]

first_visible : (c : ℕ) (s : Text) → is_space c ≡ false → Bare (until_space (c ∷ s))
unfolding until_space
first_visible c s v = (rw (until_space, v) (ground arith), until_space-AllVisible (c ∷ s))

-- What holds of the lexer's ends, and of every way on with a token, holds of the next token.
pub read_token-Holds :
    (P : Lexed → Type 0) (location : Location) (c : ℕ) (s : Text) (on : Token → Lexed)
    → P undefined
    → ((e : Check) → P (reported e))
    → is_space c ≡ false
    → ((t : Token)
        → t.location ≡ location
        → IsPrefix t.sval (c ∷ s)
        → HasShape t.kind t.sval
        → P (on t))
    → P (read_token location c s on)
unfolding read_token
read_token-Holds P location c s on u r v h = elim (Bool-cases (c == b'"' || c == b'\'')) [
  | inl b ↦ elim (Outcome-cases (read_quoted c s)) [
    | inl (e, x) ↦ rw (read_token, b, x) (r e)
    | inr (sval, x) ↦
        let k = subst (ReadAs c s) x (read_quoted-ReadAs c s b) in
        rw (read_token, b, x) (h _ refl k.1 (quoted_kind-HasShape c sval b k.0))
  ]
  | inr b ↦
      let start = record no_token { location = location; sval = until_space (c ∷ s) } in
      elim (Option-cases (read_word start)) [
        | inl x ↦ rw (read_token, b, x) u
        | inr (t, x) ↦
            let k = subst (ReadWord start) x (read_word-ReadWord start) in
            rw (read_token, b, x)
              (h t k.1 (subst (λ a. IsPrefix a (c ∷ s)) (sym k.0) (until_space-IsPrefix (c ∷ s)))
                (k.2 (subst Bare (sym k.0) (first_visible c s v))))
      ]
]
