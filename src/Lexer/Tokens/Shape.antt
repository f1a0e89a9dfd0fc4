-- ===== src/Lexer/Tokens/Shape.antt =====
-- src/lexer.cc, `lex`: what a token is made of, and what stands between two tokens.
use stacky.Common.{
  ℕ, suc, ◌+◌, ◌≡◌, refl, ap, ◌∙◌, ◌⊎◌, inl, inr, Bool, true, false, Option, none, some, [], ◌∷◌,
  ◌++◌, arith, leb, ◌==◌, if◌then◌else◌, length, drop, Bool-cases,
}
use stacky.Syntax.{TokenKind, Text}
use stacky.Lexer.Tokens.{is_space, Position, skip_blanks, until_space}

-- Blanks and comments up to the end of their lines; the flag says that a comment has begun.
abbrev pub IsBlank : Bool → Text → Type 0
IsBlank false [] = Unit {0}
IsBlank true [] = ⊥
IsBlank false (c ∷ s) = ((is_space c ≡ true) × IsBlank false s) ⊎ ((c ≡ b'#') × IsBlank true s)
IsBlank true (c ∷ s) = ((c ≡ b'\n') × IsBlank false s) ⊎ ((c == b'\n' ≡ false) × IsBlank true s)

abbrev pub newlines : Text → ℕ
newlines [] = 0
newlines (c ∷ s) = if c == b'\n' then suc (newlines s) else newlines s

-- What was skipped.
abbrev pub Skipped : Bool → Text → ℕ → Option Position → Type 0
Skipped b s line none = Unit {0}
Skipped b s line (some p) =
    (gap : Text) × (s ≡ gap ++ p.rest) × IsBlank b gap × (p.line ≡ line + newlines gap)

one_more :
    (b b' : Bool) (c : ℕ) (s : Text) (line line' : ℕ) (r : Option Position)
    → ((gap : Text) → IsBlank b' gap → IsBlank b (c ∷ gap))
    → ((gap : Text) → line' + newlines gap ≡ line + newlines (c ∷ gap))
    → Skipped b' s line' r
    → Skipped b (c ∷ s) line r
one_more b b' c s line line' none h l k = tt
one_more b b' c s line line' (some p) h l (gap, e, blank, n) =
    (c ∷ gap, ap (λ t. c ∷ t) e, h gap blank, n ∙ l gap)

pub skip_blanks-Skipped :
    (b : Bool) (s : Text) (line column : ℕ) → Skipped b s line (skip_blanks b s line column)
unfolding skip_blanks
skip_blanks-Skipped false [] line column = ([], refl, tt, omega arith)
skip_blanks-Skipped true [] line column = tt
skip_blanks-Skipped false (c ∷ s) line column = elim (Bool-cases (is_space c)) [
  | inl b ↦ elim (Bool-cases (c == b'\n')) [
    | inl n ↦
        rw (skip_blanks, b, n)
          (one_more false false c s line (suc line) _ (λ g k. inl (b, k)) (λ g. ground (arith, n))
            (skip_blanks-Skipped false s (suc line) 1))
    | inr n ↦
        rw (skip_blanks, b, n)
          (one_more false false c s line line _ (λ g k. inl (b, k)) (λ g. ground (arith, n))
            (skip_blanks-Skipped false s line (suc column)))
  ]
  | inr b ↦ elim (Bool-cases (c == b'#')) [
    | inl n ↦
        rw (skip_blanks, b, n)
          (one_more false true c s line line _ (λ g k. inr (ground (arith, n), k))
            (λ g. ground (arith, n)) (skip_blanks-Skipped true s line column))
    | inr n ↦ rw (skip_blanks, b, n) ([], refl, tt, omega arith)
  ]
]
skip_blanks-Skipped true (c ∷ s) line column = elim (Bool-cases (c == b'\n')) [
  | inl n ↦
      rw (skip_blanks, n)
        (one_more true false c s line (suc line) _ (λ g k. inl (ground (arith, n), k))
          (λ g. ground (arith, n)) (skip_blanks-Skipped false s (suc line) 1))
  | inr n ↦
      rw (skip_blanks, n)
        (one_more true true c s line line _ (λ g k. inr (n, k)) (λ g. ground (arith, n))
          (skip_blanks-Skipped true s line column))
]

abbrev pub FrontVisible : Text → Type 0
FrontVisible [] = Unit {0}
FrontVisible (c ∷ s) = is_space c ≡ false

abbrev pub Stops : Option Position → Type 0
Stops none = Unit {0}
Stops (some p) = FrontVisible p.rest

pub skip_blanks-Stops :
    (b : Bool) (s : Text) (line column : ℕ) → Stops (skip_blanks b s line column)
unfolding skip_blanks
skip_blanks-Stops false [] line column = tt
skip_blanks-Stops true [] line column = tt
skip_blanks-Stops false (c ∷ s) line column = elim (Bool-cases (is_space c)) [
  | inl b ↦ elim (Bool-cases (c == b'\n')) [
    | inl n ↦ rw (skip_blanks, b, n) (skip_blanks-Stops false s (suc line) 1)
    | inr n ↦ rw (skip_blanks, b, n) (skip_blanks-Stops false s line (suc column))
  ]
  | inr b ↦ elim (Bool-cases (c == b'#')) [
    | inl n ↦ rw (skip_blanks, b, n) (skip_blanks-Stops true s line column)
    | inr n ↦ rw (skip_blanks, b, n) b
  ]
]
skip_blanks-Stops true (c ∷ s) line column = elim (Bool-cases (c == b'\n')) [
  | inl n ↦ rw (skip_blanks, n) (skip_blanks-Stops false s (suc line) 1)
  | inr n ↦ rw (skip_blanks, n) (skip_blanks-Stops true s line column)
]

abbrev pub AllVisible : Text → Type 0
AllVisible [] = Unit {0}
AllVisible (c ∷ s) = (is_space c ≡ false) × AllVisible s

-- A quoted literal has its quotes at both ends; anything else has no blanks. None is empty.
abbrev pub Quoted : ℕ → Text → Type 0
Quoted q s = (body : Text) × (s ≡ q ∷ (body ++ q ∷ []))

abbrev pub Bare : Text → Type 0
Bare s = (leb 1 (length s) ≡ true) × AllVisible s

abbrev pub HasShape : TokenKind → Text → Type 0
HasShape TokenKind.string s = Quoted b'"' s
HasShape TokenKind.char s = Quoted b'\'' s
HasShape _ s = Bare s

abbrev pub IsPrefix : Text → Text → Type 0
IsPrefix a s = s ≡ a ++ drop (length a) s

pub until_space-IsPrefix : (s : Text) → IsPrefix (until_space s) s
unfolding until_space
until_space-IsPrefix [] = refl
until_space-IsPrefix (c ∷ s) = elim (Bool-cases (is_space c)) [
  | inl b ↦ rw (until_space, b) refl
  | inr b ↦ rw (until_space, b) (ap (λ t. c ∷ t) (until_space-IsPrefix s))
]

pub until_space-AllVisible : (s : Text) → AllVisible (until_space s)
unfolding until_space
until_space-AllVisible [] = tt
until_space-AllVisible (c ∷ s) = elim (Bool-cases (is_space c)) [
  | inl b ↦ rw (until_space, b) tt
  | inr b ↦ rw (until_space, b) (b, until_space-AllVisible s)
]
