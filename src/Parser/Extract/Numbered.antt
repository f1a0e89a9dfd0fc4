-- ===== src/Parser/Extract/Numbered.antt =====
-- src/parser.cc, `extract_strings`: one number for each text.
use stacky.Common.{
  ℕ, suc, ◌≡◌, refl, sym, ◌∙◌, subst, ◌⊎◌, inl, inr, true, none, some, List, [], ◌∷◌, arith, leb,
  text_eq, text_eq_sound, text_eq_refl, Bool-cases, Option-cases,
}
use stacky.Syntax.{Token, TokenKind, Text}
use stacky.Report.{Outcome, ok, exited, ◌>>=◌, Outcome-cases}
use stacky.Parser.Stringlike.{Parsed, parse_string}
use stacky.Parser.Translate.{unquoted}
use stacky.Parser.Extract.{Strings, find_string, intern, extract_string, extract_strings}

-- The numbers are below the next one, and those of different texts are different.
abbrev pub IsTable : List (Text × ℕ) → ℕ → Type 0
IsTable table n =
    ((s : Text) (id : ℕ) → find_string s table ≡ some id → leb (suc id) n ≡ true)
    × ((s t : Text) (id : ℕ)
        → find_string s table ≡ some id
        → find_string t table ≡ some id
        → s ≡ t)

-- What was in the table keeps its number.
abbrev pub Extends : List (Text × ℕ) → List (Text × ℕ) → Type 0
Extends table more =
    (s : Text) (id : ℕ) → find_string s table ≡ some id → find_string s more ≡ some id

find_added :
    (s t : Text) (n id : ℕ) (table : List (Text × ℕ))
    → find_string t ((s, n) ∷ table) ≡ some id
    → ((s ≡ t) × (id ≡ n)) ⊎ (find_string t table ≡ some id)
unfolding find_string
find_added s t n id table h = elim (Bool-cases (text_eq s t)) [
  | inl b ↦ inl (text_eq_sound s t b, ground (arith, h, b))
  | inr b ↦ inr (ground (arith, h, b))
]

added-IsTable :
    (s : Text) (table : List (Text × ℕ)) (n : ℕ)
    → IsTable table n
    → IsTable ((s, n) ∷ table) (suc n)
added-IsTable s table n (below, apart) = (
  λ t id h. elim (find_added s t n id table h) [
    | inl e ↦ ground (arith, e.1)
    | inr g ↦ ground (arith, below t id g)
  ],
  λ t u id h k. elim (find_added s t n id table h) [
    | inl e ↦ elim (find_added s u n id table k) [
      | inl f ↦ sym e.0 ∙ f.0
      | inr g ↦ absurd (ground (arith, e.1, below u id g))
    ]
    | inr g ↦ elim (find_added s u n id table k) [
      | inl f ↦ absurd (ground (arith, f.1, below t id g))
      | inr g' ↦ apart t u id g g'
    ]
  ],
)

added-Extends :
    (s : Text) (n : ℕ) (table : List (Text × ℕ))
    → find_string s table ≡ none
    → Extends table ((s, n) ∷ table)
unfolding find_string
added-Extends s n table absent t id h = elim (Bool-cases (text_eq s t)) [
  | inl b ↦
      absurd
        (ground (arith, h, subst (λ x. find_string x table ≡ none) (text_eq_sound s t b) absent))
  | inr b ↦ rw b h
]

-- After a step: the table is one, has the number of the text, and what it had.
abbrev Interned : Text → Strings → ℕ × Strings → Type 0
Interned s strings (id, strings') =
    IsTable strings'.table strings'.next_id
    × (find_string s strings'.table ≡ some id)
    × Extends strings.table strings'.table

found_first : (s : Text) (n : ℕ) (table : List (Text × ℕ)) → find_string s ((s, n) ∷ table) ≡ some n
unfolding find_string
found_first s n table = rw (text_eq_refl s) refl

intern-Interned :
    (s : Text) (strings : Strings)
    → IsTable strings.table strings.next_id
    → Interned s strings (intern s strings)
unfolding intern
intern-Interned s strings h = elim (Option-cases (find_string s strings.table)) [
  | inr (id, e) ↦ rw (intern, e) (h, e, λ t n k. k)
  | inl e ↦
      rw (intern, e)
        (
          added-IsTable s strings.table strings.next_id h,
          found_first s strings.next_id strings.table,
          added-Extends s strings.next_id strings.table e,
        )
]

-- The text of a string literal has the literal's number in the table; other tokens are not asked.
abbrev pub IsResolved : TokenKind → Token → List (Text × ℕ) → Type 0
IsResolved TokenKind.string t table =
    (read : Parsed (List ℕ)) × (parse_string (unquoted t.sval) ≡ ok read)
    × (find_string read.state table ≡ some t.ival)
IsResolved _ t table = Unit {0}

abbrev pub AllResolved : List Token → List (Text × ℕ) → Type 0
AllResolved [] table = Unit {0}
AllResolved (t ∷ ts) table = IsResolved t.kind t table × AllResolved ts table

IsResolved-Extends :
    (k : TokenKind) (t : Token) (table more : List (Text × ℕ))
    → Extends table more
    → IsResolved k t table
    → IsResolved k t more
IsResolved-Extends TokenKind.string t table more h (read, e, f) = (read, e, h read.state t.ival f)
IsResolved-Extends _ t table more h r = tt

-- What a token's step gives.
abbrev Extracted : TokenKind → Token → Strings → Outcome (Token × Strings) → Type 0
Extracted k token strings (exited c) = Unit {0}
Extracted k token strings (ok (t, strings')) =
    IsTable strings'.table strings'.next_id
    × IsResolved k t strings'.table
    × (t.kind ≡ token.kind)
    × Extends strings.table strings'.table

extract_string-Extracted :
    (k : TokenKind) (token : Token) (strings : Strings)
    → IsTable strings.table strings.next_id
    → Extracted k token strings (extract_string k token strings)
unfolding extract_string
extract_string-Extracted TokenKind.string token strings h =
    elim (Outcome-cases (parse_string (unquoted token.sval))) [
      | inl (c, e) ↦ rw (extract_string, e) tt
      | inr (read, e) ↦
          let i = intern-Interned read.state strings h in
          rw (extract_string, e) (i.0, (read, e, i.1), refl, i.2)
    ]
extract_string-Extracted _ token strings h = (h, tt, refl, λ s id e. e)

abbrev AllExtracted : Strings → Outcome (List Token × Strings) → Type 0
AllExtracted strings (exited c) = Unit {0}
AllExtracted strings (ok (ts, strings')) =
    IsTable strings'.table strings'.next_id
    × AllResolved ts strings'.table
    × Extends strings.table strings'.table

with_token_first :
    (token t : Token) (strings strings' : Strings) (r : Outcome (List Token × Strings))
    → Extracted token.kind token strings (ok (t, strings'))
    → AllExtracted strings' r
    → AllExtracted strings (do (ts, s) ← r; ok (t ∷ ts, s))
with_token_first token t strings strings' (exited c) h k = tt
with_token_first token t strings strings' (ok (ts, more)) (table, resolved, e, x)
      (table', rest, y) =
    (
      table',
      (
        IsResolved-Extends t.kind t strings'.table more.table y
            (subst (λ k. IsResolved k t strings'.table) (sym e) resolved),
        rest,
      ),
      λ s id f. y s id (x s id f),
    )

extract_strings-AllExtracted :
    (tokens : List Token) (strings : Strings)
    → IsTable strings.table strings.next_id
    → AllExtracted strings (extract_strings tokens strings)
unfolding extract_strings
extract_strings-AllExtracted [] strings h = (h, tt, λ s id e. e)
extract_strings-AllExtracted (token ∷ tokens) strings h =
    elim (Outcome-cases (extract_string token.kind token strings)) [
      | inl (c, e) ↦ rw (extract_strings, e) tt
      | inr ((t, strings'), e) ↦
          let step =
            subst (Extracted token.kind token strings) e
              (extract_string-Extracted token.kind token strings h) in
          rw (extract_strings, e)
            (with_token_first token t strings strings' _ step
              (extract_strings-AllExtracted tokens strings' step.0))
    ]

-- If different texts have different numbers below the next one, they have so after the strings of any
-- tokens, where no report ends the program; every string literal then has the number of the text that
-- it stands for, and what was in the table keeps its number.
pub extract_strings-IsTable :
    (tokens tokens' : List Token) (strings strings' : Strings)
    → IsTable strings.table strings.next_id
    → extract_strings tokens strings ≡ ok (tokens', strings')
    → IsTable strings'.table strings'.next_id
      × AllResolved tokens' strings'.table
      × Extends strings.table strings'.table
extract_strings-IsTable tokens tokens' strings strings' h e =
    subst (AllExtracted strings) e (extract_strings-AllExtracted tokens strings h)
