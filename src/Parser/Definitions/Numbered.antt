-- ===== src/Parser/Definitions/Numbered.antt =====
-- src/parser.cc, `register_definitions`: the numbers of the words, which name their labels in the
-- assembly, are all different.
use stacky.Common.{
  ℕ, suc, ◌*◌, ◌%◌, ◌^◌, ◌≡◌, refl, sym, ◌∙◌, subst, ◌⊎◌, inl, inr, true, some, List, [], ◌∷◌,
  arith, leb, ◌==◌, text_eq, text_eq_sound, Bool-cases, get_or, Option-cases,
}
use stacky.Syntax.{Token, TokenKind, KeywordKind, Text, Word, WordKind}
use stacky.Report.{Outcome, ok, exited, ◌>>=◌}
use stacky.Dictionary.{Words, find_word, change_word}
use stacky.Dictionary.Laws.{entry, find_word-change_word, find_word-change_other}
use stacky.Parser.Definitions.{
  Defined, as_function, as_constant, as_array, register_function, register_constant, register_array,
  register_keyword, register_token, register_loop, register_definitions, define_function,
  anonymous_name, element_size, array_length, token_before,
}

-- The intrinsics are not numbered.
abbrev pub IsUser : WordKind → Type 0
IsUser WordKind.intrinsic = ⊥
IsUser _ = Unit {0}

abbrev pub AllBelow : Words → ℕ → Type 0
AllBelow words n =
    (name : Text) (w : Word)
    → find_word name words ≡ some w
    → IsUser w.kind
    → leb (suc w.id) n ≡ true

abbrev pub AllApart : Words → Type 0
AllApart words =
    (a b : Text) (w v : Word)
    → find_word a words ≡ some w
    → find_word b words ≡ some v
    → IsUser w.kind
    → IsUser v.kind
    → w.id ≡ v.id
    → text_eq a b ≡ true

-- The numbers of the words but for the intrinsics are below `n`, and different.
abbrev pub IsNumbered : Words → ℕ → Type 0
IsNumbered words n = AllBelow words n × AllApart words

-- What a lookup finds after a change.
pub find_changed :
    (name other : Text) (f : Word → Word) (words : Words) (w : Word)
    → find_word other (change_word name f words) ≡ some w
    → ((text_eq name other ≡ true) × (e : Word) × (w ≡ f e)) ⊎ (find_word other words ≡ some w)
find_changed name other f words w h = elim (Bool-cases (text_eq name other)) [
  | inl b ↦
      let found = find_word-change_word name f words in
      let h' =
        subst (λ n. find_word n (change_word name f words) ≡ some w)
          (sym (text_eq_sound name other b)) h in
      inl (b, entry (find_word name words), ground (arith, found, h'))
  | inr b ↦ inr (sym (find_word-change_other name other f words b) ∙ h)
]

text_eq_join :
    (name a b : Text) → text_eq name a ≡ true → text_eq name b ≡ true → text_eq a b ≡ true
text_eq_join name a b h k = subst (λ x. text_eq x b ≡ true) (text_eq_sound name a h) k

change_word-IsNumbered :
    (name : Text) (f : Word → Word) (words : Words) (n : ℕ)
    → ((w : Word) → (f w).id ≡ n)
    → IsNumbered words n
    → IsNumbered (change_word name f words) (suc n)
change_word-IsNumbered name f words n i (below, apart) = (
  λ other w h u. elim (find_changed name other f words w h) [
    | inl (b, e, q) ↦ ground (arith, q, i e)
    | inr g ↦ ground (arith, below other w g u)
  ],
  λ a b w v h k u s e. elim (find_changed name a f words w h) [
    | inl (x, x', q) ↦ elim (find_changed name b f words v k) [
      | inl (y, y', r) ↦ text_eq_join name a b x y
      | inr g ↦ absurd (ground (arith, q, i x', below b v g s, e))
    ]
    | inr g ↦ elim (find_changed name b f words v k) [
      | inl (y, y', r) ↦ absurd (ground (arith, r, i y', below a w g u, e))
      | inr g' ↦ apart a b w v g g' u s e
    ]
  ],
)

-- `P` holds of the definitions that a step goes on with.
abbrev pub Keeps {ℓ} : {A : Type ℓ} → Outcome (A × Defined) → Type 0
Keeps (exited c) = Unit {0}
Keeps (ok (a, d)) = IsNumbered d.words d.word_count

after_check :
    {A B : Type 0} (o : Outcome A) (f : A → Outcome (B × Defined))
    → ((a : A) → Keeps (f a))
    → Keeps (do a ← o; f a)
after_check (exited c) f h = tt
after_check (ok a) f h = h a

after_step :
    {A B : Type 0} (o : Outcome (A × Defined)) (f : A × Defined → Outcome (B × Defined))
    → Keeps o
    → ((a : A) (d : Defined) → IsNumbered d.words d.word_count → Keeps (f (a, d)))
    → Keeps (do r ← o; f r)
after_step (exited c) f h k = tt
after_step (ok (a, d)) f h k = k a d h

module _ (before : List Token) (token : Token) (d : Defined)
    (numbered : IsNumbered d.words d.word_count) where
  register_function-Keeps : Keeps (register_function before token d)
  unfolding register_function define_function
  register_function-Keeps = elim (Bool-cases (get_or token.sval 0 0 == b'&')) [
    | inl b ↦ rw b (
        change_word-IsNumbered (anonymous_name d.lambda_count) (as_function d.word_count token)
          d.words d.word_count (λ w. refl) numbered)
    | inr b ↦ rw b (
        after_check (token_before 0 TokenKind.word _ before) _ λ name.
          change_word-IsNumbered name.sval (as_function d.word_count token) d.words d.word_count
            (λ w. refl) numbered)
  ]

  register_constant-Keeps : Keeps (register_constant before token d)
  unfolding register_constant
  register_constant-Keeps = after_check (token_before 1 TokenKind.word _ before) _ λ name.
      after_check (token_before 0 TokenKind.integer _ before) _ λ value.
        change_word-IsNumbered name.sval (as_constant d.word_count name value.ival) d.words
          d.word_count (λ w. refl) numbered

  register_array-Keeps : Keeps (register_array before token d)
  unfolding register_array
  register_array-Keeps = after_check (token_before 1 TokenKind.word _ before) _ λ name.
      elim (Option-cases (element_size token.sval)) [
        | inl e ↦ rw e tt
        | inr (size, e) ↦ rw e (
            change_word-IsNumbered name.sval
              (as_array d.word_count name
                ((array_length d.words (get_or before 0 name)).0 * size % 2 ^ 32))
              d.words d.word_count (λ w. refl) numbered)
      ]

  register_keyword-Keeps : (k : KeywordKind) → Keeps (register_keyword k before token d)
  unfolding register_keyword
  register_keyword-Keeps KeywordKind.function = register_function-Keeps
  register_keyword-Keeps KeywordKind.constant = register_constant-Keeps
  register_keyword-Keeps KeywordKind.array = register_array-Keeps
  register_keyword-Keeps _ = numbered

  register_token-Keeps : Keeps (register_token before token d)
  unfolding register_token
  register_token-Keeps =
      elim token.kind
        as (λ (k : TokenKind). Keeps (elim k [
          | TokenKind.keyword ↦ register_keyword token.kval before token d
          | _ ↦ ok (token, d)
        ])) [ TokenKind.keyword ↦ register_keyword-Keeps token.kval | _ ↦ numbered ]

register_loop-Keeps :
    (before tokens : List Token) (d : Defined)
    → IsNumbered d.words d.word_count
    → Keeps (register_loop before tokens d)
unfolding register_loop
register_loop-Keeps before [] d h = h
register_loop-Keeps before (token ∷ tokens) d h =
    after_step (register_token before token d) _ (register_token-Keeps before token d h) λ t d' k.
      after_step (register_loop (t ∷ before) tokens d') _
        (register_loop-Keeps (t ∷ before) tokens d' k) λ ts d'' l. l

-- If the numbers of the words but for the intrinsics are different and below the counter, then they
-- are so after the definitions of any tokens, where no report ends the program.
pub register_definitions-IsNumbered :
    (tokens tokens' : List Token) (d d' : Defined)
    → IsNumbered d.words d.word_count
    → register_definitions tokens d ≡ ok (tokens', d')
    → IsNumbered d'.words d'.word_count
unfolding register_definitions
register_definitions-IsNumbered tokens tokens' d d' h e =
    subst Keeps e (register_loop-Keeps [] tokens d h)
