-- ===== src/Driver/Returns.antt =====
-- src/stacky.cc: the loop over the imports of a program ends.
use stacky.Common.{
  ℕ, zero, suc, ◌+◌, ◌<◌, ◌≤◌, ◌≡◌, ◌≢◌, refl, sym, ap, ◌∙◌, subst, ◌⊎◌, inl, inr, true, false,
  Option, none, some, List, [], ◌∷◌, ◌++◌, if◌then◌else◌, text_eq, text_eq_refl, text_eq_sound,
  length, drop, take, arith, Bool-cases, Option-cases,
}
use stacky.Syntax.{Token, Text}
use stacky.Report.{Outcome, ok, exited}
use stacky.Lexer.Tokens.{Lexed, lex, lexed, reported, undefined, unfinished}
use stacky.Lexer.Tokens.Returns.{lex-returns}
use stacky.Parser.Extract.{
  Inclusion, inclusion_loop, extract_include_or_import, is_inclusion, is_string,
}
use stacky.Driver.{
  Files, search_include_path, Gathered, endless, contains_text, splice, splice_lexed, is_import,
  include_file, asked_path, place, with_found, include_round, include_loop,
}

-- The words that ask for a file.
unfoldable pub asks : List Token → ℕ
asks [] = 0
asks (token ∷ tokens) =
    let rest = asks tokens in if is_inclusion token.kind token.kval then suc rest else rest

-- None of them is `include`.
abbrev pub ImportsOnly : List Token → Type 0
ImportsOnly [] = Unit {0}
ImportsOnly (token ∷ tokens) =
    (is_inclusion token.kind token.kval ≡ true → is_import token.kval ≡ true) × ImportsOnly tokens

asks-append : (xs ys : List Token) → asks (xs ++ ys) ≡ asks xs + asks ys
unfolding asks
asks-append [] ys = omega arith
asks-append (x ∷ xs) ys = ground (arith, asks-append xs ys)

ImportsOnly-append : (xs ys : List Token) → ImportsOnly xs → ImportsOnly ys → ImportsOnly (xs ++ ys)
ImportsOnly-append [] ys h k = k
ImportsOnly-append (x ∷ xs) ys h k = (h.0, ImportsOnly-append xs ys h.1 k)

ImportsOnly-take : (n : ℕ) (xs : List Token) → ImportsOnly xs → ImportsOnly (take n xs)
ImportsOnly-take zero xs h = tt
ImportsOnly-take (suc n) [] h = tt
ImportsOnly-take (suc n) (x ∷ xs) h = (h.0, ImportsOnly-take n xs h.1)

ImportsOnly-drop : (n : ℕ) (xs : List Token) → ImportsOnly xs → ImportsOnly (drop n xs)
ImportsOnly-drop zero xs h = h
ImportsOnly-drop (suc n) [] h = tt
ImportsOnly-drop (suc n) (x ∷ xs) h = ImportsOnly-drop n xs h.1

pub splice-ImportsOnly :
    (i : ℕ) (new tokens : List Token)
    → ImportsOnly new
    → ImportsOnly tokens
    → ImportsOnly (splice i new tokens)
splice-ImportsOnly i new tokens h k =
    ImportsOnly-append (take i tokens) (new ++ drop (suc (suc i)) tokens)
      (ImportsOnly-take i tokens k)
      (ImportsOnly-append new (drop (suc (suc i)) tokens) h
        (ImportsOnly-drop (suc (suc i)) tokens k))

-- What the search found: the word at the index behind the path, in all tokens.
abbrev pub Finds : ℕ → List Token → Inclusion → Type 0
Finds start tokens inclusion =
    (pre : List Token) × (path : Token) × (word : Token) × (post : List Token) × (tokens
      ≡ pre ++ path ∷ word ∷ post)
    × (inclusion.index ≡ start + length pre)
    × (is_inclusion path.kind path.kval ≡ false)
    × (is_inclusion word.kind word.kval ≡ true)
    × (inclusion.keyword ≡ word.kval)

inclusion_loop-Finds :
    (parent_path : Text → Text) (i : ℕ) (before : Token) (tokens : List Token)
    (inclusion : Inclusion)
    → is_inclusion before.kind before.kval ≡ false
    → inclusion_loop parent_path (suc i) (some before) tokens ≡ ok (some inclusion)
    → Finds i (before ∷ tokens) inclusion
unfolding inclusion_loop
inclusion_loop-Finds parent_path i before [] inclusion n e = absurd (ground (arith, e))
inclusion_loop-Finds parent_path i before (token ∷ tokens) inclusion n e =
    elim (Bool-cases (is_inclusion token.kind token.kval)) [
      | inr f ↦
          let (pre, path, word, post, a, b, c, d, k) =
            inclusion_loop-Finds parent_path (suc i) token tokens inclusion f
              (rw (inclusion_loop, f) at e) in
          (before ∷ pre, path, word, post, ap (λ ts. before ∷ ts) a, omega (arith, b), c, d, k)
      | inl f ↦ elim (Bool-cases (is_string before.kind)) [
        | inr g ↦ absurd (ground (arith, rw (inclusion_loop, f, g) at e))
        | inl g ↦
            let same = rw (inclusion_loop, f, g) at e in
            ([], before, token, tokens, refl, ground (arith, same), n, f, ground (arith, same))
      ]
    ]

pub extract_include_or_import-Finds :
    (parent_path : Text → Text) (tokens : List Token) (inclusion : Inclusion)
    → extract_include_or_import parent_path tokens ≡ ok (some inclusion)
    → Finds 0 tokens inclusion
unfolding extract_include_or_import
extract_include_or_import-Finds parent_path [] inclusion e = absurd (ground (arith, e))
extract_include_or_import-Finds parent_path (token ∷ tokens) inclusion e =
    elim (Bool-cases (is_inclusion token.kind token.kval)) [
      | inr f ↦
          inclusion_loop-Finds parent_path 0 token tokens inclusion f (rw (inclusion_loop, f) at e)
      | inl f ↦ absurd (ground (arith, rw (inclusion_loop, f) at e))
    ]

splice_at :
    (pre new post : List Token) (path word : Token)
    → splice (length pre) new (pre ++ path ∷ word ∷ post) ≡ pre ++ (new ++ post)
splice_at [] new post path word = refl
splice_at (x ∷ pre) new post path word = ap (λ ts. x ∷ ts) (splice_at pre new post path word)

asks_two :
    (path word : Token) (post : List Token)
    → is_inclusion path.kind path.kval ≡ false
    → is_inclusion word.kind word.kval ≡ true
    → asks (path ∷ word ∷ post) ≡ suc (asks post)
unfolding asks
asks_two path word post f t = rw (asks, f, t) refl

none_asks : asks [] ≡ 0
unfolding asks
none_asks = refl

-- One word that asks is gone, and those of the new tokens are there.
asks-splice :
    (tokens new : List Token) (inclusion : Inclusion)
    → Finds 0 tokens inclusion
    → suc (asks (splice inclusion.index new tokens)) ≡ asks tokens + asks new
asks-splice tokens new inclusion (pre, path, word, post, e, i, f, t, k) =
    let here : inclusion.index ≡ length pre = omega (arith, i) in
    let whole : splice inclusion.index new tokens ≡ pre ++ (new ++ post) =
      ap (λ n. splice n new tokens) here
      ∙ ap (splice (length pre) new) e
      ∙ splice_at pre new post path word in
    omega (
      arith,
      ap asks whole,
      ap asks e,
      asks-append pre (new ++ post),
      asks-append new post,
      asks-append pre (path ∷ word ∷ post),
      asks_two path word post f t,
    )

word_imports :
    (pre post : List Token) (path word : Token)
    → ImportsOnly (pre ++ path ∷ word ∷ post)
    → is_inclusion word.kind word.kval ≡ true
    → is_import word.kval ≡ true
word_imports [] post path word h t = h.1.0 t
word_imports (x ∷ pre) post path word h t = word_imports pre post path word h.1 t

Finds-is_import :
    (tokens : List Token) (inclusion : Inclusion)
    → Finds 0 tokens inclusion
    → ImportsOnly tokens
    → is_import inclusion.keyword ≡ true
Finds-is_import tokens inclusion (pre, path, word, post, e, i, f, t, k) h =
    ap is_import k ∙ word_imports pre post path word (subst ImportsOnly e h) t

Lexed-cases :
    (r : Lexed)
    → r ≢ unfinished
    → ((tokens : List Token) × (r ≡ lexed tokens))
      ⊎ ((on : List Token → Gathered) (i : ℕ) (ts : List Token) → splice_lexed on i ts r ≢ endless)
Lexed-cases (lexed ts) h = inl (ts, refl)
Lexed-cases (reported c) h = inr (λ on i ts e. absurd (ground (arith, e)))
Lexed-cases undefined h = inr (λ on i ts e. absurd (ground (arith, e)))
Lexed-cases unfinished h = absurd (h refl)

module _ (weight : Text → ℕ) where
  -- What the files that are not imported yet can ask for.
  unfoldable pub left : List Text → List Text → ℕ
  unfolding contains_text
  left imported [] = 0
  left imported (file ∷ files) =
      let rest = left imported files in
      if contains_text file imported then rest else weight file + rest

  left-less :
      (full : Text) (imported files : List Text)
      → left (full ∷ imported) files ≤ left imported files
  unfolding left
  left-less full imported [] = omega arith
  left-less full imported (file ∷ files) = ground (arith, left-less full imported files)

  left-import :
      (full : Text) (imported files : List Text)
      → contains_text full files ≡ true
      → contains_text full imported ≡ false
      → left (full ∷ imported) files + weight full ≤ left imported files
  unfolding left contains_text
  left-import full imported [] h n = absurd (ground (arith, h))
  left-import full imported (file ∷ files) h n = elim (Bool-cases (text_eq file full)) [
    | inl e ↦
        let same = text_eq_sound file full e in
        let own = text_eq_refl full in
        subst (λ f. left (full ∷ imported) (f ∷ files) + weight full ≤ left imported (f ∷ files))
          (sym same) (ground (arith, own, n, left-less full imported files))
    | inr e ↦
        let later = left-import full imported files (ground (arith, h, e)) n in
        ground (arith, later)
  ]

module _ (files : Files) (universe : List Text) (weight : Text → ℕ)
    (known : (includer path found : Text)
      → search_include_path files includer path ≡ some found
      → contains_text (files.canonical found) universe ≡ true)
    (fits : (path file : Text) (tokens : List Token)
      → files.read path ≡ some file
      → lex (suc (length file)) file path [] ≡ lexed tokens
      → ImportsOnly tokens × (asks tokens ≤ weight (files.canonical path))) where
  abbrev Returns : ℕ → Type 0
  Returns fuel =
      (imported : List Text) (tokens : List Token)
      → ImportsOnly tokens
      → asks tokens + left weight imported universe < fuel
      → include_loop files fuel imported tokens ≢ endless

  include_file-Returns :
      (fuel : ℕ) (imported : List Text) (tokens : List Token) (inclusion : Inclusion) (path : Text)
      → Returns fuel
      → ImportsOnly tokens
      → Finds 0 tokens inclusion
      → asks tokens + left weight imported universe < suc fuel
      → contains_text (files.canonical path) universe ≡ true
      → contains_text (files.canonical path) imported ≡ false
      → include_file files
          (include_loop files fuel (files.canonical path ∷ imported))
          inclusion.index
          tokens
          path
        ≢ endless
  unfolding include_file
  include_file-Returns fuel imported tokens inclusion path returns only finds enough u n e =
      elim (Option-cases (files.read path)) [
        | inl f ↦ absurd (ground (arith, rw (include_file, f) at e))
        | inr (file, f) ↦
            let r = lex (suc (length file)) file path [] in
            let on = include_loop files fuel (files.canonical path ∷ imported) in
            let e' : splice_lexed on inclusion.index tokens r ≡ endless =
              rw (include_file, f) at e in
            elim (Lexed-cases r (lex-returns file path [])) [
              | inr other ↦ other on inclusion.index tokens e'
              | inl (new, g) ↦
                  let (only', small) = fits path file new f g in
                  let gone = asks-splice tokens new inclusion finds in
                  let less = left-import weight (files.canonical path) imported universe u n in
                  returns (files.canonical path ∷ imported) (splice inclusion.index new tokens)
                    (splice-ImportsOnly inclusion.index new tokens only' only)
                    (omega (arith, gone, less, small, enough))
                    (subst (λ x. splice_lexed on inclusion.index tokens x ≡ endless) g e')
            ]
      ]

  place-Returns :
      (fuel : ℕ) (imported : List Text) (tokens : List Token) (inclusion : Inclusion) (path : Text)
      → Returns fuel
      → ImportsOnly tokens
      → Finds 0 tokens inclusion
      → asks tokens + left weight imported universe < suc fuel
      → contains_text (files.canonical path) universe ≡ true
      → place files (include_loop files fuel) imported tokens inclusion path ≢ endless
  place-Returns fuel imported tokens inclusion path returns only finds enough u e =
      let imports = Finds-is_import tokens inclusion finds only in
      elim (Bool-cases (contains_text (files.canonical path) imported)) [
        | inl f ↦
            let gone = asks-splice tokens [] inclusion finds in
            returns imported (splice inclusion.index [] tokens)
              (splice-ImportsOnly inclusion.index [] tokens tt only)
              (omega (arith, gone, none_asks, enough)) (rw (place, imports, f) at e)
        | inr f ↦
            include_file-Returns fuel imported tokens inclusion path returns only finds enough u f
              (rw (place, imports, f) at e)
      ]

  round-Returns :
      (fuel : ℕ) (imported : List Text) (tokens : List Token)
      → Returns fuel
      → ImportsOnly tokens
      → asks tokens + left weight imported universe < suc fuel
      → (o : Outcome (Option Inclusion)) → extract_include_or_import files.parent_path tokens ≡ o
      → include_round files (include_loop files fuel) imported tokens o ≢ endless
  round-Returns fuel imported tokens returns only enough (exited c) x e = absurd (ground (arith, e))
  round-Returns fuel imported tokens returns only enough (ok none) x e = absurd (ground (arith, e))
  round-Returns fuel imported tokens returns only enough (ok (some inclusion)) x e =
      let on = with_found files (include_loop files fuel) imported tokens inclusion in
      elim (Option-cases
        (search_include_path files inclusion.includer (asked_path files inclusion))) [
          | inl f ↦ absurd (ground (arith, subst (λ r. on r ≡ endless) f e))
          | inr (path, f) ↦
              place-Returns fuel imported tokens inclusion path returns only
                (extract_include_or_import-Finds files.parent_path tokens inclusion x) enough
                (known inclusion.includer (asked_path files inclusion) path f)
                (subst (λ r. on r ≡ endless) f e)
        ]

  -- Where all tokens, and those of every file, ask by `import` only, the loop ends: fuel for each word
  -- that asks, in the tokens and in each file that is not imported yet, is enough. The files that can be
  -- found are finitely many, and no path to a file reads more such words than the file's number.
  pub include_loop-returns :
      (fuel : ℕ) (imported : List Text) (tokens : List Token)
      → ImportsOnly tokens
      → asks tokens + left weight imported universe < fuel
      → include_loop files fuel imported tokens ≢ endless
  unfolding include_loop
  include_loop-returns zero imported tokens only enough = absurd (omega (arith, enough))
  include_loop-returns (suc fuel) imported tokens only enough =
      round-Returns fuel imported tokens (include_loop-returns fuel) only enough
        (extract_include_or_import files.parent_path tokens) refl
