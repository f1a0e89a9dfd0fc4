-- ===== src/Parser/Functions/Straight.antt =====
-- src/parser.cc, `into_operations`: a program that defines nothing becomes its operations in order,
-- with the jumps of its blocks.
use mathlib.Core.List.{append-nil, append_assoc, reverse-reverse, reverse_aux}
use stacky.Common.{
  ℕ, zero, suc, ◌-◌, ◌≡◌, refl, sym, ap, ◌∙◌, inl, inr, Bool, true, false, ◌||◌, Option, none, some,
  List, [], ◌∷◌, ◌++◌, reverse, arith, leb, ◌==◌, if◌then◌else◌, length, length-reverse, Bool-cases,
}
use stacky.Syntax.{Token, TokenKind, KeywordKind, Operation, OperationKind, Text}
use stacky.Report.{ok}
use stacky.Dictionary.{Words}
use stacky.Parser.Translate.{translate_operation, with_token, plainly}
use stacky.Parser.Nesting.{Opened, of_block, find_open, blocks, add_inner, ending, keyword_ending}
use stacky.Parser.Functions.{
  Parsing, Parse, turn, turn_of, Turn, plain, close, FunctionLoop, end_turn, close_turn, main_turn,
  main_loop, function_loop, emit, translate_token, into_operations, finish_main,
}
use stacky.Parser.Crossreference.Block.{Block, AllFormed, flatten, resolve}
use stacky.Parser.Crossreference.Correct.{crossreference-flatten}

-- The operation `op` of a token in `d` open blocks.
abbrev pub Compiles : Words → TokenKind → KeywordKind → ℕ → Token → Operation → Type 0
Compiles words TokenKind.keyword KeywordKind.array d token op = ⊥
Compiles words TokenKind.keyword KeywordKind.constant d token op = ⊥
Compiles words TokenKind.keyword KeywordKind.function d token op = ⊥
Compiles words TokenKind.keyword KeywordKind.dynamic d token op = ⊥
Compiles words TokenKind.keyword KeywordKind.stack_effect_definition d token op = ⊥
Compiles words TokenKind.keyword KeywordKind.end d token op =
    (leb 1 d ≡ true) × (op ≡ with_token OperationKind.end token)
Compiles words _ _ d token op = translate_operation words token ≡ plainly op

abbrev pub depth_after : TokenKind → KeywordKind → ℕ → ℕ
depth_after TokenKind.keyword KeywordKind.if_ d = suc d
depth_after TokenKind.keyword KeywordKind.while d = suc d
depth_after TokenKind.keyword KeywordKind.end d = d - 1
depth_after _ _ d = d

-- The tokens in their order, one operation for each.
abbrev pub AllCompile : Words → ℕ → List Token → List Operation → Type 0
AllCompile words d [] [] = Unit {0}
AllCompile words d [] (op ∷ ops) = ⊥
AllCompile words d (t ∷ ts) [] = ⊥
AllCompile words d (t ∷ ts) (op ∷ ops) =
    Compiles words t.kind t.kval d t op × AllCompile words (depth_after t.kind t.kval d) ts ops

-- The opening token is not a function's.
abbrev IsBlock : Option Opened → Type 0
IsBlock none = ⊥
IsBlock (some o) = ending o ≡ ok of_block

-- Any of up to `d` blocks has its opening token among the tokens before.
abbrev AllOpen : ℕ → List Token → Type 0
AllOpen d before = (n : ℕ) → leb 1 n ≡ true → leb n d ≡ true → IsBlock (find_open n before)

keyword_ending-inner :
    (k : KeywordKind) (o : Opened) (t : Token)
    → keyword_ending k (record o { inner = t ∷ o.inner }) ≡ keyword_ending k o
unfolding keyword_ending
keyword_ending-inner KeywordKind.function o t = refl
keyword_ending-inner _ o t = refl

add_inner-IsBlock : (t : Token) (r : Option Opened) → IsBlock r → IsBlock (add_inner t r)
unfolding ending
add_inner-IsBlock t none h = h
add_inner-IsBlock t (some o) h = keyword_ending-inner o.start.kval o t ∙ h

-- What `find_open` does at a token, with the blocks that are open before it.
abbrev found_at : ℕ → Token → List Token → Option Opened
found_at n t before =
    if n == 0
    then some (record { inner = []; start = t; before = before })
    else add_inner t (find_open n before)

found_at-IsBlock :
    (n d : ℕ) (t : Token) (before : List Token)
    → AllOpen d before
    → leb 1 n ≡ true
    → leb n d ≡ true
    → IsBlock (found_at n t before)
found_at-IsBlock n d t before h g k =
    let e : (n == 0) ≡ false = ground (arith, g) in rw e (add_inner-IsBlock t _ (h n g k))

opener-IsBlock :
    (n d : ℕ) (k : KeywordKind) (t : Token) (before : List Token)
    → ((o : Opened) → keyword_ending k o ≡ ok of_block)
    → t.kval ≡ k
    → AllOpen d before
    → leb 1 n ≡ true
    → leb n (suc d) ≡ true
    → IsBlock (found_at (n - 1) t before)
unfolding ending
opener-IsBlock n d k t before b e h g l = elim (Bool-cases (n - 1 == 0)) [
  | inl z ↦ rw (z, ending, e) (b _)
  | inr z ↦ rw z (add_inner-IsBlock t _ (h (n - 1) (ground (arith, z)) (ground (arith, l, g))))
]

blocks-IsBlock :
    (words : Words) (k : TokenKind) (v : KeywordKind) (n d : ℕ) (t : Token) (op : Operation)
    (before : List Token)
    → t.kval ≡ v
    → Compiles words k v d t op
    → AllOpen d before
    → leb 1 n ≡ true
    → leb n (depth_after k v d) ≡ true
    → IsBlock (found_at (blocks k v n) t before)
unfolding keyword_ending
blocks-IsBlock words TokenKind.keyword KeywordKind.array n d t op before e c h g l = absurd c
blocks-IsBlock words TokenKind.keyword KeywordKind.constant n d t op before e c h g l = absurd c
blocks-IsBlock words TokenKind.keyword KeywordKind.function n d t op before e c h g l = absurd c
blocks-IsBlock words TokenKind.keyword KeywordKind.end n d t op before e c h g l =
    found_at-IsBlock (suc n) d t before h (ground arith) (ground (arith, l, g, c.0))
blocks-IsBlock words TokenKind.keyword KeywordKind.if_ n d t op before e c h g l =
    opener-IsBlock n d KeywordKind.if_ t before (λ o. refl) e h g l
blocks-IsBlock words TokenKind.keyword KeywordKind.while n d t op before e c h g l =
    opener-IsBlock n d KeywordKind.while t before (λ o. refl) e h g l
blocks-IsBlock words _ _ n d t op before e c h g l = found_at-IsBlock n d t before h g l

AllOpen-cons :
    (words : Words) (d : ℕ) (t : Token) (op : Operation) (before : List Token)
    → Compiles words t.kind t.kval d t op
    → AllOpen d before
    → AllOpen (depth_after t.kind t.kval d) (t ∷ before)
unfolding find_open
AllOpen-cons words d t op before c h n g l =
    blocks-IsBlock words t.kind t.kval n d t op before refl c h g l

-- The tokens from the last to the first, as the loop reads them.
abbrev Turned : Words → Turn → Token → List Token → Operation → Type 0
Turned words plain t before op = translate_operation words t ≡ plainly op
Turned words close t before op =
    IsBlock (find_open 1 before) × (op ≡ with_token OperationKind.end t)
Turned words _ t before op = ⊥

abbrev AllTurned : Words → List Token → List Operation → Type 0
AllTurned words [] [] = Unit {0}
AllTurned words [] (op ∷ ops) = ⊥
AllTurned words (t ∷ before) [] = ⊥
AllTurned words (t ∷ before) (op ∷ ops) =
    Turned words (turn_of t) t before op × AllTurned words before ops

Compiles-Turned :
    (words : Words) (k : TokenKind) (v : KeywordKind) (d : ℕ) (t : Token) (op : Operation)
    (before : List Token)
    → Compiles words k v d t op
    → AllOpen d before
    → Turned words (turn k v) t before op
Compiles-Turned words TokenKind.keyword KeywordKind.array d t op before c h = c
Compiles-Turned words TokenKind.keyword KeywordKind.constant d t op before c h = c
Compiles-Turned words TokenKind.keyword KeywordKind.end d t op before c h =
    (h 1 (ground arith) c.0, c.1)
Compiles-Turned words TokenKind.keyword KeywordKind.dynamic d t op before c h = c
Compiles-Turned words TokenKind.keyword KeywordKind.stack_effect_definition d t op before c h = c
Compiles-Turned words TokenKind.keyword KeywordKind.function d t op before c h = absurd c
Compiles-Turned words _ _ d t op before c h = c

-- What the loop has done with some tokens.
abbrev added : Parsing → List Operation → Parsing
added p ops = record p { main = p.main ++ ops }

or_false : (b : Bool) → b || false ≡ b
or_false true = refl
or_false false = refl

translate_token-plainly :
    (p : Parsing) (t : Token) (op : Operation)
    → translate_operation p.words t ≡ plainly op
    → translate_token none t p ≡ ok (added p (op ∷ []))
unfolding translate_token emit
translate_token-plainly p t op e = rw (e, or_false p.failed, or_false p.undefined) refl

module _ (function : FunctionLoop) (on : List Token → Parsing → Parse) where
  end_turn-block :
      (named : Text → Parsing → Parsing) (t : Token) (before : List Token) (p : Parsing)
      (o : Option Opened)
      → IsBlock o
      → end_turn function on named none t before p o
        ≡ on before (added p (with_token OperationKind.end t ∷ []))
  unfolding end_turn close_turn emit
  end_turn-block named t before p none h = absurd h
  end_turn-block named t before p (some o) h = rw h refl

  main_turn-Turned :
      (turn : Turn) (t : Token) (before : List Token) (op : Operation) (p : Parsing)
      → Turned p.words turn t before op
      → main_turn function on turn t before p ≡ on before (added p (op ∷ []))
  unfolding main_turn
  main_turn-Turned plain t before op p h = rw (translate_token-plainly p t op h) refl
  main_turn-Turned close t before op p h =
      end_turn-block _ t before p (find_open 1 before) h.0
      ∙ ap (λ o. on before (added p (o ∷ []))) (sym h.1)
  main_turn-Turned _ t before op p h = absurd h

main_loop-AllTurned :
    (fuel : ℕ) (before : List Token) (ops : List Operation) (p : Parsing)
    → AllTurned p.words before ops
    → leb (length before) fuel ≡ true
    → main_loop (suc fuel) before p ≡ some (ok (added p ops))
unfolding main_loop
main_loop-AllTurned fuel [] [] p h g =
    ap (λ l. some (ok (record p { main = l }))) (sym (append-nil p.main))
main_loop-AllTurned fuel [] (op ∷ ops) p h g = absurd h
main_loop-AllTurned fuel (t ∷ before) [] p h g = absurd h
main_loop-AllTurned zero (t ∷ before) (op ∷ ops) p h g = absurd (ground (arith, g))
main_loop-AllTurned (suc fuel) (t ∷ before) (op ∷ ops) p h g =
    main_turn-Turned (function_loop (suc fuel)) (main_loop (suc fuel)) (turn_of t) t before op p h.0
    ∙ main_loop-AllTurned fuel before ops (added p (op ∷ [])) h.1 (ground (arith, g))
    ∙ ap (λ l. some (ok (record p { main = l }))) (append_assoc p.main (op ∷ []) ops)

AllCompile-AllTurned :
    (words : Words) (d : ℕ) (ts before : List Token) (ops done : List Operation)
    → AllCompile words d ts ops
    → AllOpen d before
    → AllTurned words before done
    → AllTurned words (reverse_aux ts before) (reverse_aux ops done)
AllCompile-AllTurned words d [] before [] done c h a = a
AllCompile-AllTurned words d [] before (op ∷ ops) done c h a = absurd c
AllCompile-AllTurned words d (t ∷ ts) before [] done c h a = absurd c
AllCompile-AllTurned words d (t ∷ ts) before (op ∷ ops) done c h a =
    AllCompile-AllTurned words (depth_after t.kind t.kval d) ts (t ∷ before) ops (op ∷ done) c.1
      (AllOpen-cons words d t op before c.0 h)
      (Compiles-Turned words t.kind t.kval d t op before c.0 h, a)

nothing_open : AllOpen 0 []
nothing_open n g l = absurd (ground (arith, g, l))

-- A program whose tokens define nothing, and become the operations of a well-formed block one by one
-- with no report, with every `end` in an open block: `into_operations` ends, and the main body is the
-- block in order with its jumps. Nothing else changes.
pub into_operations-flatten :
    (tokens : List Token) (b : Block) (p : Parsing)
    → AllFormed b
    → AllCompile p.words 0 tokens (flatten b [])
    → p.main ≡ []
    → into_operations (suc (length tokens)) tokens p
      ≡ some (ok (record p { main = resolve b 0 [] }))
unfolding into_operations finish_main
into_operations-flatten tokens b p f c e =
    let turned = AllCompile-AllTurned p.words 0 tokens [] (flatten b []) [] c nothing_open tt in
    let looped =
      main_loop-AllTurned (length tokens) (reverse tokens) (reverse (flatten b [])) p turned
        (ground (arith, length-reverse tokens)) in
    rw (looped, e, reverse-reverse (flatten b []), crossreference-flatten b f, or_false p.failed)
      refl
