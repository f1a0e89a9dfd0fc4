-- ===== src/Parser/Crossreference/Statements.antt =====
-- src/parser.cc, `crossreference`: the loop over one statement, given what it does to its blocks.
use mathlib.Core.List.{append_assoc}
use stacky.Common.{
  ℕ, suc, ◌+◌, ◌≡◌, refl, sym, ap, ◌∙◌, inl, inr, List, [], ◌∷◌, ◌++◌, arith, length, length-append,
}
use stacky.Syntax.{Operation, OperationKind}
use stacky.Parser.Crossreference.{cross_loop}
use stacky.Parser.Crossreference.Block.{
  Statement, Block, if_end, if_else_end, while_do_end, of_kind, jumping, flatten, flatten_statement,
  after, after_statement, resolve, resolve_statement,
}
use stacky.Parser.Crossreference.Shape.{
  resolve_statement-append, resolve-append, length-resolve_statement, length-resolve, rounds,
  rounds_statement,
}
use stacky.Parser.Crossreference.Rounds.{
  cross_loop-if, cross_loop-while, cross_loop-do, cross_loop-else, cross_loop-end_if,
  cross_loop-end_do,
}

-- The operations of a resolved block alone.
abbrev pub inside : Block → ℕ → List Operation
inside b k = resolve b k []

resolve-inside :
    (pre : List Operation) (op : Operation) (b : Block) (k : ℕ) (rest : List Operation)
    → (pre ++ op ∷ []) ++ resolve b k rest ≡ pre ++ op ∷ (inside b k ++ rest)
resolve-inside pre op b k rest =
    append_assoc pre (op ∷ []) (resolve b k rest)
    ∙ ap (λ l. pre ++ op ∷ l) (resolve-append b k [] rest)

pub after-inside : (b : Block) (k : ℕ) → after b (suc k) ≡ suc (k + length (inside b (suc k)))
after-inside b k = omega (arith, length-resolve b (suc k) [])

-- What the loop does to a block that starts at index `k`, whatever stands around it.
abbrev pub Passes : Block → List Operation → List Operation → ℕ → ℕ → List ℕ → Type 0
Passes b pre rest n k stack =
    cross_loop (rounds b n) k stack (pre ++ flatten b rest)
    ≡ cross_loop n (after b k) stack (pre ++ resolve b k rest)

-- The block behind an operation.
pub loop_inside :
    (pre : List Operation) (op : Operation) (b : Block) (rest : List Operation) (n k : ℕ)
    (stack : List ℕ)
    → Passes b (pre ++ op ∷ []) rest n (suc k) stack
    → cross_loop (rounds b n) (suc k) stack (pre ++ op ∷ flatten b rest)
      ≡ cross_loop n (after b (suc k)) stack (pre ++ op ∷ (inside b (suc k) ++ rest))
loop_inside pre op b rest n k stack passes =
    ap (cross_loop (rounds b n) (suc k) stack) (sym (append_assoc pre (op ∷ []) (flatten b rest)))
    ∙ passes
    ∙ ap (cross_loop n (after b (suc k)) stack) (resolve-inside pre op b (suc k) rest)

pub length-snoc :
    (pre : List Operation) (op : Operation) (k : ℕ)
    → k ≡ length pre
    → suc k ≡ length (pre ++ op ∷ [])
length-snoc pre op k h = omega (arith, length-append pre (op ∷ []))

-- The index behind a block is the length of what is passed by then.
pub length-passed :
    (pre : List Operation) (op : Operation) (b : Block) (k : ℕ)
    → k ≡ length pre
    → after b (suc k) ≡ length (pre ++ op ∷ inside b (suc k))
length-passed pre op b k h =
    omega (arith, length-append pre (op ∷ inside b (suc k)), after-inside b k)

pub fold_inside :
    (b : Block) (k : ℕ) (op : Operation) (rest : List Operation)
    → inside b k ++ op ∷ rest ≡ resolve b k (op ∷ rest)
fold_inside b k op rest = sym (resolve-append b k [] (op ∷ rest))

-- A statement and the operations behind it.
pub statement_inside :
    (s : Statement) (pre : List Operation) (k : ℕ) (rest : List Operation)
    → pre ++ resolve_statement s k rest ≡ (pre ++ resolve_statement s k []) ++ rest
statement_inside s pre k rest =
    ap (λ l. pre ++ l) (resolve_statement-append s k [] rest)
    ∙ sym (append_assoc pre (resolve_statement s k []) rest)

pub length-statement :
    (s : Statement) (pre : List Operation) (k : ℕ)
    → k ≡ length pre
    → after_statement s k ≡ length (pre ++ resolve_statement s k [])
length-statement s pre k h =
    omega (arith, length-append pre (resolve_statement s k []), length-resolve_statement s k [])

module _ (pre rest : List Operation) (n k : ℕ) (stack : List ℕ) (h : k ≡ length pre) where
  pub loop_if :
      (i : Operation) (b : Block) (e : Operation)
      → Passes b
          (pre ++ of_kind OperationKind.if_ i ∷ [])
          (of_kind OperationKind.end e ∷ rest)
          (suc n)
          (suc k)
          (k ∷ stack)
      → cross_loop
          (rounds_statement (if_end i b e) n)
          k
          stack
          (pre ++ flatten_statement (if_end i b e) rest)
        ≡ cross_loop n
            (after_statement (if_end i b e) k)
            stack
            (pre ++ resolve_statement (if_end i b e) k rest)
  unfolding flatten after resolve rounds
  loop_if i b e passes =
      let if_op = of_kind OperationKind.if_ i in
      let end_op = of_kind OperationKind.end e in
      let m = after b (suc k) in
      cross_loop-if pre if_op (flatten b (end_op ∷ rest)) (rounds b (suc n)) k stack h refl
      ∙ loop_inside pre if_op b (end_op ∷ rest) (suc n) k (k ∷ stack) passes
      ∙ cross_loop-end_if pre (inside b (suc k)) rest if_op end_op k m h (after-inside b k) n stack
          (inl refl) refl
      ∙ ap (λ l. cross_loop n (suc m) stack (pre ++ record if_op { jump = m } ∷ l))
          (fold_inside b (suc k) (record end_op { jump = suc m }) rest)

  pub loop_if_else :
      (i : Operation) (b : Block) (l : Operation) (c : Block) (e : Operation)
      → Passes b
          (pre ++ of_kind OperationKind.if_ i ∷ [])
          (of_kind OperationKind.else_ l ∷ flatten c (of_kind OperationKind.end e ∷ rest))
          (suc (rounds c (suc n)))
          (suc k)
          (k ∷ stack)
      → Passes c
          ((pre ++ jumping OperationKind.if_ (suc (after b (suc k))) i ∷ inside b (suc k))
            ++ of_kind OperationKind.else_ l ∷ [])
          (of_kind OperationKind.end e ∷ rest)
          (suc n)
          (suc (after b (suc k)))
          (after b (suc k) ∷ stack)
      → cross_loop
          (rounds_statement (if_else_end i b l c e) n)
          k
          stack
          (pre ++ flatten_statement (if_else_end i b l c e) rest)
        ≡ cross_loop n
            (after_statement (if_else_end i b l c e) k)
            stack
            (pre ++ resolve_statement (if_else_end i b l c e) k rest)
  unfolding flatten after resolve rounds
  loop_if_else i b l c e passes_b passes_c =
      let if_op = of_kind OperationKind.if_ i in
      let else_op = of_kind OperationKind.else_ l in
      let end_op = of_kind OperationKind.end e in
      let m = after b (suc k) in
      let q = after c (suc m) in
      let if_op' = jumping OperationKind.if_ (suc m) i in
      let else_op' = jumping OperationKind.else_ q l in
      let end_op' = jumping OperationKind.end (suc q) e in
      let pre' = pre ++ if_op' ∷ inside b (suc k) in
      cross_loop-if pre if_op (flatten b (else_op ∷ flatten c (end_op ∷ rest)))
        (rounds b (suc (rounds c (suc n)))) k stack h refl
      ∙ loop_inside pre if_op b (else_op ∷ flatten c (end_op ∷ rest)) (suc (rounds c (suc n))) k
          (k ∷ stack) passes_b
      ∙ cross_loop-else pre (inside b (suc k)) (flatten c (end_op ∷ rest)) if_op else_op k m h
          (after-inside b k) (rounds c (suc n)) stack refl refl
      ∙ ap (cross_loop (rounds c (suc n)) (suc m) (m ∷ stack))
          (sym (append_assoc pre (if_op' ∷ inside b (suc k)) (else_op ∷ flatten c (end_op ∷ rest))))
      ∙ loop_inside pre' else_op c (end_op ∷ rest) (suc n) m (m ∷ stack) passes_c
      ∙ cross_loop-end_if pre' (inside c (suc m)) rest else_op end_op m q
          (length-passed pre if_op' b k h) (after-inside c m) n stack (inr refl) refl
      ∙ ap (λ t. cross_loop n (suc q) stack (pre' ++ else_op' ∷ t))
          (fold_inside c (suc m) end_op' rest)
      ∙ ap (cross_loop n (suc q) stack) (
          append_assoc pre (if_op' ∷ inside b (suc k))
            (else_op' ∷ resolve c (suc m) (end_op' ∷ rest))
          ∙ ap (λ t. pre ++ if_op' ∷ t)
              (fold_inside b (suc k) else_op' (resolve c (suc m) (end_op' ∷ rest))))

  pub loop_while :
      (w : Operation) (c : Block) (d : Operation) (b : Block) (e : Operation)
      → Passes c
          (pre ++ of_kind OperationKind.while w ∷ [])
          (of_kind OperationKind.do_ d ∷ flatten b (of_kind OperationKind.end e ∷ rest))
          (suc (rounds b (suc n)))
          (suc k)
          (k ∷ stack)
      → Passes b
          ((pre ++ of_kind OperationKind.while w ∷ inside c (suc k))
            ++ jumping OperationKind.do_ k d ∷ [])
          (of_kind OperationKind.end e ∷ rest)
          (suc n)
          (suc (after c (suc k)))
          (after c (suc k) ∷ stack)
      → cross_loop
          (rounds_statement (while_do_end w c d b e) n)
          k
          stack
          (pre ++ flatten_statement (while_do_end w c d b e) rest)
        ≡ cross_loop n
            (after_statement (while_do_end w c d b e) k)
            stack
            (pre ++ resolve_statement (while_do_end w c d b e) k rest)
  unfolding flatten after resolve rounds
  loop_while w c d b e passes_c passes_b =
      let while_op = of_kind OperationKind.while w in
      let do_op = of_kind OperationKind.do_ d in
      let end_op = of_kind OperationKind.end e in
      let m = after c (suc k) in
      let q = after b (suc m) in
      let do_op₁ = jumping OperationKind.do_ k d in
      let do_op' = jumping OperationKind.do_ (suc q) d in
      let end_op' = jumping OperationKind.end k e in
      let pre' = pre ++ while_op ∷ inside c (suc k) in
      cross_loop-while pre while_op (flatten c (do_op ∷ flatten b (end_op ∷ rest)))
        (rounds c (suc (rounds b (suc n)))) k stack h refl
      ∙ loop_inside pre while_op c (do_op ∷ flatten b (end_op ∷ rest)) (suc (rounds b (suc n))) k
          (k ∷ stack) passes_c
      ∙ cross_loop-do pre (inside c (suc k)) (flatten b (end_op ∷ rest)) while_op do_op k m h
          (after-inside c k) (rounds b (suc n)) stack refl refl
      ∙ ap (cross_loop (rounds b (suc n)) (suc m) (m ∷ stack)) (
          sym (append_assoc pre (while_op ∷ inside c (suc k)) (do_op₁ ∷ flatten b (end_op ∷ rest))))
      ∙ loop_inside pre' do_op₁ b (end_op ∷ rest) (suc n) m (m ∷ stack) passes_b
      ∙ cross_loop-end_do pre' (inside b (suc m)) rest do_op₁ end_op m q
          (length-passed pre while_op c k h) (after-inside b m) n stack refl refl
      ∙ ap (λ t. cross_loop n (suc q) stack (pre' ++ do_op' ∷ t))
          (fold_inside b (suc m) end_op' rest)
      ∙ ap (cross_loop n (suc q) stack) (
          append_assoc pre (while_op ∷ inside c (suc k))
            (do_op' ∷ resolve b (suc m) (end_op' ∷ rest))
          ∙ ap (λ t. pre ++ while_op ∷ t)
              (fold_inside c (suc k) do_op' (resolve b (suc m) (end_op' ∷ rest))))
