-- ===== src/Parser/Crossreference/Shape.antt =====
-- The operations of a well-formed block in a row, with and without their jumps.
use stacky.Common.{ℕ, suc, ◌+◌, ◌≡◌, refl, ap, ◌∙◌, List, ◌∷◌, ◌++◌, arith, length}
use stacky.Syntax.{Operation, OperationKind}
use stacky.Parser.Crossreference.Block.{
  Statement, Block, simple, if_end, if_else_end, while_do_end, nil, cons, of_kind, jumping, flatten,
  flatten_statement, after, after_statement, resolve, resolve_statement,
}

-- What follows a block stays as it is.
mutual
  unfolding resolve

  pub resolve_statement-append :
      (s : Statement) (k : ℕ) (xs ys : List Operation)
      → resolve_statement s k (xs ++ ys) ≡ resolve_statement s k xs ++ ys
  resolve_statement-append (simple op) k xs ys = refl
  resolve_statement-append (if_end i b e) k xs ys =
      ap (λ l. jumping OperationKind.if_ (after b (suc k)) i ∷ l)
        (resolve-append b (suc k) (jumping OperationKind.end (suc (after b (suc k))) e ∷ xs) ys)
  resolve_statement-append (if_else_end i b l c e) k xs ys =
      let m = after b (suc k) in
      let else_op = jumping OperationKind.else_ (after c (suc m)) l in
      let end_op = jumping OperationKind.end (suc (after c (suc m))) e in
      ap (λ t. jumping OperationKind.if_ (suc m) i ∷ resolve b (suc k) (else_op ∷ t))
        (resolve-append c (suc m) (end_op ∷ xs) ys)
      ∙ ap (λ t. jumping OperationKind.if_ (suc m) i ∷ t)
          (resolve-append b (suc k) (else_op ∷ resolve c (suc m) (end_op ∷ xs)) ys)
  resolve_statement-append (while_do_end w c d b e) k xs ys =
      let m = after c (suc k) in
      let do_op = jumping OperationKind.do_ (suc (after b (suc m))) d in
      let end_op = jumping OperationKind.end k e in
      ap (λ t. of_kind OperationKind.while w ∷ resolve c (suc k) (do_op ∷ t))
        (resolve-append b (suc m) (end_op ∷ xs) ys)
      ∙ ap (λ t. of_kind OperationKind.while w ∷ t)
          (resolve-append c (suc k) (do_op ∷ resolve b (suc m) (end_op ∷ xs)) ys)

  pub resolve-append :
      (b : Block) (k : ℕ) (xs ys : List Operation) → resolve b k (xs ++ ys) ≡ resolve b k xs ++ ys
  resolve-append nil k xs ys = refl
  resolve-append (cons s b) k xs ys =
      ap (resolve_statement s k) (resolve-append b (after_statement s k) xs ys)
      ∙ resolve_statement-append s k (resolve b (after_statement s k) xs) ys

mutual
  unfolding resolve after

  pub length-resolve_statement :
      (s : Statement) (k : ℕ) (rest : List Operation)
      → length (resolve_statement s k rest) + k ≡ after_statement s k + length rest
  length-resolve_statement (simple op) k rest = omega arith
  length-resolve_statement (if_end i b e) k rest =
      omega (
        arith,
        length-resolve b (suc k) (jumping OperationKind.end (suc (after b (suc k))) e ∷ rest),
      )
  length-resolve_statement (if_else_end i b l c e) k rest =
      let m = after b (suc k) in
      let end_op = jumping OperationKind.end (suc (after c (suc m))) e in
      omega (
        arith,
        length-resolve b (suc k)
            (jumping OperationKind.else_ (after c (suc m)) l ∷ resolve c (suc m) (end_op ∷ rest)),
        length-resolve c (suc m) (end_op ∷ rest),
      )
  length-resolve_statement (while_do_end w c d b e) k rest =
      let m = after c (suc k) in
      let end_op = jumping OperationKind.end k e in
      omega (
        arith,
        length-resolve c (suc k) (
            jumping OperationKind.do_ (suc (after b (suc m))) d
            ∷ resolve b (suc m) (end_op ∷ rest)),
        length-resolve b (suc m) (end_op ∷ rest),
      )

  pub length-resolve :
      (b : Block) (k : ℕ) (rest : List Operation)
      → length (resolve b k rest) + k ≡ after b k + length rest
  length-resolve nil k rest = omega arith
  length-resolve (cons s b) k rest = omega (
    arith,
    length-resolve_statement s k (resolve b (after_statement s k) rest),
    length-resolve b (after_statement s k) rest,
  )

-- The rounds that the loop spends on a block, in front of `n` more.
unfoldable mutual
  pub rounds_statement : Statement → ℕ → ℕ
  rounds_statement (simple op) n = suc n
  rounds_statement (if_end i b e) n = suc (rounds b (suc n))
  rounds_statement (if_else_end i b l c e) n = suc (rounds b (suc (rounds c (suc n))))
  rounds_statement (while_do_end w c d b e) n = suc (rounds c (suc (rounds b (suc n))))

  pub rounds : Block → ℕ → ℕ
  rounds nil n = n
  rounds (cons s b) n = rounds_statement s (rounds b n)

mutual
  unfolding flatten rounds

  length-flatten_statement :
      (s : Statement) (rest : List Operation)
      → length (flatten_statement s rest) ≡ rounds_statement s (length rest)
  length-flatten_statement (simple op) rest = refl
  length-flatten_statement (if_end i b e) rest =
      ap suc (length-flatten b (of_kind OperationKind.end e ∷ rest))
  length-flatten_statement (if_else_end i b l c e) rest =
      let end_op = of_kind OperationKind.end e in
      ap suc (
        length-flatten b (of_kind OperationKind.else_ l ∷ flatten c (end_op ∷ rest))
        ∙ ap (λ n. rounds b (suc n)) (length-flatten c (end_op ∷ rest)))
  length-flatten_statement (while_do_end w c d b e) rest =
      let end_op = of_kind OperationKind.end e in
      ap suc (
        length-flatten c (of_kind OperationKind.do_ d ∷ flatten b (end_op ∷ rest))
        ∙ ap (λ n. rounds c (suc n)) (length-flatten b (end_op ∷ rest)))

  pub length-flatten :
      (b : Block) (rest : List Operation) → length (flatten b rest) ≡ rounds b (length rest)
  length-flatten nil rest = refl
  length-flatten (cons s b) rest =
      length-flatten_statement s (flatten b rest) ∙ ap (rounds_statement s) (length-flatten b rest)
