-- ===== src/Parser/Crossreference/Correct.antt =====
-- src/parser.cc, `crossreference`, on well-formed blocks.
use stacky.Common.{ℕ, suc, ◌≡◌, refl, sym, ap, ◌∙◌, true, false, List, [], ◌∷◌, ◌++◌, length}
use stacky.Syntax.{Operation, OperationKind}
use stacky.Report.{ok}
use stacky.Parser.Crossreference.{finish, cross_loop, crossreference}
use stacky.Parser.Crossreference.Block.{
  Statement, Block, simple, if_end, if_else_end, while_do_end, nil, cons, IsFormed, AllFormed,
  of_kind, jumping, flatten, flatten_statement, after, after_statement, resolve, resolve_statement,
}
use stacky.Parser.Crossreference.Shape.{rounds, rounds_statement, length-flatten}
use stacky.Parser.Crossreference.Rounds.{get_elem?-at, cross_loop-round, round-simple}
use stacky.Parser.Crossreference.Statements.{
  inside, Passes, length-snoc, length-passed, statement_inside, length-statement, loop_if,
  loop_if_else, loop_while,
}

mutual
  unfolding flatten after resolve rounds

  -- The loop, from the index where a block starts to the index behind it.
  loop_statement :
      (s : Statement) (pre rest : List Operation) (n k : ℕ) (stack : List ℕ)
      → IsFormed s
      → k ≡ length pre
      → cross_loop (rounds_statement s n) k stack (pre ++ flatten_statement s rest)
        ≡ cross_loop n (after_statement s k) stack (pre ++ resolve_statement s k rest)
  loop_statement (simple op) pre rest n k stack f h =
      cross_loop-round n k stack (pre ++ op ∷ rest) op stack (pre ++ op ∷ rest)
        (get_elem?-at pre op rest k h) (round-simple k stack (pre ++ op ∷ rest) op.kind f)
  loop_statement (if_end i b e) pre rest n k stack f h = loop_if pre rest n k stack h i b e (
      loop_block b (pre ++ of_kind OperationKind.if_ i ∷ []) (of_kind OperationKind.end e ∷ rest)
        (suc n) (suc k) (k ∷ stack) f (length-snoc pre (of_kind OperationKind.if_ i) k h))
  loop_statement (if_else_end i b l c e) pre rest n k stack f h =
      let m = after b (suc k) in
      let if_op' = jumping OperationKind.if_ (suc m) i in
      let pre' = pre ++ if_op' ∷ inside b (suc k) in
      loop_if_else pre rest n k stack h i b l c e
        (loop_block b (pre ++ of_kind OperationKind.if_ i ∷ [])
          (of_kind OperationKind.else_ l ∷ flatten c (of_kind OperationKind.end e ∷ rest))
          (suc (rounds c (suc n))) (suc k) (k ∷ stack) f.0
          (length-snoc pre (of_kind OperationKind.if_ i) k h))
        (loop_block c (pre' ++ of_kind OperationKind.else_ l ∷ [])
          (of_kind OperationKind.end e ∷ rest) (suc n) (suc m) (m ∷ stack) f.1
          (length-snoc pre' (of_kind OperationKind.else_ l) m (length-passed pre if_op' b k h)))
  loop_statement (while_do_end w c d b e) pre rest n k stack f h =
      let m = after c (suc k) in
      let while_op = of_kind OperationKind.while w in
      let pre' = pre ++ while_op ∷ inside c (suc k) in
      loop_while pre rest n k stack h w c d b e
        (loop_block c (pre ++ while_op ∷ [])
          (of_kind OperationKind.do_ d ∷ flatten b (of_kind OperationKind.end e ∷ rest))
          (suc (rounds b (suc n))) (suc k) (k ∷ stack) f.0 (length-snoc pre while_op k h))
        (loop_block b (pre' ++ jumping OperationKind.do_ k d ∷ [])
          (of_kind OperationKind.end e ∷ rest) (suc n) (suc m) (m ∷ stack) f.1
          (length-snoc pre' (jumping OperationKind.do_ k d) m (length-passed pre while_op c k h)))

  loop_block :
      (b : Block) (pre rest : List Operation) (n k : ℕ) (stack : List ℕ)
      → AllFormed b
      → k ≡ length pre
      → Passes b pre rest n k stack
  loop_block nil pre rest n k stack f h = refl
  loop_block (cons s b) pre rest n k stack f h =
      let m = after_statement s k in
      let inner = resolve_statement s k [] in
      loop_statement s pre (flatten b rest) (rounds b n) k stack f.0 h
      ∙ ap (cross_loop (rounds b n) m stack) (statement_inside s pre k (flatten b rest))
      ∙ loop_block b (pre ++ inner) rest n m stack f.1 (length-statement s pre k h)
      ∙ ap (cross_loop n (after b m) stack) (sym (statement_inside s pre k (resolve b m rest)))

-- On the operations of a well-formed block the pass ends, reports no error, returns true and gives
-- every keyword the jump that the block means; it changes nothing else.
pub crossreference-flatten :
    (b : Block)
    → AllFormed b
    → crossreference (flatten b [])
      ≡ ok (record { ops = resolve b 0 []; returned = true; failed = false })
unfolding crossreference finish
crossreference-flatten b f =
    ap (λ n. cross_loop n 0 [] (flatten b [])) (length-flatten b [])
    ∙ loop_block b [] [] 0 0 [] f refl
