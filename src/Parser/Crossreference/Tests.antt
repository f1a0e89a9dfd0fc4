-- ===== src/Parser/Crossreference/Tests.antt =====
-- The jumps of `while dup do if 1 else 2 end end`.
use stacky.Common.{◌≡◌, refl, true, false, [], ◌∷◌, map}
use stacky.Syntax.{Operation, OperationKind, new_operation}
use stacky.Report.{ok, exited, do_without_while}
use stacky.Parser.Crossreference.{crossreference}
use stacky.Parser.Crossreference.Block.{
  Block, simple, if_else_end, while_do_end, nil, cons, flatten, resolve, after,
}
use stacky.Parser.Crossreference.Correct.{crossreference-flatten}

abbrev some_op : Operation
some_op = new_operation OperationKind.push_int

abbrev a_push : Block
a_push = cons (simple some_op) nil

abbrev choice : Block
choice = cons (if_else_end some_op a_push some_op a_push some_op) nil

abbrev nested : Block
nested = cons (while_do_end some_op a_push some_op choice some_op) a_push

jumps :
    map (λ (op : Operation). op.jump) (resolve nested 0 [])
    ≡ 4294967295 ∷ 4294967295 ∷ 9 ∷ 6 ∷ 4294967295 ∷ 7 ∷ 4294967295 ∷ 8 ∷ 0 ∷ 4294967295 ∷ []
unfolding resolve after
jumps = refl

do_alone : crossreference (new_operation OperationKind.do_ ∷ []) ≡ exited do_without_while
unfolding crossreference
do_alone = refl

crossreference-flatten_example :
    crossreference (flatten nested [])
    ≡ ok (record { ops = resolve nested 0 []; returned = true; failed = false })
crossreference-flatten_example =
    crossreference-flatten nested (((tt, tt), (((tt, tt), (tt, tt)), tt)), (tt, tt))
