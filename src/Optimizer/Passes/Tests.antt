-- ===== src/Optimizer/Passes/Tests.antt =====
-- A loop that never runs, behind a comparison of constants.
use stacky.Common.{◌≡◌, refl, [], ◌∷◌, codes}
use stacky.Syntax.{Operation, OperationKind, IntrinsicKind, WordKind, new_operation, new_word}
use stacky.Optimizer.Unused.{contains_id}
use stacky.Optimizer.Conditions.{passed}
use stacky.Optimizer.Passes.{Program, optimize}
use stacky.Optimizer.Passes.Settled.{IsSettled, optimize-IsSettled}

abbrev dup : Operation
dup = record (new_operation OperationKind.intrinsic) { intrinsic = IntrinsicKind.dup }

-- `while 3 3 != do dup end dup`, with a function that is never called
abbrev program : Program
program = record {
  words =
      (codes "f", record new_word { kind = WordKind.function; id = 7; function_body = dup ∷ [] })
      ∷ [];
  strings = [];
  main =
      new_operation OperationKind.while
      ∷ record (new_operation OperationKind.push_int) { ival = 3 }
      ∷ record (new_operation OperationKind.push_int) { ival = 3 }
      ∷ record (new_operation OperationKind.intrinsic) { intrinsic = IntrinsicKind.not_equal }
      ∷ record (new_operation OperationKind.do_) { jump = 7 }
      ∷ dup
      ∷ record (new_operation OperationKind.end) { jump = 0 }
      ∷ dup
      ∷ [];
}

abbrev optimized : Program
optimized = record { words = []; strings = []; main = record dup { jump = 4294967290 } ∷ [] }

optimizes : optimize 20 5 program ≡ passed optimized
unfolding optimize contains_id
optimizes = refl

optimize-IsSettled_example : IsSettled optimized
optimize-IsSettled_example = optimize-IsSettled 20 5 program optimized optimizes
