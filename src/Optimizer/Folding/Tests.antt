-- ===== src/Optimizer/Folding/Tests.antt =====
-- Constant folding on concrete bodies.
use stacky.Common.{◌≡◌, refl, true, false, some, List, inr, [], ◌∷◌, arith}
use stacky.Syntax.{Operation, OperationKind, IntrinsicKind, new_operation}
use stacky.Machine.{pure}
use stacky.Optimizer.Folding.{folded, fold_intrinsic, push_value, shift_jump, constant_folding}
use stacky.Optimizer.Folding.Sound.{fold_intrinsic-pure, fold_intrinsic-greater}
use stacky.Optimizer.Folding.Replaced.{AgreesAlong, IsReplaced, relocate, shift_jump-relocate}
use stacky.Optimizer.Folding.Loop.{constant_folding-IsReplaced}

abbrev intrinsic : IntrinsicKind → Operation
intrinsic k = record (new_operation OperationKind.intrinsic) { intrinsic = k }

-- `if 2 3 + end`, whose `if` and `end` have their jumps.
abbrev body : List Operation
body =
    record (new_operation OperationKind.if_) { jump = 4 }
    ∷ push_value 2
    ∷ push_value 3
    ∷ intrinsic IntrinsicKind.add
    ∷ record (new_operation OperationKind.end) { jump = 5 }
    ∷ []

abbrev body' : List Operation
body' =
    record (new_operation OperationKind.if_) { jump = 2 }
    ∷ push_value 5
    ∷ record (new_operation OperationKind.end) { jump = 3 }
    ∷ []

folds : constant_folding body ≡ some (true, body')
unfolding constant_folding
folds = refl

settles : constant_folding body' ≡ some (false, body')
unfolding constant_folding
settles = refl

body-AgreesAlong : AgreesAlong body false []
unfolding AgreesAlong
body-AgreesAlong = (tt, (omega arith, (omega arith, (tt, (tt, tt)))))

constant_folding-IsReplaced_example : IsReplaced body body'
constant_folding-IsReplaced_example = constant_folding-IsReplaced body body' body-AgreesAlong folds

folds_rest : fold_intrinsic IntrinsicKind.mod_ (5 ∷ 17 ∷ []) ≡ folded (2 ∷ [])
unfolding fold_intrinsic
folds_rest = refl

fold_intrinsic-pure_example : pure IntrinsicKind.mod_ (5 ∷ 17 ∷ []) ≡ some (2 ∷ [])
fold_intrinsic-pure_example =
    fold_intrinsic-pure IntrinsicKind.mod_ (5 ∷ 17 ∷ []) (2 ∷ []) (omega arith, (omega arith, tt))
      (omega arith, omega arith) folds_rest

fold_intrinsic-greater_example :
    (fold_intrinsic IntrinsicKind.greater (1 ∷ 18446744073709551615 ∷ []) ≡ folded (0 ∷ []))
    × (pure IntrinsicKind.greater (1 ∷ 18446744073709551615 ∷ []) ≡ some (1 ∷ []))
fold_intrinsic-greater_example =
    fold_intrinsic-greater 18446744073709551615 1 [] (omega arith) (omega arith) (omega arith)

shift_jump-relocate_example :
    shift_jump 1 1 3 (record (new_operation OperationKind.end) { jump = 5 })
    ≡ record (new_operation OperationKind.end) { jump = relocate 1 1 3 5 }
shift_jump-relocate_example =
    shift_jump-relocate 1 1 3 (record (new_operation OperationKind.end) { jump = 5 })
      (inr (omega arith, omega arith)) (omega arith)
