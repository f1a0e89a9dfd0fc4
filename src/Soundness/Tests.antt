-- ===== src/Soundness/Tests.antt =====
-- `divmod` and `rot` through the checker and the processor.
use stacky.Common.{◌≡◌, refl, ◌⊎◌, [], ◌∷◌, arith}
use stacky.Syntax.{IntrinsicKind, Typestack}
use stacky.Report.{ok, exited, too_few_arguments}
use stacky.Machine.{pure}
use stacky.Codegen.{emit_intrinsic_kind}
use stacky.Codegen.Correct.{execute}
use stacky.Codegen.Tests.{still, start}
use stacky.Types.Effects.{int_t, bool_t, ptr_t}
use stacky.Types.Effects.Sound.{
  DividesByZero, IsTypedResult, typecheck_intrinsic, typecheck_intrinsic-pure,
}
use stacky.Soundness.{IsTypedRun, execute-typecheck_intrinsic}

abbrev before : Typestack
before = int_t ∷ int_t ∷ ptr_t ∷ []

accepted : typecheck_intrinsic IntrinsicKind.div_mod [] before ≡ ok (int_t ∷ int_t ∷ ptr_t ∷ [])
unfolding typecheck_intrinsic
accepted = refl

refused : typecheck_intrinsic IntrinsicKind.rot [] (int_t ∷ []) ≡ exited too_few_arguments
unfolding typecheck_intrinsic
refused = refl

rotated :
    typecheck_intrinsic IntrinsicKind.rot [] (ptr_t ∷ int_t ∷ bool_t ∷ [])
    ≡ ok (bool_t ∷ ptr_t ∷ int_t ∷ [])
unfolding typecheck_intrinsic
rotated = refl

typecheck_intrinsic-pure_example :
    DividesByZero IntrinsicKind.rot (9 ∷ 8 ∷ 1 ∷ [])
    ⊎ IsTypedResult (bool_t ∷ ptr_t ∷ int_t ∷ []) (pure IntrinsicKind.rot (9 ∷ 8 ∷ 1 ∷ []))
typecheck_intrinsic-pure_example =
    typecheck_intrinsic-pure IntrinsicKind.rot [] (ptr_t ∷ int_t ∷ bool_t ∷ [])
      (bool_t ∷ ptr_t ∷ int_t ∷ []) (9 ∷ 8 ∷ 1 ∷ []) tt (tt, (tt, (omega arith, tt))) rotated

execute-typecheck_intrinsic_example :
    DividesByZero IntrinsicKind.div_mod start.stack
    ⊎ IsTypedRun
        (Unit {0})
        tt
        (int_t ∷ int_t ∷ ptr_t ∷ [])
        (execute still (emit_intrinsic_kind IntrinsicKind.div_mod []) start tt)
execute-typecheck_intrinsic_example =
    execute-typecheck_intrinsic still IntrinsicKind.div_mod [] before (int_t ∷ int_t ∷ ptr_t ∷ [])
      start tt tt (omega arith, (omega arith, (omega arith, tt))) (tt, (tt, (tt, tt))) accepted
