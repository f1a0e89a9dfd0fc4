-- ===== src/Optimizer/Conditions/Tests.antt =====
-- `dup if 1 end`, and a loop and a branch that are known.
use stacky.Common.{ℕ, zero, suc, ◌≡◌, refl, subst, true, false, List, [], ◌∷◌, arith}
use stacky.Syntax.{Operation, OperationKind, IntrinsicKind, new_operation}
use stacky.Optimizer.Conditions.{passed, undefined, optimize_comptime_known_conditions}
use stacky.Optimizer.Conditions.Settled.{
  NoKnown, IsBranch, optimize_comptime_known_conditions-settled,
  optimize_comptime_known_conditions-NoKnown,
}

abbrev dup : Operation
dup = record (new_operation OperationKind.intrinsic) { intrinsic = IntrinsicKind.dup }

abbrev push : ℕ → Operation
push n = record (new_operation OperationKind.push_int) { ival = n }

abbrev jumps : OperationKind → ℕ → Operation
jumps k n = record (new_operation k) { jump = n }

abbrev unknown : List Operation
unknown = dup ∷ jumps OperationKind.if_ 3 ∷ push 1 ∷ jumps OperationKind.end 4 ∷ []

unknown-NoKnown : NoKnown unknown
unknown-NoKnown zero c b e f push known = absurd (ground (arith, e, push))
unknown-NoKnown (suc zero) c b e f push known = absurd (ground (arith, e, push))
unknown-NoKnown (suc (suc zero)) c b e f push known =
    let same : b ≡ jumps OperationKind.end 4 = ground (arith, f) in
    subst (λ (op : Operation). IsBranch op.kind) same known
unknown-NoKnown (suc (suc (suc zero))) c b e f push known = absurd (ground (arith, f))
unknown-NoKnown (suc (suc (suc (suc i)))) c b e f push known = absurd (ground (arith, f))

optimize_comptime_known_conditions-settled_example :
    optimize_comptime_known_conditions 5 unknown ≡ passed (false, unknown)
optimize_comptime_known_conditions-settled_example =
    optimize_comptime_known_conditions-settled unknown unknown-NoKnown

optimize_comptime_known_conditions-NoKnown_example : NoKnown unknown × (unknown ≡ unknown)
unfolding optimize_comptime_known_conditions
optimize_comptime_known_conditions-NoKnown_example =
    optimize_comptime_known_conditions-NoKnown 9 unknown unknown refl

-- `while 0 do dup end dup`
never :
    optimize_comptime_known_conditions 9 (
      jumps OperationKind.while 0
      ∷ push 0
      ∷ jumps OperationKind.do_ 5
      ∷ dup
      ∷ jumps OperationKind.end 0
      ∷ dup
      ∷ [])
    ≡ passed (true, (record dup { jump = 4294967290 } ∷ []))
unfolding optimize_comptime_known_conditions
never = refl

-- The warning behind an infinite loop at the end of a body reads outside of it.
endless_loop :
    optimize_comptime_known_conditions 9 (
      jumps OperationKind.while 0
      ∷ push 1
      ∷ jumps OperationKind.do_ 5
      ∷ dup
      ∷ jumps OperationKind.end 0
      ∷ [])
    ≡ undefined
unfolding optimize_comptime_known_conditions
endless_loop = refl
