-- ===== src/Types/Check/Straight.antt =====
-- src/types.cc, `typecheck`, on bodies without control flow: what it accepts does not go wrong.
use stacky.Common.{ℕ, ◌≡◌, refl, ◌⊎◌, some, List, [], ◌∷◌, arith}
use stacky.Syntax.{Typestack, Operation, OperationKind, StackEffect}
use stacky.Report.{Check, Outcome, ok, exited, ◌>>=◌}
use stacky.Codegen.Correct.{IsPure}
use stacky.Types.Effects.{typecheck_stack_effects, intrinsic_effects}
use stacky.Types.Effects.Sound.{AllTyped, HasKind, DividesByZero, typecheck_intrinsic}
use stacky.Dictionary.{Words}
use stacky.Types.Check.Fits.{AllFit}
use stacky.Types.Check.{State, Verifier, expects, Move, advance, check_operation, check_loop, at}
use stacky.Optimizer.Folding.Region.{straight_step}

-- A push of a constant of its type, or an intrinsic that only the stack matters to.
abbrev pub IsStraightKind : OperationKind → Operation → Type 0
IsStraightKind OperationKind.push_int op = HasKind op.type.kind op.ival
IsStraightKind OperationKind.intrinsic op = IsPure op.intrinsic
IsStraightKind _ op = ⊥

abbrev pub AllStraight : List Operation → Type 0
AllStraight [] = Unit {0}
AllStraight (op ∷ ops) = IsStraightKind op.kind op × AllStraight ops

abbrev pub Divides : OperationKind → Operation → List ℕ → Type 0
Divides OperationKind.intrinsic op s = DividesByZero op.intrinsic s
Divides _ op s = ⊥

-- A run of the body stops at a division by zero, or it ends with values of types that fit `output`.
abbrev pub RunsTo : Typestack → List Operation → List ℕ → Type 0
RunsTo output [] s = (ts : Typestack) × AllTyped ts s × AllFit ts output
RunsTo output (op ∷ ops) s =
    Divides op.kind op s ⊎ ((s' : List ℕ) × (straight_step op s ≡ some s') × RunsTo output ops s')

-- One operation, checked and run.
abbrev Stepped : OperationKind → Operation → Typestack → List ℕ → Move → Type 0
Stepped k op ts s m =
    (ts' : Typestack) × (m ≡ advance ts')
    × (Divides k op s
        ⊎ ((s' : List ℕ) × (straight_step (record op { kind = k }) s ≡ some s') × AllTyped ts' s'))

pub as_move : Outcome Typestack → Outcome Move
as_move (ok ts) = ok (advance ts)
as_move (exited c) = exited c

pub exited-move : (c : Check) (m : Move) → as_move (exited c) ≡ ok m → ⊥
unfolding as_move
exited-move c m e = ground (arith, e)

pub ok-move : (m : Move) (ts : Typestack) → as_move (ok ts) ≡ ok m → m ≡ advance ts
unfolding as_move
ok-move m ts e = ground (arith, e)

as_move-ok : (r : Outcome Typestack) → (r >>= λ ts. ok (advance ts)) ≡ as_move r
unfolding as_move
as_move-ok (ok ts) = refl
as_move-ok (exited c) = refl

as_move-effects :
    (o : Outcome (List StackEffect)) (ts : Typestack)
    → (o >>= λ effects. typecheck_stack_effects effects ts >>= λ us. ok (advance us))
      ≡ as_move (o >>= λ effects. typecheck_stack_effects effects ts)
unfolding as_move
as_move-effects (ok effects) ts = as_move-ok (typecheck_stack_effects effects ts)
as_move-effects (exited c) ts = refl

pub intrinsic_move :
    (words : Words) (op : Operation) (ts : Typestack)
    → check_operation words OperationKind.intrinsic op ts
      ≡ as_move (typecheck_intrinsic op.intrinsic op.token.sval ts)
unfolding check_operation typecheck_intrinsic
intrinsic_move words op ts = as_move-effects (intrinsic_effects op.intrinsic op.token.sval) ts

module _ (words : Words) (output : Typestack) (r : Verifier × List State) where
  abbrev Accepts : ℕ → List Operation → Typestack → ℕ → Type 0
  Accepts fuel ops ts ip =
      check_loop fuel words ops (at ts ip ∷ []) [] (expects output) ≡ some (ok r)
