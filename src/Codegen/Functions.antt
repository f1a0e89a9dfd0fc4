-- ===== src/Codegen/Functions.antt =====
-- src/linux-x86_64.cc, `generate_instructions`, and src/stacky.cc, `generate_jump_targets_lookup`: the
-- lines written for one body of operations. The name of the function is left out: labels of one
-- body carry its prefix, so that a body only meets its own.
pub mod Labels
pub mod Tests
use stacky.Common.{
  ℕ, zero, suc, ◌+◌, ◌-◌, ◌^◌, Bool, true, false, ◌||◌, List, [], ◌∷◌, ◌++◌, map, ◌==◌,
  if◌then◌else◌, length,
}
use stacky.Syntax.{Operation, OperationKind, SymbolPrefix, empty_jump}
use stacky.Report.{Outcome, ok, exited, ◌>>=◌, ◌>>◌, ensure, jump_not_set}
use stacky.Codegen.{Instruction, emit_intrinsic}

-- A line of the body: a label of the body or a jump to one, a call or an address of the program's
-- labels, the push of a constant, or an instruction of an intrinsic. `jump_if_zero` is the pop of
-- the condition, its test and the `jz`.
pub data Line : Type 0 where
  label jump jump_if_zero : ℕ → Line
  call_function push_int : ℕ → Line
  push_symbol : SymbolPrefix → ℕ → Line
  plain : Instruction → Line

abbrev pub jump_set : Operation → Outcome (Unit {0})
jump_set op = ensure (if op.jump == empty_jump then false else true) jump_not_set

unfoldable pub contains : ℕ → List ℕ → Bool
contains n [] = false
contains n (m ∷ ms) = n == m || contains n ms

abbrev target : Operation → Outcome (List ℕ) → Outcome (List ℕ)
target op rest = do jump_set op; targets ← rest; ok (op.jump ∷ targets)

-- `geninfo.jump_targets_lookup` for one body
unfoldable pub jump_targets : List Operation → Outcome (List ℕ)
jump_targets [] = ok []
jump_targets (op ∷ ops) =
    let rest = jump_targets ops in
    elim op.kind [
      | OperationKind.end ↦ target op rest
      | OperationKind.if_ ↦ target op rest
      | OperationKind.else_ ↦ target op rest
      | OperationKind.do_ ↦ target op rest
      | _ ↦ rest
    ]

abbrev pub after_jump_set : Operation → List Line → Outcome (List Line)
after_jump_set op lines = do jump_set op; ok lines

-- The switch, for the operation at index `i` of `size` ones.
unfoldable pub operation_lines : ℕ → ℕ → OperationKind → Operation → Outcome (List Line)
unfolding emit_intrinsic
operation_lines i size OperationKind.intrinsic op = do code ← emit_intrinsic op; ok (map plain code)
operation_lines i size OperationKind.cast op = ok []
operation_lines i size OperationKind.call_symbol op = ok (call_function op.ival ∷ [])
operation_lines i size OperationKind.push_symbol op = ok (push_symbol op.symbol_prefix op.ival ∷ [])
operation_lines i size OperationKind.push_int op = ok (push_int op.ival ∷ [])
operation_lines i size OperationKind.return op = ok (jump size ∷ [])
operation_lines i size OperationKind.end op =
    after_jump_set op (if suc i == op.jump then [] else jump op.jump ∷ [])
operation_lines i size OperationKind.do_ op = after_jump_set op (jump_if_zero op.jump ∷ [])
operation_lines i size OperationKind.if_ op = after_jump_set op (jump_if_zero op.jump ∷ [])
operation_lines i size OperationKind.else_ op = after_jump_set op (jump op.jump ∷ [])
operation_lines i size OperationKind.while op = ok []

unfoldable pub lines_from : ℕ → ℕ → List ℕ → List Operation → Outcome (List Line)
unfolding operation_lines contains
lines_from i size targets [] = ok (label size ∷ [])
lines_from i size targets (op ∷ ops) = do
  body ← operation_lines i size op.kind op
  rest ← lines_from (suc i) size targets ops
  ok ((if contains i targets then label i ∷ [] else []) ++ (body ++ rest))

unfoldable pub generate_instructions : List ℕ → List Operation → Outcome (List Line)
unfolding lines_from
generate_instructions targets ops = lines_from 0 (length ops) targets ops
