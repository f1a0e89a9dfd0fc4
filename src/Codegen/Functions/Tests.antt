-- ===== src/Codegen/Functions/Tests.antt =====
-- The lines of `while dup do 1 - end`, whose jumps are set.
use stacky.Common.{◌≡◌, refl, true, List, [], ◌∷◌, arith}
use stacky.Syntax.{Operation, OperationKind, IntrinsicKind, new_operation}
use stacky.Report.{ok}
use stacky.Codegen.{push_slot, pop, push, alu, rax, rbx, sub}
use stacky.Codegen.Functions.{
  Line, label, jump, jump_if_zero, push_int, plain, contains, jump_targets, generate_instructions,
}
use stacky.Codegen.Functions.Labels.{labels, jumps, generate_instructions-labels}

abbrev countdown : List Operation
countdown =
    new_operation OperationKind.while
    ∷ record (new_operation OperationKind.intrinsic) { intrinsic = IntrinsicKind.dup }
    ∷ record (new_operation OperationKind.do_) { jump = 6 }
    ∷ record (new_operation OperationKind.push_int) { ival = 1 }
    ∷ record (new_operation OperationKind.intrinsic) { intrinsic = IntrinsicKind.subtract }
    ∷ record (new_operation OperationKind.end) { jump = 0 }
    ∷ []

abbrev lines : List Line
lines =
    label 0
    ∷ plain (push_slot 0)
    ∷ jump_if_zero 6
    ∷ push_int 1
    ∷ plain (pop rbx)
    ∷ plain (pop rax)
    ∷ plain (alu sub rax rbx)
    ∷ plain (push rax)
    ∷ jump 0
    ∷ label 6
    ∷ []

targets : jump_targets countdown ≡ ok (6 ∷ 0 ∷ [])
unfolding jump_targets
targets = refl

written : generate_instructions (6 ∷ 0 ∷ []) countdown ≡ ok lines
unfolding generate_instructions
written = refl

generate_instructions-labels_example : contains 0 (labels lines) ≡ true
unfolding contains jumps
generate_instructions-labels_example =
    generate_instructions-labels countdown (6 ∷ 0 ∷ []) lines 0 targets
      (omega arith, (omega arith, tt)) written refl
