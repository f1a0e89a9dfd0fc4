-- ===== src/Codegen/Tests.antt =====
-- The code of an intrinsic on a concrete processor.
use stacky.Common.{◌≡◌, refl, false, some, [], ◌∷◌, arith, codes}
use stacky.Syntax.{IntrinsicKind, OperationKind, new_operation, no_token}
use stacky.Report.{ok}
use stacky.Machine.{Platform, pure}
use stacky.Codegen.{emit_intrinsic, emit_intrinsic_kind, pop, push, syscall, rax, rdi, rsi, rdx}
use stacky.Codegen.Processor.{Cpu}
use stacky.Codegen.Correct.{execute, in_world, execute-emit_intrinsic}

-- A machine whose memory reads as zero and whose system calls return zero.
abbrev pub still : Platform
still = record {
  World = Unit {0};
  load = λ w a n. 0;
  store = λ w a n v. w;
  random = λ w. (4, w);
  syscall = λ w args. (0, w);
  stack_address = λ w s. 0;
  argc = λ w. 1;
  argv = λ w. 0;
}

abbrev pub start : Cpu
start = record {
  registers = record {
    rax = 1;
    rbx = 2;
    rcx = 3;
    rdx = 4;
    rdi = 5;
    rsi = 6;
    r10 = 7;
    r8 = 8;
    r9 = 9;
  };
  zero_flag = false;
  carry_flag = false;
  low = 0;
  high = 0;
  stack = 3 ∷ 17 ∷ 40 ∷ [];
}

write_call :
    emit_intrinsic (record (new_operation OperationKind.intrinsic) {
      intrinsic = IntrinsicKind.syscall;
      token = record no_token { sval = codes "syscall3" };
    })
    ≡ ok (pop rax ∷ pop rdi ∷ pop rsi ∷ pop rdx ∷ syscall ∷ push rax ∷ [])
unfolding emit_intrinsic
write_call = refl

quotient_first : pure IntrinsicKind.div_mod start.stack ≡ some (5 ∷ 2 ∷ 40 ∷ [])
unfolding pure
quotient_first = refl

execute-emit_intrinsic_example :
    execute still (emit_intrinsic_kind IntrinsicKind.div_mod []) start tt
    ≡ in_world still tt (pure IntrinsicKind.div_mod start.stack)
execute-emit_intrinsic_example =
    execute-emit_intrinsic still IntrinsicKind.div_mod [] start tt tt
      (omega arith, (omega arith, (omega arith, tt)))
