-- ===== src/Codegen.antt =====
-- src/linux-x86_64.cc: the instructions that the code generator writes. An `Instruction` is one line
-- of the assembly file, without its text; comments and labels that carry no code are left out.
pub mod Processor
pub mod Functions
pub mod Assembly
pub mod Correct
pub mod Tests
use stacky.Common.{
  ℕ, suc, ◌+◌, ◌-◌, ◌*◌, ◌^◌, Bool, true, false, ◌&&◌, Option, none, some, List, [], ◌∷◌, ◌++◌, leb,
  ltb, ◌==◌, if◌then◌else◌, get_or, take,
}
use stacky.Syntax.{IntrinsicKind, Operation, Text}
use stacky.Report.{Outcome, ok, exited, ◌>>=◌, ◌>>◌, ensure, unreachable_code, bad_syscall}
use stacky.Machine.{size_exponent}

pub data Reg : Type 0 where
  rax rbx rcx rdx rdi rsi r10 r8 r9 : Reg

-- The condition of a `setcc` or a `cmovcc`.
pub data Condition : Type 0 where
  e ne a nb b be : Condition

pub data Alu : Type 0 where
  add and_ or_ xor imul sub : Alu

pub data Instruction : Type 0 where
  pop push : Reg → Instruction
  -- `push qword [rsp+8k]`, `mov reg, [rsp+8k]`, `mov [rsp+8k], reg`
  push_slot : ℕ → Instruction
  load_slot : Reg → ℕ → Instruction
  store_slot : ℕ → Reg → Instruction
  -- `movdqu xmm0, [rsp+8k]`, `movups [rsp+8k], xmm0`
  load_pair store_pair : ℕ → Instruction
  push_rsp : Instruction
  -- `add rsp, 8k`
  drop_slots : ℕ → Instruction
  mov : Reg → Reg → Instruction
  alu : Alu → Reg → Reg → Instruction
  sal_cl sar_cl : Reg → Instruction
  cmp test : Reg → Reg → Instruction
  -- `setcc` on the low byte of the register
  set : Condition → Reg → Instruction
  cmov : Condition → Reg → Reg → Instruction
  -- `div reg`: rdx:rax by the register
  div : Reg → Instruction
  -- `mov` of `8 << exponent` bits between a register and the address in rax
  load_memory store_memory : ℕ → Reg → Instruction
  rdrand32 rdrand64 : Reg → Instruction
  load_argc load_argv : Reg → Instruction
  call : Reg → Instruction
  syscall : Instruction

-- `Impl_Math`
abbrev pub impl_math : List Instruction → List Instruction
impl_math implementation = pop rbx ∷ pop rax ∷ (implementation ++ push rax ∷ [])

-- `Impl_Compare`
abbrev pub impl_compare : Condition → List Instruction
impl_compare suffix =
    alu xor rax rax ∷ pop rbx ∷ pop rcx ∷ cmp rcx rbx ∷ set suffix rax ∷ push rax ∷ []

-- `Impl_Div`
abbrev pub impl_div : List Instruction → List Instruction
impl_div end = alu xor rdx rdx ∷ pop rbx ∷ pop rax ∷ div rbx ∷ end

-- The registers of a system call: `syscall<n>` pops the first n + 1 of them.
abbrev pub regs : List Reg
regs = rax ∷ rdi ∷ rsi ∷ rdx ∷ r10 ∷ r8 ∷ r9 ∷ []

abbrev pop_all : List Reg → List Instruction → List Instruction
pop_all [] rest = rest
pop_all (r ∷ rs) rest = pop r ∷ pop_all rs rest

abbrev or_exit : Option ℕ → (ℕ → List Instruction) → Outcome (List Instruction)
or_exit none f = exited unreachable_code
or_exit (some n) f = ok (f n)

unfoldable pub emit_intrinsic_kind : IntrinsicKind → Text → Outcome (List Instruction)
unfolding size_exponent
emit_intrinsic_kind IntrinsicKind.argc name = ok (load_argc rax ∷ push rax ∷ [])
emit_intrinsic_kind IntrinsicKind.argv name = ok (load_argv rax ∷ push rax ∷ [])
emit_intrinsic_kind IntrinsicKind.random32 name =
    ok (alu xor rax rax ∷ rdrand32 rax ∷ push rax ∷ [])
emit_intrinsic_kind IntrinsicKind.random64 name = ok (rdrand64 rax ∷ push rax ∷ [])
emit_intrinsic_kind IntrinsicKind.call name = ok (pop rax ∷ call rax ∷ [])
emit_intrinsic_kind IntrinsicKind.add name = ok (impl_math (alu add rax rbx ∷ []))
emit_intrinsic_kind IntrinsicKind.bitwise_and name = ok (impl_math (alu and_ rax rbx ∷ []))
emit_intrinsic_kind IntrinsicKind.bitwise_or name = ok (impl_math (alu or_ rax rbx ∷ []))
emit_intrinsic_kind IntrinsicKind.bitwise_xor name = ok (impl_math (alu xor rax rbx ∷ []))
emit_intrinsic_kind IntrinsicKind.left_shift name = ok (impl_math (mov rcx rbx ∷ sal_cl rax ∷ []))
emit_intrinsic_kind IntrinsicKind.mul name = ok (impl_math (alu imul rax rbx ∷ []))
emit_intrinsic_kind IntrinsicKind.right_shift name = ok (impl_math (mov rcx rbx ∷ sar_cl rax ∷ []))
emit_intrinsic_kind IntrinsicKind.subtract name = ok (impl_math (alu sub rax rbx ∷ []))
emit_intrinsic_kind IntrinsicKind.min name = ok (impl_math (cmp rax rbx ∷ cmov a rax rbx ∷ []))
emit_intrinsic_kind IntrinsicKind.max name = ok (impl_math (cmp rax rbx ∷ cmov b rax rbx ∷ []))
emit_intrinsic_kind IntrinsicKind.boolean_or name =
    ok (impl_math (alu xor rcx rcx ∷ alu or_ rax rbx ∷ set ne rcx ∷ mov rax rcx ∷ []))
emit_intrinsic_kind IntrinsicKind.boolean_and name =
    ok (impl_math (alu xor rcx rcx ∷ alu and_ rax rbx ∷ set ne rcx ∷ mov rax rcx ∷ []))
emit_intrinsic_kind IntrinsicKind.div name = ok (impl_div (push rax ∷ []))
emit_intrinsic_kind IntrinsicKind.div_mod name = ok (impl_div (push rdx ∷ push rax ∷ []))
emit_intrinsic_kind IntrinsicKind.mod_ name = ok (impl_div (push rdx ∷ []))
emit_intrinsic_kind IntrinsicKind.top name = ok (push_rsp ∷ [])
emit_intrinsic_kind IntrinsicKind.drop name = ok (drop_slots 1 ∷ [])
emit_intrinsic_kind IntrinsicKind.two_drop name = ok (drop_slots 2 ∷ [])
emit_intrinsic_kind IntrinsicKind.dup name = ok (push_slot 0 ∷ [])
emit_intrinsic_kind IntrinsicKind.two_dup name = ok (push_slot 1 ∷ push_slot 1 ∷ [])
emit_intrinsic_kind IntrinsicKind.over name = ok (push_slot 1 ∷ [])
emit_intrinsic_kind IntrinsicKind.two_over name = ok (push_slot 3 ∷ push_slot 3 ∷ [])
emit_intrinsic_kind IntrinsicKind.tuck name =
    ok (pop rax ∷ pop rbx ∷ push rax ∷ push rbx ∷ push rax ∷ [])
emit_intrinsic_kind IntrinsicKind.rot name =
    ok (load_pair 0 ∷ load_slot rcx 2 ∷ store_slot 0 rcx ∷ store_pair 1 ∷ [])
emit_intrinsic_kind IntrinsicKind.swap name = ok (pop rax ∷ pop rbx ∷ push rax ∷ push rbx ∷ [])
emit_intrinsic_kind IntrinsicKind.two_swap name = ok (
    load_pair 0
    ∷ load_slot rax 2
    ∷ store_slot 0 rax
    ∷ load_slot rax 3
    ∷ store_slot 1 rax
    ∷ store_pair 2
    ∷ [])
emit_intrinsic_kind IntrinsicKind.boolean_negate name =
    ok (pop rbx ∷ alu xor rax rax ∷ test rbx rbx ∷ set e rax ∷ push rax ∷ [])
emit_intrinsic_kind IntrinsicKind.equal name = ok (impl_compare e)
emit_intrinsic_kind IntrinsicKind.greater name = ok (impl_compare a)
emit_intrinsic_kind IntrinsicKind.greater_eq name = ok (impl_compare nb)
emit_intrinsic_kind IntrinsicKind.less name = ok (impl_compare b)
emit_intrinsic_kind IntrinsicKind.less_eq name = ok (impl_compare be)
emit_intrinsic_kind IntrinsicKind.not_equal name = ok (impl_compare ne)
emit_intrinsic_kind IntrinsicKind.load name =
    or_exit (size_exponent 4 name)
      λ offset. pop rax ∷ alu xor rbx rbx ∷ load_memory offset rbx ∷ push rbx ∷ []
emit_intrinsic_kind IntrinsicKind.store name =
    or_exit (size_exponent 5 name) λ offset. pop rbx ∷ pop rax ∷ store_memory offset rbx ∷ []
emit_intrinsic_kind IntrinsicKind.syscall name = do
  let digit = get_or name 7 0
  ensure (leb b'0' digit && leb digit b'6') bad_syscall
  ok (pop_all (take (suc (digit - b'0')) regs) (syscall ∷ push rax ∷ []))

unfoldable pub emit_intrinsic : Operation → Outcome (List Instruction)
unfolding emit_intrinsic_kind
emit_intrinsic op = emit_intrinsic_kind op.intrinsic op.token.sval
