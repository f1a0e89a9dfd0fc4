-- ===== src/Codegen/Processor.antt =====
-- What the processor does with the instructions that src/linux-x86_64.cc writes, by their
-- documentation: the specification against which the generated code is checked. The memory behind
-- `rsp` is a list of words, top first; the rest of memory and the system are a `Platform`.
use Prim.Native.Nat.{bit_and, bit_or, bit_xor}
use stacky.Common.{
  ℕ, suc, ◌+◌, ◌-◌, ◌*◌, ◌/◌, ◌%◌, ◌^◌, Bool, true, false, ◌||◌, Option, none, some, List, [], ◌∷◌,
  ltb, leb, ◌==◌, if◌then◌else◌, get_elem?, set as set_elem, drop, length,
}
use stacky.Machine.{Platform, word, shift_left, shift_right, truth}
use stacky.Codegen.{Reg, Condition, Alu, Instruction}

pub record Registers : Type 0 where
  pub rax : ℕ
  pub rbx : ℕ
  pub rcx : ℕ
  pub rdx : ℕ
  pub rdi : ℕ
  pub rsi : ℕ
  pub r10 : ℕ
  pub r8 : ℕ
  pub r9 : ℕ

abbrev pub read : Reg → Registers → ℕ
read Reg.rax r = r.rax
read Reg.rbx r = r.rbx
read Reg.rcx r = r.rcx
read Reg.rdx r = r.rdx
read Reg.rdi r = r.rdi
read Reg.rsi r = r.rsi
read Reg.r10 r = r.r10
read Reg.r8 r = r.r8
read Reg.r9 r = r.r9

abbrev pub write : Reg → ℕ → Registers → Registers
write Reg.rax v r = record r { rax = v }
write Reg.rbx v r = record r { rbx = v }
write Reg.rcx v r = record r { rcx = v }
write Reg.rdx v r = record r { rdx = v }
write Reg.rdi v r = record r { rdi = v }
write Reg.rsi v r = record r { rsi = v }
write Reg.r10 v r = record r { r10 = v }
write Reg.r8 v r = record r { r8 = v }
write Reg.r9 v r = record r { r9 = v }

-- The zero and the carry flag, and the two halves of xmm0, low first.
pub record Cpu : Type 0 where
  pub registers : Registers
  pub zero_flag : Bool
  pub carry_flag : Bool
  pub low : ℕ
  pub high : ℕ
  pub stack : List ℕ

abbrev compute : Alu → ℕ → ℕ → ℕ
compute Alu.add x y = word (x + y)
compute Alu.and_ x y = bit_and x y
compute Alu.or_ x y = bit_or x y
compute Alu.xor x y = bit_xor x y
compute Alu.imul x y = word (x * y)
compute Alu.sub x y = word (x + 2 ^ 64 - y)

-- The flags that are read behind `and` and `or`: the logical operations clear the carry.
abbrev holds : Condition → Bool → Bool → Bool
holds Condition.e zf cf = zf
holds Condition.ne zf cf = if zf then false else true
holds Condition.a zf cf = if cf || zf then false else true
holds Condition.nb zf cf = if cf then false else true
holds Condition.b zf cf = cf
holds Condition.be zf cf = cf || zf

abbrev set_low_byte : ℕ → Bool → ℕ
set_low_byte v bit = v - v % 256 + truth bit

module _ (p : Platform) where
  open p use {World, load, store, random, syscall, stack_address, argc, argv}

  abbrev pub State : Type 0
  State = Cpu × World

  abbrev put : Reg → ℕ → Cpu → Cpu
  put r v c = record c { registers = write r v c.registers }

  abbrev get : Reg → Cpu → ℕ
  get r c = read r c.registers

  abbrev popped : Reg → List ℕ → Cpu → World → Option State
  popped r [] c w = none
  popped r (v ∷ s) c w = some (record c { registers = write r v c.registers; stack = s }, w)

  abbrev pushed : ℕ → Cpu → Cpu
  pushed v c = record c { stack = v ∷ c.stack }

  -- A read or a write past the values on the stack is a fault.
  abbrev with_slot : ℕ → List ℕ → (ℕ → Option State) → Option State
  with_slot k s f = elim (get_elem? s k) [ none ↦ none | some v ↦ f v ]

  abbrev logic : Alu → Reg → Reg → Cpu → Cpu
  logic o r s c =
      let v = compute o (get r c) (get s c) in
      record c { registers = write r v c.registers; zero_flag = v == 0; carry_flag = false }

  -- One instruction. `none` is a fault, or a transfer of control.
  unfoldable pub step : Instruction → Cpu → World → Option State
  step (Instruction.pop r) c w = popped r c.stack c w
  step (Instruction.push r) c w = some (pushed (get r c) c, w)
  step (Instruction.push_slot k) c w = with_slot k c.stack λ v. some (pushed v c, w)
  step (Instruction.load_slot r k) c w = with_slot k c.stack λ v. some (put r v c, w)
  step (Instruction.store_slot k r) c w =
      with_slot k c.stack λ _. some (record c { stack = set_elem c.stack k (get r c) }, w)
  step (Instruction.load_pair k) c w =
      with_slot k c.stack
        λ v. with_slot (suc k) c.stack λ u. some (record c { low = v; high = u }, w)
  step (Instruction.store_pair k) c w =
      with_slot (suc k) c.stack
        λ _. some (record c { stack = set_elem (set_elem c.stack k c.low) (suc k) c.high }, w)
  step Instruction.push_rsp c w = some (pushed (stack_address w c.stack) c, w)
  step (Instruction.drop_slots k) c w =
      if leb k (length c.stack) then some (record c { stack = drop k c.stack }, w) else none
  step (Instruction.mov r s) c w = some (put r (get s c) c, w)
  step (Instruction.alu o r s) c w = some (logic o r s c, w)
  step (Instruction.sal_cl r) c w = some (put r (shift_left (get r c) c.registers.rcx) c, w)
  step (Instruction.sar_cl r) c w = some (put r (shift_right (get r c) c.registers.rcx) c, w)
  step (Instruction.cmp r s) c w =
      some (record c { zero_flag = get r c == get s c; carry_flag = ltb (get r c) (get s c) }, w)
  step (Instruction.test r s) c w =
      some (record c { zero_flag = bit_and (get r c) (get s c) == 0; carry_flag = false }, w)
  step (Instruction.set cc r) c w =
      some (put r (set_low_byte (get r c) (holds cc c.zero_flag c.carry_flag)) c, w)
  step (Instruction.cmov cc r s) c w =
      some ((if holds cc c.zero_flag c.carry_flag then put r (get s c) c else c), w)
  step (Instruction.div r) c w =
      let n = c.registers.rdx * 2 ^ 64 + c.registers.rax in
      if get r c == 0
      then none
      else (if leb (2 ^ 64) (n / get r c)
          then none
          else some (
            record c { registers = record c.registers { rax = n / get r c; rdx = n % get r c } },
            w,
          ))
  step (Instruction.load_memory k r) c w = some (put r (load w k c.registers.rax) c, w)
  step (Instruction.store_memory k r) c w = some (c, store w k c.registers.rax (get r c))
  step (Instruction.rdrand32 r) c w = let (v, w') = random w in some (put r (v % 2 ^ 32) c, w')
  step (Instruction.rdrand64 r) c w = let (v, w') = random w in some (put r (word v) c, w')
  step (Instruction.load_argc r) c w = some (put r (argc w) c, w)
  step (Instruction.load_argv r) c w = some (put r (argv w) c, w)
  step (Instruction.call r) c w = none
  step Instruction.syscall c w =
      let g = c.registers in
      let (v, w') = syscall w (g.rax ∷ g.rdi ∷ g.rsi ∷ g.rdx ∷ g.r10 ∷ g.r8 ∷ g.r9 ∷ []) in
      some (put Reg.rax v c, w')

  unfoldable pub run : List Instruction → Cpu → World → Option State
  unfolding step
  run [] c w = some (c, w)
  run (i ∷ code) c w = elim (step i c w) [ none ↦ none | some (c', w') ↦ run code c' w' ]
