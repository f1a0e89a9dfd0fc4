-- ===== src/Codegen/Assembly/Machine.antt =====
-- What the processor does with the entries of an assembly file, by their documentation: the
-- specification against which the whole program's code is checked. The code behind the program
-- counter is the rest of the file. The return stack has its words and its pointer, beside the memory
-- of the platform; a return address that would be kept behind it is a fault here.
use stacky.Common.{
  ℕ, zero, suc, ◌+◌, ◌-◌, ◌^◌, ◌≡◌, Bool, true, false, ◌&&◌, Option, none, some, List, [], ◌∷◌, ltb,
  ◌==◌, if◌then◌else◌, length, get_elem?, set as set_elem,
}
use stacky.Syntax.{SymbolPrefix}
use stacky.Machine.{AllWords, Platform, word}
use stacky.Codegen.{Reg, rax, rbx}
use stacky.Codegen.Functions.{
  Line, label, jump, jump_if_zero, call_function, push_int, push_symbol, plain,
}
use stacky.Codegen.Processor.{Cpu, write, step}
use stacky.Codegen.Assembly.{
  Entry, line, instruction, function_label, load_callptr, add_callptr, sub_callptr, save_return,
  load_return, ret, start_label, save_argc, save_argv, exit_process,
}

-- What the assembler and the linker choose: the addresses of the code, and of the other labels.
pub record Layout : Type 0 where
  pub address : List Entry → ℕ
  pub code_at : ℕ → Option (List Entry)
  pub symbol : SymbolPrefix → ℕ → ℕ

abbrev pub same_prefix : Option ℕ → Option ℕ → Bool
same_prefix none none = true
same_prefix (some n) (some m) = n == m
same_prefix _ _ = false

abbrev pub is_label : Option ℕ → ℕ → Entry → Bool
is_label q n (line r (label m)) = same_prefix q r && n == m
is_label q n _ = false

-- The code behind the label `n` of the body `q`.
unfoldable pub find_line : Option ℕ → ℕ → List Entry → Option (List Entry)
find_line q n [] = none
find_line q n (e ∷ code) = if is_label q n e then some code else find_line q n code

abbrev pub is_function_label : ℕ → Entry → Bool
is_function_label id (function_label m) = id == m
is_function_label id _ = false

unfoldable pub find_function : ℕ → List Entry → Option (List Entry)
find_function id [] = none
find_function id (e ∷ code) = if is_function_label id e then some code else find_function id code

abbrev pub is_start_label : Entry → Bool
is_start_label start_label = true
is_start_label _ = false

-- The code behind `_start`.
unfoldable pub find_start : List Entry → Option (List Entry)
find_start [] = none
find_start (e ∷ code) = if is_start_label e then some code else find_start code

module _ (p : Platform) where
  open p use {World}

  pub record Machine : Type 0 where
    pub code : List Entry
    pub cpu : Cpu
    pub world : World
    pub slots : List ℕ
    pub pointer : ℕ
    pub argc : ℕ

  pub data Progress : Type 0 where
    going : Machine → Progress
    exits : List ℕ → Progress
    faults : Progress

  abbrev pub goto : Option (List Entry) → Machine → Progress
  goto none m = faults
  goto (some code) m = going (record m { code = code })

  abbrev pub put : Reg → ℕ → Cpu → Cpu
  put r v c = record c { registers = write r v c.registers }

  abbrev pub with_stack : List ℕ → Cpu → Cpu
  with_stack s c = record c { stack = s }

  abbrev pub executed : Option (Cpu × World) → Machine → Progress
  executed none m = faults
  executed (some (c, w)) m = going (record m { cpu = c; world = w })

  -- `pop rax`, `test rax, rax` and `jz`
  abbrev pub branch_at : Option (List Entry) → List ℕ → Machine → Progress
  branch_at target [] m = faults
  branch_at target (v ∷ s) m =
      let m' = record m {
        cpu = record (put rax v (with_stack s m.cpu)) { zero_flag = v == 0; carry_flag = false };
      } in
      if v == 0 then goto target m' else going m'

  abbrev pub returned : Layout → List ℕ → Machine → Progress
  returned layout [] m = faults
  returned layout (v ∷ s) m = goto (layout.code_at v) (record m { cpu = with_stack s m.cpu })

  module _ (layout : Layout) (text : List Entry) where
    -- A line of a body; `m` is already behind it.
    unfoldable pub do_line : Option ℕ → Line → Machine → Progress
    unfolding step find_line find_function
    do_line q (label n) m = going m
    do_line q (jump n) m = goto (find_line q n text) m
    do_line q (jump_if_zero n) m = branch_at (find_line q n text) m.cpu.stack m
    do_line q (call_function id) m =
        goto (find_function id text)
          (record m { cpu = with_stack (layout.address m.code ∷ m.cpu.stack) m.cpu })
    do_line q (push_int n) m =
        going (record m { cpu = put rax n (with_stack (n ∷ m.cpu.stack) m.cpu) })
    do_line q (push_symbol prefix n) m =
        going (record m { cpu = with_stack (layout.symbol prefix n ∷ m.cpu.stack) m.cpu })
    do_line q (plain i) m = executed (step p i m.cpu m.world) m

    unfoldable pub do_entry : Entry → Machine → Progress
    unfolding do_line
    do_entry (line q l) m = do_line q l m
    do_entry (instruction i) m = executed (step p i m.cpu m.world) m
    do_entry (function_label id) m = going m
    do_entry load_callptr m = going (record m { cpu = put rbx m.pointer m.cpu })
    do_entry add_callptr m = going (record m { pointer = word (m.pointer + 1) })
    do_entry sub_callptr m = going (record m { pointer = word (m.pointer + (2 ^ 64 - 1)) })
    do_entry save_return m =
        let i = m.cpu.registers.rbx in
        if ltb i (length m.slots)
        then going (record m { slots = set_elem m.slots i m.cpu.registers.rax })
        else faults
    do_entry load_return m = elim (get_elem? m.slots m.cpu.registers.rbx) [
      | none ↦ faults
      | some v ↦ going (record m { cpu = put rax v m.cpu })
    ]
    do_entry ret m = returned layout m.cpu.stack m
    do_entry start_label m = going m
    do_entry save_argc m = going (record m { argc = m.cpu.registers.rax })
    do_entry save_argv m = going m
    do_entry exit_process m = exits m.cpu.stack

    -- At `_start`: the number of arguments on the stack, and zeros in the memory of the return stack.
    -- At `_start`: the stack holds the number of arguments on top of what else the system put there.
    pub record Starts (below : List ℕ) (m : Machine) : Type 0 where
      pub at_start : find_start text ≡ some m.code
      pub arguments : (argc : ℕ) × (m.cpu.stack ≡ argc ∷ below)
      pub words_below : AllWords below
      pub room : length m.slots ≡ 1024
      pub no_callers : m.pointer ≡ 0

    abbrev pub do_first : List Entry → Machine → Progress
    do_first [] m = faults
    do_first (e ∷ code) m = do_entry e (record m { code = code })

    unfoldable pub run_machine : ℕ → Machine → Progress
    unfolding do_entry
    run_machine zero m = going m
    run_machine (suc n) m = elim (do_first m.code m) [
      | going m' ↦ run_machine n m'
      | exits s ↦ exits s
      | faults ↦ faults
    ]
