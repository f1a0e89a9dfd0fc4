-- ===== src/Codegen/Assembly.antt =====
-- src/linux-x86_64.cc, `asm_header`, `emit_return` and `generate_assembly`, and
-- `generate_jump_targets_lookup` of src/stacky.cc for the whole program: the assembly file, with an
-- entry for each of its lines. The targets of a body are the entries of the lookup with its name.
pub mod Machine
pub mod Runs
pub mod Placed
pub mod Steps
pub mod Simulation
pub mod Operations
pub mod Branches
pub mod Calls
pub mod Step
pub mod Finding
pub mod Bodies
pub mod Sections
pub mod Whole
pub mod Generated
pub mod Start
pub mod Tests
use stacky.Common.{
  ℕ, zero, suc, ◌-◌, Option, none, some, List, [], ◌∷◌, ◌++◌, map, ltb, if◌then◌else◌,
}
use stacky.Syntax.{Operation, Text, Word, WordKind}
use stacky.Report.{Outcome, ok, exited, ◌>>=◌}
use stacky.Dictionary.{Words}
use stacky.Codegen.{Reg, Instruction, pop, push, rax}
use stacky.Codegen.Functions.{Line, jump_targets, generate_instructions}

-- `int(c)` of a `char`, which is signed.
pub data Printed : Type 0 where
  plus minus : ℕ → Printed

abbrev pub int_of_char : ℕ → Printed
int_of_char c = if ltb c 128 then plus c else minus (256 - c)

-- `resb` behind the label of an array, and `db` behind the one of a string.
pub data Datum : Type 0 where
  reserve : ℕ → ℕ → Datum
  bytes : ℕ → List Printed → Datum

-- A line of a body carries the body's prefix: `none` is the main body, else the function's number.
-- `save_return` is `mov [_stacky_callstack+rbx*8], rax`, `load_return` the move back, and the
-- `callptr` entries read, increment and decrement `[_stacky_callptr]`; `exit_process` is the system
-- call at the end.
pub data Entry : Type 0 where
  line : Option ℕ → Line → Entry
  instruction : Instruction → Entry
  function_label : ℕ → Entry
  load_callptr add_callptr sub_callptr save_return load_return ret : Entry
  start_label save_argc save_argv exit_process : Entry

pub record Assembly : Type 0 where
  pub bss : List Datum
  pub rodata : List Datum
  pub text : List Entry

abbrev array_datum : WordKind → Word → List Datum → List Datum
array_datum WordKind.array word rest = reserve word.id word.byte_size ∷ rest
array_datum _ word rest = rest

unfoldable pub bss_segment : Words → List Datum
bss_segment [] = []
bss_segment ((name, word) ∷ words) = array_datum word.kind word (bss_segment words)

unfoldable pub string_bytes : Text → List Printed
string_bytes [] = plus 0 ∷ []
string_bytes (c ∷ s) = int_of_char c ∷ string_bytes s

unfoldable pub rodata_segment : List (Text × ℕ) → List Datum
unfolding string_bytes
rodata_segment [] = []
rodata_segment ((s, id) ∷ strings) = bytes id (string_bytes s) ∷ rodata_segment strings

abbrev pub emit_return : List Entry
emit_return = sub_callptr ∷ load_callptr ∷ load_return ∷ instruction (push rax) ∷ ret ∷ []

-- The functions with the targets of their jumps.
abbrev pub Targeted : Type 0
Targeted = List (Word × List ℕ)

abbrev with_targets : WordKind → Word → Outcome Targeted → Outcome Targeted
with_targets WordKind.function word rest = do
  targets ← jump_targets word.function_body
  functions ← rest
  ok ((word, targets) ∷ functions)
with_targets _ word rest = rest

unfoldable pub function_targets : Words → Outcome Targeted
unfolding jump_targets
function_targets [] = ok []
function_targets ((name, word) ∷ words) = with_targets word.kind word (function_targets words)

pub record Lookup : Type 0 where
  pub main : List ℕ
  pub functions : Targeted

unfoldable pub generate_jump_targets_lookup : Words → List Operation → Outcome Lookup
unfolding function_targets
generate_jump_targets_lookup words main = do
  targets ← jump_targets main
  functions ← function_targets words
  ok (record { main = targets; functions = functions })

abbrev pub function_entries : ℕ → List Line → List Entry
function_entries id lines =
    function_label id
    ∷ instruction (pop rax)
    ∷ load_callptr
    ∷ save_return
    ∷ add_callptr
    ∷ (map (line (some id)) lines ++ emit_return)

unfoldable pub function_sections : Targeted → Outcome (List Entry)
unfolding generate_instructions
function_sections [] = ok []
function_sections ((word, targets) ∷ functions) = do
  lines ← generate_instructions targets word.function_body
  rest ← function_sections functions
  ok (function_entries word.id lines ++ rest)

abbrev pub main_entries : List Line → List Entry
main_entries lines =
    start_label
    ∷ instruction (pop rax)
    ∷ save_argc
    ∷ save_argv
    ∷ (map (line none) lines ++ exit_process ∷ [])

unfoldable pub generate_text : Lookup → List Operation → Outcome (List Entry)
unfolding function_sections
generate_text lookup main = do
  functions ← function_sections lookup.functions
  lines ← generate_instructions lookup.main main
  ok (functions ++ main_entries lines)

unfoldable pub generate_assembly :
    Lookup → Words → List (Text × ℕ) → List Operation → Outcome Assembly
unfolding bss_segment rodata_segment generate_text
generate_assembly lookup words strings main = do
  text ← generate_text lookup main
  ok (record { bss = bss_segment words; rodata = rodata_segment strings; text = text })
