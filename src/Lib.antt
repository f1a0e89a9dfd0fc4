-- ===== src/Lib.antt =====
-- stacky: the compiler of a stack language, from source text to x86-64 assembly.
--
-- The program lexes a file into tokens (src/lexer.cc), turns the tokens into operations with resolved
-- jumps (src/parser.cc), checks the types on the stack (src/types.cc), optimizes the operations
-- (src/optimizer.cc) and writes assembly (src/linux-x86_64.cc). src/stacky.hh declares what they
-- share, src/errors.hh how they report.
--
-- Common      shared helpers: tests on native numbers, lists, texts, bits.
-- Syntax      the enumerations and structs of src/stacky.hh.
-- Report      src/errors.hh: a fatal report is an `exited` outcome, `error` a flag in the value.
-- Unicode     src/unicode.cc, `encode_rune`; Unicode/RoundTrip decodes.
-- Lexer       Lexer/Integer is `parse_int` of src/lexer.cc with its table of powers; Value, Suffix,
--             Literal and Overlong hold the proofs. Lexer/Tokens is `lex` with its keywords; Shape,
--             Literals, Covers, Returns and Open hold the proofs.
-- Parser      Parser/Crossreference is `crossreference` of src/parser.cc; Block is the inductive
--             description of well-formed blocks, Shape, Rounds, Statements and Correct the proofs.
--             Parser/Stringlike is `parse_stringlike` with the accumulators of strings and of
--             character literals; Spelling and Chars hold the proofs. Parser/Translate is
--             `translate_operation` with `Type::from` of src/types.cc, Parser/Definitions is
--             `register_definitions`, Parser/Extract is `extract_strings` and
--             `extract_include_or_import`, Parser/Intrinsics is `register_intrinsics` of
--             src/stacky.cc, and Parser/Functions is `into_operations` with
--             `function_into_operations`, whose blocks and effects are Parser/Nesting; but for the
--             intrinsics each has its proofs in files below it.
-- Dictionary  the words of src/stacky.hh, looked up and changed by name.
-- Types       Types/Effects is `typecheck_stack_effects` of src/types.cc and the effects of the
--             intrinsics, which Sound relates to their meaning; Types/Check is the worklist of
--             `typecheck` with its output verifiers. Straight follows the types of the values through
--             straight bodies, and Fits says which types fit an output; Closed, Moves, Rounds,
--             Certificate, Steps and Safe follow the depth of the stack through branches, loops and
--             calls. Types/Names is `type_name`, `join` and `Stack_Effect::string`.
-- Program     what a program does, step by step, as the language's reference says; Below and Framed
--             compare runs over different bottoms of the stack.
-- Machine     what an intrinsic means on the program's stack, as the language's reference says.
-- Optimizer   Optimizer/Folding is `constant_folding` of src/optimizer.cc, over the signed 64-bit
--             arithmetic of Optimizer/Signed. Optimizer/Unused is `remove_unused_words_and_strings`;
--             Marked, Closure, Reached and Returns hold the proofs. Optimizer/Conditions is
--             `optimize_comptime_known_conditions`, and Optimizer/Passes `for_all_functions` and
--             `optimize`; each has its proofs in Settled below it.
-- Driver      `search_include_path` of src/stacky.cc and the loop of `main` that replaces includes and
--             imports; Returns and Endless hold the proofs. Driver/Checking is the loop of `main` over
--             the functions that are type checked, with its proof in Safe.
-- Codegen     the instructions that src/linux-x86_64.cc writes, as data in place of text;
--             Codegen/Processor says what the processor documents about them. Codegen/Functions is
--             `generate_instructions` with the targets of one body. Codegen/Assembly is `asm_header`,
--             `emit_return`, `generate_assembly` and the `generate_jump_targets_lookup` of
--             src/stacky.cc for all bodies; below it, Machine says what the processor does with the
--             entries of the file, Placed which machine stands for a process of Program, and Runs,
--             Steps, Simulation, Operations, Branches, Calls and Step that the machine follows the
--             program; Finding, Bodies, Sections, Whole, Generated and Start find the file's labels.
-- Arguments   src/arguments.cc, the split of the command line at the first `--`.
-- Soundness   the type checker and the code generator together; Soundness/Assembled for the whole
--             file.
--
-- Conventions. A C++ enumerator Two_Dup is the constructor `two_dup`; an `unsigned` or a `uint64_t`
-- is a native number whose wrap-around is written out; a `std::string` is the list of its bytes. The
-- top of a stack, the back of a vector in the source, is the head of a list. A pointer to a word is
-- the word's key in the dictionary. The flag `Compilation_Failed` is one of each translation unit in
-- the source; here each function returns the flag that its own reports set. Undefined behaviour (a read outside of a table, signed overflow)
-- is `none` or a constructor `undefined`. The memory, the system and the random numbers behind the
-- generated code are the parameter `Platform`.
--
-- Fuel. The worklist of the type checker, the parser's loops over nested functions, the lexer's loop,
-- the marking of used words, the loop over included files and the optimizer's loops take fuel, and
-- `none`, `unfinished` or `endless` is its exhaustion; the theorems whose names end in `returns` say how
-- much is enough. No bound is stated for the worklist and for the loop of the optimizer's passes. The
-- other loops are structural recursion over the list or the count that bounds them.
--
-- A layout gives the addresses that the assembler and the linker choose. Return addresses lead back to
-- the code behind their calls; entries without bytes, such as labels, may share an address.
--
-- Not modelled: the rest of `main`, which reads the sources and runs the assembler and the linker, the
-- options of the command line and the graph output (input and output); what reports print; the
-- comments and the fixed directives of the assembly file.
pub mod Common
pub mod Syntax
pub mod Unicode
pub mod Lexer
pub mod Report
pub mod Parser
pub mod Machine
pub mod Codegen
pub mod Optimizer
pub mod Dictionary
pub mod Driver
pub mod Types
pub mod Soundness
pub mod Program
pub mod Arguments
