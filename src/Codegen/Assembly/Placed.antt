-- ===== src/Codegen/Assembly/Placed.antt =====
-- Where a body stands in the text of an assembly file, and which machine stands for a process of
-- Program.
use stacky.Common.{
  ℕ, suc, ◌^◌, ◌<◌, ◌≡◌, Option, some, List, [], ◌∷◌, ◌++◌, map, length, drop, get_elem?,
}
use stacky.Syntax.{Operation, OperationKind, SymbolPrefix, Word}
use stacky.Report.{ok}
use stacky.Machine.{Platform, AllWords}
use stacky.Dictionary.{Words}
use stacky.Types.Check.{word_of}
use stacky.Program.{Frame, Process}
use stacky.Codegen.{pop, rax}
use stacky.Codegen.Correct.{IsPure}
use stacky.Codegen.Functions.{call_function, Line, operation_lines, lines_from}
use stacky.Codegen.Assembly.{
  Entry, line, instruction, load_callptr, save_return, add_callptr, exit_process, emit_return,
}
use stacky.Codegen.Assembly.Machine.{Layout, Machine, find_line, find_function}

abbrev pub IsSuffix : List Entry → List Entry → Type 0
IsSuffix code text = (pre : List Entry) × (text ≡ pre ++ code)

-- The code behind a call of the text: what a return address points to.
abbrev pub IsReturn : List Entry → List Entry → Type 0
IsReturn code text = (q : Option ℕ) × (id : ℕ) × IsSuffix (line q (call_function id) ∷ code) text

-- A body of `size` operations with the prefix `q`, the targets of its jumps, and what stands behind it.
module _ (q : Option ℕ) (size : ℕ) (targets : List ℕ) (tail : List Entry) where
  -- The code from a label of the operation at `i` on; `ops` are the operations from there.
  abbrev pub Before : ℕ → List Operation → List Entry → Type 0
  Before i ops code =
      (lines : List Line) × (lines_from i size targets ops ≡ ok lines)
      × (code ≡ map (line q) lines ++ tail)

  -- The code behind that label.
  abbrev pub After : ℕ → List Operation → List Entry → Type 0
  After i [] code = code ≡ tail
  After i (op ∷ ops) code =
      (body : List Line) × (rest : List Line) × (operation_lines i size op.kind op ≡ ok body)
      × (lines_from (suc i) size targets ops ≡ ok rest)
      × (code ≡ map (line q) body ++ (map (line q) rest ++ tail))

-- The kinds with a jump.
abbrev pub Jumps : OperationKind → Type 0
Jumps OperationKind.end = Unit {0}
Jumps OperationKind.if_ = Unit {0}
Jumps OperationKind.else_ = Unit {0}
Jumps OperationKind.do_ = Unit {0}
Jumps _ = ⊥

-- A label of the body is found in the text, at the operation with its number.
abbrev pub Lands : Option ℕ → List Operation → List ℕ → List Entry → List Entry → ℕ → Type 0
Lands q body targets tail text n =
    (code : List Entry) × (find_line q n text ≡ some code)
    × After q (length body) targets tail n (drop n body) code
    × IsSuffix code text

-- The body stands in the text, with all the labels that it jumps to.
pub record Placed (text : List Entry) (body : List Operation) : Type 0 where
  pub prefix : Option ℕ
  pub targets : List ℕ
  pub tail : List Entry
  pub lands :
      (i : ℕ) (op : Operation)
      → get_elem? body i ≡ some op
      → Jumps op.kind
      → Lands prefix body targets tail text op.jump
  pub lands_end : Lands prefix body targets tail text (length body)

-- The function with this number is found, and its body behind the code that keeps the return address.
abbrev pub Stands : List Entry → ℕ → List Operation → Type 0
Stands text id body =
    (pl : Placed text body) × (code : List Entry) × (rest : List Entry) × (find_function id text
      ≡ some (instruction (pop rax) ∷ load_callptr ∷ save_return ∷ add_callptr ∷ code))
    × Before pl.prefix (length body) pl.targets pl.tail 0 body code
    × (pl.tail ≡ emit_return ++ rest)
    × IsSuffix code text

-- What the generated code can be trusted with: constants are words, an intrinsic is one that only the
-- stack matters to, and a call's number is the one of a function that stands in the text.
module _ (text : List Entry) (words : Words) where
  abbrev pub FitsKind : OperationKind → Operation → Type 0
  FitsKind OperationKind.push_int op = op.ival < 2 ^ 64
  FitsKind OperationKind.intrinsic op = IsPure op.intrinsic
  FitsKind OperationKind.call_symbol op =
      (word : Word) × (word_of words op.word ≡ some word) × Stands text op.ival word.function_body
  FitsKind _ op = Unit {0}

  abbrev pub AllFit : List Operation → Type 0
  AllFit body = (i : ℕ) (op : Operation) → get_elem? body i ≡ some op → FitsKind op.kind op

-- The text of a whole program: what every function needs is there, and the return addresses of its
-- calls lead back to the code behind them.
pub record Loaded (layout : Layout) (text : List Entry) (words : Words) : Type 0 where
  pub bodies_fit :
      (op : Operation) (word : Word)
      → word_of words op.word ≡ some word
      → AllFit text words word.function_body
  pub found_again :
      (code : List Entry) → IsReturn code text → layout.code_at (layout.address code) ≡ some code
  pub symbols : (prefix : SymbolPrefix) (n : ℕ) → layout.symbol prefix n < 2 ^ 64

-- What stands behind the body of a process with these callers.
abbrev pub EndsIn : List Frame → List Entry → Type 0
EndsIn [] tail = (rest : List Entry) × (tail ≡ exit_process ∷ rest)
EndsIn (f ∷ fs) tail = (rest : List Entry) × (tail ≡ emit_return ++ rest)

module _ (layout : Layout) (text : List Entry) (words : Words) where
  -- The return stack holds the addresses of the callers.
  abbrev pub FramesAt : List Frame → List ℕ → ℕ → Type 0
  FramesAt [] slots pointer = pointer ≡ 0
  FramesAt (f ∷ fs) slots pointer =
      (k : ℕ) × (code : List Entry) × (pl : Placed text f.body) × (pointer ≡ suc k)
      × (get_elem? slots k ≡ some (layout.address code))
      × IsReturn code text
      × Before pl.prefix (length f.body) pl.targets pl.tail f.ip (drop f.ip f.body) code
      × EndsIn fs pl.tail
      × AllFit text words f.body
      × FramesAt fs slots k

  module _ (p : Platform) where
    -- The machine stands at the operation of the process, with the process's stack.
    pub record Matches (process : Process) (m : Machine p) : Type 0 where
      pub place : Placed text process.body
      pub at_code :
          After place.prefix
            (length process.body)
            place.targets
            place.tail
            process.ip
            (drop process.ip process.body)
            m.code
      pub in_text : IsSuffix m.code text
      pub ends_in : EndsIn process.frames place.tail
      pub fits : AllFit text words process.body
      pub same_stack : m.cpu.stack ≡ process.stack
      pub all_words : AllWords process.stack
      pub capacity : length m.slots ≡ 1024
      pub callers : FramesAt process.frames m.slots m.pointer
