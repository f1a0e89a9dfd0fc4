-- ===== src/Codegen/Assembly/Tests.antt =====
-- A program with a loop and a call, from its operations to the exit of its assembly file.
use stacky.Common.{
  ℕ, zero, suc, ◌+◌, ◌-◌, ◌==◌, ◌&&◌, Bool, false, if◌then◌else◌, ◌≡◌, refl, ap, inl, inr, ◌∙◌,
  subst, Option, none, some, true, List, [], ◌∷◌, ◌++◌, arith, codes, Bool-cases, text_eq,
}
use stacky.Syntax.{
  Operation, OperationKind, IntrinsicKind, Text, Word, WordKind, new_operation, new_word,
}
use stacky.Report.{Outcome, ok, exited}
use stacky.Machine.{pure}
use stacky.Dictionary.{Words, find_word}
use stacky.Types.Check.{word_of}
use stacky.Types.Effects.{int_t}
use stacky.Program.{step, run as run_program}
use stacky.Codegen.Tests.{still, start}
use stacky.Codegen.Functions.{label, call_function, jump_targets}
use stacky.Codegen.Functions.Labels.{AllAtMost}
use stacky.Codegen.Assembly.{
  Entry, line, function_label, start_label, Assembly, Lookup, generate_jump_targets_lookup,
  generate_assembly,
}
use stacky.Codegen.Assembly.Machine.{Layout, Machine, Starts, exits, find_start}
use stacky.Codegen.Assembly.Placed.{IsReturn}
use stacky.Codegen.Assembly.Runs.{Reaches}
use stacky.Codegen.Assembly.Step.{OnRun, address_at}
use stacky.Codegen.Assembly.Whole.{AllGenerable, IsGenerable, JumpsInside}
use stacky.Codegen.Assembly.Generated.{Generable, IsLaidOut}
use stacky.Codegen.Assembly.Start.{beginning, generate_assembly-Behaves}

-- `1 -`, the body of `dec`
abbrev dec_body : List Operation
dec_body =
    record (new_operation OperationKind.push_int) { ival = 1 }
    ∷ record (new_operation OperationKind.intrinsic) { intrinsic = IntrinsicKind.subtract }
    ∷ []

abbrev pub dec : Word
dec = record new_word {
  kind = WordKind.function;
  id = 7;
  function_body = dec_body;
  has_effect = true;
  effect = record { input = int_t ∷ []; output = int_t ∷ [] };
}

abbrev pub words : Words
words = (codes "dec", dec) ∷ []

some_inj : {a b : Operation} → some a ≡ some b → a ≡ b
some_inj e = ground (arith, e)

-- `1 while dup 0 != do dec end drop`
abbrev pub main : List Operation
main =
    record (new_operation OperationKind.push_int) { ival = 1 }
    ∷ new_operation OperationKind.while
    ∷ record (new_operation OperationKind.intrinsic) { intrinsic = IntrinsicKind.dup }
    ∷ new_operation OperationKind.push_int
    ∷ record (new_operation OperationKind.intrinsic) { intrinsic = IntrinsicKind.not_equal }
    ∷ record (new_operation OperationKind.do_) { jump = 8 }
    ∷ record (new_operation OperationKind.call_symbol) { word = some (codes "dec"); ival = 7 }
    ∷ record (new_operation OperationKind.end) { jump = 1 }
    ∷ record (new_operation OperationKind.intrinsic) { intrinsic = IntrinsicKind.drop }
    ∷ []

abbrev zeros : ℕ → List ℕ
zeros zero = []
zeros (suc n) = 0 ∷ zeros n

abbrev pub lookup : Lookup
lookup = record { main = 8 ∷ 1 ∷ []; functions = (dec, []) ∷ [] }

pub looked : generate_jump_targets_lookup words main ≡ ok lookup
unfolding generate_jump_targets_lookup
looked = refl

-- A label takes no bytes, and every other entry takes five.
abbrev size_of : Entry → ℕ
size_of (line q (label n)) = 0
size_of (function_label id) = 0
size_of start_label = 0
size_of _ = 5

bytes : List Entry → ℕ
bytes [] = 0
bytes (e ∷ code) = size_of e + bytes code

abbrev is_call : Entry → Bool
is_call (line q (call_function id)) = true
is_call _ = false

-- The code behind a call that `n` bytes are left from.
behind_call : ℕ → List Entry → Option (List Entry)
unfolding bytes
behind_call n [] = none
behind_call n (e ∷ code) =
    let rest = behind_call n code in if is_call e && (bytes code == n) then some code else rest

-- The text begins at 0x400000.
pub address_in : List Entry → List Entry → ℕ
unfolding bytes
address_in text code = 4194304 + (bytes text - bytes code)

pub code_in : List Entry → ℕ → Option (List Entry)
unfolding bytes behind_call
code_in text a = behind_call (bytes text - (a - 4194304)) text

abbrev pub layout_of : List Entry → Layout
layout_of text = record {
  address = address_in text;
  code_at = code_in text;
  symbol = λ prefix n. 0;
}

bytes-append : (pre code : List Entry) → bytes (pre ++ code) ≡ bytes pre + bytes code
unfolding bytes
bytes-append [] code = omega arith
bytes-append (e ∷ pre) code = omega (arith, bytes-append pre code)

behind_call-found :
    (q : Option ℕ) (id : ℕ) (pre code : List Entry)
    → behind_call (bytes code) (pre ++ line q (call_function id) ∷ code) ≡ some code
unfolding behind_call
behind_call-found q id [] code = ground arith
behind_call-found q id (e ∷ pre) code =
    let more : (bytes (pre ++ line q (call_function id) ∷ code) == bytes code) ≡ false =
      unfold bytes in ground (arith, bytes-append pre (line q (call_function id) ∷ code)) in
    ground (arith, more, behind_call-found q id pre code)

code_in-address_in :
    (text code : List Entry) → IsReturn code text → code_in text (address_in text code) ≡ some code
unfolding code_in address_in bytes
code_in-address_in text code (q, id, (pre, e)) =
    ap (λ n. behind_call n text)
      (omega (arith, ap bytes e, bytes-append pre (line q (call_function id) ∷ code)))
    ∙ ap (behind_call (bytes code)) e
    ∙ behind_call-found q id pre code

pub layout_of-IsLaidOut : (text : List Entry) → IsLaidOut (layout_of text) text
layout_of-IsLaidOut text = record {
  found_again = code_in-address_in text;
  symbols = λ prefix n. omega arith;
}

-- What the system puts below the number of arguments: the name of the program, and no variables.
abbrev pub below : List ℕ
below = 140737488347135 ∷ 0 ∷ 0 ∷ []

abbrev result : Outcome Assembly → Assembly
result (ok assembly) = assembly
result (exited c) = record { bss = []; rodata = []; text = [] }

abbrev pub assembly : Assembly
unfolding generate_assembly
assembly = result (generate_assembly lookup words [] main)

pub made : generate_assembly lookup words [] main ≡ ok assembly
unfolding generate_assembly
made = refl

abbrev entry_of : List Entry → List Entry
entry_of text = elim (find_start text) [ none ↦ [] | some code ↦ code ]

abbrev pub machine : Machine still
machine = record {
  code = entry_of assembly.text;
  cpu = record start { stack = 1 ∷ below };
  world = tt;
  slots = zeros 1024;
  pointer = 0;
  argc = 0;
}

pub starts : Starts still (layout_of assembly.text) assembly.text below machine
unfolding find_start generate_assembly
starts = record {
  at_start = refl;
  arguments = (1, refl);
  words_below = (omega arith, (omega arith, (omega arith, tt)));
  room = refl;
  no_callers = refl;
}

found : (name : Option Text) (word : Word) → word_of words name ≡ some word → dec ≡ word
unfolding find_word
found none word e = absurd (ground (arith, e))
found (some name) word e = elim (Bool-cases (text_eq (codes "dec") name)) [
  | inl b ↦ ground (arith, rw (find_word, b) at e)
  | inr b ↦ absurd (ground (arith, rw (find_word, b) at e))
]

dec_inside : JumpsInside dec_body
unfolding jump_targets
dec_inside targets e = let same : [] ≡ targets = ground (arith, e) in subst (AllAtMost 2) same tt

main_inside : JumpsInside main
unfolding jump_targets
main_inside targets e =
    let same : 8 ∷ 1 ∷ [] ≡ targets = ground (arith, e) in
    subst (AllAtMost 9) same (omega arith, (omega arith, tt))

abbrev At : OperationKind → Operation → Type 0
At k op = IsGenerable words k op

dec_generable : AllGenerable words dec_body
dec_generable zero op e = subst (λ o. At o.kind o) (some_inj e) (omega arith)
dec_generable (suc zero) op e = subst (λ o. At o.kind o) (some_inj e) tt
dec_generable (suc (suc i)) op e = absurd (ground (arith, e))

main_generable : AllGenerable words main
unfolding find_word
main_generable zero op e = subst (λ o. At o.kind o) (some_inj e) (omega arith)
main_generable (suc zero) op e = subst (λ o. At o.kind o) (some_inj e) tt
main_generable (suc (suc zero)) op e = subst (λ o. At o.kind o) (some_inj e) tt
main_generable (suc (suc (suc zero))) op e = subst (λ o. At o.kind o) (some_inj e) (omega arith)
main_generable (suc (suc (suc (suc zero)))) op e = subst (λ o. At o.kind o) (some_inj e) tt
main_generable (suc (suc (suc (suc (suc zero))))) op e = subst (λ o. At o.kind o) (some_inj e) tt
main_generable (suc (suc (suc (suc (suc (suc zero)))))) op e =
    subst (λ o. At o.kind o) (some_inj e) (dec, refl, refl, refl)
main_generable (suc (suc (suc (suc (suc (suc (suc zero))))))) op e =
    subst (λ o. At o.kind o) (some_inj e) tt
main_generable (suc (suc (suc (suc (suc (suc (suc (suc zero)))))))) op e =
    subst (λ o. At o.kind o) (some_inj e) tt
main_generable (suc (suc (suc (suc (suc (suc (suc (suc (suc i))))))))) op e =
    absurd (ground (arith, e))

pub generable : Generable words main
generable = record {
  distinct = ((λ k. tt), tt);
  functions_inside =
      λ name word e. subst (λ w. JumpsInside w.function_body) (found name word e) dec_inside;
  functions_generable = λ name word e.
      subst (λ w. AllGenerable words w.function_body) (found name word e) dec_generable;
  main_inside = main_inside;
  main_generable = main_generable;
}

pub on_run : OnRun (layout_of assembly.text) words (λ n. 0) 18 (beginning main)
unfolding OnRun address_at step pure find_word
on_run = (
  refl,
  omega arith,
  (
    refl,
    omega arith,
    (
      refl,
      omega arith,
      (
        refl,
        omega arith,
        (
          refl,
          omega arith,
          (
            refl,
            omega arith,
            (
              refl,
              omega arith,
              (
                refl,
                omega arith,
                (
                  refl,
                  omega arith,
                  (
                    refl,
                    omega arith,
                    (
                      refl,
                      omega arith,
                      (
                        refl,
                        omega arith,
                        (
                          refl,
                          omega arith,
                          (
                            refl,
                            omega arith,
                            (
                              refl,
                              omega arith,
                              (refl, omega arith, (refl, omega arith, (refl, omega arith, tt))),
                            ),
                          ),
                        ),
                      ),
                    ),
                  ),
                ),
              ),
            ),
          ),
        ),
      ),
    ),
  ),
)

generate_assembly-Behaves_example :
    Reaches still (layout_of assembly.text) assembly.text machine (exits below)
unfolding run_program pure find_word
generate_assembly-Behaves_example =
    generate_assembly-Behaves still (layout_of assembly.text) words [] main lookup assembly (λ n. 0)
      18 below machine looked made generable (layout_of-IsLaidOut assembly.text) starts on_run
