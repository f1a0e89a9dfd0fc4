-- ===== src/Codegen/Assembly/Generated.antt =====
-- The whole assembly file does what its program of operations means.
use mathlib.Core.List.{append_assoc}
use stacky.Common.{
  ℕ, ◌^◌, ◌<◌, ◌≡◌, refl, sym, ap, ◌∙◌, subst, inl, inr, Option, none, some, List, [], ◌∷◌, ◌++◌,
  map, arith, length,
}
use stacky.Syntax.{Operation, OperationKind, SymbolPrefix, Text, Word, WordKind}
use stacky.Report.{ok, Outcome-cases}
use stacky.Dictionary.{Words}
use stacky.Types.Check.{word_of}
use stacky.Codegen.{pop, rax}
use stacky.Codegen.Functions.{Line, jump_targets, generate_instructions}
use stacky.Codegen.Functions.Labels.{AllAtMost}
use stacky.Codegen.Assembly.{
  Entry, line, instruction, function_label, load_callptr, save_return, add_callptr, emit_return,
  function_targets, function_entries, function_sections, Lookup, generate_jump_targets_lookup,
  generate_text, main_entries,
}
use stacky.Codegen.Assembly.Machine.{Layout, find_function}
use stacky.Codegen.Assembly.Placed.{IsReturn, Stands, FitsKind, AllFit, Loaded}
use stacky.Codegen.Assembly.Bodies.{written-Placed}
use stacky.Codegen.Assembly.Sections.{
  AllForeign-Unlabelled, find_function-behind, find_function-here, InText, function_sections-InText,
}
use stacky.Codegen.Assembly.Finding.{Unlabelled-append}
use stacky.Codegen.Assembly.Whole.{
  DistinctIds, JumpsInside, IsGenerable, AllGenerable, find_word-Among, DistinctIds-Apart,
}

InText-append :
    (id : ℕ) (body : List Operation) (targets : List ℕ) (text more : List Entry)
    → InText id body targets text
    → InText id body targets (text ++ more)
InText-append id body targets text more (pre, lines, post, g, k, foreign) = (
  pre,
  lines,
  post ++ more,
  g,
  ap (λ t. t ++ more) k
      ∙ append_assoc pre (function_entries id lines ++ post) more
      ∙ ap (λ t. pre ++ t) (append_assoc (function_entries id lines) post more),
  foreign,
)

InText-Stands :
    (id : ℕ) (body : List Operation) (targets : List ℕ) (text : List Entry)
    → jump_targets body ≡ ok targets
    → AllAtMost (length body) targets
    → InText id body targets text
    → Stands text id body
unfolding generate_instructions
InText-Stands id body targets text collected inside (pre, lines, post, g, k, foreign) =
    let q = some id in
    let tail = emit_return ++ post in
    let behind = map (line q) lines ++ tail in
    let front : List Entry =
      function_label id ∷ instruction (pop rax) ∷ load_callptr ∷ save_return ∷ add_callptr ∷ [] in
    let joined : function_entries id lines ++ post ≡ front ++ behind =
      ap (λ c. front ++ c) (append_assoc (map (line q) lines) emit_return post) in
    let text_is : text ≡ pre ++ (front ++ behind) = k ∙ ap (λ c. pre ++ c) joined in
    let text_at : text ≡ (pre ++ front) ++ behind = text_is ∙ sym (append_assoc pre front behind) in
    (
      written-Placed q text (pre ++ front) tail body targets lines collected inside g text_at (λ n.
          Unlabelled-append q n pre front (AllForeign-Unlabelled q n pre foreign)
            (refl, (refl, (refl, (refl, (refl, tt)))))),
      behind,
      post,
      ap (find_function id) text_is
          ∙ find_function-behind id pre (front ++ behind) foreign
          ∙ find_function-here id
              (instruction (pop rax) ∷ load_callptr ∷ save_return ∷ add_callptr ∷ behind),
      (lines, g, refl),
      refl,
      (pre ++ front, text_at),
    )

-- What a program needs for its code: numbers apart, jumps inside, and operations of the kinds that the
-- code stands for.
pub record Generable (words : Words) (main : List Operation) : Type 0 where
  pub distinct : DistinctIds words
  pub functions_inside :
      (name : Option Text) (word : Word)
      → word_of words name ≡ some word
      → JumpsInside word.function_body
  pub functions_generable :
      (name : Option Text) (word : Word)
      → word_of words name ≡ some word
      → AllGenerable words word.function_body
  pub main_inside : JumpsInside main
  pub main_generable : AllGenerable words main

-- The addresses of the labels are words, and the return address of a call, the place of the next byte
-- behind it, leads back to the code there. Entries without bytes may share an address with others.
pub record IsLaidOut (layout : Layout) (text : List Entry) : Type 0 where
  pub found_again :
      (code : List Entry) → IsReturn code text → layout.code_at (layout.address code) ≡ some code
  pub symbols : (prefix : SymbolPrefix) (n : ℕ) → layout.symbol prefix n < 2 ^ 64

-- The parts of the text.
abbrev pub Parts : Lookup → List Operation → List Entry → Type 0
Parts lookup main text =
    (functions : List Entry) × (lines : List Line) × (function_sections lookup.functions
      ≡ ok functions)
    × (generate_instructions lookup.main main ≡ ok lines)
    × (text ≡ functions ++ main_entries lines)

pub generate_text-Parts :
    (lookup : Lookup) (main : List Operation) (text : List Entry)
    → generate_text lookup main ≡ ok text
    → Parts lookup main text
unfolding generate_text
generate_text-Parts lookup main text e = elim (Outcome-cases (function_sections lookup.functions)) [
  | inl (c, f) ↦ absurd (ground (arith, rw (generate_text, f) at e))
  | inr (functions, f) ↦ elim (Outcome-cases (generate_instructions lookup.main main)) [
    | inl (c, g) ↦ absurd (ground (arith, rw (generate_text, f, g) at e))
    | inr (lines, g) ↦ (functions, lines, f, g, ground (arith, rw (generate_text, f, g) at e))
  ]
]

abbrev pub Looked : Words → List Operation → Lookup → Type 0
Looked words main lookup =
    (jump_targets main ≡ ok lookup.main) × (function_targets words ≡ ok lookup.functions)

pub generate_jump_targets_lookup-Looked :
    (words : Words) (main : List Operation) (lookup : Lookup)
    → generate_jump_targets_lookup words main ≡ ok lookup
    → Looked words main lookup
unfolding generate_jump_targets_lookup
generate_jump_targets_lookup-Looked words main lookup e = elim (Outcome-cases (jump_targets main)) [
  | inl (c, f) ↦ absurd (ground (arith, rw (generate_jump_targets_lookup, f) at e))
  | inr (targets, f) ↦ elim (Outcome-cases (function_targets words)) [
    | inl (c, g) ↦ absurd (ground (arith, rw (generate_jump_targets_lookup, f, g) at e))
    | inr (functions, g) ↦
        let same = rw (generate_jump_targets_lookup, f, g) at e in
        (ground (arith, f, same), ground (arith, g, same))
  ]
]

module _ (layout : Layout) (words : Words) (main : List Operation) (lookup : Lookup)
    (text : List Entry) (looked : Looked words main lookup) (parts : Parts lookup main text)
    (generable : Generable words main) (laid_out : IsLaidOut layout text) where
  callee-Stands :
      (name : Option Text) (word : Word)
      → word_of words name ≡ some word
      → word.kind ≡ WordKind.function
      → Stands text word.id word.function_body
  callee-Stands none word e k = absurd (ground (arith, e))
  callee-Stands (some name) word e k =
      let (targets, j, a) = find_word-Among name words lookup.functions word looked.1 e k in
      let (functions, lines, f, g, text_is) = parts in
      let apart = DistinctIds-Apart words lookup.functions looked.1 generable.distinct in
      InText-Stands word.id word.function_body targets text j
        (generable.functions_inside (some name) word e targets j)
        (subst (InText word.id word.function_body targets) (sym text_is) (
          InText-append word.id word.function_body targets functions (main_entries lines)
            (function_sections-InText word targets lookup.functions functions f apart a)))

  IsGenerable-FitsKind :
      (k : OperationKind) (op : Operation) → IsGenerable words k op → FitsKind text words k op
  IsGenerable-FitsKind OperationKind.call_symbol op (word, e, k, same) = (
    word,
    e,
    subst (λ id. Stands text id word.function_body) (sym same) (callee-Stands op.word word e k),
  )
  IsGenerable-FitsKind OperationKind.push_int op h = h
  IsGenerable-FitsKind OperationKind.intrinsic op h = h
  IsGenerable-FitsKind _ op h = tt

  pub AllGenerable-AllFit :
      (body : List Operation) → AllGenerable words body → AllFit text words body
  AllGenerable-AllFit body h i op g = IsGenerable-FitsKind op.kind op (h i op g)

  abbrev pub whole-Loaded : Loaded layout text words
  whole-Loaded = record {
    bodies_fit = λ op word e.
        AllGenerable-AllFit word.function_body (generable.functions_generable op.word word e);
    found_again = laid_out.found_again;
    symbols = laid_out.symbols;
  }
