-- ===== src/Codegen/Assembly/Whole.antt =====
-- The text of a whole program is one that its operations run in.
use stacky.Common.{
  ℕ, ◌^◌, ◌<◌, ◌≡◌, refl, sym, ap, ◌∙◌, subst, ◌⊎◌, inl, inr, false, some, List, [], ◌∷◌, arith,
  length, get_elem?, ◌==◌, Bool-cases, text_eq,
}
use stacky.Syntax.{Operation, OperationKind, Text, Word, WordKind}
use stacky.Report.{Outcome, ok, Outcome-cases}
use stacky.Dictionary.{Words, find_word}
use stacky.Types.Check.{word_of}
use stacky.Codegen.Correct.{IsPure}
use stacky.Codegen.Functions.{jump_targets}
use stacky.Codegen.Functions.Labels.{AllAtMost}
use stacky.Codegen.Assembly.{Targeted, with_targets, function_targets}
use stacky.Codegen.Assembly.Sections.{Among, Others, Apart}

abbrev pub OtherIds : ℕ → Words → Type 0
OtherIds id [] = Unit {0}
OtherIds id ((name, word) ∷ words) =
    (word.kind ≡ WordKind.function → (id == word.id) ≡ false) × OtherIds id words

-- Functions have numbers of their own.
abbrev pub DistinctIds : Words → Type 0
DistinctIds [] = Unit {0}
DistinctIds ((name, word) ∷ words) =
    (word.kind ≡ WordKind.function → OtherIds word.id words) × DistinctIds words

-- No jump of the body goes further than its end.
abbrev pub JumpsInside : List Operation → Type 0
JumpsInside body =
    (targets : List ℕ) → jump_targets body ≡ ok targets → AllAtMost (length body) targets

-- Constants are words, an intrinsic is one that only the stack matters to, and a call carries the
-- number of the function it names.
abbrev pub IsGenerable : Words → OperationKind → Operation → Type 0
IsGenerable words OperationKind.push_int op = op.ival < 2 ^ 64
IsGenerable words OperationKind.intrinsic op = IsPure op.intrinsic
IsGenerable words OperationKind.call_symbol op =
    (word : Word) × (word_of words op.word ≡ some word)
    × (word.kind ≡ WordKind.function)
    × (op.ival ≡ word.id)
IsGenerable words _ op = Unit {0}

abbrev pub AllGenerable : Words → List Operation → Type 0
AllGenerable words body =
    (i : ℕ) (op : Operation) → get_elem? body i ≡ some op → IsGenerable words op.kind op

with_targets-cases :
    (k : WordKind) (word : Word) (rest : Outcome Targeted) (fs : Targeted)
    → with_targets k word rest ≡ ok fs
    → ((k ≡ WordKind.function)
        × (targets : List ℕ) × (gs : Targeted) × (jump_targets word.function_body ≡ ok targets)
        × (rest ≡ ok gs)
        × (fs ≡ (word, targets) ∷ gs))
      ⊎ ((¬ (k ≡ WordKind.function)) × (rest ≡ ok fs))
with_targets-cases WordKind.function word rest fs e =
    elim (Outcome-cases (jump_targets word.function_body)) [
      | inl (c, f) ↦ absurd (ground (arith, e, f))
      | inr (targets, f) ↦ elim (Outcome-cases rest) [
        | inl (c, g) ↦ absurd (ground (arith, e, f, g))
        | inr (gs, g) ↦ inl (refl, targets, gs, f, g, ground (arith, e, f, g))
      ]
    ]
with_targets-cases _ word rest fs e = inr ((λ k. absurd (ground (arith, k))), e)

OtherIds-Others :
    (id : ℕ) (words : Words) (fs : Targeted)
    → function_targets words ≡ ok fs
    → OtherIds id words
    → Others id fs
unfolding function_targets
OtherIds-Others id [] fs e h =
    let same : fs ≡ [] = ground (arith, e) in subst (Others id) (sym same) tt
OtherIds-Others id ((name, word) ∷ words) fs e h =
    elim (with_targets-cases word.kind word (function_targets words) fs e) [
      | inl (k, targets, gs, f, g, eq) ↦
          subst (Others id) (sym eq) (h.0 k, OtherIds-Others id words gs g h.1)
      | inr (k, g) ↦ OtherIds-Others id words fs g h.1
    ]

pub DistinctIds-Apart :
    (words : Words) (fs : Targeted) → function_targets words ≡ ok fs → DistinctIds words → Apart fs
unfolding function_targets
DistinctIds-Apart [] fs e h = let same : fs ≡ [] = ground (arith, e) in subst Apart (sym same) tt
DistinctIds-Apart ((name, word) ∷ words) fs e h =
    elim (with_targets-cases word.kind word (function_targets words) fs e) [
      | inl (k, targets, gs, f, g, eq) ↦
          subst Apart (sym eq)
            (OtherIds-Others word.id words gs g (h.0 k), DistinctIds-Apart words gs g h.1)
      | inr (k, g) ↦ DistinctIds-Apart words fs g h.1
    ]

pub find_word-Among :
    (name : Text) (words : Words) (fs : Targeted) (word : Word)
    → function_targets words ≡ ok fs
    → find_word name words ≡ some word
    → word.kind ≡ WordKind.function
    → (targets : List ℕ) × (jump_targets word.function_body ≡ ok targets) × Among word targets fs
unfolding function_targets find_word
find_word-Among name [] fs word e h k = absurd (ground (arith, h))
find_word-Among name ((key, w) ∷ words) fs word e h k = elim (Bool-cases (text_eq key name)) [
  | inl b ↦
      let same : w ≡ word = ground (arith, rw (find_word, b) at h) in
      elim (with_targets-cases w.kind w (function_targets words) fs e) [
        | inl (k', targets, gs, f, g, eq) ↦ (
          targets,
          subst (λ x. jump_targets x.function_body ≡ ok targets) same f,
          subst (Among word targets) (sym eq) (inl (ap (λ x. (x, targets)) same)),
        )
        | inr (k', g) ↦ absurd (k' (ap (λ x. x.kind) same ∙ k))
      ]
  | inr b ↦
      let later : find_word name words ≡ some word = ground (arith, rw (find_word, b) at h) in
      elim (with_targets-cases w.kind w (function_targets words) fs e) [
        | inl (k', targets, gs, f, g, eq) ↦
            let (ts, j, a) = find_word-Among name words gs word g later k in
            (ts, j, subst (Among word ts) (sym eq) (inr a))
        | inr (k', g) ↦ find_word-Among name words fs word g later k
      ]
]
