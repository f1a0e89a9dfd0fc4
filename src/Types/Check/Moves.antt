-- ===== src/Types/Check/Moves.antt =====
-- src/types.cc, `typecheck`: what each operation asks of the stack's depth.
use stacky.Common.{
  suc, ◌≡◌, refl, sym, ap, ◌∙◌, inl, inr, true, false, some, [], ◌∷◌, arith, length, Bool-cases,
  Option-cases,
}
use stacky.Syntax.{Typestack, Operation, OperationKind, Word, with_location}
use stacky.Report.{ok, Outcome-cases}
use stacky.Program.{operation_step}
use stacky.Types.Effects.{typecheck_stack_effects, effect, any_t, bool_t, ptr_t}
use stacky.Types.Effects.Sound.{typecheck_intrinsic}
use stacky.Types.Effects.Depth.{typecheck_stack_effects-length, typecheck_intrinsic-Goes}
use stacky.Dictionary.{Words}
use stacky.Types.Check.{
  Move, advance, goto, branch, loop, leave, check_operation, check_call, word_of,
}
use stacky.Types.Check.Closed.{PassesAs, IsPlain, IsGoto, Called}
use stacky.Types.Check.Straight.{as_move, exited-move, ok-move, intrinsic_move}

pub data Moved (words : Words) (k : OperationKind) (op : Operation) (ts : Typestack) (m : Move)
    : Type 0 where
  plain :
      (ts' : Typestack)
      → m ≡ advance ts'
      → IsPlain k
      → PassesAs k op (length ts) (length ts')
      → Moved words k op ts m
  call :
      (ts' : Typestack)
      → m ≡ advance ts'
      → k ≡ OperationKind.call_symbol
      → Called words op (length ts) (length ts')
      → Moved words k op ts m
  dynamic :
      (word : Word)
      → word_of words op.word ≡ some word
      → word.is_dynamically_typed ≡ true
      → Moved words k op ts m
  go : m ≡ goto op.jump → IsGoto k → Moved words k op ts m
  fork :
      (ts' : Typestack)
      → m ≡ branch ts' op.jump
      → k ≡ OperationKind.if_
      → length ts ≡ suc (length ts')
      → Moved words k op ts m
  repeat :
      (ts' : Typestack)
      → m ≡ loop ts' op.jump
      → k ≡ OperationKind.do_
      → length ts ≡ suc (length ts')
      → Moved words k op ts m
  out : m ≡ leave → k ≡ OperationKind.return → Moved words k op ts m

-- The condition of an `if` or a `do`.
condition :
    (ts ts' : Typestack)
    → typecheck_stack_effects (effect (bool_t ∷ []) [] ∷ []) ts ≡ ok ts'
    → length ts ≡ suc (length ts')
condition ts ts' e =
    let (b, before, after) = typecheck_stack_effects-length (effect (bool_t ∷ []) []) ts ts' e in
    omega (arith, before, after)

module _ (words : Words) (op : Operation) (ts : Typestack) (m : Move) where
  Moved-if :
      check_operation words OperationKind.if_ op ts ≡ ok m → Moved words OperationKind.if_ op ts m
  unfolding check_operation
  Moved-if e = elim (Outcome-cases (typecheck_stack_effects (effect (bool_t ∷ []) [] ∷ []) ts)) [
    | inl (c, f) ↦ absurd (ground (arith, e, f))
    | inr (ts', f) ↦ fork ts' (ground (arith, e, f)) refl (condition ts ts' f)
  ]

  Moved-do :
      check_operation words OperationKind.do_ op ts ≡ ok m → Moved words OperationKind.do_ op ts m
  unfolding check_operation
  Moved-do e = elim (Outcome-cases (typecheck_stack_effects (effect (bool_t ∷ []) [] ∷ []) ts)) [
    | inl (c, f) ↦ absurd (ground (arith, e, f))
    | inr (ts', f) ↦ repeat ts' (ground (arith, e, f)) refl (condition ts ts' f)
  ]

  Moved-cast :
      check_operation words OperationKind.cast op ts ≡ ok m → Moved words OperationKind.cast op ts m
  unfolding check_operation operation_step
  Moved-cast e =
      elim (Outcome-cases (typecheck_stack_effects (effect (any_t ∷ []) (op.type ∷ []) ∷ []) ts)) [
        | inl (c, f) ↦ absurd (ground (arith, e, f))
        | inr (ts', f) ↦
            let (b, before, after) =
              typecheck_stack_effects-length (effect (any_t ∷ []) (op.type ∷ [])) ts ts' f in
            plain ts' (ground (arith, e, f)) tt (λ v s h. omega (arith, h, before, after))
      ]

  Moved-intrinsic :
      check_operation words OperationKind.intrinsic op ts ≡ ok m
      → Moved words OperationKind.intrinsic op ts m
  unfolding operation_step
  Moved-intrinsic e = elim (Outcome-cases (typecheck_intrinsic op.intrinsic op.token.sval ts)) [
    | inl (c, f) ↦
        absurd (exited-move c m (sym (ap as_move f) ∙ sym (intrinsic_move words op ts) ∙ e))
    | inr (ts', f) ↦
        plain ts' (ok-move m ts' (sym (ap as_move f) ∙ sym (intrinsic_move words op ts) ∙ e)) tt
          (λ v s h. typecheck_intrinsic-Goes op.intrinsic op.token.sval ts ts' s v h f)
  ]

  called :
      (word : Word)
      → word_of words op.word ≡ some word
      → word.is_dynamically_typed ≡ false
      → check_call (some word) ts ≡ ok m
      → Moved words OperationKind.call_symbol op ts m
  unfolding check_call
  called word found static e =
      elim (Outcome-cases (typecheck_stack_effects (word.effect ∷ []) ts)) [
        | inl (c, f) ↦ absurd (ground (arith, e, f, static))
        | inr (ts', f) ↦
            let (b, before, after) = typecheck_stack_effects-length word.effect ts ts' f in
            call ts' (ground (arith, e, f, static)) refl (record {
              word = word;
              below = b;
              found = found;
              static = static;
              has_effect = ground (arith, e, static);
              before = before;
              after = after;
            })
      ]

  Moved-call :
      check_operation words OperationKind.call_symbol op ts ≡ ok m
      → Moved words OperationKind.call_symbol op ts m
  unfolding check_operation
  Moved-call e = elim (Option-cases (word_of words op.word)) [
    | inl f ↦ absurd (unfold check_call in ground (arith, e, f))
    | inr (word, f) ↦ elim (Bool-cases word.is_dynamically_typed) [
      | inl d ↦ dynamic word f d
      | inr d ↦ called word f d (ap (λ o. check_call o ts) (sym f) ∙ e)
    ]
  ]

-- Every operation that the checker accepts moves on by one of these.
pub check_operation-Moved :
    (words : Words) (k : OperationKind) (op : Operation) (ts : Typestack) (m : Move)
    → check_operation words k op ts ≡ ok m
    → Moved words k op ts m
unfolding check_operation operation_step
check_operation-Moved words OperationKind.push_int op ts m e =
    plain (with_location op.location op.type ∷ ts) (ground (arith, e)) tt
      (λ v s h. omega (arith, h))
check_operation-Moved words OperationKind.push_symbol op ts m e =
    plain (with_location op.location ptr_t ∷ ts) (ground (arith, e)) tt (λ v s h. omega (arith, h))
check_operation-Moved words OperationKind.cast op ts m e = Moved-cast words op ts m e
check_operation-Moved words OperationKind.if_ op ts m e = Moved-if words op ts m e
check_operation-Moved words OperationKind.else_ op ts m e = go (ground (arith, e)) tt
check_operation-Moved words OperationKind.end op ts m e = go (ground (arith, e)) tt
check_operation-Moved words OperationKind.while op ts m e =
    plain ts (ground (arith, e)) tt (λ v s h. h)
check_operation-Moved words OperationKind.do_ op ts m e = Moved-do words op ts m e
check_operation-Moved words OperationKind.call_symbol op ts m e = Moved-call words op ts m e
check_operation-Moved words OperationKind.return op ts m e = out (ground (arith, e)) refl
check_operation-Moved words OperationKind.intrinsic op ts m e = Moved-intrinsic words op ts m e
