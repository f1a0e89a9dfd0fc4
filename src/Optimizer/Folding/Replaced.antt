-- ===== src/Optimizer/Folding/Replaced.antt =====
-- src/optimizer.cc, `constant_folding`: one operation of a run, and what replaces a run.
use mathlib.Core.List.{append_assoc, reverse-reverse}
use stacky.Common.{
  ◌≤◌, ◌⊎◌, leb, if◌then◌else◌, ℕ, ◌+◌, ◌-◌, ◌<◌, ◌^◌, ◌≡◌, refl, sym, ap, ◌∙◌, Bool, true, false,
  some, List, [], ◌∷◌, ◌++◌, map, reverse, arith, length, length-append, take-append, drop-append,
  length-reverse,
}
use stacky.Syntax.{Operation, OperationKind, empty_jump}
use stacky.Machine.{AllWords}
use stacky.Optimizer.Folding.{
  folded, stops, undefined, fold_operation, push_value, shift_jump, replace, finish_folding,
  is_push_int,
}
use stacky.Optimizer.Folding.Sound.{Agrees, fold_intrinsic-pure}
use stacky.Optimizer.Folding.Region.{
  straight, straight_step, straight-push_value, pure-append, fold_words,
}

-- Where an index behind a replaced run stands afterwards.
unfoldable pub relocate : ℕ → ℕ → ℕ → ℕ → ℕ
relocate start added removed target = if leb target start then target else target + added - removed

-- Where `removed` operations from `start` on are replaced by `added` ones, a jump up to the run's start
-- stays and one behind the run is moved by the difference. The jump is set, and no target leaves
-- the range of an `unsigned`.
pub shift_jump-relocate :
    (start added removed : ℕ) (op : Operation)
    → (op.jump ≤ start) ⊎ ((start < op.jump) × (start + removed ≤ op.jump))
    → op.jump + added < empty_jump
    → shift_jump start added removed op ≡ record op { jump = relocate start added removed op.jump }
unfolding shift_jump relocate
shift_jump-relocate start added removed op h hr = ground arith

-- An operation that the loop meets inside a run pushes a word or has agreeing operands.
abbrev pub OperationAgrees : OperationKind → Operation → List ℕ → Type 0
OperationAgrees OperationKind.push_int op stack = op.ival < 2 ^ 64
OperationAgrees OperationKind.intrinsic op stack = Agrees op.intrinsic stack
OperationAgrees _ op stack = Unit {0}

-- The same along the whole body, with the compile-time stack that the loop has there (`true`: inside
-- a run of constants).
unfoldable pub AgreesAlong : List Operation → Bool → List ℕ → Type 0
unfolding fold_operation
AgreesAlong [] inside stack = Unit {0}
AgreesAlong (op ∷ rest) false stack =
    OperationAgrees op.kind op stack × (elim (is_push_int op.kind) [
      | true ↦ AgreesAlong rest true (op.ival ∷ stack)
      | false ↦ AgreesAlong rest false stack
    ])
AgreesAlong (op ∷ rest) true stack =
    OperationAgrees op.kind op stack × (elim (fold_operation op stack) [
      | folded stack' ↦ AgreesAlong rest true stack'
      | stops ↦ AgreesAlong rest false []
      | undefined ↦ Unit {0}
    ])

-- A run of the body was replaced by pushes that leave the same values on any stack; around it only
-- the jumps behind the run's start are moved, by the difference in length.
pub record IsReplaced (body body' : List Operation) : Type 0 where
  pub before : List Operation
  pub region : List Operation
  pub behind : List Operation
  pub values : List ℕ
  pub body_eq : body ≡ before ++ (region ++ behind)
  pub body'_eq :
      body'
      ≡ map
          (shift_jump (length before) (length values) (length region))
          (before ++ (map push_value values ++ behind))
  pub same_meaning : (s : List ℕ) → straight region s ≡ straight (map push_value values) s
  pub defined : (s : List ℕ) → straight region s ≡ some (reverse values ++ s)

pub step-straight :
    (op : Operation) (stack t s : List ℕ)
    → AllWords stack
    → OperationAgrees op.kind op stack
    → fold_operation op stack ≡ folded t
    → straight_step op (stack ++ s) ≡ some (t ++ s)
unfolding fold_operation straight_step
step-straight op stack t s ws g h = kinds op.kind g h
  where
    kinds :
        (k : OperationKind)
        → OperationAgrees k op stack
        → fold_operation (record op { kind = k }) stack ≡ folded t
        → straight_step (record op { kind = k }) (stack ++ s) ≡ some (t ++ s)
    kinds OperationKind.push_int g h = ground arith
    kinds OperationKind.intrinsic g h =
        pure-append op.intrinsic stack t s (fold_intrinsic-pure op.intrinsic stack t ws g h)
    kinds _ g h = ground arith

pub step-words :
    (op : Operation) (stack t : List ℕ)
    → AllWords stack
    → OperationAgrees op.kind op stack
    → fold_operation op stack ≡ folded t
    → AllWords t
unfolding fold_operation
step-words op stack t ws g h = kinds op.kind g h
  where
    kinds :
        (k : OperationKind)
        → OperationAgrees k op stack
        → fold_operation (record op { kind = k }) stack ≡ folded t
        → AllWords t
    kinds OperationKind.push_int g h = ground arith
    kinds OperationKind.intrinsic g h = fold_words op.intrinsic stack t ws h
    kinds _ g h = ground arith

finish-replace :
    (body body' : List Operation) (start : ℕ) (stack : List ℕ) (i : ℕ)
    → finish_folding body (some start) stack i ≡ some body'
    → body' ≡ replace body start stack i
unfolding finish_folding
finish-replace body body' start stack i h = ground arith

replace-region :
    (before region behind : List Operation) (stack : List ℕ) (i : ℕ)
    → i ≡ length before + length region
    → replace (before ++ (region ++ behind)) (length before) stack i
      ≡ map
          (shift_jump (length before) (length (reverse stack)) (length region))
          (before ++ (map push_value (reverse stack) ++ behind))
unfolding replace
replace-region before region behind stack i hi =
    let n = i - length before in
    rw
      (
        take-append before (region ++ behind) (length before) refl,
        sym (append_assoc before region behind),
        drop-append (before ++ region) behind i (omega (arith, length-append before region)),
        length-reverse stack,
      )
      (ap
        (λ k.
          map (shift_jump (length before) (length stack) k)
            (before ++ (map push_value (reverse stack) ++ behind)))
        (omega arith))

-- A run between `before` and `behind` whose values the stack holds.
module _ (body body' before : List Operation) where
  pub finish-IsReplaced :
      (region behind : List Operation) (stack : List ℕ) (i : ℕ)
      → body ≡ before ++ (region ++ behind)
      → i ≡ length before + length region
      → ((s : List ℕ) → straight region s ≡ some (stack ++ s))
      → finish_folding body (some (length before)) stack i ≡ some body'
      → IsReplaced body body'
  finish-IsReplaced region behind stack i hb hi hs h = record {
    before = before;
    region = region;
    behind = behind;
    values = reverse stack;
    body_eq = hb;
    body'_eq =
        finish-replace body body' (length before) stack i h
        ∙ ap (λ b. replace b (length before) stack i) hb
        ∙ replace-region before region behind stack i hi;
    same_meaning = λ s.
        hs s
        ∙ sym (
            straight-push_value (reverse stack) s
            ∙ ap (λ l. some (l ++ s)) (reverse-reverse stack));
    defined = λ s. hs s ∙ ap (λ l. some (l ++ s)) (sym (reverse-reverse stack));
  }
