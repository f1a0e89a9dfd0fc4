-- ===== src/Types/Effects/Depth.antt =====
-- src/types.cc: what the checker's acceptance says about the depth of the stack.
use stacky.Common.{
  ℕ, zero, suc, ◌+◌, ◌-◌, ◌≡◌, refl, ap, ◌∙◌, inl, inr, some, List, [], ◌∷◌, ◌++◌, arith, length,
  get_or, drop, length-append, length-reverse, Option-cases,
}
use stacky.Syntax.{
  StackType, Typestack, StackEffect, IntrinsicKind, Text, OperationKind, new_operation, no_token,
}
use stacky.Machine.{pure}
use stacky.Report.{ok, Outcome-cases}
use stacky.Program.{Result, next, divides, fails, operation_step}
use stacky.Types.Effects.{
  Generics, compare_type, match_input, push_output, try_effects, typecheck_stack_effects,
  variables_from, effect, int_t,
}
use stacky.Types.Effects.Sound.{typecheck_intrinsic}

length-push_output :
    (output : Typestack) (generics : Generics) (stack ts : Typestack)
    → push_output output generics stack ≡ ok ts
    → length ts ≡ length output + length stack
unfolding push_output
length-push_output [] generics stack ts e = ground (arith, e)
length-push_output (t ∷ output) generics stack ts e =
    elim (Outcome-cases (push_output output generics stack)) [
      | inl (c, f) ↦ absurd (ground (arith, e, f))
      | inr (below, f) ↦ ground (arith, e, f, length-push_output output generics stack below f)
    ]

length-match_input :
    (input stack rest : Typestack) (generics generics' : Generics)
    → match_input input stack generics ≡ some (rest, generics')
    → length stack ≡ length input + length rest
unfolding match_input
length-match_input [] stack rest generics generics' e = ground (arith, e)
length-match_input (t ∷ input) [] rest generics generics' e = absurd (ground (arith, e))
length-match_input (t ∷ input) (u ∷ stack) rest generics generics' e =
    ground (arith, e, length-match_input input stack rest (compare_type u t generics).1 generics')

-- A stack that one effect is accepted on has the effect's input on it, and gets its output instead.
pub typecheck_stack_effects-length :
    (e : StackEffect) (ts ts' : Typestack)
    → typecheck_stack_effects (e ∷ []) ts ≡ ok ts'
    → (b : ℕ) × (length ts ≡ length e.input + b) × (length ts' ≡ length e.output + b)
unfolding typecheck_stack_effects try_effects
typecheck_stack_effects-length e ts ts' h = elim (Option-cases (match_input e.input ts [])) [
  | inl f ↦ absurd (ground (arith, h, f))
  | inr ((rest, generics), f) ↦ (
    length rest,
    length-match_input e.input ts rest [] generics f,
    length-push_output e.output generics rest ts' (ground (arith, h, f)),
  )
]

-- As many values as types.
abbrev pub SameLength : Typestack → List ℕ → Type 0
SameLength [] [] = Unit {0}
SameLength [] (v ∷ s) = ⊥
SameLength (t ∷ ts) [] = ⊥
SameLength (t ∷ ts) (v ∷ s) = SameLength ts s

abbrev pub Fits : Typestack → Result → Type 0
Fits ts (next s) = SameLength ts s
Fits ts divides = Unit {0}
Fits ts fails = ⊥

abbrev intrinsic_result : ℕ → IntrinsicKind → Text → List ℕ → Result
intrinsic_result v k name s =
    operation_step v OperationKind.intrinsic
      (record (new_operation OperationKind.intrinsic) {
        intrinsic = k;
        token = record no_token { sval = name };
      })
      s

abbrev IsOrdinary : IntrinsicKind → Type 0
IsOrdinary IntrinsicKind.syscall = ⊥
IsOrdinary _ = Unit {0}

abbrev Agrees : IntrinsicKind → Text → Typestack → Typestack → List ℕ → Type 0
Agrees k name ts ts' s =
    SameLength ts s
    → typecheck_intrinsic k name ts ≡ ok ts'
    → (v : ℕ) → Fits ts' (intrinsic_result v k name s)

empty : (k : IntrinsicKind) (name : Text) (ts' : Typestack) → IsOrdinary k → Agrees k name [] ts' []
unfolding typecheck_intrinsic operation_step pure
empty IntrinsicKind.add name ts' p h e v = ground arith
empty _ name ts' p h e v = ground arith

one_left :
    (k : IntrinsicKind) (name : Text) (t1 : StackType) (ts' : Typestack) (a : ℕ)
    → IsOrdinary k
    → Agrees k name (t1 ∷ []) ts' (a ∷ [])
unfolding typecheck_intrinsic operation_step pure
one_left IntrinsicKind.add name t1 ts' a p h e v = ground arith
one_left _ name t1 ts' a p h e v = ground arith

two_left :
    (k : IntrinsicKind) (name : Text) (t2 t1 : StackType) (ts' : Typestack) (b a : ℕ)
    → IsOrdinary k
    → Agrees k name (t2 ∷ t1 ∷ []) ts' (b ∷ a ∷ [])
unfolding typecheck_intrinsic operation_step pure
two_left IntrinsicKind.add name t2 t1 ts' b a p h e v = ground arith
two_left _ name t2 t1 ts' b a p h e v = ground arith

three_left :
    (k : IntrinsicKind) (name : Text) (t3 t2 t1 : StackType) (ts' : Typestack) (c b a : ℕ)
    → IsOrdinary k
    → Agrees k name (t3 ∷ t2 ∷ t1 ∷ []) ts' (c ∷ b ∷ a ∷ [])
unfolding typecheck_intrinsic operation_step pure
three_left IntrinsicKind.add name t3 t2 t1 ts' c b a p h e v = ground arith
three_left _ name t3 t2 t1 ts' c b a p h e v = ground arith

more_left :
    (k : IntrinsicKind) (name : Text) (t4 t3 t2 t1 : StackType) (ts ts' : Typestack) (d c b a : ℕ)
    (s : List ℕ)
    → IsOrdinary k
    → Agrees k name (t4 ∷ t3 ∷ t2 ∷ t1 ∷ ts) ts' (d ∷ c ∷ b ∷ a ∷ s)
unfolding typecheck_intrinsic operation_step pure
more_left IntrinsicKind.add name t4 t3 t2 t1 ts ts' d c b a s p h e v = ground arith
more_left _ name t4 t3 t2 t1 ts ts' d c b a s p h e v = ground arith

by_shape :
    (k : IntrinsicKind) (name : Text) (ts ts' : Typestack) (s : List ℕ)
    → IsOrdinary k
    → Agrees k name ts ts' s
by_shape k name [] ts' [] p h e v = empty k name ts' p h e v
by_shape k name [] ts' (a ∷ s) p h e v = absurd h
by_shape k name (t ∷ ts) ts' [] p h e v = absurd h
by_shape k name (t ∷ []) ts' (a ∷ []) p h e v = one_left k name t ts' a p h e v
by_shape k name (t ∷ []) ts' (b ∷ a ∷ s) p h e v = absurd h
by_shape k name (t ∷ u ∷ ts) ts' (a ∷ []) p h e v = absurd h
by_shape k name (t ∷ u ∷ []) ts' (b ∷ a ∷ []) p h e v = two_left k name t u ts' b a p h e v
by_shape k name (t ∷ u ∷ []) ts' (c ∷ b ∷ a ∷ s) p h e v = absurd h
by_shape k name (t ∷ u ∷ w ∷ ts) ts' (b ∷ a ∷ []) p h e v = absurd h
by_shape k name (t ∷ u ∷ w ∷ []) ts' (c ∷ b ∷ a ∷ []) p h e v =
    three_left k name t u w ts' c b a p h e v
by_shape k name (t ∷ u ∷ w ∷ []) ts' (d ∷ c ∷ b ∷ a ∷ s) p h e v = absurd h
by_shape k name (t ∷ u ∷ w ∷ x ∷ ts) ts' (c ∷ b ∷ a ∷ []) p h e v = absurd h
by_shape k name (t ∷ u ∷ w ∷ x ∷ ts) ts' (d ∷ c ∷ b ∷ a ∷ s) p h e v =
    more_left k name t u w x ts ts' d c b a s p h e v

SameLength-of_length : (ts : Typestack) (s : List ℕ) → length s ≡ length ts → SameLength ts s
SameLength-of_length [] [] h = tt
SameLength-of_length [] (a ∷ s) h = omega (arith, h)
SameLength-of_length (t ∷ ts) [] h = omega (arith, h)
SameLength-of_length (t ∷ ts) (a ∷ s) h = SameLength-of_length ts s (omega (arith, h))

SameLength-length : (ts : Typestack) (s : List ℕ) → SameLength ts s → length s ≡ length ts
SameLength-length [] [] h = refl
SameLength-length [] (a ∷ s) h = absurd h
SameLength-length (t ∷ ts) [] h = absurd h
SameLength-length (t ∷ ts) (a ∷ s) h = ap suc (SameLength-length ts s h)

-- A result that is no failure, with a stack of depth `d`.
abbrev pub Goes : ℕ → Result → Type 0
Goes d (next s) = length s ≡ d
Goes d divides = Unit {0}
Goes d fails = ⊥

Fits-Goes : (ts : Typestack) (r : Result) → Fits ts r → Goes (length ts) r
Fits-Goes ts (next s) h = SameLength-length ts s h
Fits-Goes ts divides h = h
Fits-Goes ts fails h = h

length-drop : (n : ℕ) (s : List ℕ) → length (drop n s) ≡ length s - n
length-drop zero s = omega arith
length-drop (suc n) [] = omega arith
length-drop (suc n) (a ∷ s) = omega (arith, length-drop n s)

length-variables_from : (n i : ℕ) → length (variables_from n i) ≡ n
unfolding variables_from
length-variables_from zero i = refl
length-variables_from (suc n) i = ap suc (length-variables_from n (suc i))

-- The number of arguments of a system call, and the depth that its effect asks for.
syscall_input :
    (n : ℕ) → length (effect (variables_from n 1 ++ int_t ∷ []) (int_t ∷ [])).input ≡ suc n
syscall_input n =
    length-reverse (variables_from n 1 ++ int_t ∷ [])
    ∙ omega (arith, length-append (variables_from n 1) (int_t ∷ []), length-variables_from n 1)

syscall_accepted :
    (name : Text) (ts ts' : Typestack)
    → typecheck_intrinsic IntrinsicKind.syscall name ts ≡ ok ts'
    → typecheck_stack_effects
        (effect (variables_from (get_or name 7 0 - b'0') 1 ++ int_t ∷ []) (int_t ∷ []) ∷ [])
        ts
      ≡ ok ts'
unfolding typecheck_intrinsic
syscall_accepted name ts ts' e = ground arith

syscall_Goes :
    (name : Text) (ts ts' : Typestack) (s : List ℕ) (v : ℕ)
    → length s ≡ length ts
    → typecheck_intrinsic IntrinsicKind.syscall name ts ≡ ok ts'
    → Goes (length ts') (intrinsic_result v IntrinsicKind.syscall name s)
unfolding operation_step
syscall_Goes name ts ts' s v h e =
    let n = get_or name 7 0 - b'0' in
    let (b, before, after) =
      typecheck_stack_effects-length (effect (variables_from n 1 ++ int_t ∷ []) (int_t ∷ [])) ts ts'
        (syscall_accepted name ts ts' e) in
    ground (arith, syscall_input n, before, after, h, length-drop (suc n) s)

-- The checker's depth is the depth that the intrinsic leaves, if it does not divide by zero.
pub typecheck_intrinsic-Goes :
    (k : IntrinsicKind) (name : Text) (ts ts' : Typestack) (s : List ℕ) (v : ℕ)
    → length s ≡ length ts
    → typecheck_intrinsic k name ts ≡ ok ts'
    → Goes (length ts') (intrinsic_result v k name s)
typecheck_intrinsic-Goes IntrinsicKind.syscall name ts ts' s v h e =
    syscall_Goes name ts ts' s v h e
typecheck_intrinsic-Goes k name ts ts' s v h e =
    Fits-Goes ts' (intrinsic_result v k name s)
      (by_shape k name ts ts' s tt (SameLength-of_length ts s h) e v)
