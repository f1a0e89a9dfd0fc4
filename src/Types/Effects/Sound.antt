-- ===== src/Types/Effects/Sound.antt =====
-- src/types.cc against the meaning of the intrinsics: what the checker accepts does not go wrong.
use stacky.Common.{ℕ, ◌<◌, ◌≡◌, ◌⊎◌, Option, none, some, List, [], ◌∷◌, arith}
use stacky.Syntax.{StackType, TypeKind, Typestack, IntrinsicKind, Text}
use stacky.Report.{Outcome, ok, ◌>>=◌}
use stacky.Machine.{pure}
use stacky.Codegen.Correct.{IsPure}
use stacky.Types.Effects.{typecheck_stack_effects, intrinsic_effects}

-- A value of type `bool` is 0 or 1; every word is a value of the other types.
abbrev pub HasKind : TypeKind → ℕ → Type 0
HasKind TypeKind.bool v = v < 2
HasKind _ v = Unit {0}

-- As many values as types, each of its type.
abbrev pub AllTyped : Typestack → List ℕ → Type 0
AllTyped [] [] = Unit {0}
AllTyped [] (v ∷ s) = ⊥
AllTyped (t ∷ ts) [] = ⊥
AllTyped (t ∷ ts) (v ∷ s) = HasKind t.kind v × AllTyped ts s

abbrev pub IsTypedResult : Typestack → Option (List ℕ) → Type 0
IsTypedResult ts none = ⊥
IsTypedResult ts (some s) = AllTyped ts s

-- The top of the stack is a divisor, and 0.
abbrev pub DividesByZero : IntrinsicKind → List ℕ → Type 0
DividesByZero IntrinsicKind.div (b ∷ s) = b ≡ 0
DividesByZero IntrinsicKind.mod_ (b ∷ s) = b ≡ 0
DividesByZero IntrinsicKind.div_mod (b ∷ s) = b ≡ 0
DividesByZero _ s = ⊥

-- What the checker makes of an intrinsic.
unfoldable pub typecheck_intrinsic : IntrinsicKind → Text → Typestack → Outcome Typestack
unfolding intrinsic_effects typecheck_stack_effects
typecheck_intrinsic k name ts = do
  effects ← intrinsic_effects k name
  typecheck_stack_effects effects ts

abbrev Sound : IntrinsicKind → Text → Typestack → Typestack → List ℕ → Type 0
Sound k name ts ts' s =
    AllTyped ts s
    → typecheck_intrinsic k name ts ≡ ok ts'
    → DividesByZero k s ⊎ IsTypedResult ts' (pure k s)

-- One lemma for each depth of the stack, as far as an intrinsic reads it.
empty : (k : IntrinsicKind) (name : Text) (ts' : Typestack) → IsPure k → Sound k name [] ts' []
unfolding typecheck_intrinsic pure
empty IntrinsicKind.add name ts' p h e = ground arith
empty _ name ts' p h e = ground arith

one_left :
    (k : IntrinsicKind) (name : Text) (t : StackType) (ts' : Typestack) (a : ℕ)
    → IsPure k
    → Sound k name (t ∷ []) ts' (a ∷ [])
unfolding typecheck_intrinsic pure
one_left IntrinsicKind.add name t ts' a p h e = ground arith
one_left _ name t ts' a p h e = ground arith

two_left :
    (k : IntrinsicKind) (name : Text) (u t : StackType) (ts' : Typestack) (b a : ℕ)
    → IsPure k
    → Sound k name (u ∷ t ∷ []) ts' (b ∷ a ∷ [])
unfolding typecheck_intrinsic pure
two_left IntrinsicKind.add name u t ts' b a p h e = ground arith
two_left _ name u t ts' b a p h e = ground arith

three_left :
    (k : IntrinsicKind) (name : Text) (v u t : StackType) (ts' : Typestack) (c b a : ℕ)
    → IsPure k
    → Sound k name (v ∷ u ∷ t ∷ []) ts' (c ∷ b ∷ a ∷ [])
unfolding typecheck_intrinsic pure
three_left IntrinsicKind.add name v u t ts' c b a p h e = ground arith
three_left _ name v u t ts' c b a p h e = ground arith

more_left :
    (k : IntrinsicKind) (name : Text) (w v u t : StackType) (ts ts' : Typestack) (d c b a : ℕ)
    (s : List ℕ)
    → IsPure k
    → Sound k name (w ∷ v ∷ u ∷ t ∷ ts) ts' (d ∷ c ∷ b ∷ a ∷ s)
unfolding typecheck_intrinsic pure
more_left IntrinsicKind.add name w v u t ts ts' d c b a s p h e = ground arith
more_left _ name w v u t ts ts' d c b a s p h e = ground arith

-- An intrinsic that the checker accepts does not go wrong on values of the types: it divides by zero,
-- or it finds the values that it needs and leaves as many values as the checker leaves types, each
-- of its type. It is one that only the stack matters to.
pub typecheck_intrinsic-pure :
    (k : IntrinsicKind) (name : Text) (ts ts' : Typestack) (s : List ℕ)
    → IsPure k
    → AllTyped ts s
    → typecheck_intrinsic k name ts ≡ ok ts'
    → DividesByZero k s ⊎ IsTypedResult ts' (pure k s)
typecheck_intrinsic-pure k name [] ts' [] p h e = empty k name ts' p h e
typecheck_intrinsic-pure k name [] ts' (v ∷ s) p h e = absurd h
typecheck_intrinsic-pure k name (t ∷ ts) ts' [] p h e = absurd h
typecheck_intrinsic-pure k name (t ∷ []) ts' (a ∷ []) p h e = one_left k name t ts' a p h e
typecheck_intrinsic-pure k name (t ∷ []) ts' (b ∷ a ∷ s) p h e = absurd h.1
typecheck_intrinsic-pure k name (u ∷ t ∷ ts) ts' (a ∷ []) p h e = absurd h.1
typecheck_intrinsic-pure k name (u ∷ t ∷ []) ts' (b ∷ a ∷ []) p h e =
    two_left k name u t ts' b a p h e
typecheck_intrinsic-pure k name (u ∷ t ∷ []) ts' (c ∷ b ∷ a ∷ s) p h e = absurd h.1.1
typecheck_intrinsic-pure k name (v ∷ u ∷ t ∷ ts) ts' (b ∷ a ∷ []) p h e = absurd h.1.1
typecheck_intrinsic-pure k name (v ∷ u ∷ t ∷ []) ts' (c ∷ b ∷ a ∷ []) p h e =
    three_left k name v u t ts' c b a p h e
typecheck_intrinsic-pure k name (v ∷ u ∷ t ∷ []) ts' (d ∷ c ∷ b ∷ a ∷ s) p h e = absurd h.1.1.1
typecheck_intrinsic-pure k name (w ∷ v ∷ u ∷ t ∷ ts) ts' (c ∷ b ∷ a ∷ []) p h e = absurd h.1.1.1
typecheck_intrinsic-pure k name (w ∷ v ∷ u ∷ t ∷ ts) ts' (d ∷ c ∷ b ∷ a ∷ s) p h e =
    more_left k name w v u t ts ts' d c b a s p h e
