-- ===== src/Optimizer/Folding/Region.antt =====
-- src/optimizer.cc, `constant_folding`: the run of operations that the pass replaces.
use mathlib.Core.List.{append_assoc, reverse-append}
use stacky.Common.{
  ℕ, ◌<◌, ◌^◌, ◌≡◌, refl, sym, ap, ◌∙◌, Option, none, some, List, [], ◌∷◌, ◌++◌, map, reverse,
  arith, bit_and-lt, bit_or-lt, bit_xor-lt, Option-cases, inl, inr,
}
use stacky.Syntax.{Operation, OperationKind, IntrinsicKind}
use stacky.Machine.{pure, AllWords}
use stacky.Optimizer.Folding.{folded, fold_intrinsic, push_value}

-- What a row of pushes and intrinsics does to a stack; `none` where it has no meaning.
unfoldable pub straight_step : Operation → List ℕ → Option (List ℕ)
straight_step op s = elim op.kind [
  | OperationKind.push_int ↦ some (op.ival ∷ s)
  | OperationKind.intrinsic ↦ pure op.intrinsic s
  | _ ↦ none
]

unfoldable pub straight : List Operation → List ℕ → Option (List ℕ)
unfolding straight_step
straight [] s = some s
straight (op ∷ ops) s = elim (straight_step op s) [ none ↦ none | some t ↦ straight ops t ]

pub straight-append :
    (xs ys : List Operation) (s t : List ℕ)
    → straight xs s ≡ some t
    → straight (xs ++ ys) s ≡ straight ys t
unfolding straight
straight-append [] ys s t h = ground arith
straight-append (x ∷ xs) ys s t h = elim (Option-cases (straight_step x s)) [
  | inl e ↦ absurd (ground arith)
  | inr (u, e) ↦ rw (e, straight) (straight-append xs ys u t (ground arith))
]

-- Values below those that an intrinsic reads stay.
pub pure-append :
    (k : IntrinsicKind) (s t rest : List ℕ)
    → pure k s ≡ some t
    → pure k (s ++ rest) ≡ some (t ++ rest)
unfolding pure
pure-append IntrinsicKind.add s t rest h = ground arith
pure-append _ s t rest h = ground arith

fold_words_none : (k : IntrinsicKind) (t : List ℕ) → fold_intrinsic k [] ≡ folded t → AllWords t
unfolding fold_intrinsic
fold_words_none IntrinsicKind.add t h = ground arith
fold_words_none _ t h = ground arith

fold_words_one :
    (k : IntrinsicKind) (a : ℕ) (t : List ℕ)
    → a < 2 ^ 64
    → fold_intrinsic k (a ∷ []) ≡ folded t
    → AllWords t
unfolding fold_intrinsic
fold_words_one IntrinsicKind.add a t h e = ground arith
fold_words_one _ a t h e = ground arith

fold_words_two :
    (k : IntrinsicKind) (b a : ℕ) (s t : List ℕ)
    → b < 2 ^ 64
    → a < 2 ^ 64
    → AllWords s
    → fold_intrinsic k (b ∷ a ∷ s) ≡ folded t
    → AllWords t
unfolding fold_intrinsic
fold_words_two IntrinsicKind.add b a s t hb ha ws e = ground arith
fold_words_two _ b a s t hb ha ws e =
    ground (arith, bit_and-lt 64 a b ha hb, bit_or-lt 64 a b ha hb, bit_xor-lt 64 a b ha hb)

-- Folding keeps the values words.
pub fold_words :
    (k : IntrinsicKind) (s t : List ℕ) → AllWords s → fold_intrinsic k s ≡ folded t → AllWords t
fold_words k [] t ws h = fold_words_none k t h
fold_words k (a ∷ []) t ws h = fold_words_one k a t ws.0 h
fold_words k (b ∷ a ∷ s) t ws h = fold_words_two k b a s t ws.0 ws.1.0 ws.1.1 h

-- Pushing values in order leaves them in reverse.
pub straight-push_value :
    (values : List ℕ) (s : List ℕ) → straight (map push_value values) s ≡ some (reverse values ++ s)
unfolding straight
straight-push_value [] s = refl
straight-push_value (v ∷ values) s =
    straight-push_value values (v ∷ s)
    ∙ ap some (
        sym (append_assoc (reverse values) (v ∷ []) s)
        ∙ ap (λ l. l ++ s) (sym (reverse-append (v ∷ []) values)))
