-- ===== src/Optimizer/Folding/Sound.antt =====
-- src/optimizer.cc, `constant_folding`: what an intrinsic does at compile time against what it means.
use stacky.Common.{ℕ, ◌+◌, ◌-◌, ◌*◌, ◌<◌, ◌≤◌, ◌^◌, ◌≡◌, ap, some, List, [], ◌∷◌, arith}
use stacky.Syntax.{IntrinsicKind}
use stacky.Machine.{pure, word, AllWords}
use stacky.Optimizer.Signed.{negate}
use stacky.Optimizer.Folding.{fold_intrinsic, folded}

-- The product of two's complement patterns; `x` and `y` are the magnitudes of `a` and `b`.
product_negative :
    (x y a b : ℕ) → x + a ≡ 2 ^ 64 → y + b ≡ 2 ^ 64 → x * y < 2 ^ 63 → x * y ≡ word (a * b)
product_negative x y a b ha hb h = omega (arith, ap (λ (t : ℕ). t * b) ha, ap (λ (t : ℕ). x * t) hb)

product_mixed : (x a b : ℕ) → x + a ≡ 2 ^ 64 → x * b ≤ 2 ^ 63 → negate (x * b) ≡ word (a * b)
product_mixed x a b ha h = omega (arith, ap (λ (t : ℕ). t * b) ha)

product_mixed_right : (a y b : ℕ) → y + b ≡ 2 ^ 64 → a * y ≤ 2 ^ 63 → negate (a * y) ≡ word (a * b)
product_mixed_right a y b hb h = omega (arith, ap (λ (t : ℕ). a * t) hb)

abbrev AreSmall : List ℕ → Type 0
AreSmall (b ∷ a ∷ s) = (b < 2 ^ 63) × (a < 2 ^ 63)
AreSmall _ = Unit {0}

-- The intrinsics whose compile-time arithmetic is signed and whose code is unsigned have operands
-- below 2^63, where the two readings are one.
abbrev pub Agrees : IntrinsicKind → List ℕ → Type 0
Agrees IntrinsicKind.div s = AreSmall s
Agrees IntrinsicKind.mod_ s = AreSmall s
Agrees IntrinsicKind.less s = AreSmall s
Agrees IntrinsicKind.less_eq s = AreSmall s
Agrees IntrinsicKind.greater s = AreSmall s
Agrees IntrinsicKind.greater_eq s = AreSmall s
Agrees IntrinsicKind.min s = AreSmall s
Agrees IntrinsicKind.max s = AreSmall s
Agrees _ s = Unit {0}

no_operands : (k : IntrinsicKind) (t : List ℕ) → fold_intrinsic k [] ≡ folded t → pure k [] ≡ some t
unfolding fold_intrinsic pure
no_operands IntrinsicKind.add t h = cc
no_operands _ t h = ground arith

one_operand :
    (k : IntrinsicKind) (a : ℕ) (t : List ℕ)
    → fold_intrinsic k (a ∷ []) ≡ folded t
    → pure k (a ∷ []) ≡ some t
unfolding fold_intrinsic pure
one_operand IntrinsicKind.add a t h = cc
one_operand _ a t h = ground arith

two_operands :
    (k : IntrinsicKind) (b a : ℕ) (s t : List ℕ)
    → b < 2 ^ 64
    → a < 2 ^ 64
    → Agrees k (b ∷ a ∷ s)
    → fold_intrinsic k (b ∷ a ∷ s) ≡ folded t
    → pure k (b ∷ a ∷ s) ≡ some t
unfolding fold_intrinsic pure
two_operands IntrinsicKind.add b a s t hb ha g h = ground arith
two_operands IntrinsicKind.mul b a s t hb ha g h = ground (
  arith,
  product_negative (2 ^ 64 - a) (2 ^ 64 - b) a b,
  product_mixed (2 ^ 64 - a) a b,
  product_mixed_right a (2 ^ 64 - b) b,
)
two_operands IntrinsicKind.rot b a [] t hb ha g h = cc
two_operands IntrinsicKind.rot b a (c ∷ s) t hb ha g h = cc
two_operands _ b a s t hb ha g h = ground arith

-- Where a run of constants goes on over an intrinsic, the compile-time stack becomes the one that the
-- intrinsic means. For division, remainder, the orders, `min` and `max` the operands are below 2^63.
pub fold_intrinsic-pure :
    (k : IntrinsicKind) (s t : List ℕ)
    → AllWords s
    → Agrees k s
    → fold_intrinsic k s ≡ folded t
    → pure k s ≡ some t
fold_intrinsic-pure k [] t ws g h = no_operands k t h
fold_intrinsic-pure k (a ∷ []) t ws g h = one_operand k a t h
fold_intrinsic-pure k (b ∷ a ∷ s) t ws g h = two_operands k b a s t ws.0 ws.1.0 g h

-- Where `a` is at least 2^63 and `b` is below it, `a b >` folds to 0 and means 1.
pub fold_intrinsic-greater :
    (a b : ℕ) (s : List ℕ)
    → 2 ^ 63 ≤ a
    → a < 2 ^ 64
    → b < 2 ^ 63
    → (fold_intrinsic IntrinsicKind.greater (b ∷ a ∷ s) ≡ folded (0 ∷ s))
      × (pure IntrinsicKind.greater (b ∷ a ∷ s) ≡ some (1 ∷ s))
unfolding fold_intrinsic pure
fold_intrinsic-greater a b s h ha hb = (ground arith, ground arith)
