-- ===== src/Types/Check/Fits.antt =====
-- src/types.cc, `make_expected_output_verifier`: what a stack of types that it accepts looks like.
use stacky.Common.{◌≡◌, refl, ◌⊎◌, inl, inr, Bool-cases, true, [], ◌∷◌, arith}
use stacky.Syntax.{Typestack, StackType, TypeKind}
use stacky.Report.{ok}
use stacky.Types.Effects.{type_eq, same_kind, is_any}
use stacky.Types.Check.{expect_output}

-- A type fits one of the same kind, and `any` fits every type and is fitted by each.
abbrev pub IsFitting : TypeKind → TypeKind → Type 0
IsFitting t o = (t ≡ TypeKind.any) ⊎ (o ≡ TypeKind.any) ⊎ (t ≡ o)

-- As many types, each of which fits the one in its place.
abbrev pub AllFit : Typestack → Typestack → Type 0
AllFit [] [] = Unit {0}
AllFit (t ∷ ts) [] = ⊥
AllFit [] (o ∷ os) = ⊥
AllFit (t ∷ ts) (o ∷ os) = IsFitting t.kind o.kind × AllFit ts os

is_any-any : (k : TypeKind) → is_any k ≡ true → k ≡ TypeKind.any
is_any-any TypeKind.any e = refl
is_any-any _ e = absurd (ground (arith, e))

same_kind-same : (a b : TypeKind) → same_kind a b ≡ true → a ≡ b
unfolding same_kind
same_kind-same TypeKind.int TypeKind.int e = refl
same_kind-same TypeKind.bool TypeKind.bool e = refl
same_kind-same TypeKind.pointer TypeKind.pointer e = refl
same_kind-same TypeKind.any TypeKind.any e = refl
same_kind-same TypeKind.variable TypeKind.variable e = refl
same_kind-same _ _ e = absurd (ground (arith, e))

type_eq-IsFitting : (t o : StackType) → type_eq t o ≡ true → IsFitting t.kind o.kind
unfolding type_eq
type_eq-IsFitting t o e = elim (Bool-cases (is_any t.kind)) [
  | inl a ↦ inl (is_any-any t.kind a)
  | inr a ↦ elim (Bool-cases (is_any o.kind)) [
    | inl b ↦ inr (inl (is_any-any o.kind b))
    | inr b ↦ inr (inr (same_kind-same t.kind o.kind (rw (type_eq, a, b) at e)))
  ]
]

pub expect_output-AllFit :
    (ts output : Typestack) → expect_output ts output ≡ ok tt → AllFit ts output
unfolding expect_output
expect_output-AllFit [] [] e = tt
expect_output-AllFit (t ∷ ts) [] e = absurd (ground (arith, e))
expect_output-AllFit [] (o ∷ os) e = absurd (ground (arith, e))
expect_output-AllFit (t ∷ ts) (o ∷ os) e = elim (Bool-cases (type_eq t o)) [
  | inl b ↦ (type_eq-IsFitting t o b, expect_output-AllFit ts os (rw (expect_output, b) at e))
  | inr b ↦ absurd (ground (arith, rw (expect_output, b) at e))
]
