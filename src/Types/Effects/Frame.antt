-- ===== src/Types/Effects/Frame.antt =====
-- An operation that does not fail on a stack does the same on top of any other values.
use stacky.Common.{
  ℕ, zero, suc, ◌+◌, ◌≤◌, ◌≡◌, refl, subst, ap, true, none, some, List, [], ◌∷◌, ◌++◌, arith,
  length, take, drop, length-append, Option-cases, Bool-cases, inl, inr,
}
use stacky.Syntax.{IntrinsicKind, Operation, OperationKind, Text}
use stacky.Machine.{pure}
use stacky.Program.{intrinsic_step, divides_by_zero, operation_step, syscall_values}
use stacky.Optimizer.Folding.Region.{pure-append}
use stacky.Types.Effects.Depth.{Goes}

drop-append-le : (n : ℕ) (s t : List ℕ) → n ≤ length s → drop n (s ++ t) ≡ drop n s ++ t
drop-append-le zero s t h = refl
drop-append-le (suc n) [] t h = absurd (omega arith)
drop-append-le (suc n) (a ∷ s) t h = drop-append-le n s t (omega arith)

intrinsic_step-append :
    (v : ℕ) (k : IntrinsicKind) (name : Text) (s t s' : List ℕ)
    → intrinsic_step v k name s ≡ some s'
    → intrinsic_step v k name (s ++ t) ≡ some (s' ++ t)
unfolding intrinsic_step
intrinsic_step-append v IntrinsicKind.load name [] t s' e =
    absurd (unfold pure in ground (arith, e))
intrinsic_step-append v IntrinsicKind.load name (a ∷ s) t s' e = ground (arith, e)
intrinsic_step-append v IntrinsicKind.store name [] t s' e =
    absurd (unfold pure in ground (arith, e))
intrinsic_step-append v IntrinsicKind.store name (a ∷ []) t s' e =
    absurd (unfold pure in ground (arith, e))
intrinsic_step-append v IntrinsicKind.store name (b ∷ a ∷ s) t s' e = ground (arith, e)
intrinsic_step-append v IntrinsicKind.top name [] t s' e = absurd (unfold pure in ground (arith, e))
intrinsic_step-append v IntrinsicKind.top name (a ∷ s) t s' e = ground (arith, e)
intrinsic_step-append v IntrinsicKind.argc name s t s' e = ground (arith, e)
intrinsic_step-append v IntrinsicKind.argv name s t s' e = ground (arith, e)
intrinsic_step-append v IntrinsicKind.random32 name s t s' e = ground (arith, e)
intrinsic_step-append v IntrinsicKind.random64 name s t s' e = ground (arith, e)
intrinsic_step-append v IntrinsicKind.syscall name s t s' e =
    ground (arith, e, length-append s t, drop-append-le (syscall_values name) s t)
intrinsic_step-append v k name s t s' e = pure-append k s s' t e

divides-append :
    (v : ℕ) (k : IntrinsicKind) (name : Text) (s t : List ℕ)
    → divides_by_zero k s ≡ true
    → (intrinsic_step v k name (s ++ t) ≡ none) × (divides_by_zero k (s ++ t) ≡ true)
unfolding intrinsic_step divides_by_zero pure
divides-append v IntrinsicKind.div name (b ∷ a ∷ s) t h = (ground arith, h)
divides-append v IntrinsicKind.mod_ name (b ∷ a ∷ s) t h = (ground arith, h)
divides-append v IntrinsicKind.div_mod name (b ∷ a ∷ s) t h = (ground arith, h)
divides-append v k name [] t h = absurd (ground arith)
divides-append v k name (b ∷ []) t h = absurd (ground arith)
divides-append v k name (b ∷ a ∷ s) t h = absurd (ground arith)

intrinsic-append :
    (v : ℕ) (op : Operation) (s t : List ℕ) (d : ℕ)
    → Goes d (operation_step v OperationKind.intrinsic op s)
    → Goes (d + length t) (operation_step v OperationKind.intrinsic op (s ++ t))
unfolding operation_step
intrinsic-append v op s t d h =
    let k = op.intrinsic in
    let name = op.token.sval in
    elim (Option-cases (intrinsic_step v k name s)) [
      | inr (s', e) ↦
          rw (intrinsic_step-append v k name s t s' e)
            (let g = rw e at h in omega (arith, length-append s' t, g))
      | inl e ↦ elim (Bool-cases (divides_by_zero k s)) [
        | inl z ↦ let (e', z') = divides-append v k name s t z in rw (e', z') tt
        | inr z ↦ absurd (rw (e, z) at h)
      ]
    ]

operation_step-append :
    (v : ℕ) (k : OperationKind) (op : Operation) (s t : List ℕ) (d : ℕ)
    → Goes d (operation_step v k op s)
    → Goes (d + length t) (operation_step v k op (s ++ t))
unfolding operation_step
operation_step-append v OperationKind.intrinsic op s t d h = intrinsic-append v op s t d h
operation_step-append v OperationKind.push_int op s t d h = omega (arith, h, length-append s t)
operation_step-append v OperationKind.push_symbol op s t d h = omega (arith, h, length-append s t)
operation_step-append v OperationKind.cast op s t d h = omega (arith, h, length-append s t)
operation_step-append v OperationKind.while op s t d h = omega (arith, h, length-append s t)
operation_step-append v _ op s t d h = absurd h

append-take-drop : (n : ℕ) (s : List ℕ) → take n s ++ drop n s ≡ s
append-take-drop zero s = refl
append-take-drop (suc n) [] = refl
append-take-drop (suc n) (a ∷ s) = ap (λ l. a ∷ l) (append-take-drop n s)

length-take-drop :
    (n b : ℕ) (s : List ℕ) → length s ≡ n + b → (length (take n s) ≡ n) × (length (drop n s) ≡ b)
length-take-drop zero b s h = (refl, omega (arith, h))
length-take-drop (suc n) b [] h = absurd (omega (arith, h))
length-take-drop (suc n) b (a ∷ s) h =
    let (p, q) = length-take-drop n b s (omega (arith, h)) in (ap suc p, q)

-- What holds of every stack of depth `d` holds with `b` more values below.
pub operation_step-below :
    (k : OperationKind) (op : Operation) (d d' : ℕ)
    → ((v : ℕ) (s : List ℕ) → length s ≡ d → Goes d' (operation_step v k op s))
    → (b v : ℕ) (s : List ℕ) → length s ≡ d + b
    → Goes (d' + b) (operation_step v k op s)
operation_step-below k op d d' p b v s h =
    let (upper, lower) = length-take-drop d b s h in
    let g = operation_step-append v k op (take d s) (drop d s) d' (p v (take d s) upper) in
    subst (λ t. Goes (d' + b) (operation_step v k op t)) (append-take-drop d s)
      (subst (λ n. Goes (d' + n) (operation_step v k op (take d s ++ drop d s))) lower g)
