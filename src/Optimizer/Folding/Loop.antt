-- ===== src/Optimizer/Folding/Loop.antt =====
-- src/optimizer.cc, `constant_folding`: its loop, from the start of a run to what replaces it.
use mathlib.Core.List.{append_assoc}
use stacky.Common.{
  ℕ, suc, ◌+◌, ◌<◌, ◌^◌, ◌≡◌, refl, sym, ap, ◌∙◌, true, false, none, some, List, [], ◌∷◌, ◌++◌,
  arith, length, length-append, Option-cases, Bool-cases, inl, inr, ◌⊎◌,
}
use stacky.Syntax.{Operation, OperationKind}
use stacky.Machine.{AllWords}
use stacky.Optimizer.Folding.{
  Folded, folded, stops, undefined, fold_operation, finish_folding, fold_loop, constant_folding,
  is_push_int,
}
use stacky.Optimizer.Folding.Region.{straight, straight_step, straight-append}
use stacky.Optimizer.Folding.Replaced.{
  OperationAgrees, AgreesAlong, IsReplaced, step-straight, step-words, finish-IsReplaced,
}

Folded-cases : (r : Folded) → ((t : List ℕ) × (r ≡ folded t)) ⊎ (r ≡ stops) ⊎ (r ≡ undefined)
Folded-cases (folded t) = inl (t, refl)
Folded-cases stops = inr (inl refl)
Folded-cases undefined = inr (inr refl)

-- One more operation of the run.
extend-run :
    (region : List Operation) (op : Operation) (stack t : List ℕ)
    → ((s : List ℕ) → straight region s ≡ some (stack ++ s))
    → ((s : List ℕ) → straight_step op (stack ++ s) ≡ some (t ++ s))
    → (s : List ℕ) → straight (region ++ op ∷ []) s ≡ some (t ++ s)
unfolding straight
extend-run region op stack t hs ht s =
    straight-append region (op ∷ []) s (stack ++ s) (hs s) ∙ rw (ht s, straight)

push-agrees :
    (k : OperationKind) (op : Operation) (stack : List ℕ)
    → is_push_int k ≡ true
    → OperationAgrees k op stack
    → op.ival < 2 ^ 64
push-agrees OperationKind.push_int op stack h g = g
push-agrees _ op stack h g = ground arith

push-straight :
    (op : Operation) (s : List ℕ)
    → is_push_int op.kind ≡ true
    → straight (op ∷ []) s ≡ some (op.ival ∷ s)
unfolding straight straight_step
push-straight op s h = ground arith

-- The same reads of the two lists, one operation later.
snoc-region :
    (before region rest : List Operation) (op : Operation)
    → before ++ (region ++ op ∷ rest) ≡ before ++ ((region ++ op ∷ []) ++ rest)
snoc-region before region rest op = ap (λ l. before ++ l) (sym (append_assoc region (op ∷ []) rest))

pass-region :
    (before region rest : List Operation) (op : Operation)
    → before ++ (region ++ op ∷ rest) ≡ (before ++ (region ++ op ∷ [])) ++ rest
pass-region before region rest op =
    snoc-region before region rest op ∙ sym (append_assoc before (region ++ op ∷ []) rest)

length-pass :
    (before region : List Operation) (op : Operation)
    → length (before ++ (region ++ op ∷ [])) ≡ suc (length before + length region)
length-pass before region op =
    omega (arith, length-append before (region ++ op ∷ []), length-append region (op ∷ []))

module _ (body body' : List Operation) where
  mutual
    unfolding fold_loop AgreesAlong

    loop_outside :
        (rest before : List Operation) (i : ℕ)
        → body ≡ before ++ rest
        → i ≡ length before
        → AgreesAlong rest false []
        → fold_loop body rest i none [] ≡ some (true, body')
        → IsReplaced body body'
    loop_outside [] before i hb hi g h = absurd (ground arith)
    loop_outside (op ∷ rest) before i hb hi g h = elim (Bool-cases (is_push_int op.kind)) [
      | inl e ↦
          loop_inside rest before (op ∷ []) (op.ival ∷ []) i (suc i) hb hi (omega (arith, hi))
            (push-agrees op.kind op [] e g.0, tt) (λ s. push-straight op s e) (rw e at g.1)
            (rw (e, fold_loop) at h)
      | inr e ↦
          loop_outside rest (before ++ op ∷ []) (suc i)
            (hb ∙ sym (append_assoc before (op ∷ []) rest))
            (omega (arith, length-append before (op ∷ []))) (rw e at g.1) (rw (e, fold_loop) at h)
    ]

    loop_inside :
        (rest before region : List Operation) (stack : List ℕ) (start i : ℕ)
        → body ≡ before ++ (region ++ rest)
        → start ≡ length before
        → i ≡ start + length region
        → AllWords stack
        → ((s : List ℕ) → straight region s ≡ some (stack ++ s))
        → AgreesAlong rest true stack
        → fold_loop body rest i (some start) stack ≡ some (true, body')
        → IsReplaced body body'
    loop_inside [] before region stack start i hb hst hi ws hs g h =
        elim (Option-cases (finish_folding body (some start) stack i)) [
          | inl e ↦ absurd (ground arith)
          | inr (b, e) ↦
              finish-IsReplaced body body' before region [] stack i hb (omega arith) hs
                (rw (← hst) (e ∙ ground arith))
        ]
    loop_inside (op ∷ rest) before region stack start i hb hst hi ws hs g h =
        elim (Folded-cases (fold_operation op stack)) [
          | inl (t, e) ↦
              loop_inside rest before (region ++ op ∷ []) t start (suc i)
                (hb ∙ snoc-region before region rest op) hst
                (omega (arith, length-append region (op ∷ []))) (step-words op stack t ws g.0 e)
                (extend-run region op stack t hs (λ s. step-straight op stack t s ws g.0 e))
                (rw e at g.1) (rw (e, fold_loop) at h)
          | inr (inl e) ↦ elim (Option-cases (finish_folding body (some start) stack i)) [
            | inl f ↦
                loop_outside rest (before ++ (region ++ op ∷ [])) (suc i)
                  (hb ∙ pass-region before region rest op)
                  (omega (arith, length-pass before region op)) (rw e at g.1)
                  (rw (e, f, fold_loop) at h)
            | inr (b, f) ↦
                finish-IsReplaced body body' before region (op ∷ rest) stack i hb (omega arith) hs
                  (rw (← hst) (f ∙ ground arith))
          ]
          | inr (inr e) ↦ absurd (ground arith)
        ]

-- If the pass did something, it replaced one run of pushes and intrinsics by pushes of the values
-- that the run leaves, on any stack, and moved the jumps behind the run's start by the difference in
-- length. Along the body the pushed values are words, and where the pass folds a division, a
-- remainder, an order, `min` or `max` the operands are below 2^63.
pub constant_folding-IsReplaced :
    (body body' : List Operation)
    → AgreesAlong body false []
    → constant_folding body ≡ some (true, body')
    → IsReplaced body body'
unfolding constant_folding
constant_folding-IsReplaced body body' g h = loop_outside body body' body [] 0 refl refl g h
