-- ===== src/Program/Framed.antt =====
-- A step and a run of a program with more values at the bottom of its stack.
use stacky.Common.{
  ℕ, zero, suc, ◌≡◌, refl, ap, subst, ◌⊎◌, inl, inr, Option, none, some, List, [], ◌∷◌, ◌++◌,
  get_elem?, Option-cases,
}
use stacky.Syntax.{Operation, OperationKind, Word}
use stacky.Dictionary.{Words}
use stacky.Types.Check.{word_of}
use stacky.Program.{
  Frame, Process, Status, running, finished, divided, stuck, Result, next, divides, fails,
  operation_step, do_operation, step, run, leave, branch, enter, pass,
}
use stacky.Program.Below.{on_top_of, SameResult, SameStatus, intrinsic-Same}

pub Status-cases :
    (r : Status)
    → ((q : Process) × (r ≡ running q))
      ⊎ ((s : List ℕ) × (r ≡ finished s))
      ⊎ (r ≡ divided)
      ⊎ (r ≡ stuck)
Status-cases (running q) = inl (q, refl)
Status-cases (finished s) = inr (inl (s, refl))
Status-cases divided = inr (inr (inl refl))
Status-cases stuck = inr (inr (inr refl))

module _ (below : List ℕ) where
  leave-Same :
      (q : Process) (fs : List Frame) → SameStatus below (leave q fs) (leave (on_top_of below q) fs)
  leave-Same q [] = refl
  leave-Same q (f ∷ fs) = refl

  enter-Same :
      (q : Process) (w : Option Word) → SameStatus below (enter q w) (enter (on_top_of below q) w)
  enter-Same q none = tt
  enter-Same q (some w) = refl

  branch-Same :
      (q : Process) (op : Operation) (s : List ℕ)
      → SameStatus below (branch q op s) (branch (on_top_of below q) op (s ++ below))
  branch-Same q op [] = tt
  branch-Same q op (c ∷ s) = refl

  pass-Same :
      (q : Process) (x y : Result)
      → SameResult below x y
      → SameStatus below (pass q x) (pass (on_top_of below q) y)
  pass-Same q (next s) y h = ap (pass (on_top_of below q)) h
  pass-Same q divides y h = ap (pass (on_top_of below q)) h
  pass-Same q fails y h = tt

  do_operation-Same :
      (words : Words) (v : ℕ) (k : OperationKind) (op : Operation) (q : Process)
      → SameStatus below
          (do_operation words v k op q)
          (do_operation words v k op (on_top_of below q))
  unfolding do_operation operation_step
  do_operation-Same words v OperationKind.if_ op q = branch-Same q op q.stack
  do_operation-Same words v OperationKind.do_ op q = branch-Same q op q.stack
  do_operation-Same words v OperationKind.return op q = leave-Same q q.frames
  do_operation-Same words v OperationKind.call_symbol op q = enter-Same q (word_of words op.word)
  do_operation-Same words v OperationKind.intrinsic op q =
      pass-Same q _ _ (intrinsic-Same below v op.intrinsic op.token.sval q.stack)
  do_operation-Same words v _ op q = refl

  pub step-Same :
      (words : Words) (v : ℕ) (q : Process)
      → SameStatus below (step words v q) (step words v (on_top_of below q))
  unfolding step
  step-Same words v q = elim (Option-cases (get_elem? q.body q.ip)) [
    | inl g ↦ rw (g, step) (leave-Same q q.frames)
    | inr (op, g) ↦ rw (g, step) (do_operation-Same words v op.kind op q)
  ]

  -- A run does the same with more values at the bottom, as long as it does not lack values.
  pub run-Same :
      (words : Words) (world : ℕ → ℕ) (n : ℕ) (q : Process)
      → SameStatus below (run words world n q) (run words world n (on_top_of below q))
  unfolding run
  run-Same words world zero q = refl
  run-Same words world (suc n) q =
      let one = step-Same words (world n) q in
      elim (Status-cases (step words (world n) q)) [
        | inl (q', e) ↦
            let there =
              subst (λ r. SameStatus below r (step words (world n) (on_top_of below q))) e one in
            rw (e, there, run) (run-Same words world n q')
        | inr (inl (s, e)) ↦
            let there =
              subst (λ r. SameStatus below r (step words (world n) (on_top_of below q))) e one in
            rw (e, there, run) refl
        | inr (inr (inl e)) ↦
            let there =
              subst (λ r. SameStatus below r (step words (world n) (on_top_of below q))) e one in
            rw (e, there, run) refl
        | inr (inr (inr e)) ↦ rw (e, run) tt
      ]
