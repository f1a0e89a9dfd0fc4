-- ===== src/Types/Check/Rounds.antt =====
-- src/types.cc, `typecheck`: one round of the worklist that comes to a good end, read backwards.
use stacky.Common.{
  ℕ, suc, ◌≡◌, ◌⊎◌, inl, inr, true, none, some, List, ◌∷◌, arith, ◌==◌, get_elem?, Bool-cases,
  Option-cases,
}
use stacky.Syntax.{Typestack, Operation, empty_jump}
use stacky.Report.{Check, ok, exited, Outcome-cases}
use stacky.Dictionary.{Words}
use stacky.Types.Check.{
  State, Verifier, expects, Move, advance, goto, branch, loop, leave, enter, check_operation,
  check_loop, expect_output, verify_output, same_stack, find_visited, at,
}

module _ (words : Words) (ops : List Operation) (output : Typestack) (r : Verifier × List State)
    (fuel : ℕ) (s : State) (states visited : List State) where
  -- The loop comes to the end `r`.
  abbrev pub Ends : ℕ → List State → List State → Type 0
  Ends n sts vis = check_loop n words ops sts vis (expects output) ≡ some (ok r)

  -- The top of the worklist is at the end of the body, or at a `return`.
  abbrev pub Fitted : Type 0
  Fitted = (expect_output s.stack output ≡ ok tt) × Ends fuel states visited

  -- A `do` was met before with the same stack, or it is new.
  abbrev pub Again : Typestack → ℕ → Type 0
  Again ts j =
      ((v : State) × (find_visited s.ip visited ≡ some v)
        × (same_stack ts v.stack ≡ true)
        × Ends fuel states visited)
      ⊎ ((find_visited s.ip visited ≡ none)
          × Ends fuel (at ts (suc s.ip) ∷ at ts j ∷ states) (at ts (suc s.ip) ∷ visited))

  -- What a move makes of the round.
  abbrev pub GoesOn : Move → Type 0
  GoesOn (advance ts) = Ends fuel (at ts (suc s.ip) ∷ states) visited
  GoesOn (goto j) = Ends fuel (at s.stack j ∷ states) visited
  GoesOn (branch ts j) = Ends fuel (at ts j ∷ at ts (suc s.ip) ∷ states) visited
  GoesOn (loop ts j) = Again ts j
  GoesOn leave = Fitted
  GoesOn _ = Unit {0}

  pub round-none : get_elem? ops s.ip ≡ none → Ends (suc fuel) (s ∷ states) visited → Fitted
  unfolding check_loop verify_output
  round-none g e = elim (Outcome-cases (expect_output s.stack output)) [
    | inl (c, f) ↦ absurd (ground (arith, g, e, f))
    | inr (u, f) ↦ (f, ground (arith, g, e, f))
  ]

  module _ (op : Operation) (g : get_elem? ops s.ip ≡ some op)
      (e : Ends (suc fuel) (s ∷ states) visited) where
    pub round-exited : (c : Check) → check_operation words op.kind op s.stack ≡ exited c → ⊥
    unfolding check_loop
    round-exited c f = ground (arith, g, e, f)

    round-leave : check_operation words op.kind op s.stack ≡ ok leave → Fitted
    unfolding check_loop verify_output
    round-leave h = elim (Outcome-cases (expect_output s.stack output)) [
      | inl (c, f) ↦ absurd (ground (arith, g, e, f, h))
      | inr (u, f) ↦ (f, ground (arith, g, e, f, h))
    ]

    round-loop :
        (ts : Typestack) (j : ℕ)
        → check_operation words op.kind op s.stack ≡ ok (loop ts j)
        → Again ts j
    unfolding check_loop
    round-loop ts j h = elim (Option-cases (find_visited s.ip visited)) [
      | inl f ↦ elim (Bool-cases (j == empty_jump)) [
        | inl b ↦ absurd (ground (arith, g, e, f, h, b))
        | inr b ↦ inr (f, ground (arith, g, e, f, h, b))
      ]
      | inr (v, f) ↦ elim (Bool-cases (same_stack ts v.stack)) [
        | inl b ↦ inl (v, f, b, ground (arith, g, e, f, h, b))
        | inr b ↦ absurd (ground (arith, g, e, f, h, b))
      ]
    ]

    pub round-some : (m : Move) → check_operation words op.kind op s.stack ≡ ok m → GoesOn m
    unfolding check_loop
    round-some (advance ts) h = ground (arith, g, e, h)
    round-some (goto j) h = ground (arith, g, e, h)
    round-some (branch ts j) h = ground (arith, g, e, h)
    round-some (loop ts j) h = round-loop ts j h
    round-some leave h = round-leave h
    round-some (enter body) h = tt
