-- ===== src/Program/Laws.antt =====
-- What a step and a run do once the operation, or its result, is known.
use stacky.Common.{ℕ, suc, ◌≡◌, false, none, some, arith, ◌==◌, get_elem?}
use stacky.Syntax.{Operation}
use stacky.Program.{
  Process, Status, running, finished, divided, stuck, do_operation, step, run, leave,
}
use stacky.Dictionary.{Words}

pub suc_is_not_zero : (c : ℕ) → (suc c == 0) ≡ false
suc_is_not_zero c = ground arith

pub step-some :
    (words : Words) (v : ℕ) (p : Process) (op : Operation)
    → get_elem? p.body p.ip ≡ some op
    → step words v p ≡ do_operation words v op.kind op p
unfolding step
step-some words v p op g = rw (g, step)

pub same_fetched :
    (p : Process) (op' op : Operation)
    → get_elem? p.body p.ip ≡ some op'
    → get_elem? p.body p.ip ≡ some op
    → op' ≡ op
same_fetched p op' op g' g = ground (arith, g, g')

pub run-suc :
    (words : Words) (world : ℕ → ℕ) (n : ℕ) (p : Process) (r : Status)
    → step words (world n) p ≡ r
    → run words world (suc n) p ≡ (elim r [
      | running q ↦ run words world n q
      | finished s ↦ finished s
      | divided ↦ divided
      | stuck ↦ stuck
    ])
unfolding run
run-suc words world n p r e = rw (e, run)

pub step-none :
    (words : Words) (v : ℕ) (p : Process)
    → get_elem? p.body p.ip ≡ none
    → step words v p ≡ leave p p.frames
unfolding step
step-none words v p g = rw (g, step)
