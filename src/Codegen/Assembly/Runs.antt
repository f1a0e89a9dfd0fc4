-- ===== src/Codegen/Assembly/Runs.antt =====
-- Runs of the machine in a row.
use stacky.Common.{
  ℕ, zero, suc, ◌≡◌, refl, sym, ap, subst, ◌⊎◌, inl, inr, Option, none, some, List, [], ◌∷◌, ◌++◌,
  map, arith, Option-cases,
}
use stacky.Machine.{Platform}
use stacky.Codegen.{Instruction}
use stacky.Codegen.Functions.{plain}
use stacky.Codegen.Processor.{Cpu, step, run}
use stacky.Codegen.Assembly.{Entry, line}
use stacky.Codegen.Assembly.Machine.{
  Layout, Machine, Progress, going, exits, faults, do_first, do_entry, run_machine, executed,
}

module _ (p : Platform) (layout : Layout) (text : List Entry) where
  open p use {World}

  -- Some steps from `m` lead to `r`.
  abbrev pub Reaches : Machine p → Progress p → Type 0
  Reaches m r = (n : ℕ) × (run_machine p layout text n m ≡ r)

  Progress-cases :
      (r : Progress p)
      → ((m : Machine p) × (r ≡ going m)) ⊎ ((s : List ℕ) × (r ≡ exits s)) ⊎ (r ≡ faults)
  Progress-cases (going m) = inl (m, refl)
  Progress-cases (exits s) = inr (inl (s, refl))
  Progress-cases faults = inr (inr refl)

  pub step-Reaches :
      (m m' : Machine p) (r : Progress p)
      → do_first p layout text m.code m ≡ going m'
      → Reaches m' r
      → Reaches m r
  unfolding run_machine
  step-Reaches m m' r e (n, h) = (suc n, rw (run_machine, e) h)

  pub stays-Reaches : (m : Machine p) → Reaches m (going m)
  unfolding run_machine
  stays-Reaches m = (0, refl)

  -- The last step, of an exit or a fault too.
  pub last-Reaches :
      (m : Machine p) (r : Progress p) → do_first p layout text m.code m ≡ r → Reaches m r
  unfolding run_machine
  last-Reaches m (going m') e = (1, rw (run_machine, e) refl)
  last-Reaches m (exits s) e = (1, rw (run_machine, e) refl)
  last-Reaches m faults e = (1, rw (run_machine, e) refl)

  going_inj : (m m' : Machine p) → going m ≡ going m' → m ≡ m'
  going_inj m m' e = ground (arith, e)

  run-then :
      (n : ℕ) (m m' : Machine p) (r : Progress p)
      → run_machine p layout text n m ≡ going m'
      → Reaches m' r
      → Reaches m r
  unfolding run_machine
  run-then zero m m' r e h = subst (λ x. Reaches x r) (sym (going_inj m m' e)) h
  run-then (suc n) m m' r e h = elim (Progress-cases (do_first p layout text m.code m)) [
    | inl (m1, q) ↦ step-Reaches m m1 r q (run-then n m1 m' r (rw (run_machine, q) at e) h)
    | inr (inl (s, q)) ↦ absurd (ground (arith, rw (run_machine, q) at e))
    | inr (inr q) ↦ absurd (ground (arith, rw (run_machine, q) at e))
  ]

  pub then-Reaches :
      (m m' : Machine p) (r : Progress p) → Reaches m (going m') → Reaches m' r → Reaches m r
  then-Reaches m m' r (n, e) h = run-then n m m' r e h

  -- Where the instructions of a body run, the machine runs through their lines.
  abbrev pub lines_of : Option ℕ → List Instruction → List Entry → List Entry
  lines_of q code rest = map (line q) (map plain code) ++ rest

  abbrev pub moved : Machine p → List Entry → Cpu → World → Machine p
  moved m code cpu w = record m { code = code; cpu = cpu; world = w }

  -- `none` is a fault on the way.
  abbrev pub after_code : Machine p → List Entry → Option (Cpu × World) → Progress p
  after_code m rest none = faults
  after_code m rest (some (cpu, w)) = going (moved m rest cpu w)

  pub code-Reaches :
      (q : Option ℕ) (code : List Instruction) (rest : List Entry) (m : Machine p) (cpu : Cpu)
      (w : World)
      → Reaches (moved m (lines_of q code rest) cpu w) (after_code m rest (run p code cpu w))
  unfolding run do_entry
  code-Reaches q [] rest m cpu w = stays-Reaches (moved m rest cpu w)
  code-Reaches q (i ∷ code) rest m cpu w = elim (Option-cases (step p i cpu w)) [
    | inl e ↦
        rw (run, e)
          (last-Reaches _ faults (ap (λ r. executed p r (moved m (lines_of q code rest) cpu w)) e))
    | inr ((cpu', w'), e) ↦
        rw (run, e)
          (step-Reaches (moved m (lines_of q (i ∷ code) rest) cpu w)
            (moved m (lines_of q code rest) cpu' w') (after_code m rest (run p code cpu' w'))
            (ap (λ r. executed p r (moved m (lines_of q code rest) cpu w)) e)
            (code-Reaches q code rest m cpu' w'))
  ]
