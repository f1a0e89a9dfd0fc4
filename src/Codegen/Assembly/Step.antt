-- ===== src/Codegen/Assembly/Step.antt =====
-- A step of a program, and a run of one, in the machine.
use stacky.Common.{
  ℕ, zero, suc, ◌<◌, ◌≡◌, refl, sym, subst, inl, inr, none, some, List, [], ◌∷◌, ◌++◌, map, arith,
  length, drop, get_elem?, Bool-cases, ◌==◌, Option-cases,
}
use stacky.Syntax.{Operation, OperationKind, empty_jump}
use stacky.Report.{ok}
use stacky.Machine.{Platform}
use stacky.Dictionary.{Words}
use stacky.Program.{
  Process, Status, running, finished, divided, stuck, branch, step, do_operation, operation_step,
}
use stacky.Program.Laws.{step-some, step-none, run-suc}
use stacky.Program.{run as run_program}
use stacky.Program.Framed.{Status-cases}
use stacky.Codegen.Functions.{jump_if_zero, Line, operation_lines, lines_from, after_jump_set}
use stacky.Codegen.Assembly.{Entry, line}
use stacky.Codegen.Assembly.Machine.{Layout, Machine}
use stacky.Codegen.Assembly.Runs.{stays-Reaches}
use stacky.Codegen.Assembly.Placed.{After, Loaded, Matches, Lands, Jumps}
use stacky.Codegen.Assembly.Placed.{FitsKind}
use stacky.Codegen.Assembly.Simulation.{Follows, Follows-later, leave-Follows}
use stacky.Codegen.Assembly.Operations.{
  no_line, push_int-Follows, push_symbol-Follows, return-Follows, value_of, drop-some, drop-none,
}
use stacky.Codegen.Assembly.Branches.{end-Follows, else-Follows, branch-Follows}
use stacky.Codegen.Assembly.Calls.{intrinsic-Follows, call_symbol-Follows}

module _ (p : Platform) (layout : Layout) (text : List Entry) (words : Words)
    (loaded : Loaded layout text words) (q : Process) (m : Machine p)
    (matches : Matches layout text words p q m) (shallow : length q.frames < 1024)
    (body rest : List Line)
    (made : lines_from (suc q.ip) (length q.body) matches.place.targets (drop (suc q.ip) q.body)
      ≡ ok rest)
    (code_is : m.code
      ≡ map (line matches.place.prefix) body
        ++ (map (line matches.place.prefix) rest ++ matches.place.tail))
    (v : ℕ) (op : Operation) where
  open matches use {place, in_text, ends_in, fits, same_stack, all_words, capacity, callers}

  abbrev after : List Entry
  after = map (line place.prefix) rest ++ place.tail

  abbrev Goes : Status → Type 0
  Goes r = Follows p layout text words loaded m r

  jump_if_zero-Follows :
      after_jump_set op (jump_if_zero op.jump ∷ []) ≡ ok body
      → Lands place.prefix q.body place.targets place.tail text op.jump
      → Goes (branch q op q.stack)
  jump_if_zero-Follows e h = elim (Bool-cases (op.jump == empty_jump)) [
    | inl f ↦ absurd (ground (arith, e, f))
    | inr f ↦
        branch-Follows p layout text words loaded q m matches shallow rest v op body made code_is
          (ground (arith, e, f)) h q.stack refl
  ]

  pub do_operation-Follows :
      (k : OperationKind)
      → operation_lines q.ip (length q.body) k op ≡ ok body
      → FitsKind text words k op
      → (Jumps k → Lands place.prefix q.body place.targets place.tail text op.jump)
      → v ≡ value_of layout op
      → Goes (do_operation words v k op q)
  unfolding operation_lines do_operation operation_step
  do_operation-Follows OperationKind.intrinsic e h j w =
      intrinsic-Follows p layout text words loaded q m matches shallow body rest made code_is v op e
        h
  do_operation-Follows OperationKind.call_symbol e h j w =
      call_symbol-Follows p layout text words loaded q m matches shallow body rest made code_is v op
        e h
  do_operation-Follows OperationKind.push_int e h j w =
      push_int-Follows p layout text words loaded q m matches shallow rest v op body made code_is e
        h
  do_operation-Follows OperationKind.push_symbol e h j w =
      push_symbol-Follows p layout text words loaded q m matches shallow rest v op body made code_is
        e w
  do_operation-Follows OperationKind.cast e h j w =
      no_line p layout text words loaded q m matches shallow rest v op body made code_is q.stack
        (ground (arith, e)) refl
  do_operation-Follows OperationKind.while e h j w =
      no_line p layout text words loaded q m matches shallow rest v op body made code_is q.stack
        (ground (arith, e)) refl
  do_operation-Follows OperationKind.return e h j w =
      return-Follows p layout text words loaded q m matches shallow rest v op body made code_is e
  do_operation-Follows OperationKind.end e h j w =
      end-Follows p layout text words loaded q m matches shallow rest v op body made code_is e
        (j tt)
  do_operation-Follows OperationKind.else_ e h j w =
      else-Follows p layout text words loaded q m matches shallow rest v op body made code_is e
        (j tt)
  do_operation-Follows OperationKind.if_ e h j w = jump_if_zero-Follows e (j tt)
  do_operation-Follows OperationKind.do_ e h j w = jump_if_zero-Follows e (j tt)

-- What the assembled program pushes at the operation of a process, if that is a label's address.
unfoldable pub address_at : Layout → Process → ℕ
address_at layout q = elim (get_elem? q.body q.ip) [ none ↦ 0 | some op ↦ value_of layout op ]

module _ (p : Platform) (layout : Layout) (text : List Entry) (words : Words)
    (loaded : Loaded layout text words) where
  pub step-Follows :
      (q : Process) (m : Machine p)
      → Matches layout text words p q m
      → length q.frames < 1024
      → Follows p layout text words loaded m (step words (address_at layout q) q)
  unfolding address_at
  step-Follows q m h shallow = elim (Option-cases (get_elem? q.body q.ip)) [
    | inl g ↦
        subst (Follows p layout text words loaded m)
          (sym (step-none words (address_at layout q) q g))
          (leave-Follows p layout text words loaded q m q.frames h.place.tail h.ends_in
            (subst
              (λ ops.
                After h.place.prefix (length q.body) h.place.targets h.place.tail q.ip ops m.code)
              (drop-none q.body q.ip g) h.at_code)
            h.same_stack h.all_words h.capacity h.callers (omega (arith, shallow)))
    | inr (op, g) ↦
        let (body, rest, e, made, code_is) =
          subst
            (λ ops.
              After h.place.prefix (length q.body) h.place.targets h.place.tail q.ip ops m.code)
            (drop-some q.body q.ip op g) h.at_code in
        subst (Follows p layout text words loaded m)
          (sym (step-some words (address_at layout q) q op g))
          (do_operation-Follows p layout text words loaded q m h shallow body rest made code_is
            (address_at layout q) op op.kind e (h.fits q.ip op g) (h.place.lands q.ip op g)
            (rw (address_at, g) refl))
  ]

-- At each of `n` steps the world gives the assembled program's addresses, and the return stack has
-- room.
abbrev pub OnStatus : (Process → Type 0) → Status → Type 0
OnStatus good (running q) = good q
OnStatus good _ = Unit {0}

unfoldable pub OnRun : Layout → Words → (ℕ → ℕ) → ℕ → Process → Type 0
OnRun layout words world zero q = Unit {0}
OnRun layout words world (suc n) q =
    (world n ≡ address_at layout q)
    × (length q.frames < 1024)
    × OnStatus (OnRun layout words world n) (step words (world n) q)

module _ (p : Platform) (layout : Layout) (text : List Entry) (words : Words)
    (loaded : Loaded layout text words) (world : ℕ → ℕ) where
  pub run-Follows :
      (n : ℕ) (q : Process) (m : Machine p)
      → Matches layout text words p q m
      → OnRun layout words world n q
      → Follows p layout text words loaded m (run_program words world n q)
  unfolding run_program OnRun
  run-Follows zero q m h on = (m, stays-Reaches p layout text m, h)
  run-Follows (suc n) q m h (same, shallow, on) =
      let Goes = Follows p layout text words loaded m in
      let one : Goes (step words (world n) q) =
        subst (λ v. Goes (step words v q)) (sym same)
          (step-Follows p layout text words loaded q m h shallow) in
      elim (Status-cases (step words (world n) q)) [
        | inl (q', e) ↦
            let (m', reach, h') = subst Goes e one in
            subst Goes (sym (run-suc words world n q (running q') e)) (
              Follows-later p layout text words loaded m m' (run_program words world n q') reach
                (run-Follows n q' m' h' (subst (OnStatus (OnRun layout words world n)) e on)))
        | inr (inl (s, e)) ↦
            subst Goes (sym (run-suc words world n q (finished s) e)) (subst Goes e one)
        | inr (inr (inl e)) ↦
            subst Goes (sym (run-suc words world n q divided e)) (subst Goes e one)
        | inr (inr (inr e)) ↦ subst Goes (sym (run-suc words world n q stuck e)) (subst Goes e one)
      ]
