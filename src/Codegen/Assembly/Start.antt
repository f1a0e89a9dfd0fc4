-- ===== src/Codegen/Assembly/Start.antt =====
-- From `_start` to the end of the program.
use mathlib.Core.List.{append_assoc}
use stacky.Common.{
  ℕ, zero, suc, ◌≡◌, refl, sym, ap, ◌∙◌, subst, ◌⊎◌, inl, inr, none, some, List, [], ◌∷◌, ◌++◌, map,
  arith, length,
}
use stacky.Syntax.{Operation, Text}
use stacky.Report.{ok, Outcome-cases}
use stacky.Dictionary.{Words}
use stacky.Codegen.{pop, rax}
use stacky.Codegen.Functions.{generate_instructions}
use stacky.Codegen.Assembly.{
  Entry, line, instruction, Lookup, generate_jump_targets_lookup, generate_text, main_entries,
  start_label, save_argc, save_argv, exit_process,
}
use stacky.Codegen.Assembly.Machine.{Layout}
use stacky.Codegen.Assembly.Placed.{Loaded}
use stacky.Codegen.Assembly.Bodies.{written-Placed}
use stacky.Codegen.Assembly.Sections.{AllForeign-Unlabelled, function_sections-AllForeign}
use stacky.Machine.{Platform}
use stacky.Codegen.Assembly.{Assembly, generate_assembly}
use stacky.Codegen.Assembly.Finding.{Unlabelled-append}
use stacky.Program.{Process, Status, running, finished, divided, stuck, run as run_program, step}
use stacky.Program.Below.{on_top_of, SameStatus}
use stacky.Program.Framed.{Status-cases, step-Same, run-Same}
use stacky.Codegen.Assembly.Machine.{
  Machine, Starts, going, exits, faults, find_start, put, with_stack, do_entry,
}
use stacky.Codegen.Assembly.Runs.{Reaches}
use stacky.Codegen.Assembly.Steps.{at_code, from_code, entry-Reaches}
use stacky.Codegen.Assembly.Runs.{last-Reaches}
use stacky.Codegen.Assembly.Simulation.{Follows, Follows-later, arrives}
use stacky.Codegen.Assembly.Step.{OnRun, OnStatus, address_at, run-Follows}
use stacky.Codegen.Assembly.Sections.{find_start-behind}
use stacky.Codegen.Assembly.Generated.{
  Generable, IsLaidOut, Parts, generate_text-Parts, Looked, generate_jump_targets_lookup-Looked,
  whole-Loaded, AllGenerable-AllFit,
}

-- The machine does what the program has done: it stands with the same stack on top of the values
-- `below`, it exits with it, or it faults. Where the program has too few values, the machine uses those
-- below, and nothing is said.
abbrev pub Behaves : (p : Platform) → Layout → List Entry → List ℕ → Machine p → Status → Type 0
Behaves p layout text below m (running q) =
    (m' : Machine p) × Reaches p layout text m (going m') × (m'.cpu.stack ≡ q.stack ++ below)
Behaves p layout text below m (finished s) = Reaches p layout text m (exits (s ++ below))
Behaves p layout text below m divided = Reaches p layout text m faults
Behaves p layout text below m stuck = Unit {0}

-- The main body, before its first operation.
abbrev pub beginning : List Operation → Process
beginning main = record { frames = []; body = main; ip = 0; stack = [] }

module _ (p : Platform) (layout : Layout) (words : Words) (main : List Operation) (lookup : Lookup)
    (text : List Entry) (looked : Looked words main lookup) (parts : Parts lookup main text)
    (generable : Generable words main) (laid_out : IsLaidOut layout text) where
  abbrev loaded : Loaded layout text words
  loaded = whole-Loaded layout words main lookup text looked parts generable laid_out

  Follows-Behaves :
      (below : List ℕ) (m : Machine p) (r r' : Status)
      → SameStatus below r r'
      → Follows p layout text words loaded m r'
      → Behaves p layout text below m r
  Follows-Behaves below m (running q) r' e h =
      let (m', reach, x) = subst (Follows p layout text words loaded m) e h in
      (m', reach, x.same_stack)
  Follows-Behaves below m (finished s) r' e h = subst (Follows p layout text words loaded m) e h
  Follows-Behaves below m divided r' e h = subst (Follows p layout text words loaded m) e h
  Follows-Behaves below m stuck r' e h = tt

  -- Over the first entries.
  begins :
      (m : Machine p) (argc : ℕ) (below : List ℕ) (code : List Entry)
      → m.code ≡ instruction (pop rax) ∷ save_argc ∷ save_argv ∷ code
      → m.cpu.stack ≡ argc ∷ below
      → (m' : Machine p) × Reaches p layout text m (going m')
        × (m'.code ≡ code)
        × (m'.cpu.stack ≡ below)
        × (m'.slots ≡ m.slots)
        × (m'.pointer ≡ m.pointer)
  unfolding do_entry
  begins m argc below code c e =
      let m1 = record m { cpu = put p rax argc (with_stack p below m.cpu) } in
      let m2 = record m1 { argc = argc } in
      (
        at_code p layout text m2 code,
        from_code p layout text m (instruction (pop rax) ∷ save_argc ∷ save_argv ∷ code)
            (going (at_code p layout text m2 code)) c
            (entry-Reaches p layout text (instruction (pop rax)) _ m
              (at_code p layout text m1 (save_argc ∷ save_argv ∷ code))
              (going (at_code p layout text m2 code)) (rw (do_entry, e) refl)
              (entry-Reaches p layout text save_argc _ m1
                (at_code p layout text m2 (save_argv ∷ code))
                (going (at_code p layout text m2 code)) refl
                (last-Reaches p layout text (at_code p layout text m2 (save_argv ∷ code))
                  (going (at_code p layout text m2 code)) refl))),
        refl,
        refl,
        refl,
        refl,
      )

  Starts-Follows :
      (below : List ℕ) (m : Machine p)
      → Starts p layout text below m
      → Follows p layout text words loaded m (running (on_top_of below (beginning main)))
  unfolding find_start generate_instructions
  Starts-Follows below m s =
      let (functions, lines, f, g, text_is) = parts in
      let tail = exit_process ∷ [] in
      let code = map (line none) lines ++ tail in
      let first : List Entry = start_label ∷ instruction (pop rax) ∷ save_argc ∷ save_argv ∷ [] in
      let text_at : text ≡ (functions ++ first) ++ code =
        text_is ∙ sym (append_assoc functions first code) in
      let foreign = function_sections-AllForeign lookup.functions functions f in
      let found : find_start text ≡ some (instruction (pop rax) ∷ save_argc ∷ save_argv ∷ code) =
        ap find_start text_is ∙ find_start-behind functions (main_entries lines) foreign in
      let code_is : m.code ≡ instruction (pop rax) ∷ save_argc ∷ save_argv ∷ code =
        ground (arith, found, s.at_start) in
      let (argc, e) = s.arguments in
      let (m', reach, mc, ms, sl, mp) = begins m argc below code code_is e in
      let pl =
        written-Placed none text (functions ++ first) tail main lookup.main lines looked.0
          (generable.main_inside lookup.main looked.0) g text_at
          (λ n.
            Unlabelled-append none n functions first
              (AllForeign-Unlabelled none n functions foreign)
              (refl, (refl, (refl, (refl, tt))))) in
      Follows-later p layout text words loaded m m' (running (on_top_of below (beginning main)))
        reach
        (arrives p layout text words loaded (on_top_of below (beginning main)) m' pl (lines, g, mc)
          (functions ++ first, text_at ∙ ap (λ c. (functions ++ first) ++ c) (sym mc)) ([], refl)
          (AllGenerable-AllFit layout words main lookup text looked parts generable laid_out main
            generable.main_generable)
          ms s.words_below (ap length sl ∙ s.room) (mp ∙ s.no_callers))

-- The conditions on a run hold of the run with more values at the bottom, if no values lack.
OnRun-Below :
    (layout : Layout) (words : Words) (world : ℕ → ℕ) (below : List ℕ) (n : ℕ) (q : Process)
    → OnRun layout words world n q
    → (run_program words world n q ≡ stuck) ⊎ OnRun layout words world n (on_top_of below q)
unfolding OnRun run_program address_at
OnRun-Below layout words world below zero q on = inr tt
OnRun-Below layout words world below (suc n) q (same, shallow, on) =
    let one = step-Same below words (world n) q in
    let Good = OnStatus (OnRun layout words world n) in
    elim (Status-cases (step words (world n) q)) [
      | inl (q', e) ↦
          let there =
            subst (λ r. SameStatus below r (step words (world n) (on_top_of below q))) e one in
          elim (OnRun-Below layout words world below n q' (subst Good e on)) [
            | inl f ↦ inl (rw (e, run_program) f)
            | inr on' ↦ inr (same, shallow, subst Good (sym there) on')
          ]
      | inr (inl (s, e)) ↦
          let there =
            subst (λ r. SameStatus below r (step words (world n) (on_top_of below q))) e one in
          inr (same, shallow, subst Good (sym there) tt)
      | inr (inr (inl e)) ↦
          let there =
            subst (λ r. SameStatus below r (step words (world n) (on_top_of below q))) e one in
          inr (same, shallow, subst Good (sym there) tt)
      | inr (inr (inr e)) ↦ inl (rw (e, run_program) refl)
    ]

made_text :
    (lookup : Lookup) (words : Words) (strings : List (Text × ℕ)) (main : List Operation)
    (assembly : Assembly)
    → generate_assembly lookup words strings main ≡ ok assembly
    → generate_text lookup main ≡ ok assembly.text
unfolding generate_assembly
made_text lookup words strings main assembly e = elim (Outcome-cases (generate_text lookup main)) [
  | inl (c, f) ↦ absurd (ground (arith, rw (generate_assembly, f) at e))
  | inr (text, f) ↦
      let same : assembly.text ≡ text = ground (arith, rw (generate_assembly, f) at e) in
      f ∙ ap ok (sym same)
]

-- The assembly file of a program does what the program's operations mean: where `n` steps of the
-- operations finish, the machine that starts at `_start` exits with the same stack on top of what the
-- system had put below the number of arguments; where they divide by zero, it faults; and where they go
-- on, it goes on with the same stack on top of that. Nothing is said where they have too few values. For
-- every layout in which the return address of a call leads back to the code behind it and the addresses
-- of labels are words, every world that gives those addresses and while fewer than 1024 calls are open,
-- if every function has a number that no other word has, no jump leaves its body, constants are words,
-- intrinsics are those that only the stack matters to and a call carries its function's number.
pub generate_assembly-Behaves :
    (p : Platform) (layout : Layout) (words : Words) (strings : List (Text × ℕ))
    (main : List Operation) (lookup : Lookup) (assembly : Assembly) (world : ℕ → ℕ) (n : ℕ)
    (below : List ℕ) (m : Machine p)
    → generate_jump_targets_lookup words main ≡ ok lookup
    → generate_assembly lookup words strings main ≡ ok assembly
    → Generable words main
    → IsLaidOut layout assembly.text
    → Starts p layout assembly.text below m
    → OnRun layout words world n (beginning main)
    → Behaves p layout assembly.text below m (run_program words world n (beginning main))
generate_assembly-Behaves p layout words strings main lookup assembly world n below m look made g
      laid s on =
    let text_is = made_text lookup words strings main assembly made in
    let looked = generate_jump_targets_lookup-Looked words main lookup look in
    let parts = generate_text-Parts lookup main assembly.text text_is in
    let text = assembly.text in
    let there = whole-Loaded layout words main lookup text looked parts g laid in
    let q = beginning main in
    let q' = on_top_of below q in
    let (m', reach, h) =
      Starts-Follows p layout words main lookup text looked parts g laid below m s in
    elim (OnRun-Below layout words world below n q on) [
      | inl e ↦ subst (Behaves p layout text below m) (sym e) tt
      | inr on' ↦
          Follows-Behaves p layout words main lookup text looked parts g laid below m
            (run_program words world n q) (run_program words world n q')
            (run-Same below words world n q)
            (Follows-later p layout text words there m m' (run_program words world n q') reach
              (run-Follows p layout text words there world n q' m' h on'))
    ]
