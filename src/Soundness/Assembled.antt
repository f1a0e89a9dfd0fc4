-- ===== src/Soundness/Assembled.antt =====
-- The type checker (src/types.cc) and the whole assembly file (src/linux-x86_64.cc) together.
pub mod Tests
use stacky.Common.{
  ℕ, ◌≡◌, refl, sym, ap, ◌∙◌, subst, ◌⊎◌, inl, inr, Option, some, List, [], ◌∷◌, ◌++◌, arith,
  length,
}
use stacky.Syntax.{Operation, Text}
use stacky.Report.{ok}
use stacky.Machine.{Platform}
use stacky.Dictionary.{Words}
use stacky.Types.Check.{State, Verifier, typecheck_main}
use stacky.Types.Check.Steps.{AllAccepted}
use stacky.Types.Check.Safe.{NeverFails, typecheck_main-NeverFails}
use stacky.Program.{Process, Status, running, finished, divided, stuck, run}
use stacky.Codegen.Assembly.{
  Entry, Assembly, Lookup, generate_jump_targets_lookup, generate_assembly,
}
use stacky.Codegen.Assembly.Machine.{Layout, Machine, Starts, going, exits, faults}
use stacky.Codegen.Assembly.Runs.{Reaches}
use stacky.Codegen.Assembly.Step.{OnRun}
use stacky.Codegen.Assembly.Generated.{Generable, IsLaidOut}
use stacky.Codegen.Assembly.Start.{Behaves, beginning, generate_assembly-Behaves}

-- The machine stands with the stack of the program on top of the values `below`, exits with those
-- values alone, or faults where the program divides by zero.
abbrev pub IsSafe : (p : Platform) → Layout → List Entry → List ℕ → Machine p → Status → Type 0
IsSafe p layout text below m r =
    ((q : Process) × (r ≡ running q)
      × (m' : Machine p) × Reaches p layout text m (going m')
      × (m'.cpu.stack ≡ q.stack ++ below))
    ⊎ ((r ≡ finished []) × Reaches p layout text m (exits below))
    ⊎ ((r ≡ divided) × Reaches p layout text m faults)

length-empty : (s : List ℕ) → length s ≡ 0 → s ≡ []
length-empty [] e = refl
length-empty (x ∷ s) e = absurd (ground (arith, e))

Behaves-IsSafe :
    (p : Platform) (layout : Layout) (text : List Entry) (below : List ℕ) (m : Machine p)
    (r : Status)
    → NeverFails 0 r
    → Behaves p layout text below m r
    → IsSafe p layout text below m r
Behaves-IsSafe p layout text below m (running q) h (m', reach, e) = inl (q, refl, m', reach, e)
Behaves-IsSafe p layout text below m (finished s) h b =
    let same = length-empty s h in
    inr (inl (ap finished same, subst (λ x. Reaches p layout text m (exits (x ++ below))) same b))
Behaves-IsSafe p layout text below m divided h b = inr (inr (refl, b))
Behaves-IsSafe p layout text below m stuck h b = absurd h

-- The assembly file of a program that the checker accepts, run from `_start`: where `n` steps of the
-- program have led, the machine stands with the program's stack on top of what the system had put below
-- the number of arguments, or it exits with that alone where the program finishes, or it faults where
-- the program divides by zero. For every layout in which the return address of a call leads back to the
-- code behind it and the addresses of labels are words, every world that gives those addresses and while
-- fewer than 1024 calls are open, if every word with an effect is accepted and none is dynamically
-- typed, every function has a number that no other word has, no jump leaves its body, constants are
-- words, intrinsics are those that only the stack matters to and a call carries its function's number.
pub typecheck_main-IsSafe :
    (fuel : ℕ) (p : Platform) (layout : Layout) (words : Words) (strings : List (Text × ℕ))
    (main : List Operation) (checked : Verifier × List State) (lookup : Lookup)
    (assembly : Assembly) (world : ℕ → ℕ) (n : ℕ) (below : List ℕ) (m : Machine p)
    → AllAccepted fuel words words
    → typecheck_main fuel words main ≡ some (ok checked)
    → generate_jump_targets_lookup words main ≡ ok lookup
    → generate_assembly lookup words strings main ≡ ok assembly
    → Generable words main
    → IsLaidOut layout assembly.text
    → Starts p layout assembly.text below m
    → OnRun layout words world n (beginning main)
    → IsSafe p layout assembly.text below m (run words world n (beginning main))
typecheck_main-IsSafe fuel p layout words strings main r lookup assembly world n below m a c look
      made g l s on =
    Behaves-IsSafe p layout assembly.text below m (run words world n (beginning main))
      (typecheck_main-NeverFails fuel words main r world n a c)
      (generate_assembly-Behaves p layout words strings main lookup assembly world n below m look
        made g l s on)
