-- ===== src/Types/Check/Safe.antt =====
-- src/types.cc: a program that the checker accepts never finds too few values on its stack.
use stacky.Common.{ℕ, ◌≡◌, refl, some, List, [], ◌∷◌, arith, length}
use stacky.Syntax.{Typestack, Operation}
use stacky.Report.{ok}
use stacky.Program.{Process, Status, running, finished, divided, stuck, run}
use stacky.Dictionary.{Words}
use stacky.Types.Check.{State, Verifier, expects, at, check_loop, typecheck_main}
use stacky.Types.Check.Certificate.{check_loop-AllClosed}
use stacky.Types.Check.Steps.{AllAccepted, words-Static, StatusFits, run-Fits}

-- Whatever the world gives, the program is running, has divided by zero, or has ended with this many
-- values.
abbrev pub NeverFails : ℕ → Status → Type 0
NeverFails final (running p) = Unit {0}
NeverFails final (finished s) = length s ≡ final
NeverFails final divided = Unit {0}
NeverFails final stuck = ⊥

StatusFits-NeverFails :
    (fuel : ℕ) (words : Words) (accepted : AllAccepted fuel words words) (final : ℕ) (r : Status)
    → StatusFits fuel words accepted final r
    → NeverFails final r
StatusFits-NeverFails fuel words accepted final (running p) h = tt
StatusFits-NeverFails fuel words accepted final (finished s) h = h
StatusFits-NeverFails fuel words accepted final divided h = h
StatusFits-NeverFails fuel words accepted final stuck h = h

-- A body at its start, called by nothing.
abbrev pub start : List Operation → List ℕ → Process
start body stack = record { frames = []; body = body; ip = 0; stack = stack }

-- If the checker accepts every word of a program that has an effect, no word is dynamically typed,
-- and a body is accepted with an input and an output, then a run of the body never finds too few
-- values on the stack, however long it runs, through branches, loops and calls, whatever the world
-- gives; and where it ends it leaves as many values as the output has.
pub check_loop-NeverFails :
    (fuel : ℕ) (words : Words) (body : List Operation) (input output : Typestack)
    (r : Verifier × List State) (stack : List ℕ) (world : ℕ → ℕ) (n : ℕ)
    → AllAccepted fuel words words
    → check_loop fuel words body (at input 0 ∷ []) [] (expects output) ≡ some (ok r)
    → length stack ≡ length input
    → NeverFails (length output) (run words world n (start body stack))
check_loop-NeverFails fuel words body input output r stack world n accepted checked h =
    let (places, closed, first) =
      check_loop-AllClosed words body output fuel input r (words-Static fuel words accepted)
        checked in
    StatusFits-NeverFails fuel words accepted (length output) (run words world n (start body stack))
      (run-Fits fuel words accepted (length output) world n (start body stack) (
        length output,
        record { places = places; closed = closed },
        length input,
        0,
        first,
        omega (arith, h),
        omega arith,
      ))

-- The same of the program's main body, which starts and ends with an empty stack.
pub typecheck_main-NeverFails :
    (fuel : ℕ) (words : Words) (body : List Operation) (r : Verifier × List State) (world : ℕ → ℕ)
    (n : ℕ)
    → AllAccepted fuel words words
    → typecheck_main fuel words body ≡ some (ok r)
    → NeverFails 0 (run words world n (start body []))
unfolding typecheck_main
typecheck_main-NeverFails fuel words body r world n accepted checked =
    check_loop-NeverFails fuel words body [] [] r [] world n accepted checked refl
