-- ===== src/Soundness/Assembled/Tests.antt =====
-- The checked program of Codegen/Assembly/Tests, run to its end.
use stacky.Common.{◌≡◌, refl, some, [], ◌∷◌}
use stacky.Syntax.{with_location}
use stacky.Dictionary.{find_word}
use stacky.Report.{ok}
use stacky.Types.Check.{expects, typecheck_main, typecheck_word}
use stacky.Types.Effects.{int_t}
use stacky.Program.{run}
use stacky.Codegen.Tests.{still}
use stacky.Codegen.Assembly.Start.{beginning}
use stacky.Codegen.Assembly.Tests.{
  words, main, dec, lookup, layout_of, layout_of-IsLaidOut, assembly, below, machine, looked, made,
  starts, generable, on_run,
}
use stacky.Soundness.Assembled.{IsSafe, typecheck_main-IsSafe}

main_accepted :
    typecheck_main 20 words main
    ≡ some (ok (expects [], record { stack = int_t ∷ []; ip = 6 } ∷ []))
unfolding typecheck_main with_location find_word
main_accepted = refl

dec_accepted : typecheck_word 20 words dec ≡ some (ok (expects (int_t ∷ []), []))
unfolding typecheck_word with_location
dec_accepted = refl

typecheck_main-IsSafe_example :
    IsSafe still
      (layout_of assembly.text)
      assembly.text
      below
      machine
      (run words (λ n. 0) 18 (beginning main))
typecheck_main-IsSafe_example =
    typecheck_main-IsSafe 20 still (layout_of assembly.text) words [] main
      (expects [], record { stack = int_t ∷ []; ip = 6 } ∷ []) lookup assembly (λ n. 0) 18 below
      machine (refl, (_, dec_accepted), tt) main_accepted looked made generable
      (layout_of-IsLaidOut assembly.text) starts on_run
