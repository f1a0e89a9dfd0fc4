-- ===== src/Driver/Checking/Tests.antt =====
-- The program of Codegen/Assembly/Tests, checked as the driver does.
use stacky.Common.{◌≡◌, refl, some, []}
use stacky.Syntax.{with_location}
use stacky.Report.{ok}
use stacky.Dictionary.{find_word}
use stacky.Program.{run}
use stacky.Types.Check.Safe.{NeverFails, start}
use stacky.Codegen.Assembly.Tests.{words, main}
use stacky.Driver.Checking.{check_program}
use stacky.Driver.Checking.Safe.{check_program-NeverFails}

accepted : check_program 20 words main ≡ some (ok tt)
unfolding check_program with_location find_word
accepted = refl

check_program-NeverFails_example : NeverFails 0 (run words (λ n. 0) 40 (start main []))
check_program-NeverFails_example =
    check_program-NeverFails 20 words main (λ n. 0) 40 (refl, (λ h. refl), tt) accepted
