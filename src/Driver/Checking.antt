-- ===== src/Driver/Checking.antt =====
-- src/stacky.cc, the loop of `main` over the functions that are type checked, and the main body.
pub mod Safe
pub mod Tests
use stacky.Common.{ℕ, Bool, true, false, Option, none, some, List, [], ◌∷◌, if◌then◌else◌}
use stacky.Syntax.{Operation, Text, Word, WordKind}
use stacky.Report.{Outcome, ok, exited}
use stacky.Dictionary.{Words}
use stacky.Types.Check.{Checked, Verifier, State, typecheck_word, typecheck_main}

-- `rest` is what the loop goes on with.
abbrev pub Checks : Type 0
Checks = Option (Outcome (Unit {0}))

abbrev pub then_checks : Checked → Checks → Checks
then_checks none rest = none
then_checks (some (exited c)) rest = some (exited c)
then_checks (some (ok r)) rest = rest

-- A function with an effect is checked, if it is not dynamically typed.
unfoldable pub check_word : ℕ → Words → WordKind → Word → Checks → Checks
unfolding typecheck_word
check_word fuel words WordKind.function word rest = elim word.is_dynamically_typed [
  | true ↦ rest
  | false ↦ elim word.has_effect [
    | true ↦ then_checks (typecheck_word fuel words word) rest
    | false ↦ rest
  ]
]
check_word fuel words _ word rest = rest

unfoldable pub check_words : ℕ → Words → Words → Checks
unfolding check_word
check_words fuel words [] = some (ok tt)
check_words fuel words ((name, word) ∷ rest) =
    check_word fuel words word.kind word (check_words fuel words rest)

unfoldable pub check_program : ℕ → Words → List Operation → Checks
unfolding check_words typecheck_main
check_program fuel words main = elim (check_words fuel words words) [
  | none ↦ none
  | some (exited c) ↦ some (exited c)
  | some (ok u) ↦ then_checks (typecheck_main fuel words main) (some (ok tt))
]
