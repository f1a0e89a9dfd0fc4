-- ===== src/Optimizer/Passes.antt =====
-- src/optimizer.cc, `for_all_functions` and `optimize`: the passes over the whole program, again and
-- again until none of them does anything.
pub mod Settled
pub mod Tests
use stacky.Common.{ℕ, zero, suc, Bool, true, false, ◌||◌, Option, none, some, List, [], ◌∷◌, length}
use stacky.Syntax.{Operation, Text, Word, WordKind}
use stacky.Report.{Outcome, ok, exited}
use stacky.Dictionary.{Words}
use stacky.Optimizer.Folding.{Pass, constant_folding}
use stacky.Optimizer.Unused.{Kept, remove_unused_words_and_strings}
use stacky.Optimizer.Conditions.{
  Passed, Body, passed, failed, undefined, endless, optimize_comptime_known_conditions,
}

infixl 5 ◌>>=◌
abbrev pub ◌>>=◌ {ℓ κ} : {A : Type ℓ} {B : Type κ} → Passed A → (A → Passed B) → Passed B
passed a >>= f = f a
failed c >>= f = failed c
undefined >>= f = undefined
endless >>= f = endless

-- `Generation_Info`, as far as the passes change it.
pub record Program : Type 0 where
  pub words : Words
  pub strings : List (Text × ℕ)
  pub main : List Operation

module _ (pass : List Operation → Passed Body) where
  abbrev pub for_word : WordKind → Word → Passed (Bool × Word)
  for_word WordKind.function word = do
    (done, body) ← pass word.function_body
    passed (done, record word { function_body = body })
  for_word _ word = passed (false, word)

  unfoldable pub for_words : Words → Passed (Bool × Words)
  for_words [] = passed (false, [])
  for_words ((name, word) ∷ words) = do
    (done, word') ← for_word word.kind word
    (done', words') ← for_words words
    passed (done || done', (name, word') ∷ words')

  unfoldable pub for_all_functions : Program → Passed (Bool × Program)
  unfolding for_words
  for_all_functions program = do
    (done, main) ← pass program.main
    (done', words) ← for_words program.words
    passed (done || done', record program { main = main; words = words })

abbrev pub of_pass : Pass → Passed Body
of_pass none = undefined
of_pass (some r) = passed r

abbrev pub folding : List Operation → Passed Body
unfolding constant_folding
folding body = of_pass (constant_folding body)

-- The pass has fuel for the body it starts with.
abbrev pub known_conditions : ℕ → List Operation → Passed Body
unfolding optimize_comptime_known_conditions
known_conditions fuel body = optimize_comptime_known_conditions fuel body

abbrev pub kept_program : Program → Option (Outcome Kept) → Passed (Bool × Program)
kept_program program none = endless
kept_program program (some (exited c)) = failed c
kept_program program (some (ok k)) =
    passed (k.done_something, record program { words = k.words; strings = k.strings })

unfoldable pub remove_unused : ℕ → Program → Passed (Bool × Program)
unfolding remove_unused_words_and_strings
remove_unused fuel program =
    kept_program program
      (remove_unused_words_and_strings fuel program.words program.strings program.main)

-- `||`: the second pass runs where the first did nothing.
abbrev pub or_else : (Program → Passed (Bool × Program)) → Bool × Program → Passed (Bool × Program)
or_else pass (true, program) = passed (true, program)
or_else pass (false, program) = pass program

-- One evaluation of the loop's condition.
unfoldable pub optimize_round : ℕ → Program → Passed (Bool × Program)
unfolding remove_unused for_all_functions known_conditions folding
optimize_round fuel program = do
  first ← remove_unused fuel program
  second ← or_else (for_all_functions (known_conditions fuel)) first
  or_else (for_all_functions folding) second

abbrev pub again : (Program → Passed Program) → Bool × Program → Passed Program
again on (true, program) = on program
again on (false, program) = passed program

-- `enough` is the fuel of the passes, and the other number the one of the loop.
unfoldable pub optimize : ℕ → ℕ → Program → Passed Program
unfolding optimize_round
optimize enough zero program = endless
optimize enough (suc fuel) program = do
  r ← optimize_round enough program
  again (optimize enough fuel) r
