-- ===== src/Driver/Checking/Safe.antt =====
-- src/stacky.cc and src/types.cc: a program that `main` has checked.
use stacky.Common.{
  ℕ, ◌≡◌, refl, sym, ap, ◌∙◌, subst, inl, inr, true, false, none, some, List, [], ◌∷◌, arith,
  Bool-cases, Option-cases,
}
use stacky.Syntax.{Operation, Word, WordKind}
use stacky.Report.{ok, exited, Outcome-cases}
use stacky.Dictionary.{Words}
use stacky.Program.{run}
use stacky.Types.Check.{Checked, Verifier, State, typecheck_word, typecheck_main}
use stacky.Types.Check.Steps.{AllAccepted, Accepted}
use stacky.Types.Check.Safe.{NeverFails, start, typecheck_main-NeverFails}
use stacky.Driver.Checking.{Checks, then_checks, check_word, check_words, check_program}

-- No word is dynamically typed, and only functions have an effect.
abbrev pub AllStatic : Words → Type 0
AllStatic [] = Unit {0}
AllStatic ((name, word) ∷ words) =
    (word.is_dynamically_typed ≡ false)
    × (word.has_effect ≡ true → word.kind ≡ WordKind.function)
    × AllStatic words

then_checks-ok :
    (checked : Checked) (rest : Checks)
    → then_checks checked rest ≡ some (ok tt)
    → ((r : Verifier × List State) × (checked ≡ some (ok r))) × (rest ≡ some (ok tt))
then_checks-ok none rest e = absurd (ground (arith, e))
then_checks-ok (some (exited c)) rest e = absurd (ground (arith, e))
then_checks-ok (some (ok r)) rest e = ((r, refl), e)

-- What the loop has found out about a function.
check_word-ok :
    (fuel : ℕ) (words : Words) (word : Word) (rest : Checks)
    → word.is_dynamically_typed ≡ false
    → word.has_effect ≡ true
    → check_word fuel words WordKind.function word rest ≡ some (ok tt)
    → ((r : Verifier × List State) × (typecheck_word fuel words word ≡ some (ok r)))
      × (rest ≡ some (ok tt))
unfolding check_word
check_word-ok fuel words word rest d h e =
    then_checks-ok (typecheck_word fuel words word) rest (rw (check_word, d, h) at e)

check_word-rest :
    (fuel : ℕ) (words : Words) (k : WordKind) (word : Word) (rest : Checks)
    → check_word fuel words k word rest ≡ some (ok tt)
    → rest ≡ some (ok tt)
unfolding check_word
check_word-rest fuel words WordKind.function word rest e =
    elim (Bool-cases word.is_dynamically_typed) [
      | inl d ↦ rw (check_word, d) at e
      | inr d ↦ elim (Bool-cases word.has_effect) [
        | inl h ↦
            (then_checks-ok (typecheck_word fuel words word) rest (rw (check_word, d, h) at e)).1
        | inr h ↦ rw (check_word, d, h) at e
      ]
    ]
check_word-rest fuel words _ word rest e = e

check_words-AllAccepted :
    (fuel : ℕ) (words rest : Words)
    → AllStatic rest
    → check_words fuel words rest ≡ some (ok tt)
    → AllAccepted fuel words rest
unfolding check_words
check_words-AllAccepted fuel words [] h e = tt
check_words-AllAccepted fuel words ((name, word) ∷ rest) (d, f, h) e =
    let later = check_words fuel words rest in
    let accepted : Accepted fuel words word.has_effect word = elim (Bool-cases word.has_effect) [
      | inr b ↦ subst (λ x. Accepted fuel words x word) (sym b) tt
      | inl b ↦
          let e' : check_word fuel words WordKind.function word later ≡ some (ok tt) =
            subst (λ k. check_word fuel words k word later ≡ some (ok tt)) (f b) e in
          subst (λ x. Accepted fuel words x word) (sym b)
            (check_word-ok fuel words word later d b e').0
    ] in
    (
      d,
      accepted,
      check_words-AllAccepted fuel words rest h (check_word-rest fuel words word.kind word later e),
    )

checked_main :
    (fuel : ℕ) (words : Words) (main : List Operation)
    → check_program fuel words main ≡ some (ok tt)
    → (check_words fuel words words ≡ some (ok tt))
      × ((r : Verifier × List State) × (typecheck_main fuel words main ≡ some (ok r)))
unfolding check_program
checked_main fuel words main e = elim (Option-cases (check_words fuel words words)) [
  | inl f ↦ absurd (ground (arith, rw (check_program, f) at e))
  | inr (o, f) ↦ elim (Outcome-cases o) [
    | inl (c, g) ↦ absurd (ground (arith, rw (check_program, f, g) at e))
    | inr (u, g) ↦ (
      f ∙ ap some g,
      (then_checks-ok (typecheck_main fuel words main) (some (ok tt))
          (rw (check_program, f, g) at e)).0,
    )
  ]
]

-- A program that the driver has checked without a report never finds too few values on its stack,
-- however long it runs and whatever the world gives, and where it ends the stack is empty; if no word
-- is dynamically typed, and only functions have an effect.
pub check_program-NeverFails :
    (fuel : ℕ) (words : Words) (main : List Operation) (world : ℕ → ℕ) (n : ℕ)
    → AllStatic words
    → check_program fuel words main ≡ some (ok tt)
    → NeverFails 0 (run words world n (start main []))
check_program-NeverFails fuel words main world n h e =
    let (words_checked, (r, main_checked)) = checked_main fuel words main e in
    typecheck_main-NeverFails fuel words main r world n
      (check_words-AllAccepted fuel words words h words_checked) main_checked
