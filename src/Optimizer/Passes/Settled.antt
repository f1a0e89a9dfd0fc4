-- ===== src/Optimizer/Passes/Settled.antt =====
-- src/optimizer.cc: what `optimize` leaves.
use stacky.Common.{
  ℕ, zero, suc, ◌≡◌, refl, sym, ap, ◌∙◌, subst, ◌⊎◌, inl, inr, Bool, true, false, ◌||◌, Option,
  none, some, List, [], ◌∷◌, arith, Bool-cases, Option-cases,
}
use stacky.Syntax.{Operation, Word, WordKind}
use stacky.Dictionary.{Words}
use stacky.Optimizer.Folding.{
  Folded, folded, stops, constant_folding, fold_loop, fold_operation, finish_folding, is_push_int,
}
use stacky.Optimizer.Conditions.{Passed, Body, passed, failed, undefined, endless}
use stacky.Optimizer.Conditions.Settled.{NoKnown, optimize_comptime_known_conditions-NoKnown}
use stacky.Optimizer.Passes.{
  ◌>>=◌, Program, for_word, for_words, for_all_functions, of_pass, folding, known_conditions,
  remove_unused, or_else, again, optimize_round, optimize,
}

bind-passed {ℓ κ} :
    {A : Type ℓ} {B : Type κ} (x : Passed A) (f : A → Passed B) (b : B)
    → (x >>= f) ≡ passed b
    → (a : A) × (x ≡ passed a) × (f a ≡ passed b)
bind-passed (passed a) f b e = (a, refl, e)
bind-passed (failed c) f b e = absurd (ground (arith, e))
bind-passed undefined f b e = absurd (ground (arith, e))
bind-passed endless f b e = absurd (ground (arith, e))

abbrev IfFunction : WordKind → Type 0 → Type 0
IfFunction WordKind.function P = P
IfFunction _ P = Unit {0}

-- The property holds for the body of every function.
abbrev pub AllFunctions : (List Operation → Type 0) → Words → Type 0
AllFunctions P [] = Unit {0}
AllFunctions P ((name, word) ∷ words) =
    IfFunction word.kind (P word.function_body) × AllFunctions P words

passed_inj {ℓ} : {A : Type ℓ} (a b : A) → passed a ≡ passed b → a ≡ b
passed_inj a b e = ground (arith, e)

-- A pass that did nothing in the whole program did nothing in any body.
module _ (pass : List Operation → Passed Body) (P : List Operation → Type 0)
    (settled : (body body' : List Operation)
      → pass body ≡ passed (false, body')
      → P body × (body' ≡ body)) where
  for_word-settled :
      (k : WordKind) (word word' : Word) (done : Bool)
      → for_word pass k word ≡ passed (done, word')
      → done ≡ false
      → IfFunction k (P word.function_body) × (word' ≡ word)
  for_word-settled WordKind.function word word' done e d =
      let ((b, body), f, g) = bind-passed (pass word.function_body) _ (done, word') e in
      let same = passed_inj (b, record word { function_body = body }) (done, word') g in
      let (holds, unchanged) =
        settled word.function_body body (f ∙ ap (λ x. passed (x, body)) (ap (λ x. x.0) same ∙ d)) in
      (holds, sym (ap (λ x. x.1) same) ∙ ap (λ x. record word { function_body = x }) unchanged)
  for_word-settled _ word word' done e d =
      (tt, sym (ap (λ x. x.1) (passed_inj (false, word) (done, word') e)))

  for_words-settled :
      (words words' : Words) (done : Bool)
      → for_words pass words ≡ passed (done, words')
      → done ≡ false
      → AllFunctions P words × (words' ≡ words)
  unfolding for_words
  for_words-settled [] words' done e d =
      (tt, sym (ap (λ x. x.1) (passed_inj (false, []) (done, words') e)))
  for_words-settled ((name, word) ∷ words) words' done e d =
      let ((b, word'), f, g) = bind-passed (for_word pass word.kind word) _ (done, words') e in
      let ((c, rest), h, k) = bind-passed (for_words pass words) _ (done, words') g in
      let same = passed_inj (b || c, (name, word') ∷ rest) (done, words') k in
      let none_done : b || c ≡ false = ap (λ x. x.0) same ∙ d in
      let (holds, unchanged) =
        for_word-settled word.kind word word' b f (ground (arith, none_done)) in
      let (all_hold, rest_unchanged) =
        for_words-settled words rest c h (ground (arith, none_done)) in
      (
        (holds, all_hold),
        sym (ap (λ x. x.1) same)
            ∙ ap (λ w. (name, w) ∷ rest) unchanged
            ∙ ap (λ ws. (name, word) ∷ ws) rest_unchanged,
      )

  for_all_functions-settled :
      (program program' : Program)
      → for_all_functions pass program ≡ passed (false, program')
      → P program.main × AllFunctions P program.words × (program' ≡ program)
  unfolding for_all_functions
  for_all_functions-settled program program' e =
      let ((b, main), f, g) = bind-passed (pass program.main) _ (false, program') e in
      let ((c, words), h, k) = bind-passed (for_words pass program.words) _ (false, program') g in
      let same =
        passed_inj (b || c, record program { main = main; words = words }) (false, program') k in
      let none_done : b || c ≡ false = ap (λ x. x.0) same in
      let first : b ≡ false = ground (arith, none_done) in
      let (holds, unchanged) = settled program.main main (f ∙ ap (λ x. passed (x, main)) first) in
      let (all_hold, words_unchanged) =
        for_words-settled program.words words c h (ground (arith, none_done)) in
      (
        holds,
        all_hold,
        sym (ap (λ x. x.1) same)
            ∙ ap (λ m. record program { main = m; words = words }) unchanged
            ∙ ap (λ ws. record program { words = ws }) words_unchanged,
      )

Folded-cases : (r : Folded) → ((s : List ℕ) × (r ≡ folded s)) ⊎ (r ≡ stops) ⊎ (r ≡ Folded.undefined)
Folded-cases (folded s) = inl (s, refl)
Folded-cases stops = inr (inl refl)
Folded-cases Folded.undefined = inr (inr refl)

fold_loop-unchanged :
    (body rest : List Operation) (i : ℕ) (start : Option ℕ) (stack : List ℕ)
    (body' : List Operation)
    → fold_loop body rest i start stack ≡ some (false, body')
    → body' ≡ body
unfolding fold_loop
fold_loop-unchanged body [] i start stack body' e =
    elim (Option-cases (finish_folding body start stack i)) [
      | inl f ↦ ground (arith, rw (fold_loop, f) at e)
      | inr (b, f) ↦ absurd (ground (arith, rw (fold_loop, f) at e))
    ]
fold_loop-unchanged body (op ∷ rest) i none stack body' e =
    elim (Bool-cases (is_push_int op.kind)) [
      | inl f ↦
          fold_loop-unchanged body rest (suc i) (some i) (op.ival ∷ stack) body'
            (rw (fold_loop, f) at e)
      | inr f ↦ fold_loop-unchanged body rest (suc i) none stack body' (rw (fold_loop, f) at e)
    ]
fold_loop-unchanged body (op ∷ rest) i (some start) stack body' e =
    elim (Folded-cases (fold_operation op stack)) [
      | inl (s, f) ↦
          fold_loop-unchanged body rest (suc i) (some start) s body' (rw (fold_loop, f) at e)
      | inr (inr f) ↦ absurd (ground (arith, rw (fold_loop, f) at e))
      | inr (inl f) ↦ elim (Option-cases (finish_folding body (some start) stack i)) [
        | inl g ↦ fold_loop-unchanged body rest (suc i) none [] body' (rw (fold_loop, f, g) at e)
        | inr (b, g) ↦ absurd (ground (arith, rw (fold_loop, f, g) at e))
      ]
    ]

folding-unchanged :
    (body body' : List Operation) → folding body ≡ passed (false, body') → Unit {0} × (body' ≡ body)
unfolding folding constant_folding
folding-unchanged body body' e = elim (Option-cases (constant_folding body)) [
  | inl f ↦ absurd (ground (arith, sym (ap of_pass f) ∙ e))
  | inr (r, f) ↦
      let same : r ≡ (false, body') = passed_inj r (false, body') (sym (ap of_pass f) ∙ e) in
      (tt, fold_loop-unchanged body body 0 none [] body' (f ∙ ap some same))
]

or_else-settled :
    (pass : Program → Passed (Bool × Program)) (r : Bool × Program) (program : Program)
    → or_else pass r ≡ passed (false, program)
    → (r.0 ≡ false) × (pass r.1 ≡ passed (false, program))
or_else-settled pass (true, p) program e = absurd (ground (arith, e))
or_else-settled pass (false, p) program e = (refl, e)

-- No branch on a constant is left in the main body or in a function.
abbrev pub IsSettled : Program → Type 0
IsSettled program = NoKnown program.main × AllFunctions NoKnown program.words

optimize_round-IsSettled :
    (enough : ℕ) (program program' : Program)
    → optimize_round enough program ≡ passed (false, program')
    → IsSettled program'
unfolding optimize_round known_conditions
optimize_round-IsSettled enough program program' e =
    let (first, f, g) = bind-passed (remove_unused enough program) _ (false, program') e in
    let (second, h, k) =
      bind-passed (or_else (for_all_functions (known_conditions enough)) first) _ (false, program')
        g in
    let (nothing, third) = or_else-settled (for_all_functions folding) second program' k in
    let (u, us, same) =
      for_all_functions-settled folding (λ body. Unit {0}) folding-unchanged second.1 program'
        third in
    let (still_nothing, middle) =
      or_else-settled (for_all_functions (known_conditions enough)) first second.1
        (h ∙ ap (λ b. passed (b, second.1)) nothing) in
    let (main_settled, words_settled, same') =
      for_all_functions-settled (known_conditions enough) NoKnown
        (λ body body'. optimize_comptime_known_conditions-NoKnown enough body body') first.1
        second.1 middle in
    subst IsSettled (sym (same ∙ same')) (main_settled, words_settled)

-- Where the loop of the passes has come to its end, no branch on a constant is left, neither in the
-- main body nor in any function.
pub optimize-IsSettled :
    (enough fuel : ℕ) (program program' : Program)
    → optimize enough fuel program ≡ passed program'
    → IsSettled program'
unfolding optimize
optimize-IsSettled enough zero program program' e = absurd (ground (arith, e))
optimize-IsSettled enough (suc fuel) program program' e =
    let (r, f, g) = bind-passed (optimize_round enough program) _ program' e in
    elim (Bool-cases r.0) [
      | inl b ↦
          optimize-IsSettled enough fuel r.1 program'
            (subst (λ d. again (optimize enough fuel) (d, r.1) ≡ passed program') b g)
      | inr b ↦
          let last : passed r.1 ≡ passed program' =
            subst (λ d. again (optimize enough fuel) (d, r.1) ≡ passed program') b g in
          subst IsSettled (passed_inj r.1 program' last)
            (optimize_round-IsSettled enough program r.1 (f ∙ ap (λ d. passed (d, r.1)) b))
    ]
