-- ===== src/Types/Check.antt =====
-- src/types.cc, `typecheck`: the worklist of abstract states over a body of operations.
pub mod Fits
pub mod Straight
pub mod Closed
pub mod Moves
pub mod Rounds
pub mod Certificate
pub mod Steps
pub mod Safe
pub mod Tests
use stacky.Common.{
  ℕ, zero, suc, Bool, true, false, ◌&&◌, Option, none, some, List, [], ◌∷◌, ◌==◌, if◌then◌else◌,
  get_elem?, text_eq,
}
use stacky.Syntax.{Typestack, Operation, OperationKind, Word, Text, with_location, empty_jump}
use stacky.Dictionary.{Words, find_word}
use stacky.Report.{
  Outcome, ok, exited, ◌>>=◌, ◌>>◌, ensure, jump_not_set, loop_differs_stack, no_stack_effect,
  excess_data, missing_data, word_not_defined,
}
use stacky.Types.Effects.{
  type_eq, typecheck_stack_effects, intrinsic_effects, effect, any_t, bool_t, ptr_t,
}

pub record State : Type 0 where
  pub stack : Typestack
  pub ip : ℕ

-- `make_expected_output_verifier`: the mismatch from the top, by the types' equality.
unfoldable pub expect_output : Typestack → Typestack → Outcome (Unit {0})
unfolding type_eq
expect_output [] [] = ok tt
expect_output (s ∷ stack) [] = exited excess_data
expect_output [] (o ∷ output) = exited missing_data
expect_output (s ∷ stack) (o ∷ output) =
    let rest = expect_output stack output in
    elim (type_eq s o) [ true ↦ rest | false ↦ exited missing_data ]

-- The verifier of a typed word, or of a call of a dynamically typed one, which takes the first stack
-- that it is given for the expected output.
pub data Verifier : Type 0 where
  expects : Typestack → Verifier
  awaits : Verifier

unfoldable pub verify_output : Verifier → Typestack → Outcome Verifier
unfolding expect_output
verify_output (expects output) stack = do expect_output stack output; ok (expects output)
verify_output awaits stack = ok (expects stack)

-- `stk == end && exp == end` of `std::mismatch`
unfoldable pub same_stack : Typestack → Typestack → Bool
unfolding type_eq
same_stack [] [] = true
same_stack [] (u ∷ us) = false
same_stack (t ∷ ts) [] = false
same_stack (t ∷ ts) (u ∷ us) = type_eq t u && same_stack ts us

unfoldable pub find_visited : ℕ → List State → Option State
find_visited ip [] = none
find_visited ip (v ∷ visited) = if v.ip == suc ip then some v else find_visited ip visited

-- What an operation asks for: the next state of the worklist's top, and more.
pub data Move : Type 0 where
  advance : Typestack → Move
  goto : ℕ → Move
  branch : Typestack → ℕ → Move
  loop : Typestack → ℕ → Move
  leave : Move
  enter : List Operation → Move

abbrev with_jump : ℕ → (ℕ → Outcome Move) → Outcome Move
with_jump j f = do ensure (if j == empty_jump then false else true) jump_not_set; f j

unfoldable pub check_call : Option Word → Typestack → Outcome Move
unfolding typecheck_stack_effects
check_call none stack = exited word_not_defined
check_call (some word) stack = elim word.is_dynamically_typed [
  | true ↦ ok (enter word.function_body)
  | false ↦ elim word.has_effect [
    | false ↦ exited no_stack_effect
    | true ↦ do ok (advance (← typecheck_stack_effects (word.effect ∷ []) stack))
  ]
]

abbrev pub word_of : Words → Option Text → Option Word
word_of words none = none
word_of words (some name) = find_word name words

-- The switch over the kinds of operations.
unfoldable pub check_operation : Words → OperationKind → Operation → Typestack → Outcome Move
unfolding check_call typecheck_stack_effects intrinsic_effects
check_operation words OperationKind.push_int op stack =
    ok (advance (with_location op.location op.type ∷ stack))
check_operation words OperationKind.push_symbol op stack =
    ok (advance (with_location op.location ptr_t ∷ stack))
check_operation words OperationKind.cast op stack = do
  ok (advance (← typecheck_stack_effects (effect (any_t ∷ []) (op.type ∷ []) ∷ []) stack))
check_operation words OperationKind.if_ op stack = do
  rest ← typecheck_stack_effects (effect (bool_t ∷ []) [] ∷ []) stack
  with_jump op.jump λ j. ok (branch rest j)
check_operation words OperationKind.else_ op stack = with_jump op.jump λ j. ok (goto j)
check_operation words OperationKind.end op stack = with_jump op.jump λ j. ok (goto j)
check_operation words OperationKind.while op stack = ok (advance stack)
check_operation words OperationKind.do_ op stack = do
  rest ← typecheck_stack_effects (effect (bool_t ∷ []) [] ∷ []) stack
  ok (loop rest op.jump)
check_operation words OperationKind.call_symbol op stack = check_call (word_of words op.word) stack
check_operation words OperationKind.return op stack = ok leave
check_operation words OperationKind.intrinsic op stack = do
  effects ← intrinsic_effects op.intrinsic op.token.sval
  ok (advance (← typecheck_stack_effects effects stack))

-- The outcome of a check: the last state of the verifier and the `do`s that were visited.
abbrev pub Checked : Type 0
Checked = Option (Outcome (Verifier × List State))

abbrev pub at : Typestack → ℕ → State
at stack ip = record { stack = stack; ip = ip }

-- The report at the end reads the location of the body's last operation: undefined, `none`, if the body
-- is empty.
abbrev at_last_location : List Operation → Checked → Checked
at_last_location [] ended = none
at_last_location (op ∷ ops) ended = ended

-- The loop; the head of `states` is the back of the vector. `none` means that the fuel ran out or that
-- the behaviour is undefined.
unfoldable pub check_loop :
    ℕ → Words → List Operation → List State → List State → Verifier → Checked
unfolding check_operation verify_output same_stack find_visited
check_loop zero words ops states visited verifier = none
check_loop (suc fuel) words ops [] visited verifier = some (ok (verifier, visited))
check_loop (suc fuel) words ops (s ∷ states) visited verifier =
    let ended : Checked = elim (verify_output verifier s.stack) [
      | exited c ↦ some (exited c)
      | ok verifier' ↦ check_loop fuel words ops states visited verifier'
    ] in
    elim (get_elem? ops s.ip) [
      | none ↦ at_last_location ops ended
      | some op ↦ elim (check_operation words op.kind op s.stack) [
        | exited c ↦ some (exited c)
        | ok (advance stack) ↦
            check_loop fuel words ops (at stack (suc s.ip) ∷ states) visited verifier
        | ok (goto j) ↦ check_loop fuel words ops (at s.stack j ∷ states) visited verifier
        | ok (branch stack j) ↦
            check_loop fuel words ops (at stack j ∷ at stack (suc s.ip) ∷ states) visited verifier
        | ok (loop stack j) ↦ elim (find_visited s.ip visited) [
          | some expected ↦ elim (same_stack stack expected.stack) [
            | true ↦ check_loop fuel words ops states visited verifier
            | false ↦ some (exited loop_differs_stack)
          ]
          | none ↦ elim (j == empty_jump) [
            | true ↦ some (exited jump_not_set)
            | false ↦
                check_loop fuel words ops (at stack (suc s.ip) ∷ at stack j ∷ states)
                  (at stack (suc s.ip) ∷ visited) verifier
          ]
        ]
        | ok leave ↦ ended
        | ok (enter body) ↦ elim (check_loop fuel words body (at s.stack 0 ∷ []) [] awaits) [
          | none ↦ none
          | some (exited c) ↦ some (exited c)
          | some (ok (awaits, _)) ↦
              check_loop fuel words ops (at s.stack (suc s.ip) ∷ states) visited verifier
          | some (ok (expects output, _)) ↦
              check_loop fuel words ops (at output (suc s.ip) ∷ states) visited verifier
        ]
      ]
    ]

-- `typecheck(geninfo, word)`, and `typecheck(geninfo, ops)` with two empty stacks.
unfoldable pub typecheck_word : ℕ → Words → Word → Checked
unfolding check_loop
typecheck_word fuel words word =
    check_loop fuel words word.function_body (at word.effect.input 0 ∷ []) []
      (expects word.effect.output)

unfoldable pub typecheck_main : ℕ → Words → List Operation → Checked
unfolding check_loop
typecheck_main fuel words ops = check_loop fuel words ops (at [] 0 ∷ []) [] (expects [])
