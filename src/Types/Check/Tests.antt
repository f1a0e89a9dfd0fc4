-- ===== src/Types/Check/Tests.antt =====
-- A word `u64 -- u64 u64 is dup 1 +`, and a program with a loop and a call.
use stacky.Common.{◌≡◌, refl, some, true, List, [], ◌∷◌}
use stacky.Syntax.{
  Operation, OperationKind, IntrinsicKind, Word, new_operation, new_word, with_location,
}
use stacky.Report.{ok, exited, missing_data}
use stacky.Types.Effects.{int_t, bool_t}
use stacky.Dictionary.{Words, find_word}
use stacky.Machine.{pure}
use stacky.Program.{finished, run}
use stacky.Types.Check.{expects, typecheck_word, typecheck_main}
use stacky.Types.Check.Safe.{NeverFails, start, typecheck_main-NeverFails}

abbrev body : List Operation
body =
    record (new_operation OperationKind.intrinsic) { intrinsic = IntrinsicKind.dup }
    ∷ record (new_operation OperationKind.push_int) { ival = 1 }
    ∷ record (new_operation OperationKind.intrinsic) { intrinsic = IntrinsicKind.add }
    ∷ []

abbrev next : Word
next = record new_word {
  function_body = body;
  has_effect = true;
  effect = record { input = int_t ∷ []; output = int_t ∷ int_t ∷ [] };
}

refused :
    typecheck_word 5 []
      (record next { effect = record { input = int_t ∷ []; output = bool_t ∷ int_t ∷ [] } })
    ≡ some (exited missing_data)
unfolding typecheck_word with_location
refused = refl

-- `decrease u64 -- u64 is 1 - end`
abbrev decrease : Word
decrease = record new_word {
  function_body =
      record (new_operation OperationKind.push_int) { ival = 1 }
      ∷ record (new_operation OperationKind.intrinsic) { intrinsic = IntrinsicKind.subtract }
      ∷ [];
  has_effect = true;
  effect = record { input = int_t ∷ []; output = int_t ∷ [] };
}

abbrev words : Words
words = ((b'd' ∷ b'e' ∷ b'c' ∷ []), decrease) ∷ []

-- `3 while dup 0 != do decrease end drop`
abbrev countdown : List Operation
countdown =
    record (new_operation OperationKind.push_int) { ival = 3 }
    ∷ new_operation OperationKind.while
    ∷ record (new_operation OperationKind.intrinsic) { intrinsic = IntrinsicKind.dup }
    ∷ new_operation OperationKind.push_int
    ∷ record (new_operation OperationKind.intrinsic) { intrinsic = IntrinsicKind.not_equal }
    ∷ record (new_operation OperationKind.do_) { jump = 8 }
    ∷ record (new_operation OperationKind.call_symbol) { word = some (b'd' ∷ b'e' ∷ b'c' ∷ []) }
    ∷ record (new_operation OperationKind.end) { jump = 1 }
    ∷ record (new_operation OperationKind.intrinsic) { intrinsic = IntrinsicKind.drop }
    ∷ []

countdown_accepted :
    typecheck_main 20 words countdown
    ≡ some (ok (expects [], record { stack = int_t ∷ []; ip = 6 } ∷ []))
unfolding typecheck_main with_location find_word
countdown_accepted = refl

decrease_accepted : typecheck_word 20 words decrease ≡ some (ok (expects (int_t ∷ []), []))
unfolding typecheck_word with_location
decrease_accepted = refl

countdown_ends : run words (λ n. 0) 40 (start countdown []) ≡ finished []
unfolding run pure find_word
countdown_ends = refl

typecheck_main-NeverFails_example : NeverFails 0 (run words (λ n. 0) 40 (start countdown []))
typecheck_main-NeverFails_example =
    typecheck_main-NeverFails 20 words countdown _ (λ n. 0) 40 (refl, (_, decrease_accepted), tt)
      countdown_accepted
