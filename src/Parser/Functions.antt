-- ===== src/Parser/Functions.antt =====
-- src/parser.cc, `into_operations` and `function_into_operations`: the tokens are read from the last
-- one backwards, so they are a list in reverse here, and `drop 2` is `i -= 2`, which wraps around at
-- the start and ends the loop. Operations are appended to a body in reverse and turned round at the
-- end. `none`: the fuel ran out.
pub mod Returns
pub mod Straight
pub mod Tests
use stacky.Common.{
  ℕ, zero, suc, ◌+◌, ◌-◌, Bool, true, false, ◌||◌, Option, none, some, List, [], ◌∷◌, ◌++◌, map,
  reverse, ◌==◌, if◌then◌else◌, get_or, drop,
}
use stacky.Syntax.{
  Token, TokenKind, KeywordKind, Operation, OperationKind, StackEffect, Typestack, Text, Word,
  SymbolPrefix, new_operation, with_function,
}
use stacky.Report.{
  Check, Outcome, ok, exited, ◌>>=◌, ◌>>◌, ensure, unreachable_code, key_not_found, unexpected_end,
  bad_dynamic, bad_type_specification,
}
use stacky.Dictionary.{Words, find_word, change_word}
use stacky.Parser.Crossreference.{crossreference}
use stacky.Parser.Definitions.{anonymous_name}
use stacky.Parser.Nesting.{
  blocks, open_blocks, Opened, add_inner, find_open, effect_loop, Ending, named_ending,
  keyword_ending, ending, of_lambda, of_function, of_block,
}
use stacky.Parser.Translate.{Translated, translate_operation, type_from, word_at, with_token}

-- The main body and the dictionary, and whether an `error` was reported or a shift was undefined.
pub record Parsing : Type 0 where
  pub main : List Operation
  pub words : Words
  pub failed : Bool
  pub undefined : Bool

-- A body: `geninfo.main`, or the one of a word.
abbrev pub Target : Type 0
Target = Option Text

abbrev append_body : Operation → Word → Word
append_body op w = record w { function_body = w.function_body ++ op ∷ [] }

-- `body.emplace_back`
unfoldable pub emit : Target → Operation → Parsing → Parsing
unfolding change_word
emit none op p = record p { main = p.main ++ op ∷ [] }
emit (some name) op p = record p { words = change_word name (append_body op) p.words }

unfoldable pub translate_token : Target → Token → Parsing → Outcome Parsing
unfolding translate_operation emit
translate_token target token p = do
  t ← translate_operation p.words token
  ok (
      emit target t.operation
        (record p { failed = p.failed || t.failed; undefined = p.undefined || t.undefined }))

-- The end of a function: its effect, its body in order with the function's name, and its jumps.
abbrev set_effect : Option StackEffect → Word → Word
set_effect none w = w
set_effect (some e) w = record w { has_effect = true; effect = e }

abbrev in_function : Text → Operation → Operation
in_function name op = record op { location = with_function name op.location }

unfoldable pub finish_function : Text → Option StackEffect → Parsing → Outcome Parsing
unfolding change_word word_at crossreference
finish_function name effect p = do
  let words = change_word name (set_effect effect) p.words
  word ← word_at name words
  crossed ← crossreference (map (in_function word.function_name) (reverse word.function_body))
  ok (record p {
    words = change_word name (λ w. record w { function_body = crossed.ops }) words;
    failed = p.failed || crossed.failed;
  })

abbrev pub Parse : Type 0
Parse = Option (Outcome Parsing)

-- A step that may end the program, and what goes on from it.
abbrev pub then_parse : Outcome Parsing → (Parsing → Parse) → Parse
then_parse (exited c) f = some (exited c)
then_parse (ok p) f = f p

abbrev pub after_parse : Parse → (Parsing → Parse) → Parse
after_parse none f = none
after_parse (some r) f = then_parse r f

-- The address of an anonymous function.
unfoldable pub push_lambda : Target → Text → Token → Parsing → Outcome Parsing
unfolding word_at emit
push_lambda target name token p = do
  word ← word_at name p.words
  ok (
      emit target
        (record (new_operation OperationKind.push_symbol) {
          symbol_prefix = SymbolPrefix.function_prefix;
          ival = word.id;
          token = token;
        })
        p)

abbrev is_empty : List Token → Bool
is_empty [] = true
is_empty (t ∷ ts) = false

-- The cases of the switches: `definition` is `Array` and `Constant`, `plain` the label `trivial`.
pub data Turn : Type 0 where
  plain definition dynamic stack_effect close : Turn

abbrev pub turn : TokenKind → KeywordKind → Turn
turn TokenKind.keyword KeywordKind.array = definition
turn TokenKind.keyword KeywordKind.constant = definition
turn TokenKind.keyword KeywordKind.dynamic = dynamic
turn TokenKind.keyword KeywordKind.stack_effect_definition = stack_effect
turn TokenKind.keyword KeywordKind.end = close
turn _ _ = plain

abbrev pub turn_of : Token → Turn
turn_of token = turn token.kind token.kval

-- The loop of a function with its name, the tokens that are left, and its effect so far.
abbrev pub FunctionLoop : Type 0
FunctionLoop = Text → List Token → Option StackEffect → Parsing → Parse

-- A function's name is given to its word by the loop of the main body only.
abbrev pub set_name : Text → Parsing → Parsing
set_name name p = record p {
  words = change_word name (λ w. record w { function_name = name }) p.words;
}

-- An `end` in a body: `function` is the loop of an inner function, `on` goes on with the tokens
-- before, and `named` is what is done with the name of an inner function.
unfoldable pub close_turn :
    FunctionLoop
    → (List Token → Parsing → Parse)
    → (Text → Parsing → Parsing)
    → Target
    → Token
    → List Token
    → Parsing
    → Opened
    → Outcome Ending
    → Parse
unfolding push_lambda emit word_at
close_turn function on named target token tokens p o (exited c) = some (exited c)
close_turn function on named target token tokens p o (ok of_block) =
    on tokens (emit target (with_token OperationKind.end token) p)
close_turn function on named target token tokens p o (ok (of_lambda lambda)) =
    then_parse (push_lambda target lambda o.start p)
      λ q. after_parse (function lambda o.inner none q) λ r. on o.before r
close_turn function on named target token tokens p o (ok (of_function other rest)) =
    then_parse (word_at other p.words >>= λ w. ok p)
      λ q. after_parse (function other o.inner none (named other q)) λ r. on rest r

unfoldable pub end_turn :
    FunctionLoop
    → (List Token → Parsing → Parse)
    → (Text → Parsing → Parsing)
    → Target
    → Token
    → List Token
    → Parsing
    → Option Opened
    → Parse
unfolding ending close_turn
end_turn function on named target token tokens p none = some (exited unexpected_end)
end_turn function on named target token tokens p (some o) =
    close_turn function on named target token tokens p o (ending o)

-- `function_into_operations`, one round of it.
unfoldable pub function_turn :
    FunctionLoop → Turn → Text → Token → List Token → Option StackEffect → Parsing → Parse
unfolding translate_token find_open effect_loop end_turn
function_turn go plain name token tokens effect p =
    then_parse (translate_token (some name) token p) λ q. go name tokens effect q
function_turn go definition name token tokens effect p =
    go name tokens effect (record p { failed = true })
function_turn go dynamic name token tokens effect p = elim (is_empty tokens) [
  | false ↦ some (exited bad_dynamic)
  | true ↦ go name tokens effect (record p {
    words = change_word name (λ w. record w { is_dynamically_typed = true }) p.words;
  })
]
function_turn go stack_effect name token tokens seen p = elim (effect_loop tokens false [] []) [
  | exited c ↦ some (exited c)
  | ok e ↦ go name [] (some e) p
]
function_turn go close name token tokens effect p =
    end_turn go (λ before q. go name before effect q) (λ other q. q) (some name) token tokens p
      (find_open 1 tokens)

unfoldable pub function_loop : ℕ → FunctionLoop
unfolding function_turn finish_function
function_loop zero name tokens effect p = none
function_loop (suc fuel) name [] effect p = some (finish_function name effect p)
function_loop (suc fuel) name (token ∷ tokens) effect p =
    function_turn (function_loop fuel) (turn_of token) name token tokens effect p

-- `into_operations`, one round of it.
unfoldable pub main_turn :
    FunctionLoop → (List Token → Parsing → Parse) → Turn → Token → List Token → Parsing → Parse
unfolding translate_token find_open end_turn
main_turn function go definition token tokens p = go (drop 2 tokens) p
main_turn function go close token tokens p =
    end_turn function go set_name none token tokens p (find_open 1 tokens)
main_turn function go _ token tokens p = then_parse (translate_token none token p) λ q. go tokens q

unfoldable pub main_loop : ℕ → List Token → Parsing → Parse
unfolding main_turn function_loop
main_loop zero tokens p = none
main_loop (suc fuel) [] p = some (ok p)
main_loop (suc fuel) (token ∷ tokens) p =
    main_turn (function_loop fuel) (main_loop fuel) (turn_of token) token tokens p

unfoldable pub finish_main : Parsing → Outcome Parsing
unfolding crossreference
finish_main p = do
  crossed ← crossreference (reverse p.main)
  ok (record p { main = crossed.ops; failed = p.failed || crossed.failed })

unfoldable pub into_operations : ℕ → List Token → Parsing → Parse
unfolding main_loop finish_main
into_operations fuel tokens p =
    after_parse (main_loop fuel (reverse tokens) p) λ q. some (finish_main q)
