-- ===== src/Parser/Functions/Returns.antt =====
-- src/parser.cc, `into_operations`: its loops come to an end.
use stacky.Common.{
  ℕ, zero, suc, ◌+◌, ◌≡◌, refl, inl, inr, true, false, Option, none, some, List, [], ◌∷◌, reverse,
  arith, leb, ◌==◌, length, length-reverse, drop, Bool-cases, get_or,
}
use stacky.Syntax.{Token, KeywordKind, StackEffect, Text}
use stacky.Report.{Outcome, ok, exited, Outcome-cases}
use stacky.Parser.Nesting.{
  Opened, Ending, of_lambda, of_function, of_block, find_open, open_blocks, add_inner, ending,
  keyword_ending, named_ending, effect_loop,
}
use stacky.Parser.Functions.{
  Parsing, Parse, then_parse, after_parse, close_turn, Turn, plain, definition, dynamic,
  stack_effect, close, turn_of, FunctionLoop, end_turn, function_turn, function_loop, main_turn,
  main_loop, into_operations, Target,
}

-- The opening token and the tokens on both sides of it are `n` tokens.
abbrev pub Cuts : ℕ → Option Opened → Type 0
Cuts n none = Unit {0}
Cuts n (some o) = n ≡ suc (length o.inner + length o.before)

add_inner-Cuts : (n : ℕ) (t : Token) (r : Option Opened) → Cuts n r → Cuts (suc n) (add_inner t r)
add_inner-Cuts n t none h = tt
add_inner-Cuts n t (some o) h = omega (arith, h)

pub find_open-Cuts : (n : ℕ) (tokens : List Token) → Cuts (length tokens) (find_open n tokens)
unfolding find_open
find_open-Cuts n [] = tt
find_open-Cuts n (t ∷ ts) = elim (Bool-cases (open_blocks t n == 0)) [
  | inl b ↦ rw b omega arith
  | inr b ↦ rw b (add_inner-Cuts (length ts) t _ (find_open-Cuts (open_blocks t n) ts))
]

abbrev pub Ends : Parse → Type 0
Ends none = ⊥
Ends (some r) = Unit {0}

then_parse-Ends :
    (o : Outcome Parsing) (f : Parsing → Parse)
    → ((p : Parsing) → Ends (f p))
    → Ends (then_parse o f)
then_parse-Ends (exited c) f h = tt
then_parse-Ends (ok p) f h = h p

after_parse-Ends :
    (r : Parse) (f : Parsing → Parse)
    → Ends r
    → ((p : Parsing) → Ends (f p))
    → Ends (after_parse r f)
after_parse-Ends none f e h = absurd e
after_parse-Ends (some r) f e h = then_parse-Ends r f h

-- A loop ends on any list of up to `n` tokens.
abbrev pub FunctionEnds : ℕ → FunctionLoop → Type 0
FunctionEnds n go =
    (name : Text) (tokens : List Token) (effect : Option StackEffect) (p : Parsing)
    → leb (length tokens) n ≡ true
    → Ends (go name tokens effect p)

abbrev pub LoopEnds : ℕ → (List Token → Parsing → Parse) → Type 0
LoopEnds n on =
    (tokens : List Token) (p : Parsing) → leb (length tokens) n ≡ true → Ends (on tokens p)

-- The tokens before a function's name are no more than those before the function.
abbrev pub Smaller : ℕ → Outcome Ending → Type 0
Smaller n (ok (of_function name rest)) = leb (length rest) n ≡ true
Smaller n _ = Unit {0}

named_ending-Smaller : (before : List Token) → Smaller (length before) (named_ending before)
named_ending-Smaller [] = tt
named_ending-Smaller (name ∷ rest) = ground arith

keyword_ending-Smaller :
    (k : KeywordKind) (o : Opened) → Smaller (length o.before) (keyword_ending k o)
unfolding keyword_ending
keyword_ending-Smaller KeywordKind.function o =
    elim (Bool-cases (get_or o.start.sval 0 0 == b'&')) [
      | inl b ↦ rw b tt
      | inr b ↦ rw b (named_ending-Smaller o.before)
    ]
keyword_ending-Smaller _ o = tt

length-drop_two :
    (tokens : List Token) (n : ℕ)
    → leb (length tokens) n ≡ true
    → leb (length (drop 2 tokens)) n ≡ true
length-drop_two [] n h = h
length-drop_two (a ∷ []) n h = ground arith
length-drop_two (a ∷ b ∷ ts) n h = ground (arith, h)

module _ (n : ℕ) (function : FunctionLoop) (on : List Token → Parsing → Parse)
    (ends : FunctionEnds n function) (on_ends : LoopEnds n on) where
  close_turn-Ends :
      (named : Text → Parsing → Parsing) (target : Target) (token : Token) (tokens : List Token)
      (p : Parsing) (o : Opened) (e : Outcome Ending)
      → leb (length tokens) n ≡ true
      → length tokens ≡ suc (length o.inner + length o.before)
      → Smaller (length o.before) e
      → Ends (close_turn function on named target token tokens p o e)
  unfolding close_turn
  close_turn-Ends named target token tokens p o (exited c) h k s = tt
  close_turn-Ends named target token tokens p o (ok of_block) h k s = on_ends tokens _ h
  close_turn-Ends named target token tokens p o (ok (of_lambda lambda)) h k s =
      then_parse-Ends _ _ λ q.
        after_parse-Ends _ _ (ends lambda o.inner none q (ground (arith, h, k)))
          λ r. on_ends o.before r (ground (arith, h, k))
  close_turn-Ends named target token tokens p o (ok (of_function other rest)) h k s =
      then_parse-Ends _ _ λ q.
        after_parse-Ends _ _ (ends other o.inner none _ (ground (arith, h, k)))
          λ r. on_ends rest r (ground (arith, h, k, s))

  end_turn-Ends :
      (named : Text → Parsing → Parsing) (target : Target) (token : Token) (tokens : List Token)
      (p : Parsing) (o : Option Opened)
      → leb (length tokens) n ≡ true
      → Cuts (length tokens) o
      → Ends (end_turn function on named target token tokens p o)
  unfolding end_turn ending
  end_turn-Ends named target token tokens p none h k = tt
  end_turn-Ends named target token tokens p (some o) h k =
      close_turn-Ends named target token tokens p o (ending o) h k
        (keyword_ending-Smaller o.start.kval o)

  main_turn-Ends :
      (t : Turn) (token : Token) (tokens : List Token) (p : Parsing)
      → leb (length tokens) n ≡ true
      → Ends (main_turn function on t token tokens p)
  unfolding main_turn
  main_turn-Ends plain token tokens p h = then_parse-Ends _ _ λ q. on_ends tokens q h
  main_turn-Ends dynamic token tokens p h = then_parse-Ends _ _ λ q. on_ends tokens q h
  main_turn-Ends stack_effect token tokens p h = then_parse-Ends _ _ λ q. on_ends tokens q h
  main_turn-Ends definition token tokens p h =
      on_ends (drop 2 tokens) p (length-drop_two tokens n h)
  main_turn-Ends close token tokens p h =
      end_turn-Ends _ none token tokens p _ h (find_open-Cuts 1 tokens)

module _ (n : ℕ) (go : FunctionLoop) (ends : FunctionEnds n go) where
  function_turn-Ends :
      (t : Turn) (name : Text) (token : Token) (tokens : List Token) (e : Option StackEffect)
      (p : Parsing)
      → leb (length tokens) n ≡ true
      → Ends (function_turn go t name token tokens e p)
  unfolding function_turn
  function_turn-Ends plain name token tokens e p h = then_parse-Ends _ _ λ q. ends name tokens e q h
  function_turn-Ends definition name token tokens e p h = ends name tokens e _ h
  function_turn-Ends dynamic name token [] e p h = ends name [] e _ h
  function_turn-Ends dynamic name token (t ∷ ts) e p h = tt
  function_turn-Ends stack_effect name token tokens e p h =
      elim (Outcome-cases (effect_loop tokens false [] [])) [
        | inl (c, q) ↦ rw (q, function_turn) tt
        | inr (c, q) ↦ rw (q, function_turn) (ends name [] (some c) p (ground arith))
      ]
  function_turn-Ends close name token tokens e p h =
      end_turn-Ends n go _ ends (λ before q k. ends name before e q k) _ (some name) token tokens p
        _ h (find_open-Cuts 1 tokens)

function_loop-Ends : (fuel : ℕ) → FunctionEnds fuel (function_loop (suc fuel))
unfolding function_loop
function_loop-Ends fuel name [] e p h = tt
function_loop-Ends zero name (t ∷ ts) e p h = absurd (ground (arith, h))
function_loop-Ends (suc fuel) name (t ∷ ts) e p h =
    function_turn-Ends fuel (function_loop (suc fuel)) (function_loop-Ends fuel) (turn_of t) name t
      ts e p (ground (arith, h))

main_loop-Ends : (fuel : ℕ) → LoopEnds fuel (main_loop (suc fuel))
unfolding main_loop
main_loop-Ends fuel [] p h = tt
main_loop-Ends zero (t ∷ ts) p h = absurd (ground (arith, h))
main_loop-Ends (suc fuel) (t ∷ ts) p h =
    main_turn-Ends fuel (function_loop (suc fuel)) (main_loop (suc fuel)) (function_loop-Ends fuel)
      (main_loop-Ends fuel) (turn_of t) t ts p (ground (arith, h))

Ends-some : (r : Parse) → Ends r → (o : Outcome Parsing) × (r ≡ some o)
Ends-some none h = absurd h
Ends-some (some o) h = (o, refl)

-- One round more than there are tokens is enough for the loops of `into_operations`, with those of
-- the functions in it: it ends, with a body or with a report.
pub into_operations-returns :
    (tokens : List Token) (p : Parsing)
    → (r : Outcome Parsing) × (into_operations (suc (length tokens)) tokens p ≡ some r)
unfolding into_operations
into_operations-returns tokens p =
    let h =
      main_loop-Ends (length tokens) (reverse tokens) p (ground (arith, length-reverse tokens)) in
    Ends-some (into_operations (suc (length tokens)) tokens p)
      (after_parse-Ends (main_loop (suc (length tokens)) (reverse tokens) p) _ h λ q. tt)
