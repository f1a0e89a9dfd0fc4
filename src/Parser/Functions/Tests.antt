-- ===== src/Parser/Functions/Tests.antt =====
-- The operations of `f fun 1 if 2 end end`, and of `1 if 2 end 3` as a main body.
use stacky.Common.{ℕ, false, ◌≡◌, refl, Option, none, some, List, [], ◌∷◌, map, codes}
use stacky.Syntax.{
  Token, TokenKind, KeywordKind, Operation, OperationKind, WordKind, no_token, new_word,
}
use stacky.Report.{Outcome, ok, exited}
use stacky.Dictionary.{Words, find_word}
use stacky.Parser.Translate.{at_token, translate_operation, with_token}
use stacky.Parser.Crossreference.{set_jump}
use stacky.Parser.Crossreference.Block.{Block, cons, nil, simple, if_end, flatten, resolve}
use stacky.Parser.Functions.{Parsing, into_operations}
use stacky.Parser.Functions.Returns.{into_operations-returns}
use stacky.Parser.Functions.Straight.{into_operations-flatten, AllCompile}

abbrev number : ℕ → Token
number n = record no_token { kind = TokenKind.integer; ival = n }

abbrev keyed : KeywordKind → Token
keyed k = record no_token { kind = TokenKind.keyword; kval = k; sval = codes "fun" }

abbrev function : List Token
function =
    record no_token { kind = TokenKind.word; sval = codes "f" }
    ∷ keyed KeywordKind.function
    ∷ number 1
    ∷ keyed KeywordKind.if_
    ∷ number 2
    ∷ keyed KeywordKind.end
    ∷ keyed KeywordKind.end
    ∷ []

abbrev parsing : Words → Parsing
parsing words = record { main = []; words = words; failed = false; undefined = false }

abbrev defined : Words
defined = (codes "f", record new_word { kind = WordKind.function }) ∷ []

-- The jumps of the only word.
abbrev jumps : Option (Outcome Parsing) → List (List ℕ)
jumps none = []
jumps (some (exited c)) = []
jumps (some (ok p)) =
    map {B = List ℕ} (λ w. map (λ (op : Operation). op.jump) w.1.function_body) p.words

jumps_written :
    jumps (into_operations 8 function (parsing defined))
    ≡ (4294967295 ∷ 3 ∷ 4294967295 ∷ 4 ∷ []) ∷ []
unfolding into_operations find_word set_jump
jumps_written = refl

into_operations-returns_example :
    (r : Outcome Parsing) × (into_operations 8 function (parsing defined) ≡ some r)
into_operations-returns_example = into_operations-returns function (parsing defined)

abbrev straight : List Token
straight = number 1 ∷ keyed KeywordKind.if_ ∷ number 2 ∷ keyed KeywordKind.end ∷ number 3 ∷ []

abbrev push : ℕ → Operation
push n = record (at_token OperationKind.push_int (number n)) { ival = n }

abbrev block : Block
block = cons (simple (push 1)) (
    cons
      (if_end (with_token OperationKind.if_ (keyed KeywordKind.if_)) (cons (simple (push 2)) nil)
        (with_token OperationKind.end (keyed KeywordKind.end)))
      (cons (simple (push 3)) nil))

compiled : AllCompile [] 0 straight (flatten block [])
unfolding translate_operation flatten
compiled = (refl, (refl, (refl, ((refl, refl), (refl, tt)))))

into_operations-flatten_example :
    into_operations 6 straight (parsing [])
    ≡ some (ok (record (parsing []) { main = resolve block 0 [] }))
into_operations-flatten_example =
    into_operations-flatten straight block (parsing []) (tt, ((tt, tt), (tt, tt))) compiled refl
