-- ===== src/Parser/Definitions/Tests.antt =====
-- The definitions of `n 10 constant a n []u64 f fun end &fun end`.
use stacky.Common.{ℕ, false, ◌≡◌, refl, List, [], ◌∷◌, map, codes, arith}
use stacky.Syntax.{Token, TokenKind, KeywordKind, Text, Word, no_token}
use stacky.Report.{Outcome, ok, exited}
use stacky.Dictionary.{find_word}
use stacky.Parser.Definitions.{Defined, register_definitions, to_string}
use stacky.Parser.Definitions.Numbered.{IsNumbered, register_definitions-IsNumbered}

abbrev named : Text → Token
named name = record no_token { kind = TokenKind.word; sval = name }

abbrev keyed : KeywordKind → Text → Token
keyed k name = record no_token { kind = TokenKind.keyword; kval = k; sval = name }

abbrev tokens : List Token
tokens =
    named (codes "n")
    ∷ record no_token { kind = TokenKind.integer; ival = 10 }
    ∷ keyed KeywordKind.constant (codes "constant")
    ∷ named (codes "a")
    ∷ named (codes "n")
    ∷ keyed KeywordKind.array (codes "[]u64")
    ∷ named (codes "f")
    ∷ keyed KeywordKind.function (codes "fun")
    ∷ keyed KeywordKind.end (codes "end")
    ∷ keyed KeywordKind.function (codes "&fun")
    ∷ keyed KeywordKind.end (codes "end")
    ∷ []

abbrev nothing : Defined
nothing = record { words = []; word_count = 0; lambda_count = 0; failed = false }

digits : to_string 1024 ≡ codes "1024"
unfolding to_string
digits = refl

abbrev after : Outcome (List Token × Defined) → Defined
after (exited c) = nothing
after (ok (t, d)) = d

abbrev left : Outcome (List Token × Defined) → List Token
left (exited c) = []
left (ok (t, d)) = t

sizes :
    map {B = ℕ × ℕ}
      (λ (w : Text × Word). (w.1.id, w.1.byte_size))
      (after (register_definitions tokens nothing)).words
    ≡ (0, 0) ∷ (1, 80) ∷ (2, 0) ∷ (3, 0) ∷ []
unfolding register_definitions find_word
sizes = refl

accepted :
    register_definitions tokens nothing
    ≡ ok (left (register_definitions tokens nothing), after (register_definitions tokens nothing))
unfolding register_definitions
accepted = refl

no_words-IsNumbered : IsNumbered [] 0
unfolding find_word
no_words-IsNumbered =
    (λ name w h u. absurd (ground (arith, h)), λ a b w v h k u s e. absurd (ground (arith, h)))

register_definitions-IsNumbered_example :
    IsNumbered
      (after (register_definitions tokens nothing)).words
      (after (register_definitions tokens nothing)).word_count
register_definitions-IsNumbered_example =
    register_definitions-IsNumbered tokens (left (register_definitions tokens nothing)) nothing
      (after (register_definitions tokens nothing)) no_words-IsNumbered accepted
