-- ===== src/Types/Names.antt =====
-- src/types.cc, `type_name`, `join` and `Stack_Effect::string`: how types are printed.
pub mod Tests
use stacky.Common.{
  ℕ, ◌≡◌, refl, sym, ap, ◌∙◌, inl, inr, Option, none, some, List, [], ◌∷◌, ◌++◌, codes, arith,
  reverse, length, length-reverse, Option-cases, get_or,
}
use stacky.Syntax.{StackType, StackEffect, TypeKind, Text, Token, type_of_kind}
use stacky.Report.{Outcome, ok}
use stacky.Parser.Definitions.{to_string}
use stacky.Parser.Translate.{type_from}

infixl 5 ◌>>=◌
abbrev ◌>>=◌ {ℓ κ} : {A : Type ℓ} {B : Type κ} → Option A → (A → Option B) → Option B
none >>= f = none
some a >>= f = f a

abbrev kind_name : TypeKind → ℕ → Text
unfolding to_string
kind_name TypeKind.bool var = codes "bool"
kind_name TypeKind.pointer var = codes "ptr"
kind_name TypeKind.int var = codes "u64"
kind_name TypeKind.any var = codes "any"
kind_name TypeKind.variable var = codes "$" ++ to_string var

unfoldable pub type_name : StackType → Text
unfolding kind_name
type_name type = kind_name type.kind type.var

-- The loop of `join` from an element on; `none` is a read at the end of the range.
unfoldable pub join_loop : Text → Text → List StackType → Option Text
unfolding type_name
join_loop sep s [] = none
join_loop sep s (type ∷ []) = join_loop sep (s ++ type_name type) []
join_loop sep s (type ∷ next ∷ types) = join_loop sep ((s ++ type_name type) ++ sep) (next ∷ types)

unfoldable pub join : List StackType → Text → Option Text
unfolding join_loop
join [] sep = some []
join (type ∷ types) sep = join_loop sep [] (type ∷ types)

-- Vectors have the deepest type first.
unfoldable pub stack_effect_string : StackEffect → Option Text
unfolding join
stack_effect_string effect = do
  input ← join (reverse effect.input) (codes " ")
  output ← join (reverse effect.output) (codes " ")
  some (input ++ (codes " -- " ++ output))

join_loop-undefined : (sep s : Text) (types : List StackType) → join_loop sep s types ≡ none
unfolding join_loop
join_loop-undefined sep s [] = refl
join_loop-undefined sep s (type ∷ []) = refl
join_loop-undefined sep s (type ∷ next ∷ types) =
    join_loop-undefined sep ((s ++ type_name type) ++ sep) (next ∷ types)

join-empty :
    (types : List StackType) (sep s : Text) → join types sep ≡ some s → (types ≡ []) × (s ≡ [])
unfolding join
join-empty [] sep s e = (refl, ground (arith, e))
join-empty (type ∷ types) sep s e =
    absurd (ground (arith, sym (join_loop-undefined sep [] (type ∷ types)) ∙ e))

none_reversed : (types : List StackType) → reverse types ≡ [] → types ≡ []
none_reversed [] e = refl
none_reversed (type ∷ types) e = absurd (omega (arith, length-reverse (type ∷ types), ap length e))

-- A stack effect is only printed without a read outside of its types if it has none at all.
pub stack_effect_string-empty :
    (effect : StackEffect) (s : Text)
    → stack_effect_string effect ≡ some s
    → (effect.input ≡ []) × (effect.output ≡ []) × (s ≡ codes " -- ")
unfolding stack_effect_string
stack_effect_string-empty effect s e =
    elim (Option-cases (join (reverse effect.input) (codes " "))) [
      | inl f ↦ absurd (ground (arith, rw (stack_effect_string, f) at e))
      | inr (a, f) ↦ elim (Option-cases (join (reverse effect.output) (codes " "))) [
        | inl g ↦ absurd (ground (arith, rw (stack_effect_string, f, g) at e))
        | inr (b, g) ↦
            let (no_input, a_empty) = join-empty (reverse effect.input) (codes " ") a f in
            let (no_output, b_empty) = join-empty (reverse effect.output) (codes " ") b g in
            let printed : a ++ (codes " -- " ++ b) ≡ s =
              ground (arith, rw (stack_effect_string, f, g) at e) in
            (
              none_reversed effect.input no_input,
              none_reversed effect.output no_output,
              sym printed
                  ∙ ap (λ x. x ++ (codes " -- " ++ b)) a_empty
                  ∙ ap (λ x. codes " -- " ++ x) b_empty,
            )
      ]
    ]

-- The kinds that a program can write.
abbrev pub IsWritten : TypeKind → Type 0
IsWritten TypeKind.variable = ⊥
IsWritten _ = Unit {0}

-- The name that a type is printed with is read as a type of that kind, if it is not a variable.
pub type_from-type_name :
    (k : TypeKind) (token : Token)
    → IsWritten k
    → token.sval ≡ type_name (type_of_kind k)
    → type_from token ≡ ok (record (type_of_kind k) { location = token.location })
unfolding type_from type_name
type_from-type_name TypeKind.variable token h e = absurd h
type_from-type_name _ token h e = rw (type_from, e) refl
