-- ===== src/Arguments.antt =====
-- src/arguments.cc, the first loop of `Arguments::parse`: what stands behind the first `--` is for the
-- program that is run. The rest of the function hands the other arguments to boost.
pub mod Tests
use stacky.Common.{
  ◌≡◌, refl, ap, sym, subst, ◌⊎◌, inl, inr, Bool, true, false, List, [], ◌∷◌, ◌++◌, text_eq,
  text_eq_sound, codes, arith, Bool-cases,
}
use stacky.Syntax.{Text}

pub record Split : Type 0 where
  pub cmdline : List Text
  pub arguments : List Text

abbrev separator : Text
separator = codes "--"

unfoldable pub split_loop : Bool → List Text → Split
unfolding text_eq
split_loop seen_separator [] = record { cmdline = []; arguments = [] }
split_loop true (arg ∷ args) =
    let rest = split_loop true args in record rest { arguments = arg ∷ rest.arguments }
split_loop false (arg ∷ args) = elim (text_eq arg separator) [
  | true ↦ split_loop true args
  | false ↦ let rest = split_loop false args in record rest { cmdline = arg ∷ rest.cmdline }
]

unfoldable pub split_arguments : List Text → Split
unfolding split_loop
split_arguments args = split_loop false args

abbrev pub NoSeparator : List Text → Type 0
NoSeparator [] = Unit {0}
NoSeparator (arg ∷ args) = (text_eq arg separator ≡ false) × NoSeparator args

split_loop-seen :
    (args : List Text) → split_loop true args ≡ record { cmdline = []; arguments = args }
unfolding split_loop
split_loop-seen [] = refl
split_loop-seen (arg ∷ args) =
    ap (λ (rest : Split). record rest { arguments = arg ∷ rest.arguments }) (split_loop-seen args)

-- How a split puts the arguments together again.
abbrev pub Joins : Split → List Text → Type 0
Joins s args =
    NoSeparator s.cmdline
    × (((args ≡ s.cmdline) × (s.arguments ≡ [])) ⊎ (args ≡ s.cmdline ++ (separator ∷ s.arguments)))

split_loop-separator :
    (arg : Text) (args : List Text)
    → text_eq arg separator ≡ true
    → split_loop false (arg ∷ args) ≡ record { cmdline = []; arguments = args }
unfolding split_loop
split_loop-separator arg args e = rw (split_loop, e) (split_loop-seen args)

abbrev put_first : Text → Split → Split
put_first arg rest = record rest { cmdline = arg ∷ rest.cmdline }

split_loop-other :
    (arg : Text) (args : List Text)
    → text_eq arg separator ≡ false
    → split_loop false (arg ∷ args) ≡ put_first arg (split_loop false args)
unfolding split_loop
split_loop-other arg args e = rw (split_loop, e) refl

Joins-first :
    (arg : Text) (s : Split) (args : List Text)
    → text_eq arg separator ≡ false
    → Joins s args
    → Joins (put_first arg s) (arg ∷ args)
Joins-first arg s args e (h, inl (a, b)) = ((e, h), inl (ap (λ xs. arg ∷ xs) a, b))
Joins-first arg s args e (h, inr a) = ((e, h), inr (ap (λ xs. arg ∷ xs) a))

split_loop-Joins : (args : List Text) → Joins (split_loop false args) args
unfolding split_loop
split_loop-Joins [] = (tt, inl (refl, refl))
split_loop-Joins (arg ∷ args) = elim (Bool-cases (text_eq arg separator)) [
  | inl e ↦
      subst (λ s. Joins s (arg ∷ args)) (sym (split_loop-separator arg args e))
        (tt, inr (ap (λ x. x ∷ args) (text_eq_sound arg separator e)))
  | inr e ↦
      subst (λ s. Joins s (arg ∷ args)) (sym (split_loop-other arg args e))
        (Joins-first arg (split_loop false args) args e (split_loop-Joins args))
]

-- The arguments are those in front of the first `--`, which none of them is, and those behind it, or,
-- where there is no `--`, the first part alone.
pub split_arguments-Joins : (args : List Text) → Joins (split_arguments args) args
unfolding split_arguments
split_arguments-Joins args = split_loop-Joins args
