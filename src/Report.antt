-- ===== src/Report.antt =====
-- src/errors.hh: how the compiler reports. `error_fatal`, `ensure`, `ensure_fatal`, `assert` and
-- `unreachable` print and call `exit(1)`: an `exited` outcome that names the check. `error` prints,
-- sets `Compilation_Failed` and goes on: a flag in the value of the function that reports. In the source
-- the flag is `static` in a header, so that each translation unit has one of its own; which of them `main`
-- reads is not modelled, nor is what is printed.
use stacky.Common.{◌≡◌, refl, ◌⊎◌, inl, inr, Bool, true, false}

pub data Check : Type 0 where
  do_without_while else_without_if nothing_to_end index_out_of_range : Check
  needs_identifier needs_integer unreachable_code missing_path : Check
  word_not_defined bad_escape_length bad_escape_digit : Check
  jump_not_set too_few_arguments invalid_stack undeduced_variable loop_differs_stack : Check
  no_stack_effect call_not_supported bad_syscall excess_data missing_data : Check
  word_not_found missing_quote empty_literal unexpected_end bad_dynamic bad_type_specification
        key_not_found file_not_found assertion_failed :
      Check

pub data Outcome {ℓ} (A : Type ℓ) : Type ℓ where
  ok : A → Outcome A
  exited : Check → Outcome A

infixl 5 ◌>>=◌ ◌>>◌
abbrev pub ◌>>=◌ {ℓ κ} : {A : Type ℓ} {B : Type κ} → Outcome A → (A → Outcome B) → Outcome B
ok a >>= f = f a
exited c >>= f = exited c

abbrev pub ◌>>◌ {ℓ} : {B : Type ℓ} → Outcome (Unit {0}) → Outcome B → Outcome B
m >> k = m >>= λ _. k

-- `ensure(condition, …)`
abbrev pub ensure : Bool → Check → Outcome (Unit {0})
ensure true c = ok tt
ensure false c = exited c

-- To split on a computed outcome and keep the equation.
pub Outcome-cases {ℓ} :
    {A : Type ℓ} (o : Outcome A) → ((c : Check) × (o ≡ exited c)) ⊎ ((a : A) × (o ≡ ok a))
Outcome-cases (ok a) = inr (a, refl)
Outcome-cases (exited c) = inl (c, refl)
