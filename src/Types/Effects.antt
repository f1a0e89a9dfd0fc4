-- ===== src/Types/Effects.antt =====
-- src/types.cc, `typecheck_stack_effects`, and the stack effects of the intrinsics.
pub mod Sound
pub mod Depth
pub mod Frame
use Prim.Native.Nat.{min}
use stacky.Common.{
  ℕ, zero, suc, ◌-◌, ◌^◌, Bool, true, false, ◌&&◌, ◌||◌, Option, none, some, List, [], ◌∷◌, ◌++◌,
  reverse, ltb, leb, ◌==◌, if◌then◌else◌, length, get_or,
}
use stacky.Syntax.{StackType, TypeKind, Typestack, StackEffect, IntrinsicKind, Text, type_of_kind}
use stacky.Report.{
  Outcome, ok, exited, ◌>>=◌, ◌>>◌, ensure, too_few_arguments, invalid_stack, undeduced_variable,
  bad_syscall, call_not_supported,
}

unfoldable pub same_kind : TypeKind → TypeKind → Bool
same_kind TypeKind.int TypeKind.int = true
same_kind TypeKind.bool TypeKind.bool = true
same_kind TypeKind.pointer TypeKind.pointer = true
same_kind TypeKind.any TypeKind.any = true
same_kind TypeKind.variable TypeKind.variable = true
same_kind _ _ = false

abbrev pub is_any : TypeKind → Bool
is_any TypeKind.any = true
is_any _ = false

-- `Type::operator==`
unfoldable pub type_eq : StackType → StackType → Bool
unfolding same_kind
type_eq a b = (is_any a.kind || is_any b.kind) || same_kind a.kind b.kind

-- `generics`
abbrev pub Generics : Type 0
Generics = List (ℕ × StackType)

unfoldable pub find_generic : ℕ → Generics → Option StackType
find_generic v [] = none
find_generic v ((u, t) ∷ gs) = if v == u then some t else find_generic v gs

abbrev is_variable : TypeKind → Bool
is_variable TypeKind.variable = true
is_variable _ = false

-- The lambda `compare`: whether a type on the stack fits one of the effect, and the generics then.
unfoldable pub compare_type : StackType → StackType → Generics → Bool × Generics
unfolding type_eq find_generic
compare_type stack effect generics = elim (is_variable effect.kind) [
  | true ↦ elim (find_generic effect.var generics) [
    | some t ↦ (type_eq t stack, generics)
    | none ↦ (true, (effect.var, stack) ∷ generics)
  ]
  | false ↦ (type_eq stack effect, generics)
]

-- `std::mismatch` from the top. `some`: the whole input fits; the rest of the stack and the generics.
unfoldable pub match_input : Typestack → Typestack → Generics → Option (Typestack × Generics)
unfolding compare_type
match_input [] stack generics = some (stack, generics)
match_input (e ∷ input) [] generics = none
match_input (e ∷ input) (s ∷ stack) generics =
    let next = match_input input stack (compare_type s e generics).1 in
    elim (compare_type s e generics).0 [ true ↦ next | false ↦ none ]

-- `std::transform` over the output, from its bottom: `output` is top first.
unfoldable pub push_output : Typestack → Generics → Typestack → Outcome Typestack
unfolding find_generic
push_output [] generics stack = ok stack
push_output (t ∷ output) generics stack = do
  below ← push_output output generics stack
  elim (is_variable t.kind) [
    | false ↦ ok (t ∷ below)
    | true ↦ elim (find_generic t.var generics) [
      | none ↦ exited undeduced_variable
      | some u ↦ ok (u ∷ below)
    ]
  ]

-- The first effect whose input fits is applied; if none does, the errors are printed and the
-- compiler exits.
unfoldable pub try_effects : List StackEffect → Typestack → Outcome Typestack
unfolding match_input push_output
try_effects [] stack = exited invalid_stack
try_effects (e ∷ effects) stack = elim (match_input e.input stack []) [
  | some (rest, generics) ↦ push_output e.output generics rest
  | none ↦ try_effects effects stack
]

unfoldable pub minimum_number_of_arguments : List StackEffect → ℕ
minimum_number_of_arguments [] = 2 ^ 64 - 1
minimum_number_of_arguments (e ∷ effects) =
    min (minimum_number_of_arguments effects) (length e.input)

unfoldable pub typecheck_stack_effects : List StackEffect → Typestack → Outcome Typestack
unfolding try_effects minimum_number_of_arguments
typecheck_stack_effects effects stack =
    let minimum = minimum_number_of_arguments effects in
    if ltb 0 minimum && ltb (length stack) minimum
    then exited too_few_arguments
    else try_effects effects stack

-- `Type_DSL`: the types in the order of the source, the top last.
abbrev pub effect : List StackType → List StackType → StackEffect
effect input output = record { input = reverse input; output = reverse output }

abbrev pub any_t : StackType
any_t = type_of_kind TypeKind.any

abbrev pub bool_t : StackType
bool_t = type_of_kind TypeKind.bool

abbrev pub int_t : StackType
int_t = type_of_kind TypeKind.int

abbrev pub ptr_t : StackType
ptr_t = type_of_kind TypeKind.pointer

abbrev pub var_t : ℕ → StackType
var_t n = record (type_of_kind TypeKind.variable) { var = n }

-- `std::generate_n`: the variables 1 to n.
unfoldable pub variables_from : ℕ → ℕ → List StackType
variables_from zero i = []
variables_from (suc n) i = var_t i ∷ variables_from n (suc i)

abbrev comparison : List StackEffect
comparison =
    effect (ptr_t ∷ ptr_t ∷ []) (bool_t ∷ [])
    ∷ effect (int_t ∷ int_t ∷ []) (bool_t ∷ [])
    ∷ effect (bool_t ∷ bool_t ∷ []) (bool_t ∷ [])
    ∷ []

abbrev one : List StackType → List StackType → Outcome (List StackEffect)
one input output = ok (effect input output ∷ [])

abbrev arithmetic : Outcome (List StackEffect)
arithmetic = one (int_t ∷ int_t ∷ []) (int_t ∷ [])

-- The effects that each intrinsic is checked against; `name` is `op.token.sval`.
unfoldable pub intrinsic_effects : IntrinsicKind → Text → Outcome (List StackEffect)
unfolding variables_from
intrinsic_effects IntrinsicKind.drop name = one (any_t ∷ []) []
intrinsic_effects IntrinsicKind.two_drop name = one (any_t ∷ any_t ∷ []) []
intrinsic_effects IntrinsicKind.add name = ok (
    effect (ptr_t ∷ int_t ∷ []) (ptr_t ∷ [])
    ∷ effect (int_t ∷ ptr_t ∷ []) (ptr_t ∷ [])
    ∷ effect (int_t ∷ int_t ∷ []) (int_t ∷ [])
    ∷ [])
intrinsic_effects IntrinsicKind.subtract name = ok (
    effect (ptr_t ∷ ptr_t ∷ []) (int_t ∷ [])
    ∷ effect (ptr_t ∷ int_t ∷ []) (ptr_t ∷ [])
    ∷ effect (int_t ∷ int_t ∷ []) (int_t ∷ [])
    ∷ [])
intrinsic_effects IntrinsicKind.less name = ok comparison
intrinsic_effects IntrinsicKind.less_eq name = ok comparison
intrinsic_effects IntrinsicKind.greater name = ok comparison
intrinsic_effects IntrinsicKind.greater_eq name = ok comparison
intrinsic_effects IntrinsicKind.equal name = ok comparison
intrinsic_effects IntrinsicKind.not_equal name = ok comparison
intrinsic_effects IntrinsicKind.boolean_negate name = one (bool_t ∷ []) (bool_t ∷ [])
intrinsic_effects IntrinsicKind.boolean_and name = one (bool_t ∷ bool_t ∷ []) (bool_t ∷ [])
intrinsic_effects IntrinsicKind.boolean_or name = one (bool_t ∷ bool_t ∷ []) (bool_t ∷ [])
intrinsic_effects IntrinsicKind.bitwise_and name = arithmetic
intrinsic_effects IntrinsicKind.bitwise_or name = arithmetic
intrinsic_effects IntrinsicKind.bitwise_xor name = arithmetic
intrinsic_effects IntrinsicKind.left_shift name = arithmetic
intrinsic_effects IntrinsicKind.right_shift name = arithmetic
intrinsic_effects IntrinsicKind.mul name = arithmetic
intrinsic_effects IntrinsicKind.div name = arithmetic
intrinsic_effects IntrinsicKind.mod_ name = arithmetic
intrinsic_effects IntrinsicKind.min name = arithmetic
intrinsic_effects IntrinsicKind.max name = arithmetic
intrinsic_effects IntrinsicKind.div_mod name = one (int_t ∷ int_t ∷ []) (int_t ∷ int_t ∷ [])
intrinsic_effects IntrinsicKind.dup name = one (var_t 1 ∷ []) (var_t 1 ∷ var_t 1 ∷ [])
intrinsic_effects IntrinsicKind.two_dup name =
    one (var_t 1 ∷ var_t 2 ∷ []) (var_t 1 ∷ var_t 2 ∷ var_t 1 ∷ var_t 2 ∷ [])
intrinsic_effects IntrinsicKind.over name =
    one (var_t 1 ∷ var_t 2 ∷ []) (var_t 1 ∷ var_t 2 ∷ var_t 1 ∷ [])
intrinsic_effects IntrinsicKind.two_over name =
    one (var_t 1 ∷ var_t 2 ∷ var_t 3 ∷ var_t 4 ∷ [])
      (var_t 1 ∷ var_t 2 ∷ var_t 3 ∷ var_t 4 ∷ var_t 1 ∷ var_t 2 ∷ [])
intrinsic_effects IntrinsicKind.swap name = one (var_t 1 ∷ var_t 2 ∷ []) (var_t 2 ∷ var_t 1 ∷ [])
intrinsic_effects IntrinsicKind.two_swap name =
    one (var_t 1 ∷ var_t 2 ∷ var_t 3 ∷ var_t 4 ∷ []) (var_t 3 ∷ var_t 4 ∷ var_t 1 ∷ var_t 2 ∷ [])
intrinsic_effects IntrinsicKind.tuck name =
    one (var_t 1 ∷ var_t 2 ∷ []) (var_t 2 ∷ var_t 1 ∷ var_t 2 ∷ [])
intrinsic_effects IntrinsicKind.rot name =
    one (var_t 1 ∷ var_t 2 ∷ var_t 3 ∷ []) (var_t 2 ∷ var_t 3 ∷ var_t 1 ∷ [])
intrinsic_effects IntrinsicKind.argv name = one [] (ptr_t ∷ [])
intrinsic_effects IntrinsicKind.argc name = one [] (int_t ∷ [])
intrinsic_effects IntrinsicKind.random32 name = one [] (int_t ∷ [])
intrinsic_effects IntrinsicKind.random64 name = one [] (int_t ∷ [])
intrinsic_effects IntrinsicKind.load name = one (ptr_t ∷ []) (int_t ∷ [])
intrinsic_effects IntrinsicKind.store name = one (ptr_t ∷ any_t ∷ []) []
intrinsic_effects IntrinsicKind.top name = one (var_t 1 ∷ []) (var_t 1 ∷ ptr_t ∷ [])
intrinsic_effects IntrinsicKind.syscall name = do
  let digit = get_or name 7 0
  ensure (length name == 8 && leb b'0' digit && leb digit b'6') bad_syscall
  one (variables_from (digit - b'0') 1 ++ int_t ∷ []) (int_t ∷ [])
intrinsic_effects IntrinsicKind.call name = exited call_not_supported
