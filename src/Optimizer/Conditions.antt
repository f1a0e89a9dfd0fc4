-- ===== src/Optimizer/Conditions.antt =====
-- src/optimizer.cc, `optimize_comptime_known_conditions`: branches on a constant. Indices are
-- `unsigned`, with their wrap-around; `none` is a read or an erasure outside of the body. What is
-- printed is left out, but the locations of a warning are read.
pub mod Settled
pub mod Tests
use stacky.Common.{
  ℕ, zero, suc, ◌+◌, ◌-◌, ◌%◌, ◌^◌, Bool, true, false, ◌&&◌, ◌||◌, Option, none, some, List, [],
  ◌∷◌, ◌++◌, map, ltb, leb, ◌==◌, if◌then◌else◌, length, take, drop, get_elem?,
}
use stacky.Syntax.{Operation, OperationKind, empty_jump}
use stacky.Report.{Check, Outcome, ok, exited, assertion_failed}

infixl 5 ◌>>=◌
abbrev ◌>>=◌ {ℓ κ} : {A : Type ℓ} {B : Type κ} → Option A → (A → Option B) → Option B
none >>= f = none
some a >>= f = f a

-- Subtraction of `unsigned`.
abbrev minus_unsigned : ℕ → ℕ → ℕ
minus_unsigned a b = (a + (2 ^ 32 - b)) % 2 ^ 32

-- `remap(start, end, amount)`
unfoldable pub remap : ℕ → ℕ → ℕ → List Operation → List Operation
remap start end amount [] = []
remap start end amount (op ∷ ops) =
    let rest = remap start end amount ops in
    (if leb start op.jump && leb op.jump end
      then record op { jump = minus_unsigned op.jump amount }
      else op)
    ∷ rest

-- `erase` of a range and of one operation.
unfoldable pub erase : ℕ → ℕ → List Operation → Option (List Operation)
erase first last ops =
    if leb first last && leb last (length ops) then some (take first ops ++ drop last ops) else none

unfoldable pub erase_at : ℕ → List Operation → Option (List Operation)
erase_at i ops = if ltb i (length ops) then some (take i ops ++ drop (suc i) ops) else none

abbrev is_end : OperationKind → Bool
is_end OperationKind.end = true
is_end _ = false

abbrev is_else : OperationKind → Bool
is_else OperationKind.else_ = true
is_else _ = false

abbrev is_while : OperationKind → Bool
is_while OperationKind.while = true
is_while _ = false

-- The two locations of the warning behind an infinite loop.
abbrev warning_locations : ℕ → ℕ → List Operation → Option Operation
warning_locations condition jump ops = do
  _ ← get_elem? ops jump
  get_elem? ops (minus_unsigned condition 1)

abbrev warn : ℕ → ℕ → List Operation → Option (Unit {0})
warn condition jump ops =
    if suc jump == length ops
    then some tt
    else elim (warning_locations condition jump ops) [ none ↦ none | some _ ↦ some tt ]

-- `do` after a constant, the `while` aside; `i` is `branch_op`.
unfoldable pub infinite_loop : ℕ → ℕ → List Operation → Option (List Operation)
unfolding erase remap
infinite_loop i jump ops = do
  _ ← warn (i - 1) jump ops
  before ← erase jump (length ops) ops
  rest ← erase (i - 1) (suc i) before
  some (remap (suc i) (minus_unsigned jump 1) 3 rest)

unfoldable pub never_loop : ℕ → ℕ → List Operation → Option (List Operation)
unfolding erase remap
never_loop i jump ops = do
  rest ← erase (i - 1) jump ops
  some (
      remap (minus_unsigned jump 1) empty_jump
        ((minus_unsigned (minus_unsigned jump 1) i + 3) % 2 ^ 32) rest)

abbrev goes_back : ℕ → Option Operation → Bool
goes_back i none = false
goes_back i (some op) = if is_while op.kind then false else (if op.jump == i then false else true)

-- `while_op`, from an index down; `--` of 0 wraps around.
unfoldable pub find_while : ℕ → List Operation → ℕ → ℕ
find_while i ops zero = if goes_back i (get_elem? ops 0) then 2 ^ 32 - 1 else 0
find_while i ops (suc w) = elim (goes_back i (get_elem? ops (suc w))) [
  | true ↦ find_while i ops w
  | false ↦ suc w
]

unfoldable pub remove_while : ℕ → Bool → List Operation → Option (List Operation)
unfolding find_while erase_at remap
remove_while i never ops =
    let w = find_while i ops (minus_unsigned (i - 1) 1) in
    do rest ← erase_at w ops; some (if never then remap w i 1 rest else rest)

abbrev finished : Option (List Operation) → Option (Outcome (List Operation))
finished none = none
finished (some ops) = some (ok ops)

abbrev asserted : Option Operation → Option (List Operation) → Option (Outcome (List Operation))
asserted none r = none
asserted (some op) r = if is_end op.kind then finished r else some (exited assertion_failed)

unfoldable pub known_loop : ℕ → ℕ → ℕ → List Operation → Option (Outcome (List Operation))
unfolding infinite_loop never_loop remove_while
known_loop i ival jump ops =
    if ival == 0
    then finished (do rest ← never_loop i jump ops; remove_while i true rest)
    else asserted (get_elem? ops (minus_unsigned jump 1))
        (do rest ← infinite_loop i jump ops; remove_while i false rest)

-- `if` after a constant: `else_op` is what stands in front of its jump, and `end` the `end` of the
-- branches.
unfoldable pub always_then : ℕ → ℕ → ℕ → List Operation → Option (List Operation)
unfolding erase erase_at remap
always_then i else_op end ops = do
  rest ← (if end == else_op then erase_at else_op ops else erase else_op ((end + 2) % 2 ^ 32) ops)
  let moved =
      remap end empty_jump (if end == else_op then 1 else (minus_unsigned end else_op + 1) % 2 ^ 32)
        rest
  erase (i - 1) (suc i) (remap i else_op 2 moved)

unfoldable pub always_else : ℕ → ℕ → ℕ → List Operation → Option (List Operation)
unfolding erase erase_at remap
always_else i else_op end ops = do
  whole ← (if end == else_op then some ops else erase_at ((end + 1) % 2 ^ 32) ops)
  rest ← erase (i - 1) ((else_op + 1) % 2 ^ 32) whole
  some (remap else_op empty_jump (if end == else_op then 3 else 4) rest)

abbrev end_of : ℕ → Operation → ℕ
end_of else_op op = if is_else op.kind then minus_unsigned op.jump 1 else else_op

unfoldable pub known_if : ℕ → ℕ → ℕ → List Operation → Option (Outcome (List Operation))
unfolding always_then always_else
known_if i ival jump ops =
    let else_op = minus_unsigned jump 1 in
    finished (do
      op ← get_elem? ops else_op
      let end = end_of else_op op
      if ival == 0 then always_else i else_op end ops else always_then i else_op end ops)

abbrev pub is_constant : OperationKind → Bool
is_constant OperationKind.push_int = true
is_constant _ = false

-- The branch at `i`, if its condition is a constant; `none` where there is nothing to do.
abbrev pub rewrite_branch :
    ℕ
    → Operation
    → OperationKind
    → Operation
    → List Operation
    → Option (Option (Outcome (List Operation)))
rewrite_branch i condition OperationKind.do_ branch ops =
    if is_constant condition.kind then some (known_loop i condition.ival branch.jump ops) else none
rewrite_branch i condition OperationKind.if_ branch ops =
    if is_constant condition.kind then some (known_if i condition.ival branch.jump ops) else none
rewrite_branch i condition _ branch ops = none

unfoldable pub rewrite_at : ℕ → List Operation → Option (Option (Outcome (List Operation)))
unfolding known_loop known_if
rewrite_at i ops = do
  condition ← get_elem? ops (i - 1)
  branch ← get_elem? ops i
  rewrite_branch i condition branch.kind branch ops

-- What a pass ends with; `endless` is the end of the fuel.
pub data Passed {ℓ} (A : Type ℓ) : Type ℓ where
  passed : A → Passed A
  failed : Check → Passed A
  undefined endless : Passed A

-- Whether the pass did something, and the body.
abbrev pub Body : Type 0
Body = Bool × List Operation

abbrev goes_on : (List Operation → Passed Body) → Option (Outcome (List Operation)) → Passed Body
goes_on on none = undefined
goes_on on (some (exited c)) = failed c
goes_on on (some (ok ops)) = on ops

-- The loop at `branch_op`; a branch that was rewritten is looked at again.
unfoldable pub conditions_loop : ℕ → Bool → ℕ → List Operation → Passed Body
unfolding rewrite_at
conditions_loop zero done i ops = endless
conditions_loop (suc fuel) done i ops = elim (ltb i (length ops)) [
  | false ↦ passed (done, ops)
  | true ↦ elim (rewrite_at i ops) [
    | none ↦ conditions_loop fuel done (suc i) ops
    | some r ↦ goes_on (conditions_loop fuel true i) r
  ]
]

unfoldable pub optimize_comptime_known_conditions : ℕ → List Operation → Passed Body
unfolding conditions_loop
optimize_comptime_known_conditions fuel ops = conditions_loop fuel false 1 ops
