-- ===== src/Optimizer/Folding.antt =====
-- src/optimizer.cc, `constant_folding`. The compile-time stack has its top first. The body is not
-- changed before the pass ends, so the loop runs down the list of operations beside its index.
pub mod Sound
pub mod Region
pub mod Replaced
pub mod Loop
pub mod Tests
use Prim.Native.Nat.{bit_and, bit_or, bit_xor}
use stacky.Common.{
  ℕ, zero, suc, ◌+◌, ◌-◌, ◌%◌, ◌^◌, Bool, true, false, ◌&&◌, ◌||◌, Option, none, some, List, [],
  ◌∷◌, ◌++◌, map, reverse, ltb, leb, ◌==◌, if◌then◌else◌, length, take, drop,
}
use stacky.Syntax.{Operation, OperationKind, IntrinsicKind, new_operation, empty_jump}
use stacky.Machine.{truth}
use stacky.Optimizer.Signed.{
  add_int64, sub_int64, mul_int64, div_int64, mod_int64, shl_int64, shr_int64, less_int64,
  less_eq_int64,
}

-- What an intrinsic does at compile time: a new stack, the end of the run of constants, or undefined
-- behaviour.
pub data Folded : Type 0 where
  folded : List ℕ → Folded
  stops : Folded
  undefined : Folded

abbrev of_option : Option ℕ → List ℕ → Folded
of_option none s = undefined
of_option (some v) s = folded (v ∷ s)

-- The `Math` macro.
abbrev math : (ℕ → ℕ → Option ℕ) → List ℕ → Folded
math op (a ∷ b ∷ s) = of_option (op b a) s
math op _ = stops

unfoldable pub fold_intrinsic : IntrinsicKind → List ℕ → Folded
unfolding add_int64 sub_int64 mul_int64 div_int64 mod_int64 shl_int64 shr_int64
fold_intrinsic IntrinsicKind.add s = math add_int64 s
fold_intrinsic IntrinsicKind.subtract s = math sub_int64 s
fold_intrinsic IntrinsicKind.equal s = math (λ b a. some (truth (b == a))) s
fold_intrinsic IntrinsicKind.bitwise_and s = math (λ b a. some (bit_and b a)) s
fold_intrinsic IntrinsicKind.bitwise_or s = math (λ b a. some (bit_or b a)) s
fold_intrinsic IntrinsicKind.bitwise_xor s = math (λ b a. some (bit_xor b a)) s
fold_intrinsic IntrinsicKind.div s = math div_int64 s
fold_intrinsic IntrinsicKind.greater s = math (λ b a. some (truth (less_int64 a b))) s
fold_intrinsic IntrinsicKind.greater_eq s = math (λ b a. some (truth (less_eq_int64 a b))) s
fold_intrinsic IntrinsicKind.left_shift s = math shl_int64 s
fold_intrinsic IntrinsicKind.less s = math (λ b a. some (truth (less_int64 b a))) s
fold_intrinsic IntrinsicKind.less_eq s = math (λ b a. some (truth (less_eq_int64 b a))) s
fold_intrinsic IntrinsicKind.mod_ s = math mod_int64 s
fold_intrinsic IntrinsicKind.mul s = math mul_int64 s
fold_intrinsic IntrinsicKind.not_equal s = math (λ b a. some (if b == a then 0 else 1)) s
fold_intrinsic IntrinsicKind.right_shift s = math shr_int64 s
fold_intrinsic IntrinsicKind.drop (a ∷ s) = folded s
fold_intrinsic IntrinsicKind.dup (a ∷ s) = folded (a ∷ a ∷ s)
fold_intrinsic IntrinsicKind.two_dup (b ∷ a ∷ s) = folded (b ∷ a ∷ b ∷ a ∷ s)
-- `std::max(a, b)` with a from the top: b if a < b.
fold_intrinsic IntrinsicKind.max s = math (λ b a. some (if less_int64 a b then b else a)) s
fold_intrinsic IntrinsicKind.min s = math (λ b a. some (if less_int64 b a then b else a)) s
fold_intrinsic IntrinsicKind.over (b ∷ a ∷ s) = folded (a ∷ b ∷ a ∷ s)
fold_intrinsic IntrinsicKind.rot (c ∷ b ∷ a ∷ s) = folded (a ∷ c ∷ b ∷ s)
fold_intrinsic IntrinsicKind.swap (b ∷ a ∷ s) = folded (a ∷ b ∷ s)
fold_intrinsic IntrinsicKind.tuck (b ∷ a ∷ s) = folded (b ∷ a ∷ b ∷ s)
fold_intrinsic _ s = stops

abbrev pub push_value : ℕ → Operation
push_value v = record (new_operation OperationKind.push_int) { ival = v }

-- `op.kind == Push_Int && int64_t(op.ival) == value`
unfoldable pub is_push_of : Operation → ℕ → Bool
is_push_of op v = elim op.kind [ OperationKind.push_int ↦ op.ival == v | _ ↦ false ]

-- `std::ranges::equal`
unfoldable pub same_as_pushes : List Operation → List ℕ → Bool
unfolding is_push_of
same_as_pushes [] [] = true
same_as_pushes [] (v ∷ vs) = false
same_as_pushes (op ∷ ops) [] = false
same_as_pushes (op ∷ ops) (v ∷ vs) = is_push_of op v && same_as_pushes ops vs

-- `potential_jump.jump += delta` on `unsigned`, for `added` values in place of `removed` operations.
unfoldable pub shift_jump : ℕ → ℕ → ℕ → Operation → Operation
shift_jump start added removed op =
    if op.jump == empty_jump
    then op
    else (if ltb start op.jump
        then record op { jump = (op.jump + added + (2 ^ 32 - removed % 2 ^ 32)) % 2 ^ 32 }
        else op)

-- The body with the operations from `start` to `i` replaced by pushes of the stack's values.
unfoldable pub replace : List Operation → ℕ → List ℕ → ℕ → List Operation
unfolding shift_jump
replace ops start stack i =
    map (shift_jump start (length stack) (i - start))
      (take start ops ++ (map push_value (reverse stack) ++ drop i ops))

-- `finish_constant_folding(i)`: `none` is `Continue`, and a new body is `Break`.
unfoldable pub finish_folding : List Operation → Option ℕ → List ℕ → ℕ → Option (List Operation)
unfolding same_as_pushes replace
finish_folding ops none stack i = none
finish_folding ops (some start) stack i =
    if start + 1 == i
    then none
    else (if same_as_pushes (take (i - start) (drop start ops)) (reverse stack)
        then none
        else some (replace ops start stack i))

-- What the pass returns: whether it did something, and the body. `none` is undefined behaviour.
abbrev pub Pass : Type 0
Pass = Option (Bool × List Operation)

-- One operation inside a run of constants.
unfoldable pub fold_operation : Operation → List ℕ → Folded
unfolding fold_intrinsic
fold_operation op stack = elim op.kind [
  | OperationKind.push_int ↦ folded (op.ival ∷ stack)
  | OperationKind.intrinsic ↦ fold_intrinsic op.intrinsic stack
  | _ ↦ stops
]

abbrev pub is_push_int : OperationKind → Bool
is_push_int OperationKind.push_int = true
is_push_int _ = false

-- The loop at index `i`, over the operations `rest` from there on.
unfoldable pub fold_loop : List Operation → List Operation → ℕ → Option ℕ → List ℕ → Pass
unfolding finish_folding fold_operation
fold_loop body [] i start stack = elim (finish_folding body start stack i) [
  | none ↦ some (false, body)
  | some body' ↦ some (true, body')
]
fold_loop body (op ∷ rest) i none stack = elim (is_push_int op.kind) [
  | true ↦ fold_loop body rest (suc i) (some i) (op.ival ∷ stack)
  | false ↦ fold_loop body rest (suc i) none stack
]
fold_loop body (op ∷ rest) i (some start) stack = elim (fold_operation op stack) [
  | folded stack' ↦ fold_loop body rest (suc i) (some start) stack'
  | undefined ↦ none
  | stops ↦ elim (finish_folding body (some start) stack i) [
    | none ↦ fold_loop body rest (suc i) none []
    | some body' ↦ some (true, body')
  ]
]

unfoldable pub constant_folding : List Operation → Pass
unfolding fold_loop
constant_folding body = fold_loop body body 0 none []
