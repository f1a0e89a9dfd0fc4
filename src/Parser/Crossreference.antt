-- ===== src/Parser/Crossreference.antt =====
-- src/parser.cc, `crossreference`: the pass that gives `if`, `else`, `while`, `do` and `end` their
-- jumps. The loop's index and the stack of open blocks are explicit.
pub mod Block
pub mod Shape
pub mod Rounds
pub mod Statements
pub mod Correct
pub mod Tests
use stacky.Common.{
  ℕ, zero, suc, ◌≡◌, refl, Bool, true, false, Option, none, some, List, [], ◌∷◌, length, get_elem?,
}
use stacky.Syntax.{Operation, OperationKind, KeywordKind}
use stacky.Report.{
  Outcome, ok, exited, do_without_while, else_without_if, nothing_to_end, index_out_of_range,
}

-- The operations, what the function returns, and whether an `error` was reported.
pub record Crossed : Type 0 where
  pub ops : List Operation
  pub returned : Bool
  pub failed : Bool

-- One round of the loop: it goes on, or the function ends.
pub data Round : Type 0 where
  continues : List ℕ → List Operation → Round
  ends : Outcome Crossed → Round

-- `ops[i].jump = j`
unfoldable pub set_jump : List Operation → ℕ → ℕ → List Operation
set_jump [] i j = []
set_jump (op ∷ ops) zero j = record op { jump = j } ∷ ops
set_jump (op ∷ ops) (suc i) j = op ∷ set_jump ops i j

-- `case Do`, with the block that is open.
unfoldable pub close_while : ℕ → ℕ → List ℕ → List Operation → OperationKind → Round
close_while i t stack ops OperationKind.while = continues (i ∷ stack) (set_jump ops i t)
close_while i t stack ops _ = ends (exited do_without_while)

-- `case Else`
unfoldable pub close_if : ℕ → ℕ → List ℕ → List Operation → OperationKind → Round
close_if i t stack ops OperationKind.if_ = continues (i ∷ stack) (set_jump ops t (suc i))
close_if i t stack ops _ = ends (exited else_without_if)

-- `case End`: another block is an error that is not fatal, and the function returns false.
unfoldable pub close_block : ℕ → ℕ → List ℕ → List Operation → Operation → OperationKind → Round
close_block i t stack ops opened OperationKind.if_ =
    continues stack (set_jump (set_jump ops t i) i (suc i))
close_block i t stack ops opened OperationKind.else_ =
    continues stack (set_jump (set_jump ops t i) i (suc i))
close_block i t stack ops opened OperationKind.do_ =
    continues stack (set_jump (set_jump ops i opened.jump) t (suc i))
close_block i t stack ops opened _ =
    ends (ok (record { ops = ops; returned = false; failed = true }))

-- The operation on top of the stack, if the stack is not empty and the index is in range.
abbrev pub with_top : List ℕ → List Operation → Round → (ℕ → List ℕ → Operation → Round) → Round
with_top [] ops empty f = empty
with_top (t ∷ stack) ops empty f = elim (get_elem? ops t) [
  | none ↦ ends (exited index_out_of_range)
  | some opened ↦ f t stack opened
]

unfoldable pub round : ℕ → List ℕ → List Operation → OperationKind → Round
unfolding close_while close_if close_block
round i stack ops OperationKind.do_ =
    with_top stack ops (ends (exited do_without_while))
      λ t rest opened. close_while i t rest ops opened.kind
round i stack ops OperationKind.while = continues (i ∷ stack) ops
round i stack ops OperationKind.if_ = continues (i ∷ stack) ops
round i stack ops OperationKind.else_ =
    with_top stack ops (ends (exited else_without_if))
      λ t rest opened. close_if i t rest ops opened.kind
round i stack ops OperationKind.end =
    with_top stack ops (ends (exited nothing_to_end))
      λ t rest opened. close_block i t rest ops opened opened.kind
round i stack ops _ = continues stack ops

-- An open block at the end is reported by the keyword of its token.
unfoldable pub is_block_keyword : KeywordKind → Bool
is_block_keyword KeywordKind.if_ = true
is_block_keyword KeywordKind.else_ = true
is_block_keyword KeywordKind.while = true
is_block_keyword KeywordKind.do_ = true
is_block_keyword _ = false

unfoldable pub finish : List ℕ → List Operation → Outcome Crossed
unfolding is_block_keyword
finish [] ops = ok (record { ops = ops; returned = true; failed = false })
finish (t ∷ stack) ops = elim (get_elem? ops t) [
  | none ↦ exited index_out_of_range
  | some opened ↦
      ok (record { ops = ops; returned = true; failed = is_block_keyword opened.token.kval })
]

-- The loop with `n` rounds left.
unfoldable pub cross_loop : ℕ → ℕ → List ℕ → List Operation → Outcome Crossed
unfolding round finish
cross_loop zero i stack ops = finish stack ops
cross_loop (suc n) i stack ops = elim (get_elem? ops i) [
  | none ↦ exited index_out_of_range
  | some op ↦ elim (round i stack ops op.kind) [
    | continues stack' ops' ↦ cross_loop n (suc i) stack' ops'
    | ends result ↦ result
  ]
]

unfoldable pub crossreference : List Operation → Outcome Crossed
unfolding cross_loop
crossreference ops = cross_loop (length ops) 0 [] ops
