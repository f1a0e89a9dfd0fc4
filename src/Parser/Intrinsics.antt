-- ===== src/Parser/Intrinsics.antt =====
-- src/stacky.cc, `register_intrinsics`: the words that every program starts with.
use stacky.Common.{List, [], ◌∷◌, codes}
use stacky.Syntax.{IntrinsicKind, Text, Word, WordKind}
use stacky.Dictionary.{Words, change_word}

abbrev pub as_intrinsic : IntrinsicKind → Word → Word
as_intrinsic k w = record w { kind = WordKind.intrinsic; intrinsic = k }

unfoldable pub register_intrinsic : Text → IntrinsicKind → Words → Words
unfolding change_word
register_intrinsic name k words = change_word name (as_intrinsic k) words

-- The calls in their order.
abbrev pub intrinsic_names : List (Text × IntrinsicKind)
intrinsic_names =
    (codes "random32", IntrinsicKind.random32)
    ∷ (codes "random64", IntrinsicKind.random64)
    ∷ (codes "!", IntrinsicKind.boolean_negate)
    ∷ (codes "!=", IntrinsicKind.not_equal)
    ∷ (codes "*", IntrinsicKind.mul)
    ∷ (codes "+", IntrinsicKind.add)
    ∷ (codes "-", IntrinsicKind.subtract)
    ∷ (codes "2drop", IntrinsicKind.two_drop)
    ∷ (codes "2dup", IntrinsicKind.two_dup)
    ∷ (codes "2over", IntrinsicKind.two_over)
    ∷ (codes "2swap", IntrinsicKind.two_swap)
    ∷ (codes "<", IntrinsicKind.less)
    ∷ (codes "<<", IntrinsicKind.left_shift)
    ∷ (codes "<=", IntrinsicKind.less_eq)
    ∷ (codes "=", IntrinsicKind.equal)
    ∷ (codes ">", IntrinsicKind.greater)
    ∷ (codes ">=", IntrinsicKind.greater_eq)
    ∷ (codes ">>", IntrinsicKind.right_shift)
    ∷ (codes "and", IntrinsicKind.boolean_and)
    ∷ (codes "bit-and", IntrinsicKind.bitwise_and)
    ∷ (codes "bit-or", IntrinsicKind.bitwise_or)
    ∷ (codes "bit-xor", IntrinsicKind.bitwise_xor)
    ∷ (codes "call", IntrinsicKind.call)
    ∷ (codes "div", IntrinsicKind.div)
    ∷ (codes "divmod", IntrinsicKind.div_mod)
    ∷ (codes "drop", IntrinsicKind.drop)
    ∷ (codes "dup", IntrinsicKind.dup)
    ∷ (codes "max", IntrinsicKind.max)
    ∷ (codes "min", IntrinsicKind.min)
    ∷ (codes "mod", IntrinsicKind.mod_)
    ∷ (codes "or", IntrinsicKind.boolean_or)
    ∷ (codes "over", IntrinsicKind.over)
    ∷ (codes "load16", IntrinsicKind.load)
    ∷ (codes "load32", IntrinsicKind.load)
    ∷ (codes "load64", IntrinsicKind.load)
    ∷ (codes "load8", IntrinsicKind.load)
    ∷ (codes "rot", IntrinsicKind.rot)
    ∷ (codes "swap", IntrinsicKind.swap)
    ∷ (codes "syscall0", IntrinsicKind.syscall)
    ∷ (codes "syscall1", IntrinsicKind.syscall)
    ∷ (codes "syscall2", IntrinsicKind.syscall)
    ∷ (codes "syscall3", IntrinsicKind.syscall)
    ∷ (codes "syscall4", IntrinsicKind.syscall)
    ∷ (codes "syscall5", IntrinsicKind.syscall)
    ∷ (codes "syscall6", IntrinsicKind.syscall)
    ∷ (codes "top", IntrinsicKind.top)
    ∷ (codes "tuck", IntrinsicKind.tuck)
    ∷ (codes "store16", IntrinsicKind.store)
    ∷ (codes "store32", IntrinsicKind.store)
    ∷ (codes "store64", IntrinsicKind.store)
    ∷ (codes "store8", IntrinsicKind.store)
    ∷ (codes "argc", IntrinsicKind.argc)
    ∷ (codes "argv", IntrinsicKind.argv)
    ∷ []

unfoldable pub register_each : List (Text × IntrinsicKind) → Words → Words
unfolding register_intrinsic
register_each [] words = words
register_each ((name, k) ∷ names) words = register_each names (register_intrinsic name k words)

unfoldable pub register_intrinsics : Words → Words
unfolding register_each
register_intrinsics words = register_each intrinsic_names words
