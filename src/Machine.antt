-- ===== src/Machine.antt =====
-- The meaning of an operation on the program's stack, as the README and the comments of
-- src/optimizer.cc and src/types.cc state it: `( before -- after )` with the top on the right. The
-- top of the stack is the head of the list here. A value is a word below 2^64. `none` is a stack
-- with too few values, a division by zero, or an operation outside this description.
pub mod Words
use Prim.Native.Nat.{bit_and, bit_or, bit_xor}
use stacky.Common.{
  ℕ, ◌+◌, ◌-◌, ◌*◌, ◌/◌, ◌%◌, ◌^◌, ◌<◌, Bool, true, false, Option, none, some, List, [], ◌∷◌, ltb,
  leb, ◌==◌, if◌then◌else◌, get_or,
}
use stacky.Syntax.{IntrinsicKind, Text}

-- The processor's and the system's part: memory, random numbers, system calls, the arguments and the
-- address of the top of the stack.
pub record Platform : Type 1 where
  pub World : Type 0
  pub load : World → ℕ → ℕ → ℕ
  pub store : World → ℕ → ℕ → ℕ → World
  pub random : World → ℕ × World
  pub syscall : World → List ℕ → ℕ × World
  pub stack_address : World → List ℕ → ℕ
  pub argc : World → ℕ
  pub argv : World → ℕ

abbrev pub word : ℕ → ℕ
word n = n % 2 ^ 64

abbrev pub AllWords : List ℕ → Type 0
AllWords [] = Unit {0}
AllWords (a ∷ s) = (a < 2 ^ 64) × AllWords s

abbrev pub truth : Bool → ℕ
truth true = 1
truth false = 0

-- A shift looks at six bits of its count; to the right it keeps the sign.
abbrev pub shift_left : ℕ → ℕ → ℕ
shift_left a c = word (a * 2 ^ (c % 64))

abbrev pub shift_right : ℕ → ℕ → ℕ
shift_right a c =
    if ltb a (2 ^ 63) then a / 2 ^ (c % 64) else 2 ^ 64 - 1 - (2 ^ 64 - 1 - a) / 2 ^ (c % 64)

-- `8 << exponent` bits: the size in the name of `load8` and `store64`, at index `at`.
unfoldable pub size_exponent : ℕ → Text → Option ℕ
size_exponent at name =
    if get_or name at 0 == b'8'
    then some 0
    else (if get_or name at 0 == b'1'
        then some 1
        else (if get_or name at 0 == b'3'
            then some 2
            else (if get_or name at 0 == b'6' then some 3 else none)))

abbrev unary : (ℕ → ℕ) → List ℕ → Option (List ℕ)
unary f (a ∷ s) = some (f a ∷ s)
unary f _ = none

-- `( a b -- f a b )`
abbrev binary : (ℕ → ℕ → ℕ) → List ℕ → Option (List ℕ)
binary f (b ∷ a ∷ s) = some (f a b ∷ s)
binary f _ = none

-- `( a b -- … )`, where `b` may not be 0.
abbrev divide : (ℕ → ℕ → List ℕ → List ℕ) → List ℕ → Option (List ℕ)
divide f (b ∷ a ∷ s) = if b == 0 then none else some (f a b s)
divide f _ = none

-- The operations that only the stack matters to.
unfoldable pub pure : IntrinsicKind → List ℕ → Option (List ℕ)
pure IntrinsicKind.add s = binary (λ a b. word (a + b)) s
pure IntrinsicKind.subtract s = binary (λ a b. word (a + 2 ^ 64 - b)) s
pure IntrinsicKind.mul s = binary (λ a b. word (a * b)) s
pure IntrinsicKind.bitwise_and s = binary bit_and s
pure IntrinsicKind.bitwise_or s = binary bit_or s
pure IntrinsicKind.bitwise_xor s = binary bit_xor s
pure IntrinsicKind.left_shift s = binary shift_left s
pure IntrinsicKind.right_shift s = binary shift_right s
pure IntrinsicKind.min s = binary (λ a b. if ltb b a then b else a) s
pure IntrinsicKind.max s = binary (λ a b. if ltb a b then b else a) s
pure IntrinsicKind.boolean_or s = binary (λ a b. if bit_or a b == 0 then 0 else 1) s
pure IntrinsicKind.boolean_and s = binary (λ a b. if bit_and a b == 0 then 0 else 1) s
pure IntrinsicKind.boolean_negate s = unary (λ a. truth (a == 0)) s
pure IntrinsicKind.equal s = binary (λ a b. truth (a == b)) s
pure IntrinsicKind.not_equal s = binary (λ a b. if a == b then 0 else 1) s
pure IntrinsicKind.less s = binary (λ a b. truth (ltb a b)) s
pure IntrinsicKind.less_eq s = binary (λ a b. truth (leb a b)) s
pure IntrinsicKind.greater s = binary (λ a b. truth (ltb b a)) s
pure IntrinsicKind.greater_eq s = binary (λ a b. truth (leb b a)) s
pure IntrinsicKind.div s = divide (λ a b r. a / b ∷ r) s
pure IntrinsicKind.mod_ s = divide (λ a b r. a % b ∷ r) s
pure IntrinsicKind.div_mod s = divide (λ a b r. a / b ∷ a % b ∷ r) s
pure IntrinsicKind.drop (a ∷ s) = some s
pure IntrinsicKind.two_drop (b ∷ a ∷ s) = some s
pure IntrinsicKind.dup (a ∷ s) = some (a ∷ a ∷ s)
pure IntrinsicKind.two_dup (b ∷ a ∷ s) = some (b ∷ a ∷ b ∷ a ∷ s)
pure IntrinsicKind.over (b ∷ a ∷ s) = some (a ∷ b ∷ a ∷ s)
pure IntrinsicKind.two_over (d ∷ c ∷ b ∷ a ∷ s) = some (b ∷ a ∷ d ∷ c ∷ b ∷ a ∷ s)
pure IntrinsicKind.tuck (b ∷ a ∷ s) = some (b ∷ a ∷ b ∷ s)
pure IntrinsicKind.rot (c ∷ b ∷ a ∷ s) = some (a ∷ c ∷ b ∷ s)
pure IntrinsicKind.swap (b ∷ a ∷ s) = some (a ∷ b ∷ s)
pure IntrinsicKind.two_swap (d ∷ c ∷ b ∷ a ∷ s) = some (b ∷ a ∷ d ∷ c ∷ s)
pure _ s = none
