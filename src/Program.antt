-- ===== src/Program.antt =====
-- What a program of operations does, as the language's reference and the comments of src/stacky.hh
-- state it: the specification against which src/types.cc is checked. A call pushes a frame; the end
-- of a body and `return` pop one. What memory, the system and the addresses give is an oracle's
-- value, so that a statement for every oracle is one for every world.
pub mod Laws
pub mod Below
pub mod Framed
use stacky.Common.{
  ℕ, zero, suc, ◌+◌, ◌-◌, Bool, true, false, ◌&&◌, Option, none, some, List, [], ◌∷◌, leb, ltb,
  ◌==◌, if◌then◌else◌, get_elem?, get_or, drop, length,
}
use stacky.Syntax.{IntrinsicKind, Operation, OperationKind, Text, Word}
use stacky.Machine.{pure}
use stacky.Dictionary.{Words}
use stacky.Types.Check.{word_of}

-- `syscall<n>` takes its number and n arguments.
abbrev pub syscall_values : Text → ℕ
syscall_values name = suc (get_or name 7 0 - b'0')

-- `v` is what the world gives; `none`: too few values, or no meaning.
unfoldable pub intrinsic_step : ℕ → IntrinsicKind → Text → List ℕ → Option (List ℕ)
intrinsic_step v IntrinsicKind.load name (a ∷ s) = some (v ∷ s)
intrinsic_step v IntrinsicKind.store name (b ∷ a ∷ s) = some s
intrinsic_step v IntrinsicKind.top name (a ∷ s) = some (v ∷ a ∷ s)
intrinsic_step v IntrinsicKind.argc name s = some (v ∷ s)
intrinsic_step v IntrinsicKind.argv name s = some (v ∷ s)
intrinsic_step v IntrinsicKind.random32 name s = some (v ∷ s)
intrinsic_step v IntrinsicKind.random64 name s = some (v ∷ s)
intrinsic_step v IntrinsicKind.syscall name s =
    if leb (syscall_values name) (length s) then some (v ∷ drop (syscall_values name) s) else none
intrinsic_step v k name s = pure k s

unfoldable pub divides_by_zero : IntrinsicKind → List ℕ → Bool
divides_by_zero IntrinsicKind.div (b ∷ a ∷ s) = b == 0
divides_by_zero IntrinsicKind.mod_ (b ∷ a ∷ s) = b == 0
divides_by_zero IntrinsicKind.div_mod (b ∷ a ∷ s) = b == 0
divides_by_zero k s = false

-- What an operation does that neither jumps nor calls.
pub data Result : Type 0 where
  next : List ℕ → Result
  divides fails : Result

abbrev pub result_of : IntrinsicKind → List ℕ → Option (List ℕ) → Result
result_of k s (some s') = next s'
result_of k s none = if divides_by_zero k s then divides else fails

unfoldable pub operation_step : ℕ → OperationKind → Operation → List ℕ → Result
unfolding intrinsic_step divides_by_zero
operation_step v OperationKind.push_int op s = next (op.ival ∷ s)
operation_step v OperationKind.push_symbol op s = next (v ∷ s)
operation_step v OperationKind.cast op s = next s
operation_step v OperationKind.while op s = next s
operation_step v OperationKind.intrinsic op s =
    result_of op.intrinsic s (intrinsic_step v op.intrinsic op.token.sval s)
operation_step v _ op s = fails

-- Where a call goes back to.
pub record Frame : Type 0 where
  pub body : List Operation
  pub ip : ℕ

pub record Process : Type 0 where
  pub frames : List Frame
  pub body : List Operation
  pub ip : ℕ
  pub stack : List ℕ

-- `stuck`: a stack with too few values, or an operation with no meaning.
pub data Status : Type 0 where
  running : Process → Status
  finished : List ℕ → Status
  divided stuck : Status

abbrev pub leave : Process → List Frame → Status
leave p [] = finished p.stack
leave p (f ∷ fs) = running (record { frames = fs; body = f.body; ip = f.ip; stack = p.stack })

abbrev pub branch : Process → Operation → List ℕ → Status
branch p op [] = stuck
branch p op (c ∷ s) = running (record p { ip = if c == 0 then op.jump else suc p.ip; stack = s })

abbrev pub enter : Process → Option Word → Status
enter p none = stuck
enter p (some word) = running (record {
  frames = record { body = p.body; ip = suc p.ip } ∷ p.frames;
  body = word.function_body;
  ip = 0;
  stack = p.stack;
})

abbrev pub pass : Process → Result → Status
pass p (next s) = running (record p { ip = suc p.ip; stack = s })
pass p divides = divided
pass p fails = stuck

unfoldable pub do_operation : Words → ℕ → OperationKind → Operation → Process → Status
unfolding operation_step
do_operation words v OperationKind.if_ op p = branch p op p.stack
do_operation words v OperationKind.do_ op p = branch p op p.stack
do_operation words v OperationKind.else_ op p = running (record p { ip = op.jump })
do_operation words v OperationKind.end op p = running (record p { ip = op.jump })
do_operation words v OperationKind.return op p = leave p p.frames
do_operation words v OperationKind.call_symbol op p = enter p (word_of words op.word)
do_operation words v k op p = pass p (operation_step v k op p.stack)

unfoldable pub step : Words → ℕ → Process → Status
unfolding do_operation
step words v p = elim (get_elem? p.body p.ip) [
  | none ↦ leave p p.frames
  | some op ↦ do_operation words v op.kind op p
]

-- `n` steps, with what the world gives at each.
unfoldable pub run : Words → (ℕ → ℕ) → ℕ → Process → Status
unfolding step
run words world zero p = running p
run words world (suc n) p = elim (step words (world n) p) [
  | running q ↦ run words world n q
  | finished s ↦ finished s
  | divided ↦ divided
  | stuck ↦ stuck
]
