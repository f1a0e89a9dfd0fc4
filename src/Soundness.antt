-- ===== src/Soundness.antt =====
-- The type checker (src/types.cc) and the code generator (src/linux-x86_64.cc) together.
pub mod Tests
pub mod Assembled
use stacky.Common.{ℕ, ◌≡◌, subst, refl, sym, ◌⊎◌, inl, inr, Option, none, some, List}
use stacky.Syntax.{IntrinsicKind, Text, Typestack}
use stacky.Report.{ok}
use stacky.Machine.{Platform, AllWords, pure}
use stacky.Codegen.{emit_intrinsic_kind}
use stacky.Codegen.Processor.{Cpu}
use stacky.Codegen.Correct.{IsPure, execute, in_world, execute-emit_intrinsic}
use stacky.Types.Effects.Sound.{
  AllTyped, IsTypedResult, DividesByZero, typecheck_intrinsic, typecheck_intrinsic-pure,
}

-- The code came to its end, with values of the types on the stack and the world as it was.
abbrev pub IsTypedRun : (W : Type 0) → W → Typestack → Option (List ℕ × W) → Type 0
IsTypedRun W w ts none = ⊥
IsTypedRun W w ts (some (s, w')) = AllTyped ts s × (w' ≡ w)

in_world-IsTypedRun :
    (p : Platform) (w : Platform.World p) (ts : Typestack) (r : Option (List ℕ))
    → IsTypedResult ts r
    → IsTypedRun (Platform.World p) w ts (in_world p w r)
in_world-IsTypedRun p w ts none h = h
in_world-IsTypedRun p w ts (some s) h = (h, refl)

-- The code of an intrinsic that the checker accepts, run on a stack of words of the checked types,
-- divides by zero or comes to its end without a fault and leaves values of the types that the
-- checker went on with, and the world as it was. The intrinsic is one that only the stack matters to.
pub execute-typecheck_intrinsic :
    (p : Platform) (k : IntrinsicKind) (name : Text) (ts ts' : Typestack) (cpu : Cpu)
    (w : Platform.World p)
    → IsPure k
    → AllWords cpu.stack
    → AllTyped ts cpu.stack
    → typecheck_intrinsic k name ts ≡ ok ts'
    → DividesByZero k cpu.stack
      ⊎ IsTypedRun (Platform.World p) w ts' (execute p (emit_intrinsic_kind k name) cpu w)
execute-typecheck_intrinsic p k name ts ts' cpu w h ws typed e =
    elim (typecheck_intrinsic-pure k name ts ts' cpu.stack h typed e) [
      | inl z ↦ inl z
      | inr r ↦ inr (
          subst (IsTypedRun (Platform.World p) w ts')
            (sym (execute-emit_intrinsic p k name cpu w h ws))
            (in_world-IsTypedRun p w ts' (pure k cpu.stack) r))
    ]
