-- ===== src/Codegen/Correct.antt =====
-- src/linux-x86_64.cc: the instructions written for an intrinsic do what the intrinsic means.
use stacky.Common.{
  ℕ, ◌<◌, ◌^◌, ◌≡◌, refl, Option, none, some, List, [], ◌∷◌, arith, bit_xor_self, bit_and_self,
}
use stacky.Syntax.{IntrinsicKind, Text}
use stacky.Report.{Outcome, ok, exited}
use stacky.Machine.{Platform, pure, AllWords}
use stacky.Codegen.{Instruction, emit_intrinsic_kind}
use stacky.Codegen.Processor.{Cpu, run}

-- The stack and the world that emitted code leaves behind; `none` is a fault or an exit.
module _ (p : Platform) where
  open p use {World}

  unfoldable pub execute : Outcome (List Instruction) → Cpu → World → Option (List ℕ × World)
  unfolding run
  execute (exited c) cpu w = none
  execute (ok code) cpu w = elim (run p code cpu w) [
    | none ↦ none
    | some (cpu', w') ↦ some (cpu'.stack, w')
  ]

  abbrev pub in_world : World → Option (List ℕ) → Option (List ℕ × World)
  in_world w none = none
  in_world w (some s) = some (s, w)

-- The intrinsics that `pure` describes.
abbrev pub IsPure : IntrinsicKind → Type 0
IsPure IntrinsicKind.load = ⊥
IsPure IntrinsicKind.store = ⊥
IsPure IntrinsicKind.top = ⊥
IsPure IntrinsicKind.call = ⊥
IsPure IntrinsicKind.argv = ⊥
IsPure IntrinsicKind.argc = ⊥
IsPure IntrinsicKind.syscall = ⊥
IsPure IntrinsicKind.random32 = ⊥
IsPure IntrinsicKind.random64 = ⊥
IsPure _ = Unit {0}

module _ (p : Platform) (name : Text) (cpu : Cpu) (w : Platform.World p) where
  abbrev Emits : IntrinsicKind → List ℕ → Type 0
  Emits k s =
      execute p (emit_intrinsic_kind k name) (record cpu { stack = s }) w ≡ in_world p w (pure k s)

  -- One lemma for each length of the stack, as far as an intrinsic reads it. The laws listed are
  -- those of `xor r, r` and `test r, r`.
  none_left : (k : IntrinsicKind) → IsPure k → Emits k []
  unfolding execute emit_intrinsic_kind pure
  none_left IntrinsicKind.add h = refl
  none_left _ h = ground arith

  one_left : (k : IntrinsicKind) (a : ℕ) → IsPure k → Emits k (a ∷ [])
  unfolding execute emit_intrinsic_kind pure
  one_left IntrinsicKind.add a h = refl
  one_left _ a h =
      ground (arith, bit_xor_self cpu.registers.rax, bit_xor_self cpu.registers.rcx, bit_and_self a)

  two_left : (k : IntrinsicKind) (b a : ℕ) → a < 2 ^ 64 → IsPure k → Emits k (b ∷ a ∷ [])
  unfolding execute emit_intrinsic_kind pure
  two_left IntrinsicKind.add b a ha h = refl
  two_left _ b a ha h = ground (
    arith,
    bit_xor_self cpu.registers.rax,
    bit_xor_self cpu.registers.rcx,
    bit_xor_self cpu.registers.rdx,
    bit_and_self b,
  )

  three_left : (k : IntrinsicKind) (c b a : ℕ) → b < 2 ^ 64 → IsPure k → Emits k (c ∷ b ∷ a ∷ [])
  unfolding execute emit_intrinsic_kind pure
  three_left IntrinsicKind.add c b a hb h = refl
  three_left _ c b a hb h = ground (
    arith,
    bit_xor_self cpu.registers.rax,
    bit_xor_self cpu.registers.rcx,
    bit_xor_self cpu.registers.rdx,
    bit_and_self c,
  )

  more_left :
      (k : IntrinsicKind) (d c b a : ℕ) (s : List ℕ)
      → c < 2 ^ 64
      → IsPure k
      → Emits k (d ∷ c ∷ b ∷ a ∷ s)
  unfolding execute emit_intrinsic_kind pure
  more_left IntrinsicKind.add d c b a s hc h = refl
  more_left _ d c b a s hc h = ground (
    arith,
    bit_xor_self cpu.registers.rax,
    bit_xor_self cpu.registers.rcx,
    bit_xor_self cpu.registers.rdx,
    bit_and_self d,
  )

  emits : (k : IntrinsicKind) (s : List ℕ) → IsPure k → AllWords s → Emits k s
  emits k [] h ws = none_left k h
  emits k (a ∷ []) h ws = one_left k a h
  emits k (b ∷ a ∷ []) h ws = two_left k b a ws.1.0 h
  emits k (c ∷ b ∷ a ∷ []) h ws = three_left k c b a ws.1.0 h
  emits k (d ∷ c ∷ b ∷ a ∷ s) h ws = more_left k d c b a s ws.1.0 h

-- For each intrinsic that only the stack matters to, the emitted instructions leave exactly the stack
-- that the intrinsic means and the world as it was, whatever the registers held; and they fault
-- exactly where it has no meaning (too few values, or a division by zero). The values on the stack
-- are words.
pub execute-emit_intrinsic :
    (p : Platform) (k : IntrinsicKind) (name : Text) (cpu : Cpu) (w : Platform.World p)
    → IsPure k
    → AllWords cpu.stack
    → execute p (emit_intrinsic_kind k name) cpu w ≡ in_world p w (pure k cpu.stack)
execute-emit_intrinsic p k name cpu w h ws = emits p name cpu w k cpu.stack h ws
