-- ===== src/Codegen/Assembly/Calls.antt =====
-- The operations that run instructions, and the calls.
use stacky.Common.{
  ℕ, suc, ◌<◌, ◌≡◌, refl, sym, ap, ◌∙◌, subst, ◌⊎◌, inl, inr, none, some, List, [], ◌∷◌, ◌++◌, map,
  arith, length, length-set, drop, get_elem?, if◌then◌else◌, Bool-cases, Option-cases,
}
use stacky.Syntax.{Operation, OperationKind, IntrinsicKind, Text}
use stacky.Report.{ok, Outcome-cases}
use stacky.Machine.{Platform, AllWords, pure}
use stacky.Machine.Words.{pure-AllWords}
use stacky.Dictionary.{Words}
use stacky.Program.{
  Frame, Process, Status, running, enter, pass, result_of, divides_by_zero, do_operation,
  operation_step, divides, fails, intrinsic_step,
}
use stacky.Codegen.{Instruction}
use stacky.Codegen.Processor.{Cpu}
use stacky.Codegen.Functions.{call_function, plain, Line, operation_lines, lines_from}
use stacky.Codegen.Assembly.{Entry, line}
use stacky.Codegen.Assembly.Machine.{Layout, Machine, faults}
use stacky.Codegen.Assembly.Runs.{Reaches}
use stacky.Codegen.Assembly.Placed.{IsSuffix, IsReturn, Before, Loaded, FramesAt, Matches}
use stacky.Codegen.Assembly.Steps.{from_code, FramesAt-length, FramesAt-set, get_elem?-set}
use stacky.Codegen.Assembly.Operations.{next-Follows, behind-IsSuffix}
use stacky.Codegen.{emit_intrinsic, emit_intrinsic_kind}
use stacky.Codegen.Processor.{run}
use stacky.Codegen.Correct.{IsPure, execute, in_world, execute-emit_intrinsic}
use stacky.Codegen.Assembly.Runs.{after_code, code-Reaches, lines_of, moved}
use stacky.Codegen.Assembly.Placed.{FitsKind}
use stacky.Codegen.Assembly.Simulation.{Follows, Follows-later, arrives, call-Reaches}

intrinsic_step-pure :
    (v : ℕ) (k : IntrinsicKind) (name : Text) (s : List ℕ)
    → IsPure k
    → intrinsic_step v k name s ≡ pure k s
unfolding intrinsic_step
intrinsic_step-pure v IntrinsicKind.load name s h = absurd h
intrinsic_step-pure v IntrinsicKind.store name s h = absurd h
intrinsic_step-pure v IntrinsicKind.top name s h = absurd h
intrinsic_step-pure v IntrinsicKind.argc name s h = absurd h
intrinsic_step-pure v IntrinsicKind.argv name s h = absurd h
intrinsic_step-pure v IntrinsicKind.random32 name s h = absurd h
intrinsic_step-pure v IntrinsicKind.random64 name s h = absurd h
intrinsic_step-pure v IntrinsicKind.syscall name s h = absurd h
intrinsic_step-pure v _ name s h = refl

run-pure :
    (p : Platform) (k : IntrinsicKind) (name : Text) (cpu : Cpu) (w : Platform.World p)
    (code : List Instruction)
    → emit_intrinsic_kind k name ≡ ok code
    → IsPure k
    → AllWords cpu.stack
    → (run p code cpu w ≡ none) × (pure k cpu.stack ≡ none)
      ⊎ ((cpu' : Cpu) × (run p code cpu w ≡ some (cpu', w)) × (pure k cpu.stack ≡ some cpu'.stack))
unfolding execute
run-pure p k name cpu w code e h ws =
    let same : execute p (ok code) cpu w ≡ in_world p w (pure k cpu.stack) =
      ap (λ o. execute p o cpu w) (sym e) ∙ execute-emit_intrinsic p k name cpu w h ws in
    elim (Option-cases (run p code cpu w)) [
      | inl f ↦ elim (Option-cases (pure k cpu.stack)) [
        | inl g ↦ inl (f, g)
        | inr (s, g) ↦ absurd (ground (arith, rw (execute, f, g) at same))
      ]
      | inr ((cpu', w'), f) ↦ elim (Option-cases (pure k cpu.stack)) [
        | inl g ↦ absurd (ground (arith, rw (execute, f, g) at same))
        | inr (s, g) ↦
            let t : some (cpu'.stack, w') ≡ some (s, w) = rw (execute, f, g) at same in
            let a : cpu'.stack ≡ s = ground (arith, t) in
            let b : w' ≡ w = ground (arith, t) in
            inr (cpu', f ∙ ap (λ x. some (cpu', x)) b, g ∙ ap some (sym a))
      ]
    ]

module _ (p : Platform) (layout : Layout) (text : List Entry) (words : Words)
    (loaded : Loaded layout text words) (q : Process) (m : Machine p)
    (matches : Matches layout text words p q m) (shallow : length q.frames < 1024)
    (body rest : List Line)
    (made : lines_from (suc q.ip) (length q.body) matches.place.targets (drop (suc q.ip) q.body)
      ≡ ok rest)
    (code_is : m.code
      ≡ map (line matches.place.prefix) body
        ++ (map (line matches.place.prefix) rest ++ matches.place.tail))
    (v : ℕ) (op : Operation) where
  open matches use {place, in_text, ends_in, fits, same_stack, all_words, capacity, callers}

  abbrev after : List Entry
  after = map (line place.prefix) rest ++ place.tail

  abbrev Goes : Status → Type 0
  Goes r = Follows p layout text words loaded m r

  faults-pass :
      (s : List ℕ) (k : IntrinsicKind)
      → Reaches p layout text m faults
      → Goes (pass q (result_of k s none))
  faults-pass s k h = elim (Bool-cases (divides_by_zero k s)) [
    | inl e ↦ subst Goes (ap (λ b. pass q (if b then divides else fails)) (sym e)) h
    | inr e ↦ subst Goes (ap (λ b. pass q (if b then divides else fails)) (sym e)) h
  ]

  runs_code :
      (code : List Instruction)
      → body ≡ map plain code
      → IsPure op.intrinsic
      → (run p code m.cpu m.world ≡ none) × (pure op.intrinsic m.cpu.stack ≡ none)
        ⊎ ((cpu' : Cpu) × (run p code m.cpu m.world ≡ some (cpu', m.world))
            × (pure op.intrinsic m.cpu.stack ≡ some cpu'.stack))
      → Goes (
          pass q
            (result_of op.intrinsic q.stack (intrinsic_step v op.intrinsic op.token.sval q.stack)))
  runs_code code b h r =
      let reach : Reaches p layout text m
          (after_code p layout text m after (run p code m.cpu m.world)) =
        from_code p layout text m (lines_of p layout text place.prefix code after) _
          (code_is ∙ ap (λ x. map (line place.prefix) x ++ after) b)
          (code-Reaches p layout text place.prefix code after m m.cpu m.world) in
      let means =
        intrinsic_step-pure v op.intrinsic op.token.sval q.stack h
        ∙ ap (pure op.intrinsic) (sym same_stack) in
      elim r [
        | inl (f, g) ↦
            subst (λ o. Goes (pass q (result_of op.intrinsic q.stack o))) (sym (means ∙ g))
              (faults-pass q.stack op.intrinsic
                (subst (λ o. Reaches p layout text m (after_code p layout text m after o)) f reach))
        | inr (cpu', f, g) ↦
            subst (λ o. Goes (pass q (result_of op.intrinsic q.stack o))) (sym (means ∙ g))
              (Follows-later p layout text words loaded m (moved p layout text m after cpu' m.world)
                (running (record q { ip = suc q.ip; stack = cpu'.stack }))
                (subst (λ o. Reaches p layout text m (after_code p layout text m after o)) f reach)
                (next-Follows p layout text words loaded q m matches shallow rest
                  (moved p layout text m after cpu' m.world) cpu'.stack made refl
                  (behind-IsSuffix p layout text words loaded q m matches shallow rest v op body
                    made code_is)
                  refl refl refl
                  (pure-AllWords op.intrinsic m.cpu.stack cpu'.stack
                    (subst AllWords (sym same_stack) all_words) g)))
      ]

  pub intrinsic-Follows :
      operation_lines q.ip (length q.body) OperationKind.intrinsic op ≡ ok body
      → IsPure op.intrinsic
      → Goes (do_operation words v OperationKind.intrinsic op q)
  unfolding operation_lines do_operation operation_step emit_intrinsic
  intrinsic-Follows e h = elim (Outcome-cases (emit_intrinsic op)) [
    | inl (c, f) ↦ absurd (ground (arith, rw (operation_lines, f) at e))
    | inr (code, f) ↦ runs_code code (ground (arith, rw (operation_lines, f) at e)) h (
        run-pure p op.intrinsic op.token.sval m.cpu m.world code f h
          (subst AllWords (sym same_stack) all_words))
  ]

  pub call_symbol-Follows :
      operation_lines q.ip (length q.body) OperationKind.call_symbol op ≡ ok body
      → FitsKind text words OperationKind.call_symbol op
      → Goes (do_operation words v OperationKind.call_symbol op q)
  unfolding operation_lines do_operation
  call_symbol-Follows e (callee, found, (pl, code, behind_it, f, before, ends, suffix)) =
      let deep = FramesAt-length p layout text words q.frames m.slots m.pointer callers in
      let l : m.pointer < 1024 = omega (arith, deep, shallow) in
      let b : body ≡ call_function op.ival ∷ [] = ground (arith, e) in
      let here : IsReturn after text = (
        place.prefix,
        op.ival,
        subst (λ x. IsSuffix x text) (code_is ∙ ap (λ x. map (line place.prefix) x ++ after) b)
            in_text,
      ) in
      let (m', r, mc, ms, sl, mp) =
        call-Reaches p layout text words loaded place.prefix op.ival m after code l capacity
          (code_is ∙ ap (λ x. map (line place.prefix) x ++ after) b) f in
      let f' : Frame = record { body = q.body; ip = suc q.ip } in
      let q' : Process = record {
        frames = f' ∷ q.frames;
        body = callee.function_body;
        ip = 0;
        stack = q.stack;
      } in
      subst (λ o. Goes (enter q o)) (sym found)
        (Follows-later p layout text words loaded m m' (running q') r (
          arrives p layout text words loaded q' m' pl
            (subst
              (λ x.
                Before pl.prefix (length callee.function_body) pl.targets pl.tail 0
                  callee.function_body x)
              (sym mc) before)
            (subst (λ x. IsSuffix x text) (sym mc) suffix) (behind_it, ends)
            (loaded.bodies_fit op callee found) (ms ∙ same_stack) all_words
            (ap length sl ∙ length-set m.slots m.pointer (layout.address after) ∙ capacity)
            (
              m.pointer,
              after,
              place,
              mp,
              ap (λ x. get_elem? x m.pointer) sl
                  ∙ get_elem?-set m.slots m.pointer (layout.address after)
                      (omega (arith, l, capacity)),
              here,
              (rest, made, refl),
              ends_in,
              fits,
              subst (λ x. FramesAt layout text words q.frames x m.pointer) (sym sl)
                  (FramesAt-set p layout text words q.frames m.slots m.pointer m.pointer
                    (layout.address after) (omega arith) callers),
            )))
