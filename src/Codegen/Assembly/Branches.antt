-- ===== src/Codegen/Assembly/Branches.antt =====
-- The operations that jump.
use stacky.Common.{
  ℕ, suc, ◌<◌, ◌≡◌, refl, sym, ap, ◌∙◌, subst, inl, inr, true, false, Option, some, List, [], ◌∷◌,
  ◌++◌, map, arith, length, drop, if◌then◌else◌, Bool-cases, ◌==◌,
}
use stacky.Syntax.{Operation, OperationKind, empty_jump}
use stacky.Report.{ok}
use stacky.Machine.{Platform, AllWords}
use stacky.Dictionary.{Words}
use stacky.Program.{Process, running, branch, do_operation}
use stacky.Codegen.{rax}
use stacky.Codegen.Processor.{Cpu}
use stacky.Codegen.Functions.{jump_if_zero, Line, operation_lines, lines_from}
use stacky.Codegen.Assembly.{Entry, line}
use stacky.Codegen.Assembly.Machine.{
  find_line, do_entry, goto, put, with_stack, Layout, Machine, going, faults, branch_at,
}
use stacky.Codegen.Assembly.Runs.{last-Reaches}
use stacky.Codegen.Assembly.Placed.{Loaded, Matches, Lands}
use stacky.Codegen.Assembly.Steps.{at_code, from_code}
use stacky.Codegen.Assembly.Simulation.{Follows}
use stacky.Codegen.Assembly.Operations.{
  next-Follows, lands-Follows, one_line, behind-IsSuffix, no_line, jump-Follows,
}

module _ (p : Platform) where
  -- The processor behind the test of the value `v`.
  abbrev pub tested : ℕ → List ℕ → Cpu → Cpu
  tested v s c = record (put p rax v (with_stack p s c)) { zero_flag = v == 0; carry_flag = false }

  branch-zero :
      (target : Option (List Entry)) (code : List Entry) (v : ℕ) (s : List ℕ) (m : Machine p)
      → target ≡ some code
      → m.cpu.stack ≡ v ∷ s
      → (v == 0) ≡ true
      → branch_at p target m.cpu.stack m ≡ going (record m { code = code; cpu = tested v s m.cpu })
  branch-zero target code v s m f e z =
      ap (λ x. branch_at p target x m) e
      ∙ ap
          (λ b.
            if b
            then goto p target (record m { cpu = tested v s m.cpu })
            else going (record m { cpu = tested v s m.cpu }))
          z
      ∙ ap (λ t. goto p t (record m { cpu = tested v s m.cpu })) f

  branch-other :
      (target : Option (List Entry)) (v : ℕ) (s : List ℕ) (m : Machine p)
      → m.cpu.stack ≡ v ∷ s
      → (v == 0) ≡ false
      → branch_at p target m.cpu.stack m ≡ going (record m { cpu = tested v s m.cpu })
  branch-other target v s m e z =
      ap (λ x. branch_at p target x m) e
      ∙ ap
          (λ b.
            if b
            then goto p target (record m { cpu = tested v s m.cpu })
            else going (record m { cpu = tested v s m.cpu }))
          z

module _ (p : Platform) (layout : Layout) (text : List Entry) (words : Words)
    (loaded : Loaded layout text words) (q : Process) (m : Machine p)
    (matches : Matches layout text words p q m) (shallow : length q.frames < 1024)
    (rest : List Line) (v : ℕ) (op : Operation) (body : List Line)
    (made : lines_from (suc q.ip) (length q.body) matches.place.targets (drop (suc q.ip) q.body)
      ≡ ok rest)
    (code_is : m.code
      ≡ map (line matches.place.prefix) body
        ++ (map (line matches.place.prefix) rest ++ matches.place.tail)) where
  open matches use {place, in_text, ends_in, fits, same_stack, all_words, capacity, callers}

  abbrev behind : List Entry
  behind = map (line place.prefix) rest ++ place.tail

  pub end-Follows :
      operation_lines q.ip (length q.body) OperationKind.end op ≡ ok body
      → Lands place.prefix q.body place.targets place.tail text op.jump
      → Follows p layout text words loaded m (do_operation words v OperationKind.end op q)
  unfolding operation_lines do_operation
  end-Follows e h = elim (Bool-cases (op.jump == empty_jump)) [
    | inl f ↦ absurd (ground (arith, rw (operation_lines, f) at e))
    | inr f ↦ elim (Bool-cases (suc q.ip == op.jump)) [
      | inl g ↦
          subst (λ j. Follows p layout text words loaded m (running (record q { ip = j })))
            (ground (arith, g))
            (no_line p layout text words loaded q m matches shallow rest v op body made code_is
              q.stack (ground (arith, rw (operation_lines, f, g) at e)) refl)
      | inr g ↦
          jump-Follows p layout text words loaded q m matches shallow rest v op body made code_is
            op.jump q.stack (ground (arith, rw (operation_lines, f, g) at e)) h refl
    ]
  ]

  pub else-Follows :
      operation_lines q.ip (length q.body) OperationKind.else_ op ≡ ok body
      → Lands place.prefix q.body place.targets place.tail text op.jump
      → Follows p layout text words loaded m (do_operation words v OperationKind.else_ op q)
  unfolding operation_lines do_operation
  else-Follows e h = elim (Bool-cases (op.jump == empty_jump)) [
    | inl f ↦ absurd (ground (arith, rw (operation_lines, f) at e))
    | inr f ↦
        jump-Follows p layout text words loaded q m matches shallow rest v op body made code_is
          op.jump q.stack (ground (arith, rw (operation_lines, f) at e)) h refl
  ]

  -- `pop rax`, `test` and `jz`
  pub branch-Follows :
      body ≡ jump_if_zero op.jump ∷ []
      → Lands place.prefix q.body place.targets place.tail text op.jump
      → (s : List ℕ) → q.stack ≡ s
      → Follows p layout text words loaded m (branch q op s)
  unfolding do_entry
  branch-Follows b h [] e =
      let c = at_code p layout text m (line place.prefix (jump_if_zero op.jump) ∷ behind) in
      from_code p layout text m c.code faults
        (code_is ∙ ap (λ x. map (line place.prefix) x ++ behind) b)
        (last-Reaches p layout text c faults (
          ap
            (λ s.
              branch_at p (find_line place.prefix op.jump text) s (at_code p layout text m behind))
            (same_stack ∙ e)))
  branch-Follows b (code, found, after, suffix) (x ∷ s) e = elim (Bool-cases (x == 0)) [
    | inl z ↦
        let m' = record m { code = code; cpu = tested p x s m.cpu } in
        let r = running (record q { ip = op.jump; stack = s }) in
        subst (Follows p layout text words loaded m)
          (ap (λ c. running (record q { ip = if c then op.jump else suc q.ip; stack = s })) (sym z))
          (one_line p layout text words loaded q m matches shallow rest v op body made code_is
            (jump_if_zero op.jump) m' r b
            (branch-zero p (find_line place.prefix op.jump text) code x s
              (at_code p layout text m behind) found (same_stack ∙ e) z)
            (lands-Follows p layout text words loaded q m matches shallow rest m' op.jump s code
              after suffix refl refl refl refl (subst AllWords e all_words).1))
    | inr z ↦
        let m' = record m { code = behind; cpu = tested p x s m.cpu } in
        let r = running (record q { ip = suc q.ip; stack = s }) in
        subst (Follows p layout text words loaded m)
          (ap (λ c. running (record q { ip = if c then op.jump else suc q.ip; stack = s })) (sym z))
          (one_line p layout text words loaded q m matches shallow rest v op body made code_is
            (jump_if_zero op.jump) m' r b
            (branch-other p (find_line place.prefix op.jump text) x s
              (at_code p layout text m behind) (same_stack ∙ e) z)
            (next-Follows p layout text words loaded q m matches shallow rest m' s made refl
              (behind-IsSuffix p layout text words loaded q m matches shallow rest v op body made
                code_is)
              refl refl refl (subst AllWords e all_words).1))
  ]
