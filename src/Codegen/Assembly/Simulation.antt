-- ===== src/Codegen/Assembly/Simulation.antt =====
-- The machine does what the program does, operation by operation.
use stacky.Common.{
  ℕ, suc, ◌+◌, ◌-◌, ◌^◌, ◌<◌, ◌≤◌, ◌≡◌, refl, sym, ap, ◌∙◌, subst, true, Option, some, List, [],
  ◌∷◌, ◌++◌, arith, length, drop, get_elem?, set as set_elem, ltb,
}
use stacky.Machine.{Platform, AllWords, word}
use stacky.Dictionary.{Words}
use stacky.Program.{Frame, Process, Status, running, finished, divided, stuck, leave}
use stacky.Codegen.{pop, push, rax, rbx}
use stacky.Codegen.Functions.{call_function}
use stacky.Codegen.Assembly.{
  Entry, line, instruction, load_callptr, save_return, add_callptr, sub_callptr, load_return, ret,
  emit_return,
}
use stacky.Codegen.Assembly.Machine.{
  find_function, do_entry, do_first, goto, put, with_stack, Layout, Machine, going, exits, faults,
}
use stacky.Codegen.Assembly.Runs.{Reaches, last-Reaches, then-Reaches}
use stacky.Codegen.Assembly.Placed.{
  IsSuffix, IsReturn, Before, Placed, AllFit, Loaded, EndsIn, FramesAt, Matches,
}
use stacky.Codegen.Assembly.Steps.{
  at_code, entry-Reaches, from_code, Before-Reaches, FramesAt-length, IsReturn-IsSuffix,
}

module _ (p : Platform) (layout : Layout) (text : List Entry) (words : Words)
    (loaded : Loaded layout text words) where
  -- The machine does what the program's step has done; too few values and a division by zero fault.
  abbrev pub Follows : Machine p → Status → Type 0
  Follows m (running q) =
      (m' : Machine p) × Reaches p layout text m (going m') × Matches layout text words p q m'
  Follows m (finished s) = Reaches p layout text m (exits s)
  Follows m divided = Reaches p layout text m faults
  Follows m stuck = Reaches p layout text m faults

  pub Follows-later :
      (m m' : Machine p) (r : Status)
      → Reaches p layout text m (going m')
      → Follows m' r
      → Follows m r
  Follows-later m m' (running q) h (m'', k, x) =
      (m'', then-Reaches p layout text m m' (going m'') h k, x)
  Follows-later m m' (finished s) h k = then-Reaches p layout text m m' (exits s) h k
  Follows-later m m' divided h k = then-Reaches p layout text m m' faults h k
  Follows-later m m' stuck h k = then-Reaches p layout text m m' faults h k

  -- Before an operation of some process, with everything else in place.
  pub arrives :
      (q : Process) (m : Machine p) (pl : Placed text q.body)
      → Before pl.prefix (length q.body) pl.targets pl.tail q.ip (drop q.ip q.body) m.code
      → IsSuffix m.code text
      → EndsIn q.frames pl.tail
      → AllFit text words q.body
      → m.cpu.stack ≡ q.stack
      → AllWords q.stack
      → length m.slots ≡ 1024
      → FramesAt layout text words q.frames m.slots m.pointer
      → Follows m (running q)
  arrives q m pl b s t a e ws n fs =
      let (code, after, s', reach) =
        Before-Reaches p layout text pl.prefix (length q.body) pl.targets pl.tail q.ip
          (drop q.ip q.body) m.code b s in
      (
        at_code p layout text m code,
        reach m,
        record {
          place = pl;
          at_code = after;
          in_text = s';
          ends_in = t;
          fits = a;
          same_stack = e;
          all_words = ws;
          capacity = n;
          callers = fs;
        },
      )

  pops_back : (k : ℕ) → k < 1024 → word (suc k + (2 ^ 64 - 1)) ≡ k
  pops_back k h = omega (arith, h)

  loads :
      (m : Machine p) (v : ℕ)
      → get_elem? m.slots m.cpu.registers.rbx ≡ some v
      → do_entry p layout text load_return m ≡ going (record m { cpu = put p rax v m.cpu })
  unfolding do_entry
  loads m v e = rw (do_entry, e) refl

  saves :
      (m : Machine p)
      → m.cpu.registers.rbx < length m.slots
      → do_entry p layout text save_return m
        ≡ going (record m { slots = set_elem m.slots m.cpu.registers.rbx m.cpu.registers.rax })
  unfolding do_entry
  saves m h =
      let e : ltb m.cpu.registers.rbx (length m.slots) ≡ true = ground (arith, h) in
      rw (do_entry, e) refl

  -- The return from a function to the code behind its call.
  return-Reaches :
      (m : Machine p) (rest code : List Entry) (k : ℕ)
      → m.pointer ≡ suc k
      → k < 1024
      → get_elem? m.slots k ≡ some (layout.address code)
      → IsReturn code text
      → m.code ≡ emit_return ++ rest
      → (m' : Machine p) × Reaches p layout text m (going m')
        × (m'.code ≡ code)
        × (m'.cpu.stack ≡ m.cpu.stack)
        × (m'.slots ≡ m.slots)
        × (m'.pointer ≡ k)
  unfolding do_entry
  return-Reaches m rest code k e l g s c =
      let k' = word (m.pointer + (2 ^ 64 - 1)) in
      let same : k' ≡ k = ap (λ i. word (i + (2 ^ 64 - 1))) e ∙ pops_back k l in
      let address = layout.address code in
      let back = ret ∷ rest in
      let m1 = record m { pointer = k' } in
      let m2 = record m1 { cpu = put p rbx k' m.cpu } in
      let m3 = record m2 { cpu = put p rax address m2.cpu } in
      let m4 = record m3 { cpu = with_stack p (address ∷ m.cpu.stack) m3.cpu } in
      let m5 = record m4 { code = code; cpu = with_stack p m.cpu.stack m4.cpu } in
      (
        m5,
        from_code p layout text m (emit_return ++ rest) (going m5) c (
            entry-Reaches p layout text sub_callptr _ m
              (at_code p layout text m1
                (load_callptr ∷ load_return ∷ instruction (push rax) ∷ back))
              (going m5) refl
              (entry-Reaches p layout text load_callptr _ m1
                (at_code p layout text m2 (load_return ∷ instruction (push rax) ∷ back)) (going m5)
                refl
                (entry-Reaches p layout text load_return _ m2
                  (at_code p layout text m3 (instruction (push rax) ∷ back)) (going m5)
                  (loads (at_code p layout text m2 (instruction (push rax) ∷ back)) address
                    (ap (get_elem? m.slots) same ∙ g))
                  (entry-Reaches p layout text (instruction (push rax)) _ m3
                    (at_code p layout text m4 back) (going m5) refl
                    (last-Reaches p layout text (at_code p layout text m4 back) (going m5) (
                      ap (λ o. goto p o (at_code p layout text m5 rest))
                        (loaded.found_again code s))))))),
        refl,
        refl,
        refl,
        same,
      )

  pub below : (fs : List Frame) (k : ℕ) → k ≡ length fs → length fs < 1024 → k < 1024
  below fs k e l = omega (arith, e, l)

  -- The end of a body.
  pub leave-Follows :
      (q : Process) (m : Machine p) (fs : List Frame) (tail : List Entry)
      → EndsIn fs tail
      → m.code ≡ tail
      → m.cpu.stack ≡ q.stack
      → AllWords q.stack
      → length m.slots ≡ 1024
      → FramesAt layout text words fs m.slots m.pointer
      → length fs ≤ 1024
      → Follows m (leave q fs)
  unfolding do_entry
  leave-Follows q m [] tail (rest, t) c e ws n h d =
      last-Reaches p layout text m (exits q.stack)
        (ap (λ code. do_first p layout text code m) (c ∙ t) ∙ ap exits e)
  leave-Follows q m (f ∷ fs) tail (rest, t) c e ws n (k, code, pl, at, g, s, b, ends, a, h) d =
      let small =
        below fs k (FramesAt-length p layout text words fs m.slots k h) (omega (arith, d)) in
      let (m', r, mc, ms, sl, mp) = return-Reaches m rest code k at small g s (c ∙ t) in
      Follows-later m m'
        (running (record { frames = fs; body = f.body; ip = f.ip; stack = q.stack })) r
        (arrives (record { frames = fs; body = f.body; ip = f.ip; stack = q.stack }) m' pl
          (subst
            (λ x. Before pl.prefix (length f.body) pl.targets pl.tail f.ip (drop f.ip f.body) x)
            (sym mc) b)
          (subst (λ x. IsSuffix x text) (sym mc) (IsReturn-IsSuffix code text s)) ends a (ms ∙ e) ws
          (ap length sl ∙ n)
          (subst (λ x. FramesAt layout text words fs x m'.pointer) (sym sl)
            (subst (λ x. FramesAt layout text words fs m.slots x) (sym mp) h)))

  -- The call of a function, up to its body.
  pub call-Reaches :
      (q : Option ℕ) (id : ℕ) (m : Machine p) (after code : List Entry)
      → m.pointer < 1024
      → length m.slots ≡ 1024
      → m.code ≡ line q (call_function id) ∷ after
      → find_function id text
        ≡ some (instruction (pop rax) ∷ load_callptr ∷ save_return ∷ add_callptr ∷ code)
      → (m' : Machine p) × Reaches p layout text m (going m')
        × (m'.code ≡ code)
        × (m'.cpu.stack ≡ m.cpu.stack)
        × (m'.slots ≡ set_elem m.slots m.pointer (layout.address after))
        × (m'.pointer ≡ suc m.pointer)
  unfolding do_entry
  call-Reaches q id m after code l n c f =
      let address = layout.address after in
      let m1 = record m { cpu = with_stack p (address ∷ m.cpu.stack) m.cpu } in
      let m2 = record m { cpu = put p rax address m.cpu } in
      let m3 = record m2 { cpu = put p rbx m.pointer m2.cpu } in
      let m4 = record m3 { slots = set_elem m.slots m.pointer address } in
      let m5 = record m4 { code = code; pointer = word (m.pointer + 1) } in
      let from_pop = instruction (pop rax) ∷ load_callptr ∷ save_return ∷ add_callptr ∷ code in
      (
        m5,
        from_code p layout text m (line q (call_function id) ∷ after) (going m5) c (
            entry-Reaches p layout text (line q (call_function id)) after m
              (at_code p layout text m1 from_pop) (going m5)
              (ap (λ o. goto p o (at_code p layout text m1 after)) f)
              (entry-Reaches p layout text (instruction (pop rax)) _ m1
                (at_code p layout text m2 (load_callptr ∷ save_return ∷ add_callptr ∷ code))
                (going m5) refl
                (entry-Reaches p layout text load_callptr _ m2
                  (at_code p layout text m3 (save_return ∷ add_callptr ∷ code)) (going m5) refl
                  (entry-Reaches p layout text save_return _ m3
                    (at_code p layout text m4 (add_callptr ∷ code)) (going m5)
                    (saves (at_code p layout text m3 (add_callptr ∷ code)) (omega (arith, l, n)))
                    (last-Reaches p layout text (at_code p layout text m4 (add_callptr ∷ code))
                      (going m5) refl))))),
        refl,
        refl,
        refl,
        omega (arith, l),
      )
