-- ===== src/Codegen/Assembly/Operations.antt =====
-- Each operation of a body, and the lines that are written for it.
use stacky.Common.{
  ℕ, zero, suc, ◌^◌, ◌<◌, ◌≡◌, refl, sym, ap, ◌∙◌, subst, none, some, List, [], ◌∷◌, ◌++◌, map,
  arith, length, drop, get_elem?,
}
use stacky.Syntax.{Operation, OperationKind}
use stacky.Report.{ok}
use stacky.Machine.{Platform, AllWords}
use stacky.Dictionary.{Words}
use stacky.Program.{Process, Status, running, leave, do_operation}
use stacky.Codegen.{rax}
use stacky.Codegen.Functions.{jump, push_int, push_symbol, Line, operation_lines, lines_from}
use stacky.Codegen.Assembly.{Entry, line}
use stacky.Codegen.Assembly.Machine.{do_entry, goto, put, with_stack, Layout, Machine, going}
use stacky.Codegen.Assembly.Runs.{stays-Reaches, last-Reaches}
use stacky.Codegen.Assembly.Placed.{IsSuffix, After, Loaded, FramesAt, Matches, Lands}
use stacky.Codegen.Assembly.Steps.{IsSuffix-tail, at_code, from_code}
use stacky.Codegen.Assembly.Simulation.{Follows, Follows-later, arrives, leave-Follows}

pub drop-some :
    (ops : List Operation) (i : ℕ) (op : Operation)
    → get_elem? ops i ≡ some op
    → drop i ops ≡ op ∷ drop (suc i) ops
drop-some [] i op e = absurd (ground (arith, e))
drop-some (o ∷ ops) zero op e = ap (λ x. x ∷ ops) (ground (arith, e))
drop-some (o ∷ ops) (suc i) op e = drop-some ops i op e

pub drop-none : (ops : List Operation) (i : ℕ) → get_elem? ops i ≡ none → drop i ops ≡ []
drop-none [] zero e = refl
drop-none [] (suc i) e = refl
drop-none (o ∷ ops) zero e = absurd (ground (arith, e))
drop-none (o ∷ ops) (suc i) e = drop-none ops i e

drop-length : (ops : List Operation) → drop (length ops) ops ≡ []
drop-length [] = refl
drop-length (o ∷ ops) = drop-length ops

-- What an operation pushes in the assembled program: the address of its label.
abbrev pub value_of : Layout → Operation → ℕ
value_of layout op = layout.symbol op.symbol_prefix op.ival

module _ (p : Platform) (layout : Layout) (text : List Entry) (words : Words)
    (loaded : Loaded layout text words) (q : Process) (m : Machine p)
    (matches : Matches layout text words p q m) (shallow : length q.frames < 1024)
    (rest : List Line) where
  open matches use {place, in_text, ends_in, fits, same_stack, all_words, capacity, callers}

  abbrev pub behind : List Entry
  behind = map (line place.prefix) rest ++ place.tail

  -- On to the next operation.
  pub next-Follows :
      (m' : Machine p) (s : List ℕ)
      → lines_from (suc q.ip) (length q.body) place.targets (drop (suc q.ip) q.body) ≡ ok rest
      → m'.code ≡ behind
      → IsSuffix behind text
      → m'.cpu.stack ≡ s
      → m'.slots ≡ m.slots
      → m'.pointer ≡ m.pointer
      → AllWords s
      → Follows p layout text words loaded m' (running (record q { ip = suc q.ip; stack = s }))
  next-Follows m' s made c suffix e sl mp ws =
      arrives p layout text words loaded (record q { ip = suc q.ip; stack = s }) m' place
        (rest, made, c) (subst (λ x. IsSuffix x text) (sym c) suffix) ends_in fits e ws
        (ap length sl ∙ capacity)
        (subst (λ x. FramesAt layout text words q.frames x m'.pointer) (sym sl)
          (subst (λ x. FramesAt layout text words q.frames m.slots x) (sym mp) callers))

  -- At a label of the body.
  pub lands-Follows :
      (m' : Machine p) (j : ℕ) (s : List ℕ) (code : List Entry)
      → After place.prefix (length q.body) place.targets place.tail j (drop j q.body) code
      → IsSuffix code text
      → m'.code ≡ code
      → m'.cpu.stack ≡ s
      → m'.slots ≡ m.slots
      → m'.pointer ≡ m.pointer
      → AllWords s
      → Follows p layout text words loaded m' (running (record q { ip = j; stack = s }))
  lands-Follows m' j s code after suffix c e sl mp ws = (
    m',
    stays-Reaches p layout text m',
    record {
      place = place;
      at_code =
          subst
            (λ x. After place.prefix (length q.body) place.targets place.tail j (drop j q.body) x)
            (sym c) after;
      in_text = subst (λ x. IsSuffix x text) (sym c) suffix;
      ends_in = ends_in;
      fits = fits;
      same_stack = e;
      all_words = ws;
      capacity = ap length sl ∙ capacity;
      callers =
          subst (λ x. FramesAt layout text words q.frames x m'.pointer) (sym sl)
            (subst (λ x. FramesAt layout text words q.frames m.slots x) (sym mp) callers);
    },
  )

  module _ (v : ℕ) (op : Operation) (body : List Line)
      (made : lines_from (suc q.ip) (length q.body) place.targets (drop (suc q.ip) q.body)
        ≡ ok rest)
      (code_is : m.code ≡ map (line place.prefix) body ++ behind) where
    pub behind-IsSuffix : IsSuffix behind text
    behind-IsSuffix =
        IsSuffix-tail (map (line place.prefix) body) behind text
          (subst (λ x. IsSuffix x text) code_is in_text)

    -- A line that goes on behind itself.
    pub one_line :
        (l : Line) (m' : Machine p) (r : Status)
        → body ≡ l ∷ []
        → do_entry p layout text (line place.prefix l) (at_code p layout text m behind) ≡ going m'
        → Follows p layout text words loaded m' r
        → Follows p layout text words loaded m r
    one_line l m' r b e h =
        Follows-later p layout text words loaded m m' r
          (from_code p layout text m (line place.prefix l ∷ behind) (going m')
            (code_is ∙ ap (λ x. map (line place.prefix) x ++ behind) b)
            (last-Reaches p layout text (at_code p layout text m (line place.prefix l ∷ behind))
              (going m') e))
          h

    -- Nothing was written.
    pub no_line :
        (s : List ℕ)
        → body ≡ []
        → s ≡ q.stack
        → Follows p layout text words loaded m (running (record q { ip = suc q.ip; stack = s }))
    no_line s b e =
        next-Follows m s made (code_is ∙ ap (λ x. map (line place.prefix) x ++ behind) b)
          behind-IsSuffix (same_stack ∙ sym e) refl refl (subst AllWords (sym e) all_words)

    pub push_int-Follows :
        operation_lines q.ip (length q.body) OperationKind.push_int op ≡ ok body
        → op.ival < 2 ^ 64
        → Follows p layout text words loaded m (do_operation words v OperationKind.push_int op q)
    unfolding operation_lines do_operation do_entry
    push_int-Follows e h =
        let m' = record m {
          code = behind;
          cpu = put p rax op.ival (with_stack p (op.ival ∷ m.cpu.stack) m.cpu);
        } in
        one_line (push_int op.ival) m'
          (running (record q { ip = suc q.ip; stack = op.ival ∷ q.stack })) (ground (arith, e)) refl
          (next-Follows m' (op.ival ∷ q.stack) made refl behind-IsSuffix
            (ap (λ s. op.ival ∷ s) same_stack) refl refl (h, all_words))

    pub push_symbol-Follows :
        operation_lines q.ip (length q.body) OperationKind.push_symbol op ≡ ok body
        → v ≡ value_of layout op
        → Follows p layout text words loaded m (do_operation words v OperationKind.push_symbol op q)
    unfolding operation_lines do_operation do_entry
    push_symbol-Follows e h =
        let n = layout.symbol op.symbol_prefix op.ival in
        let m' = record m { code = behind; cpu = with_stack p (n ∷ m.cpu.stack) m.cpu } in
        one_line (push_symbol op.symbol_prefix op.ival) m'
          (running (record q { ip = suc q.ip; stack = v ∷ q.stack })) (ground (arith, e)) refl
          (next-Follows m' (v ∷ q.stack) made refl behind-IsSuffix
            (ap (λ s. n ∷ s) same_stack ∙ ap (λ x. x ∷ q.stack) (sym h)) refl refl
            (subst (λ x. x < 2 ^ 64) (sym h) (loaded.symbols op.symbol_prefix op.ival), all_words))

    -- A jump to a label of the body.
    pub jump-Follows :
        (j : ℕ) (s : List ℕ)
        → body ≡ jump j ∷ []
        → Lands place.prefix q.body place.targets place.tail text j
        → s ≡ q.stack
        → Follows p layout text words loaded m (running (record q { ip = j; stack = s }))
    unfolding do_entry
    jump-Follows j s b (code, found, after, suffix) e =
        one_line (jump j) (at_code p layout text m code) (running (record q { ip = j; stack = s }))
          b (ap (λ o. goto p o (at_code p layout text m behind)) found)
          (lands-Follows (at_code p layout text m code) j s code after suffix refl
            (same_stack ∙ sym e) refl refl (subst AllWords (sym e) all_words))

    pub return-Follows :
        operation_lines q.ip (length q.body) OperationKind.return op ≡ ok body
        → Follows p layout text words loaded m (do_operation words v OperationKind.return op q)
    unfolding operation_lines do_operation do_entry
    return-Follows e =
        let (code, found, after, suffix) = place.lands_end in
        one_line (jump (length q.body)) (at_code p layout text m code) (leave q q.frames)
          (ground (arith, e)) (ap (λ o. goto p o (at_code p layout text m behind)) found)
          (leave-Follows p layout text words loaded q (at_code p layout text m code) q.frames
            place.tail ends_in
            (subst
              (λ ops.
                After place.prefix (length q.body) place.targets place.tail (length q.body) ops
                  code)
              (drop-length q.body) after)
            same_stack all_words capacity callers (omega (arith, shallow)))
