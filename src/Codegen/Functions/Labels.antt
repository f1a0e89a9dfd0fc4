-- ===== src/Codegen/Functions/Labels.antt =====
-- src/linux-x86_64.cc, `generate_instructions`: every jump of a body has its label.
use stacky.Common.{
  Bool-cases, ==_iff, ℕ, suc, ◌+◌, ◌≤◌, ◌<◌, ◌≡◌, refl, sym, subst, ◌⊎◌, inl, inr, Bool, true,
  false, ◌||◌, List, [], ◌∷◌, ◌++◌, map, arith, ◌==◌, if◌then◌else◌, length,
}
use stacky.Syntax.{Operation, OperationKind}
use stacky.Report.{Outcome-cases, ok}
use stacky.Codegen.{Instruction, emit_intrinsic}
use stacky.Codegen.Functions.{
  Line, label, jump, jump_if_zero, plain, contains, jump_targets, operation_lines, lines_from,
  generate_instructions,
}

unfoldable pub labels : List Line → List ℕ
labels [] = []
labels (label n ∷ lines) = n ∷ labels lines
labels (_ ∷ lines) = labels lines

-- The labels that the lines jump to.
unfoldable pub jumps : List Line → List ℕ
jumps [] = []
jumps (jump n ∷ lines) = n ∷ jumps lines
jumps (jump_if_zero n ∷ lines) = n ∷ jumps lines
jumps (_ ∷ lines) = jumps lines

abbrev pub AllAtMost : ℕ → List ℕ → Type 0
AllAtMost n [] = Unit {0}
AllAtMost n (t ∷ ts) = (t ≤ n) × AllAtMost n ts

pub AllAtMost-contains : (n t : ℕ) (ts : List ℕ) → AllAtMost n ts → contains t ts ≡ true → t ≤ n
unfolding contains
AllAtMost-contains n t [] h c = absurd (ground arith)
AllAtMost-contains n t (u ∷ ts) h c = ground (arith, AllAtMost-contains n t ts h.1)

jumps-append : (xs ys : List Line) → jumps (xs ++ ys) ≡ jumps xs ++ jumps ys
unfolding jumps
jumps-append [] ys = refl
jumps-append (x ∷ xs) ys = ground (arith, jumps-append xs ys)

labels-append : (xs ys : List Line) → labels (xs ++ ys) ≡ labels xs ++ labels ys
unfolding labels
labels-append [] ys = refl
labels-append (x ∷ xs) ys = ground (arith, labels-append xs ys)

contains-append : (n : ℕ) (xs ys : List ℕ) → contains n (xs ++ ys) ≡ contains n xs || contains n ys
unfolding contains
contains-append n [] ys = refl
contains-append n (x ∷ xs) ys = ground (arith, contains-append n xs ys)

jumps-plain : (code : List Instruction) → jumps (map plain code) ≡ []
unfolding jumps
jumps-plain [] = refl
jumps-plain (c ∷ code) = jumps-plain code

labels-plain : (code : List Instruction) → labels (map plain code) ≡ []
unfolding labels
labels-plain [] = refl
labels-plain (c ∷ code) = labels-plain code

abbrev pub is_target : OperationKind → Bool
is_target OperationKind.end = true
is_target OperationKind.if_ = true
is_target OperationKind.else_ = true
is_target OperationKind.do_ = true
is_target _ = false

-- The jumps of the control operations are among the targets.
abbrev pub Collects : List Operation → List ℕ → Type 0
Collects [] ts = Unit {0}
Collects (op ∷ ops) ts = (is_target op.kind ≡ true → contains op.jump ts ≡ true) × Collects ops ts

Collects-more :
    (ops : List Operation) (t : ℕ) (ts : List ℕ) → Collects ops ts → Collects ops (t ∷ ts)
unfolding contains
Collects-more [] t ts h = tt
Collects-more (op ∷ ops) t ts h = (λ k. ground (arith, h.0 k), Collects-more ops t ts h.1)

targets_cons :
    (op : Operation) (ops : List Operation) (us ts : List ℕ)
    → jump_targets ops ≡ ok us
    → jump_targets (op ∷ ops) ≡ ok ts
    → ((ts ≡ us) × (is_target op.kind ≡ false)) ⊎ (ts ≡ op.jump ∷ us)
unfolding jump_targets
targets_cons op ops us ts f e = ground arith

head_contains : (t : ℕ) (ts : List ℕ) → contains t (t ∷ ts) ≡ true
unfolding contains
head_contains t ts = ground arith

pub jump_targets-Collects :
    (ops : List Operation) (ts : List ℕ) → jump_targets ops ≡ ok ts → Collects ops ts
unfolding jump_targets contains
jump_targets-Collects [] ts e = tt
jump_targets-Collects (op ∷ ops) ts e = elim (Outcome-cases (jump_targets ops)) [
  | inl (c, f) ↦ absurd (ground (arith, e, f))
  | inr (us, f) ↦ elim (targets_cons op ops us ts f e) [
    | inl (g, n) ↦ (
      (λ k. absurd (ground (arith, n, k))),
      subst (Collects ops) (sym g) (jump_targets-Collects ops us f),
    )
    | inr g ↦ subst (Collects (op ∷ ops)) (sym g) (
      (λ k. head_contains op.jump us),
      Collects-more ops op.jump us (jump_targets-Collects ops us f),
    )
  ]
]

one_jumps :
    (i size t : ℕ) (k : OperationKind) (op : Operation) (body : List Line)
    → operation_lines i size k op ≡ ok body
    → contains t (jumps body) ≡ true
    → (t ≡ size) ⊎ ((t ≡ op.jump) × (is_target k ≡ true))
unfolding operation_lines jumps contains
one_jumps i size t OperationKind.intrinsic op body e c = elim (Outcome-cases (emit_intrinsic op)) [
  | inl (x, f) ↦ absurd (ground (arith, f))
  | inr (code, f) ↦ ground (arith, f, jumps-plain code)
]
one_jumps i size t _ op body e c = ground arith

-- The lines of an operation, and what its label adds to them.
abbrev labelled : ℕ → List ℕ → List Line → List Line
labelled i ts lines = (if contains i ts then label i ∷ [] else []) ++ lines

lines_cons :
    (i size : ℕ) (ts : List ℕ) (op : Operation) (ops : List Operation) (lines : List Line)
    → lines_from i size ts (op ∷ ops) ≡ ok lines
    → (body : List Line) × (rest : List Line) × (operation_lines i size op.kind op ≡ ok body)
      × (lines_from (suc i) size ts ops ≡ ok rest)
      × (lines ≡ labelled i ts (body ++ rest))
unfolding lines_from
lines_cons i size ts op ops lines e = elim (Outcome-cases (operation_lines i size op.kind op)) [
  | inl (c, f) ↦ absurd (ground (arith, e, f))
  | inr (body, f) ↦ elim (Outcome-cases (lines_from (suc i) size ts ops)) [
    | inl (c, g) ↦ absurd (ground (arith, e, f, g))
    | inr (rest, g) ↦ (body, rest, f, g, ground (arith, e, f, g))
  ]
]

labelled-jumps :
    (i : ℕ) (ts : List ℕ) (lines : List Line) → jumps (labelled i ts lines) ≡ jumps lines
unfolding jumps
labelled-jumps i ts lines = ground arith

labelled-labels :
    (i t : ℕ) (ts : List ℕ) (lines : List Line)
    → contains t (labels lines) ≡ true
    → contains t (labels (labelled i ts lines)) ≡ true
unfolding labels contains
labelled-labels i t ts lines h = ground arith

labelled-own :
    (i : ℕ) (ts : List ℕ) (lines : List Line)
    → contains i ts ≡ true
    → contains i (labels (labelled i ts lines)) ≡ true
unfolding labels
labelled-own i ts lines h = rw h (head_contains i (labels lines))

behind-labels :
    (t : ℕ) (body rest : List Line)
    → contains t (labels rest) ≡ true
    → contains t (labels (body ++ rest)) ≡ true
behind-labels t body rest h =
    ground (arith, labels-append body rest, contains-append t (labels body) (labels rest))

-- Every jump goes to the end of the body or to a target.
lines_jumps :
    (i size t : ℕ) (ts : List ℕ) (ops : List Operation) (lines : List Line)
    → Collects ops ts
    → lines_from i size ts ops ≡ ok lines
    → contains t (jumps lines) ≡ true
    → (t ≡ size) ⊎ (contains t ts ≡ true)
unfolding lines_from
lines_jumps i size t ts [] lines h e c = absurd (unfold jumps contains in ground arith)
lines_jumps i size t ts (op ∷ ops) lines h e c =
    let (body, rest, f, g, eq) = lines_cons i size ts op ops lines e in
    elim (Bool-cases (contains t (jumps body))) [
      | inl d ↦ elim (one_jumps i size t op.kind op body f d) [
        | inl s ↦ inl s
        | inr (j, k) ↦ inr (rw j (h.0 k))
      ]
      | inr d ↦ lines_jumps (suc i) size t ts ops rest h.1 g (
          ground (
            arith,
            c,
            d,
            eq,
            labelled-jumps i ts (body ++ rest),
            jumps-append body rest,
            contains-append t (jumps body) (jumps rest),
          ))
    ]

-- Every target up to the end of the body has its label.
lines_labels :
    (i size t : ℕ) (ts : List ℕ) (ops : List Operation) (lines : List Line)
    → lines_from i size ts ops ≡ ok lines
    → (t ≡ size) ⊎ ((i ≤ t) × (t < i + length ops) × (contains t ts ≡ true))
    → contains t (labels lines) ≡ true
unfolding lines_from
lines_labels i size t ts [] lines e h = unfold labels contains in ground arith
lines_labels i size t ts (op ∷ ops) lines e h =
    let (body, rest, f, g, eq) = lines_cons i size ts op ops lines e in
    let later =
      λ (k : (t ≡ size) ⊎ ((suc i ≤ t) × (t < suc i + length ops) × (contains t ts ≡ true))).
        subst (λ l. contains t (labels l) ≡ true) (sym eq)
          (labelled-labels i t ts (body ++ rest)
            (behind-labels t body rest (lines_labels (suc i) size t ts ops rest g k))) in
    elim h [
      | inl s ↦ later (inl s)
      | inr (lo, hi, c) ↦ elim (Bool-cases (t == i)) [
        | inl d ↦
            subst (λ l. contains t (labels l) ≡ true) (sym eq)
              (subst (λ n. contains n (labels (labelled i ts (body ++ rest))) ≡ true)
                (sym ((==_iff t i).0 d))
                (labelled-own i ts (body ++ rest)
                  (subst (λ n. contains n ts ≡ true) ((==_iff t i).0 d) c)))
        | inr d ↦ later (inr (ground (arith, d, lo), omega (arith, hi), c))
      ]
    ]

-- In the lines of a body every label that is jumped to is there, if no jump of its control operations
-- goes further than the end of the body.
pub generate_instructions-labels :
    (ops : List Operation) (ts : List ℕ) (lines : List Line) (t : ℕ)
    → jump_targets ops ≡ ok ts
    → AllAtMost (length ops) ts
    → generate_instructions ts ops ≡ ok lines
    → contains t (jumps lines) ≡ true
    → contains t (labels lines) ≡ true
unfolding generate_instructions
generate_instructions-labels ops ts lines t e h g c =
    lines_labels 0 (length ops) t ts ops lines g
      (elim (lines_jumps 0 (length ops) t ts ops lines (jump_targets-Collects ops ts e) g c) [
        | inl s ↦ inl s
        | inr k ↦ elim (Bool-cases (t == length ops)) [
          | inl d ↦ inl ((==_iff t (length ops)).0 d)
          | inr d ↦
              inr (omega arith, ground (arith, d, AllAtMost-contains (length ops) t ts h k), k)
        ]
      ])
