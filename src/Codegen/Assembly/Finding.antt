-- ===== src/Codegen/Assembly/Finding.antt =====
-- Where the labels of a body are found.
use mathlib.Core.List.{append_assoc}
use stacky.Common.{
  ℕ, zero, suc, ◌+◌, ◌-◌, ◌<◌, ◌≤◌, ◌≡◌, refl, sym, ap, ◌∙◌, subst, ◌⊎◌, inl, inr, Bool, true,
  false, Option, none, some, List, [], ◌∷◌, ◌++◌, map, arith, length, drop, Bool-cases, ◌==◌,
}
use stacky.Syntax.{Operation, OperationKind}
use stacky.Report.{ok, Outcome-cases}
use stacky.Codegen.{Instruction}
use stacky.Codegen.Functions.{Line, label, contains, operation_lines, lines_from}
use stacky.Codegen.Assembly.{Entry, line}
use stacky.Codegen.Assembly.Placed.{IsSuffix, After}
use stacky.Common.{==_iff}
use stacky.Codegen.{emit_intrinsic}
use stacky.Codegen.Functions.{plain}
use stacky.Codegen.Assembly.Machine.{find_line, is_label, same_prefix}
use stacky.Codegen.Assembly.Steps.{labelled, spread, label_if}

module _ (q : Option ℕ) (n : ℕ) where
  pub find_line-skip :
      (e : Entry) (code : List Entry)
      → is_label q n e ≡ false
      → find_line q n (e ∷ code) ≡ find_line q n code
  unfolding find_line
  find_line-skip e code h = rw (find_line, h) refl

  pub find_line-here :
      (e : Entry) (code : List Entry) → is_label q n e ≡ true → find_line q n (e ∷ code) ≡ some code
  unfolding find_line
  find_line-here e code h = rw (find_line, h) refl

  -- None of the entries is the label.
  abbrev pub Unlabelled : List Entry → Type 0
  Unlabelled [] = Unit {0}
  Unlabelled (e ∷ code) = (is_label q n e ≡ false) × Unlabelled code

  pub Unlabelled-append :
      (xs ys : List Entry) → Unlabelled xs → Unlabelled ys → Unlabelled (xs ++ ys)
  Unlabelled-append [] ys h k = k
  Unlabelled-append (x ∷ xs) ys h k = (h.0, Unlabelled-append xs ys h.1 k)

  pub find_line-behind :
      (front code : List Entry)
      → Unlabelled front
      → find_line q n (front ++ code) ≡ find_line q n code
  find_line-behind [] code h = refl
  find_line-behind (e ∷ front) code h =
      find_line-skip e (front ++ code) h.0 ∙ find_line-behind front code h.1

  plain-Unlabelled : (code : List Instruction) → Unlabelled (map (line q) (map plain code))
  plain-Unlabelled [] = tt
  plain-Unlabelled (i ∷ code) = (refl, plain-Unlabelled code)

  -- The lines of an operation have no label.
  pub operation_lines-Unlabelled :
      (i size : ℕ) (k : OperationKind) (op : Operation) (body : List Line)
      → operation_lines i size k op ≡ ok body
      → Unlabelled (map (line q) body)
  unfolding operation_lines
  operation_lines-Unlabelled i size OperationKind.intrinsic op body e =
      elim (Outcome-cases (emit_intrinsic op)) [
        | inl (c, f) ↦ absurd (ground (arith, rw (operation_lines, f) at e))
        | inr (code, f) ↦
            let same : body ≡ map plain code = ground (arith, rw (operation_lines, f) at e) in
            subst (λ b. Unlabelled (map (line q) b)) (sym same) (plain-Unlabelled code)
      ]
  operation_lines-Unlabelled i size _ op body e = ground (arith, e)

  same_prefix_self : (r : Option ℕ) → same_prefix r r ≡ true
  same_prefix_self none = refl
  same_prefix_self (some m) = ground arith

  drop-nil : (k : ℕ) → drop {A = Operation} k [] ≡ []
  drop-nil zero = refl
  drop-nil (suc k) = refl

  label_if-Unlabelled :
      (b : Bool) (i : ℕ) → (n == i) ≡ false → Unlabelled (map (line q) (label_if b i))
  label_if-Unlabelled true i h = (rw (h, same_prefix_self q) refl, tt)
  label_if-Unlabelled false i h = tt

  its_label : (j : ℕ) → n ≡ j → is_label q n (line q (label j)) ≡ true
  its_label j e =
      let same : (n == j) ≡ true = (==_iff n j).1 e in rw (same, same_prefix_self q) refl

  -- The label is found, at the operation with its number or at the end of the body.
  module _ (size : ℕ) (targets : List ℕ) (tail : List Entry) where
    abbrev Found : ℕ → List Operation → List Entry → Type 0
    Found i ops text =
        (code : List Entry) × (find_line q n text ≡ some code)
        × After q size targets tail n (drop (n - i) ops) code
        × IsSuffix code text

    Found-behind :
        (i : ℕ) (ops : List Operation) (front code : List Entry)
        → Unlabelled front
        → Found i ops code
        → Found i ops (front ++ code)
    Found-behind i ops front code h (found, e, after, (pre, f)) = (
      found,
      find_line-behind front code h ∙ e,
      after,
      (front ++ pre, ap (λ c. front ++ c) f ∙ sym (append_assoc front pre found)),
    )

    Found-later :
        (i : ℕ) (op : Operation) (ops : List Operation) (code : List Entry)
        → suc i ≤ n
        → Found (suc i) ops code
        → Found i (op ∷ ops) code
    Found-later i op ops code l (found, e, after, suffix) =
        let same : n - i ≡ suc (n - suc i) = omega (arith, l) in
        (
          found,
          e,
          subst (λ k. After q size targets tail n (drop k (op ∷ ops)) found) (sym same) after,
          suffix,
        )

    pub lines_from-Found :
        (i : ℕ) (ops : List Operation) (lines : List Line)
        → lines_from i size targets ops ≡ ok lines
        → size ≡ i + length ops
        → i ≤ n
        → (n ≡ size) ⊎ ((n < size) × (contains n targets ≡ true))
        → Found i ops (map (line q) lines ++ tail)
    unfolding lines_from
    lines_from-Found i [] lines e s l h =
        let same : lines ≡ label size ∷ [] = ground (arith, e) in
        let at_end : n ≡ size = omega (arith, s, l, h) in
        subst (λ ls. Found i [] (map (line q) ls ++ tail)) (sym same)
          (
            tail,
            find_line-here (line q (label size)) tail (its_label size at_end),
            subst (λ ops. After q size targets tail n ops tail) (sym (drop-nil (n - i))) refl,
            (line q (label size) ∷ [], refl),
          )
    lines_from-Found i (op ∷ ops) lines e s l h =
        let (body, rest, g, k, f) = labelled q size targets tail i op ops lines e in
        let b = contains i targets in
        let behind = map (line q) rest ++ tail in
        let code_is : map (line q) lines ++ tail
            ≡ map (line q) (label_if b i) ++ (map (line q) body ++ behind) =
          ap (λ ls. map (line q) ls ++ tail) f
          ∙ spread q (label_if b i) (body ++ rest) tail
          ∙ ap (λ c. map (line q) (label_if b i) ++ c) (spread q body rest tail) in
        subst (Found i (op ∷ ops)) (sym code_is) (elim (Bool-cases (n == i)) [
          | inl d ↦
              let at_first : n ≡ i = (==_iff n i).0 d in
              let code = map (line q) body ++ behind in
              let is_target : b ≡ true = elim h [
                | inl z ↦ absurd (omega (arith, s, z, at_first))
                | inr (z, c) ↦ subst (λ j. contains j targets ≡ true) at_first c
              ] in
              let none_before : 0 ≡ n - i = omega (arith, at_first) in
              subst (λ c. Found i (op ∷ ops) (map (line q) (label_if c i) ++ code)) (sym is_target)
                (
                  code,
                  find_line-here (line q (label i)) code (its_label i at_first),
                  subst (λ k. After q size targets tail n (drop k (op ∷ ops)) code) none_before
                      (subst (λ j. After q size targets tail j (op ∷ ops) code) (sym at_first)
                        (body, rest, g, k, refl)),
                  (line q (label i) ∷ [], refl),
                )
          | inr d ↦
              let not_first : ¬ (n ≡ i) = λ z. absurd (ground (arith, d, z)) in
              let l' : suc i ≤ n = omega (arith, l, not_first) in
              Found-behind i (op ∷ ops) (map (line q) (label_if b i)) (map (line q) body ++ behind)
                (label_if-Unlabelled b i d)
                (Found-behind i (op ∷ ops) (map (line q) body) behind
                  (operation_lines-Unlabelled i size op.kind op body g)
                  (Found-later i op ops behind l'
                    (lines_from-Found (suc i) ops rest k (omega (arith, s)) l' h)))
        ])
