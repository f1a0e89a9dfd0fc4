-- ===== src/Codegen/Assembly/Bodies.antt =====
-- A body that is written somewhere in the text stands there, with its labels.
use mathlib.Core.List.{append_assoc}
use stacky.Common.{
  ℕ, zero, suc, ◌-◌, ◌<◌, ◌≡◌, refl, sym, ap, ◌∙◌, subst, ◌⊎◌, inl, inr, true, Option, some, List,
  [], ◌∷◌, ◌++◌, map, arith, length, drop, get_elem?, ◌==◌, Bool-cases, ==_iff,
}
use stacky.Syntax.{Operation, OperationKind}
use stacky.Report.{ok}
use stacky.Codegen.Functions.{Line, contains, jump_targets, generate_instructions}
use stacky.Codegen.Functions.Labels.{
  AllAtMost, AllAtMost-contains, Collects, is_target, jump_targets-Collects,
}
use stacky.Codegen.Assembly.{Entry, line}
use stacky.Codegen.Assembly.Machine.{find_line}
use stacky.Codegen.Assembly.Placed.{After, Placed, Lands, Jumps}
use stacky.Codegen.Assembly.Finding.{Unlabelled, find_line-behind, lines_from-Found}

Jumps-is_target : (k : OperationKind) → Jumps k → is_target k ≡ true
Jumps-is_target OperationKind.end h = refl
Jumps-is_target OperationKind.if_ h = refl
Jumps-is_target OperationKind.else_ h = refl
Jumps-is_target OperationKind.do_ h = refl
Jumps-is_target OperationKind.intrinsic h = absurd h
Jumps-is_target OperationKind.cast h = absurd h
Jumps-is_target OperationKind.call_symbol h = absurd h
Jumps-is_target OperationKind.push_symbol h = absurd h
Jumps-is_target OperationKind.push_int h = absurd h
Jumps-is_target OperationKind.return h = absurd h
Jumps-is_target OperationKind.while h = absurd h

pub Collects-contains :
    (ops : List Operation) (ts : List ℕ) (i : ℕ) (op : Operation)
    → Collects ops ts
    → get_elem? ops i ≡ some op
    → Jumps op.kind
    → contains op.jump ts ≡ true
Collects-contains [] ts i op h g j = absurd (ground (arith, g))
Collects-contains (o ∷ ops) ts zero op h g j =
    let same : op ≡ o = ground (arith, g) in
    subst (λ x. contains x.jump ts ≡ true) (sym same)
      (h.0 (subst (λ x. is_target x.kind ≡ true) same (Jumps-is_target op.kind j)))
Collects-contains (o ∷ ops) ts (suc i) op h g j = Collects-contains ops ts i op h.1 g j

module _ (q : Option ℕ) (text pre tail : List Entry) (body : List Operation) (targets : List ℕ)
    (lines : List Line) (collected : jump_targets body ≡ ok targets)
    (inside : AllAtMost (length body) targets)
    (generated : generate_instructions targets body ≡ ok lines)
    (text_is : text ≡ pre ++ (map (line q) lines ++ tail))
    (unlabelled : (n : ℕ) → Unlabelled q n pre) where
  pub written-Lands :
      (n : ℕ)
      → (n ≡ length body) ⊎ ((n < length body) × (contains n targets ≡ true))
      → Lands q body targets tail text n
  unfolding generate_instructions
  written-Lands n h =
      let whole : n - 0 ≡ n = omega arith in
      let (code, e, after, (front, f)) =
        lines_from-Found q n (length body) targets tail 0 body lines generated (omega arith)
          (omega arith) h in
      (
        code,
        ap (find_line q n) text_is
            ∙ find_line-behind q n pre (map (line q) lines ++ tail) (unlabelled n)
            ∙ e,
        subst (λ k. After q (length body) targets tail n (drop k body) code) whole after,
        (pre ++ front, text_is ∙ ap (λ c. pre ++ c) f ∙ sym (append_assoc pre front code)),
      )

  pub target-Lands : (n : ℕ) → contains n targets ≡ true → Lands q body targets tail text n
  target-Lands n h =
      let at_most = AllAtMost-contains (length body) n targets inside h in
      elim (Bool-cases (n == length body)) [
        | inl e ↦ written-Lands n (inl ((==_iff n (length body)).0 e))
        | inr e ↦ written-Lands n (inr (ground (arith, at_most, e), h))
      ]

  abbrev pub written-Placed : Placed text body
  written-Placed = record {
    prefix = q;
    targets = targets;
    tail = tail;
    lands = λ i op g j.
        target-Lands op.jump
          (Collects-contains body targets i op (jump_targets-Collects body targets collected) g j);
    lands_end = written-Lands (length body) (inl refl);
  }
