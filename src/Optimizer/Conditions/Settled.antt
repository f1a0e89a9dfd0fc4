-- ===== src/Optimizer/Conditions/Settled.antt =====
-- src/optimizer.cc: what `optimize_comptime_known_conditions` reports, and when it does nothing.
use stacky.Common.{
  ℕ, zero, suc, ◌+◌, ◌<◌, ◌≤◌, ◌≡◌, ◌≢◌, refl, sym, subst, inl, inr, true, false, Option, none,
  some, List, [], ◌∷◌, ltb, length, get_elem?, ◌==◌, ==_iff, arith, Bool-cases, Option-cases, ◌-◌,
  ◌∙◌, ap,
}
use stacky.Syntax.{Operation, OperationKind}
use stacky.Report.{Outcome, ok, exited}
use stacky.Optimizer.Conditions.{
  is_constant, rewrite_branch, rewrite_at, Passed, Body, passed, goes_on, conditions_loop,
  optimize_comptime_known_conditions,
}

abbrev pub IsBranch : OperationKind → Type 0
IsBranch OperationKind.do_ = Unit {0}
IsBranch OperationKind.if_ = Unit {0}
IsBranch _ = ⊥

-- No `do` and no `if` stands directly behind the push of a constant.
abbrev pub NoKnown : List Operation → Type 0
NoKnown ops =
    (i : ℕ) (condition branch : Operation)
    → get_elem? ops i ≡ some condition
    → get_elem? ops (suc i) ≡ some branch
    → condition.kind ≡ OperationKind.push_int
    → IsBranch branch.kind
    → ⊥

is_constant-push_int : (k : OperationKind) → is_constant k ≡ true → k ≡ OperationKind.push_int
is_constant-push_int OperationKind.push_int e = refl
is_constant-push_int OperationKind.intrinsic e = absurd (ground (arith, e))
is_constant-push_int _ e = absurd (ground (arith, e))

-- The pass has something to do at exactly such a place.
rewrite_branch-none :
    (k : OperationKind) (i : ℕ) (condition branch : Operation) (ops : List Operation)
    → (condition.kind ≡ OperationKind.push_int → IsBranch k → ⊥)
    → rewrite_branch i condition k branch ops ≡ none
rewrite_branch-none OperationKind.do_ i condition branch ops h =
    elim (Bool-cases (is_constant condition.kind)) [
      | inl b ↦ absurd (h (is_constant-push_int condition.kind b) tt)
      | inr b ↦ rw b refl
    ]
rewrite_branch-none OperationKind.if_ i condition branch ops h =
    elim (Bool-cases (is_constant condition.kind)) [
      | inl b ↦ absurd (h (is_constant-push_int condition.kind b) tt)
      | inr b ↦ rw b refl
    ]
rewrite_branch-none _ i condition branch ops h = refl

rewrite_branch-known :
    (k : OperationKind) (i : ℕ) (condition branch : Operation) (ops : List Operation)
    → condition.kind ≡ OperationKind.push_int
    → IsBranch k
    → rewrite_branch i condition k branch ops ≢ none
rewrite_branch-known OperationKind.do_ i condition branch ops c b e =
    absurd (ground (arith, rw c at e))
rewrite_branch-known OperationKind.if_ i condition branch ops c b e =
    absurd (ground (arith, rw c at e))
rewrite_branch-known _ i condition branch ops c b e = b

rewrite_at-branch :
    (i : ℕ) (condition branch : Operation) (ops : List Operation)
    → get_elem? ops i ≡ some condition
    → get_elem? ops (suc i) ≡ some branch
    → rewrite_at (suc i) ops ≡ rewrite_branch (suc i) condition branch.kind branch ops
unfolding rewrite_at
rewrite_at-branch i condition branch ops c b =
    let before : suc i - 1 ≡ i = omega arith in
    let c' : get_elem? ops (suc i - 1) ≡ some condition = ap (get_elem? ops) before ∙ c in
    rw (rewrite_at, c', b) refl

get_elem?-outside : (ops : List Operation) (i : ℕ) → length ops ≤ i → get_elem? ops i ≡ none
get_elem?-outside [] zero h = refl
get_elem?-outside [] (suc i) h = refl
get_elem?-outside (op ∷ ops) zero h = absurd (omega (arith, h))
get_elem?-outside (op ∷ ops) (suc i) h = get_elem?-outside ops i (omega (arith, h))

rewrite_at-missing :
    (i : ℕ) (ops : List Operation) → get_elem? ops i ≡ none → rewrite_at i ops ≡ none
unfolding rewrite_at
rewrite_at-missing i ops none_here = ground (arith, none_here)

rewrite_at-missing_before :
    (i : ℕ) (ops : List Operation) → get_elem? ops i ≡ none → rewrite_at (suc i) ops ≡ none
unfolding rewrite_at
rewrite_at-missing_before i ops e =
    let before : suc i - 1 ≡ i = omega arith in
    let none_before : get_elem? ops (suc i - 1) ≡ none = ap (get_elem? ops) before ∙ e in
    rw (rewrite_at, none_before) refl

rewrite_at-outside : (ops : List Operation) (i : ℕ) → length ops ≤ i → rewrite_at i ops ≡ none
unfolding rewrite_at
rewrite_at-outside ops i h = let none_here = get_elem?-outside ops i h in ground (arith, none_here)

NoKnown-rewrite_at : (ops : List Operation) (i : ℕ) → NoKnown ops → rewrite_at (suc i) ops ≡ none
NoKnown-rewrite_at ops i h = elim (Option-cases (get_elem? ops i)) [
  | inl e ↦ rewrite_at-missing_before i ops e
  | inr (condition, c) ↦ elim (Option-cases (get_elem? ops (suc i))) [
    | inl e ↦ rewrite_at-missing (suc i) ops e
    | inr (branch, b) ↦
        rewrite_at-branch i condition branch ops c b
        ∙ rewrite_branch-none branch.kind (suc i) condition branch ops (h i condition branch c b)
  ]
]

-- A pass that has done something says so.
IsDone : Passed Body → Type 0
IsDone (passed (true, ops)) = Unit {0}
IsDone (passed (false, ops)) = ⊥
IsDone _ = Unit {0}

goes_on-IsDone :
    (on : List Operation → Passed Body) (r : Option (Outcome (List Operation)))
    → ((ops : List Operation) → IsDone (on ops))
    → IsDone (goes_on on r)
unfolding IsDone
goes_on-IsDone on none h = tt
goes_on-IsDone on (some (exited c)) h = tt
goes_on-IsDone on (some (ok ops)) h = h ops

loop-IsDone : (fuel i : ℕ) (ops : List Operation) → IsDone (conditions_loop fuel true i ops)
unfolding conditions_loop IsDone
loop-IsDone zero i ops = tt
loop-IsDone (suc fuel) i ops = elim (Bool-cases (ltb i (length ops))) [
  | inr f ↦ rw (conditions_loop, f) tt
  | inl f ↦ elim (Option-cases (rewrite_at i ops)) [
    | inl g ↦ rw (conditions_loop, f, g) (loop-IsDone fuel (suc i) ops)
    | inr (r, g) ↦
        rw (conditions_loop, f, g)
          (goes_on-IsDone (conditions_loop fuel true i) r (loop-IsDone fuel i))
  ]
]

loop-settled :
    (fuel i : ℕ) (ops : List Operation)
    → NoKnown ops
    → suc i ≤ suc (length ops)
    → suc (length ops) < fuel + suc i
    → conditions_loop fuel false (suc i) ops ≡ passed (false, ops)
unfolding conditions_loop
loop-settled zero i ops h l m = absurd (omega (arith, l, m))
loop-settled (suc fuel) i ops h l m = elim (Bool-cases (ltb (suc i) (length ops))) [
  | inr f ↦ rw (conditions_loop, f) refl
  | inl f ↦
      let none_here = NoKnown-rewrite_at ops i h in
      rw (conditions_loop, f, none_here)
        (loop-settled fuel (suc i) ops h (ground (arith, f)) (omega (arith, m)))
]

loop-unchanged :
    (fuel i : ℕ) (ops ops' : List Operation)
    → conditions_loop fuel false i ops ≡ passed (false, ops')
    → (ops' ≡ ops) × ((j : ℕ) → i ≤ j → rewrite_at j ops ≡ none)
unfolding conditions_loop IsDone
loop-unchanged zero i ops ops' e = absurd (ground (arith, e))
loop-unchanged (suc fuel) i ops ops' e = elim (Bool-cases (ltb i (length ops))) [
  | inr f ↦ (
    ground (arith, rw (conditions_loop, f) at e),
    (λ j h. rewrite_at-outside ops j (ground (arith, f, h))),
  )
  | inl f ↦ elim (Option-cases (rewrite_at i ops)) [
    | inl g ↦
        let (same, later) =
          loop-unchanged fuel (suc i) ops ops' (rw (conditions_loop, f, g) at e) in
        (
          same,
          λ j h. elim (Bool-cases (j == i)) [
            | inl k ↦ subst (λ n. rewrite_at n ops ≡ none) (sym ((==_iff j i).0 k)) g
            | inr k ↦ later j (ground (arith, k, h))
          ],
        )
    | inr (r, g) ↦
        let same : goes_on (conditions_loop fuel true i) r ≡ passed (false, ops') =
          rw (conditions_loop, f, g) at e in
        absurd
          (subst IsDone same (goes_on-IsDone (conditions_loop fuel true i) r (loop-IsDone fuel i)))
  ]
]

-- On a body in which no `do` and no `if` stands directly behind the push of a constant the pass comes
-- to its end, reports nothing and leaves the body as it is.
pub optimize_comptime_known_conditions-settled :
    (ops : List Operation)
    → NoKnown ops
    → optimize_comptime_known_conditions (suc (length ops)) ops ≡ passed (false, ops)
unfolding optimize_comptime_known_conditions
optimize_comptime_known_conditions-settled ops h =
    loop-settled (suc (length ops)) 0 ops h (omega arith) (omega arith)

-- Where the pass reports nothing, no `do` and no `if` of the body stands directly behind the push of a
-- constant, and the body is as it was.
pub optimize_comptime_known_conditions-NoKnown :
    (fuel : ℕ) (ops ops' : List Operation)
    → optimize_comptime_known_conditions fuel ops ≡ passed (false, ops')
    → NoKnown ops × (ops' ≡ ops)
unfolding optimize_comptime_known_conditions
optimize_comptime_known_conditions-NoKnown fuel ops ops' e =
    let (same, none_known) = loop-unchanged fuel 1 ops ops' e in
    (
      (λ i condition branch c b push known.
          rewrite_branch-known branch.kind (suc i) condition branch ops push known (
            sym (rewrite_at-branch i condition branch ops c b) ∙ none_known (suc i) (omega arith))),
      same,
    )
