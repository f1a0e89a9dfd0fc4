-- ===== src/Program/Below.antt =====
-- A run of a program with more values at the bottom of its stack.
use stacky.Common.{
  ℕ, zero, suc, ◌/◌, ◌%◌, ◌≤◌, ◌≡◌, refl, sym, ap, ◌∙◌, subst, inl, inr, Bool, true, false, none,
  some, List, [], ◌∷◌, ◌++◌, arith, length, drop, length-append, leb, ◌==◌, if◌then◌else◌,
  Bool-cases,
}
use stacky.Syntax.{IntrinsicKind, Text}
use stacky.Machine.{pure}
use stacky.Program.{
  Process, Status, running, finished, divided, stuck, Result, next, divides, fails, result_of,
  intrinsic_step, divides_by_zero, syscall_values,
}

-- The process with the values `below` under its own.
abbrev pub on_top_of : List ℕ → Process → Process
on_top_of below q = record q { stack = q.stack ++ below }

when_zero :
    (c : Bool) (t : List ℕ) (k : IntrinsicKind) (s : List ℕ)
    → divides_by_zero k s ≡ c
    → result_of k s (if c then none else some t) ≡ (if c then divides else next t)
when_zero true t k s e = ap (λ b. if b then divides else fails) e
when_zero false t k s e = refl

drop-append_both :
    (n : ℕ) (s below : List ℕ) → n ≤ length s → drop n (s ++ below) ≡ drop n s ++ below
drop-append_both zero s below h = refl
drop-append_both (suc n) [] below h = absurd (omega (arith, h))
drop-append_both (suc n) (a ∷ s) below h = drop-append_both n s below (omega (arith, h))

module _ (below : List ℕ) where
  -- The same result with `below` underneath; nothing is said where there are too few values.
  abbrev pub SameResult : Result → Result → Type 0
  SameResult (next s) r = r ≡ next (s ++ below)
  SameResult divides r = r ≡ divides
  SameResult fails r = Unit {0}

  abbrev pub SameStatus : Status → Status → Type 0
  SameStatus (running q) r = r ≡ running (on_top_of below q)
  SameStatus (finished s) r = r ≡ finished (s ++ below)
  SameStatus divided r = r ≡ divided
  SameStatus stuck r = Unit {0}

  abbrev Same : (List ℕ → Result) → List ℕ → Type 0
  Same f s = SameResult (f s) (f (s ++ below))

  -- A result for which the first values matter.
  one_value :
      (f : List ℕ → Result)
      → Same f []
      → ((a : ℕ) (s : List ℕ) → Same f (a ∷ s))
      → (s : List ℕ) → Same f s
  one_value f e h [] = e
  one_value f e h (a ∷ s) = h a s

  two_values :
      (f : List ℕ → Result)
      → Same f []
      → ((a : ℕ) → Same f (a ∷ []))
      → ((b a : ℕ) (s : List ℕ) → Same f (b ∷ a ∷ s))
      → (s : List ℕ) → Same f s
  two_values f e g h [] = e
  two_values f e g h (a ∷ []) = g a
  two_values f e g h (b ∷ a ∷ s) = h b a s

  abbrev intrinsic_result : ℕ → IntrinsicKind → Text → List ℕ → Result
  intrinsic_result v k name s = result_of k s (intrinsic_step v k name s)

  divides-Same :
      (k : IntrinsicKind) (v : ℕ) (name : Text) (b a : ℕ) (s : List ℕ)
      (k' : ℕ → ℕ → List ℕ → List ℕ)
      → ((r : List ℕ) → k' a b (r ++ below) ≡ k' a b r ++ below)
      → ((r : List ℕ)
          → intrinsic_result v k name (b ∷ a ∷ r) ≡ (if b == 0 then divides else next (k' a b r)))
      → Same (intrinsic_result v k name) (b ∷ a ∷ s)
  divides-Same k v name b a s k' framed is = elim (Bool-cases (b == 0)) [
    | inl e ↦
        let at_zero : (r : List ℕ) → intrinsic_result v k name (b ∷ a ∷ r) ≡ divides =
          λ r. is r ∙ ap (λ t. if t then divides else next (k' a b r)) e in
        subst (λ x. SameResult x (intrinsic_result v k name (b ∷ a ∷ s ++ below))) (sym (at_zero s))
          (at_zero (s ++ below))
    | inr e ↦
        let other : (r : List ℕ) → intrinsic_result v k name (b ∷ a ∷ r) ≡ next (k' a b r) =
          λ r. is r ∙ ap (λ t. if t then divides else next (k' a b r)) e in
        subst (λ x. SameResult x (intrinsic_result v k name (b ∷ a ∷ s ++ below))) (sym (other s))
          (other (s ++ below) ∙ ap next (framed s))
  ]

  syscall-Same :
      (v : ℕ) (name : Text) (s : List ℕ)
      → leb (syscall_values name) (length s) ≡ true
      → Same (intrinsic_result v IntrinsicKind.syscall name) s
  unfolding intrinsic_step
  syscall-Same v name s e =
      let n = syscall_values name in
      let small : n ≤ length s = ground (arith, e) in
      let wide : leb n (length (s ++ below)) ≡ true =
        ground (arith, small, length-append s below) in
      let result : Bool → List ℕ → List ℕ → Result =
        λ b r t. result_of IntrinsicKind.syscall r (if b then some (v ∷ t) else none) in
      subst
        (λ b.
          SameResult (result b s (drop n s))
            (intrinsic_result v IntrinsicKind.syscall name (s ++ below)))
        (sym e)
        (ap (λ b. result b (s ++ below) (drop n (s ++ below))) wide
          ∙ ap (λ t. next (v ∷ t)) (drop-append_both n s below small))

  pub intrinsic-Same :
      (v : ℕ) (k : IntrinsicKind) (name : Text) (s : List ℕ) → Same (intrinsic_result v k name) s
  unfolding intrinsic_step pure divides_by_zero
  intrinsic-Same v IntrinsicKind.add name s =
      two_values (intrinsic_result v IntrinsicKind.add name) tt (λ a. tt) (λ b a r. refl) s
  intrinsic-Same v IntrinsicKind.subtract name s =
      two_values (intrinsic_result v IntrinsicKind.subtract name) tt (λ a. tt) (λ b a r. refl) s
  intrinsic-Same v IntrinsicKind.mul name s =
      two_values (intrinsic_result v IntrinsicKind.mul name) tt (λ a. tt) (λ b a r. refl) s
  intrinsic-Same v IntrinsicKind.bitwise_and name s =
      two_values (intrinsic_result v IntrinsicKind.bitwise_and name) tt (λ a. tt) (λ b a r. refl) s
  intrinsic-Same v IntrinsicKind.bitwise_or name s =
      two_values (intrinsic_result v IntrinsicKind.bitwise_or name) tt (λ a. tt) (λ b a r. refl) s
  intrinsic-Same v IntrinsicKind.bitwise_xor name s =
      two_values (intrinsic_result v IntrinsicKind.bitwise_xor name) tt (λ a. tt) (λ b a r. refl) s
  intrinsic-Same v IntrinsicKind.left_shift name s =
      two_values (intrinsic_result v IntrinsicKind.left_shift name) tt (λ a. tt) (λ b a r. refl) s
  intrinsic-Same v IntrinsicKind.right_shift name s =
      two_values (intrinsic_result v IntrinsicKind.right_shift name) tt (λ a. tt) (λ b a r. refl) s
  intrinsic-Same v IntrinsicKind.min name s =
      two_values (intrinsic_result v IntrinsicKind.min name) tt (λ a. tt) (λ b a r. refl) s
  intrinsic-Same v IntrinsicKind.max name s =
      two_values (intrinsic_result v IntrinsicKind.max name) tt (λ a. tt) (λ b a r. refl) s
  intrinsic-Same v IntrinsicKind.boolean_or name s =
      two_values (intrinsic_result v IntrinsicKind.boolean_or name) tt (λ a. tt) (λ b a r. refl) s
  intrinsic-Same v IntrinsicKind.boolean_and name s =
      two_values (intrinsic_result v IntrinsicKind.boolean_and name) tt (λ a. tt) (λ b a r. refl) s
  intrinsic-Same v IntrinsicKind.equal name s =
      two_values (intrinsic_result v IntrinsicKind.equal name) tt (λ a. tt) (λ b a r. refl) s
  intrinsic-Same v IntrinsicKind.not_equal name s =
      two_values (intrinsic_result v IntrinsicKind.not_equal name) tt (λ a. tt) (λ b a r. refl) s
  intrinsic-Same v IntrinsicKind.less name s =
      two_values (intrinsic_result v IntrinsicKind.less name) tt (λ a. tt) (λ b a r. refl) s
  intrinsic-Same v IntrinsicKind.less_eq name s =
      two_values (intrinsic_result v IntrinsicKind.less_eq name) tt (λ a. tt) (λ b a r. refl) s
  intrinsic-Same v IntrinsicKind.greater name s =
      two_values (intrinsic_result v IntrinsicKind.greater name) tt (λ a. tt) (λ b a r. refl) s
  intrinsic-Same v IntrinsicKind.greater_eq name s =
      two_values (intrinsic_result v IntrinsicKind.greater_eq name) tt (λ a. tt) (λ b a r. refl) s
  intrinsic-Same v IntrinsicKind.two_drop name s =
      two_values (intrinsic_result v IntrinsicKind.two_drop name) tt (λ a. tt) (λ b a r. refl) s
  intrinsic-Same v IntrinsicKind.two_dup name s =
      two_values (intrinsic_result v IntrinsicKind.two_dup name) tt (λ a. tt) (λ b a r. refl) s
  intrinsic-Same v IntrinsicKind.over name s =
      two_values (intrinsic_result v IntrinsicKind.over name) tt (λ a. tt) (λ b a r. refl) s
  intrinsic-Same v IntrinsicKind.tuck name s =
      two_values (intrinsic_result v IntrinsicKind.tuck name) tt (λ a. tt) (λ b a r. refl) s
  intrinsic-Same v IntrinsicKind.swap name s =
      two_values (intrinsic_result v IntrinsicKind.swap name) tt (λ a. tt) (λ b a r. refl) s
  intrinsic-Same v IntrinsicKind.store name s =
      two_values (intrinsic_result v IntrinsicKind.store name) tt (λ a. tt) (λ b a r. refl) s
  intrinsic-Same v IntrinsicKind.boolean_negate name s =
      one_value (intrinsic_result v IntrinsicKind.boolean_negate name) tt (λ a r. refl) s
  intrinsic-Same v IntrinsicKind.drop name s =
      one_value (intrinsic_result v IntrinsicKind.drop name) tt (λ a r. refl) s
  intrinsic-Same v IntrinsicKind.dup name s =
      one_value (intrinsic_result v IntrinsicKind.dup name) tt (λ a r. refl) s
  intrinsic-Same v IntrinsicKind.load name s =
      one_value (intrinsic_result v IntrinsicKind.load name) tt (λ a r. refl) s
  intrinsic-Same v IntrinsicKind.top name s =
      one_value (intrinsic_result v IntrinsicKind.top name) tt (λ a r. refl) s
  intrinsic-Same v IntrinsicKind.argc name s = refl
  intrinsic-Same v IntrinsicKind.argv name s = refl
  intrinsic-Same v IntrinsicKind.random32 name s = refl
  intrinsic-Same v IntrinsicKind.random64 name s = refl
  intrinsic-Same v IntrinsicKind.call name s = tt
  intrinsic-Same v IntrinsicKind.div name s =
      two_values (intrinsic_result v IntrinsicKind.div name) tt (λ a. tt)
        (λ b a s'.
          divides-Same IntrinsicKind.div v name b a s' (λ a b r. a / b ∷ r) (λ r. refl)
            (λ r. when_zero (b == 0) (a / b ∷ r) IntrinsicKind.div (b ∷ a ∷ r) refl))
        s
  intrinsic-Same v IntrinsicKind.mod_ name s =
      two_values (intrinsic_result v IntrinsicKind.mod_ name) tt (λ a. tt)
        (λ b a s'.
          divides-Same IntrinsicKind.mod_ v name b a s' (λ a b r. a % b ∷ r) (λ r. refl)
            (λ r. when_zero (b == 0) (a % b ∷ r) IntrinsicKind.mod_ (b ∷ a ∷ r) refl))
        s
  intrinsic-Same v IntrinsicKind.div_mod name s =
      two_values (intrinsic_result v IntrinsicKind.div_mod name) tt (λ a. tt)
        (λ b a s'.
          divides-Same IntrinsicKind.div_mod v name b a s' (λ a b r. a / b ∷ a % b ∷ r) (λ r. refl)
            (λ r. when_zero (b == 0) (a / b ∷ a % b ∷ r) IntrinsicKind.div_mod (b ∷ a ∷ r) refl))
        s
  intrinsic-Same v IntrinsicKind.rot name [] = tt
  intrinsic-Same v IntrinsicKind.rot name (a ∷ []) = tt
  intrinsic-Same v IntrinsicKind.rot name (a ∷ b ∷ []) = tt
  intrinsic-Same v IntrinsicKind.rot name (a ∷ b ∷ c ∷ s) = refl
  intrinsic-Same v IntrinsicKind.two_over name [] = tt
  intrinsic-Same v IntrinsicKind.two_over name (a ∷ []) = tt
  intrinsic-Same v IntrinsicKind.two_over name (a ∷ b ∷ []) = tt
  intrinsic-Same v IntrinsicKind.two_over name (a ∷ b ∷ c ∷ []) = tt
  intrinsic-Same v IntrinsicKind.two_over name (a ∷ b ∷ c ∷ d ∷ s) = refl
  intrinsic-Same v IntrinsicKind.two_swap name [] = tt
  intrinsic-Same v IntrinsicKind.two_swap name (a ∷ []) = tt
  intrinsic-Same v IntrinsicKind.two_swap name (a ∷ b ∷ []) = tt
  intrinsic-Same v IntrinsicKind.two_swap name (a ∷ b ∷ c ∷ []) = tt
  intrinsic-Same v IntrinsicKind.two_swap name (a ∷ b ∷ c ∷ d ∷ s) = refl
  intrinsic-Same v IntrinsicKind.syscall name s =
      elim (Bool-cases (leb (syscall_values name) (length s))) [
        | inl e ↦ syscall-Same v name s e
        | inr e ↦
            subst
              (λ b.
                SameResult
                  (result_of IntrinsicKind.syscall s
                    (if b then some (v ∷ drop (syscall_values name) s) else none))
                  (intrinsic_result v IntrinsicKind.syscall name (s ++ below)))
              (sym e) tt
      ]
