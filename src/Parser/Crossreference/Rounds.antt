-- ===== src/Parser/Crossreference/Rounds.antt =====
-- src/parser.cc, `crossreference`: single rounds of its loop.
use mathlib.Core.List.{append_assoc}
use stacky.Common.{
  ℕ, zero, suc, ◌+◌, ◌≡◌, refl, sym, ap, ◌∙◌, ◌⊎◌, inl, inr, some, List, [], ◌∷◌, ◌++◌, arith,
  length, get_elem?, length-append,
}
use stacky.Syntax.{Operation, OperationKind}
use stacky.Parser.Crossreference.{
  continues, with_top, round, set_jump, close_while, close_if, close_block, cross_loop,
}
use stacky.Parser.Crossreference.Block.{IsSimpleKind}

-- One round at an index, and the writes of a jump there.
pub get_elem?-at :
    (xs : List Operation) (op : Operation) (ys : List Operation) (i : ℕ)
    → i ≡ length xs
    → get_elem? (xs ++ op ∷ ys) i ≡ some op
get_elem?-at [] op ys zero h = refl
get_elem?-at [] op ys (suc i) h = absurd (omega arith)
get_elem?-at (x ∷ xs) op ys zero h = absurd (omega arith)
get_elem?-at (x ∷ xs) op ys (suc i) h = get_elem?-at xs op ys i (omega arith)

set_jump-at :
    (xs : List Operation) (op : Operation) (ys : List Operation) (i j : ℕ)
    → i ≡ length xs
    → set_jump (xs ++ op ∷ ys) i j ≡ xs ++ record op { jump = j } ∷ ys
unfolding set_jump
set_jump-at [] op ys zero j h = refl
set_jump-at [] op ys (suc i) j h = absurd (omega arith)
set_jump-at (x ∷ xs) op ys zero j h = absurd (omega arith)
set_jump-at (x ∷ xs) op ys (suc i) j h = ap (λ l. x ∷ l) (set_jump-at xs op ys i j (omega arith))

pub cross_loop-round :
    (n i : ℕ) (stack : List ℕ) (ops : List Operation) (op : Operation) (stack' : List ℕ)
    (ops' : List Operation)
    → get_elem? ops i ≡ some op
    → round i stack ops op.kind ≡ continues stack' ops'
    → cross_loop (suc n) i stack ops ≡ cross_loop n (suc i) stack' ops'
unfolding cross_loop
cross_loop-round n i stack ops op stack' ops' h r = rw (h, cross_loop, r)

pub round-simple :
    (i : ℕ) (stack : List ℕ) (ops : List Operation) (k : OperationKind)
    → IsSimpleKind k
    → round i stack ops k ≡ continues stack ops
unfolding round
round-simple i stack ops OperationKind.if_ h = absurd h
round-simple i stack ops OperationKind.else_ h = absurd h
round-simple i stack ops OperationKind.while h = absurd h
round-simple i stack ops OperationKind.do_ h = absurd h
round-simple i stack ops OperationKind.end h = absurd h
round-simple i stack ops _ h = refl

-- `if` and `while` open a block.
module _ (pre : List Operation) (op : Operation) (rest : List Operation) (n k : ℕ) (stack : List ℕ)
    (h : k ≡ length pre) where
  pub cross_loop-if :
      op.kind ≡ OperationKind.if_
      → cross_loop (suc n) k stack (pre ++ op ∷ rest)
        ≡ cross_loop n (suc k) (k ∷ stack) (pre ++ op ∷ rest)
  unfolding round
  cross_loop-if e =
      cross_loop-round n k stack (pre ++ op ∷ rest) op (k ∷ stack) (pre ++ op ∷ rest)
        (get_elem?-at pre op rest k h) (ap (round k stack (pre ++ op ∷ rest)) e)

  pub cross_loop-while :
      op.kind ≡ OperationKind.while
      → cross_loop (suc n) k stack (pre ++ op ∷ rest)
        ≡ cross_loop n (suc k) (k ∷ stack) (pre ++ op ∷ rest)
  unfolding round
  cross_loop-while e =
      cross_loop-round n k stack (pre ++ op ∷ rest) op (k ∷ stack) (pre ++ op ∷ rest)
        (get_elem?-at pre op rest k h) (ap (round k stack (pre ++ op ∷ rest)) e)

-- Each closing keyword looks at the operation on top of the stack.
module _ (i t : ℕ) (stack : List ℕ) (ops : List Operation) (opened : Operation)
    (h : get_elem? ops t ≡ some opened) where
  round-do : round i (t ∷ stack) ops OperationKind.do_ ≡ close_while i t stack ops opened.kind
  unfolding round
  round-do = rw (h, with_top)

  round-else : round i (t ∷ stack) ops OperationKind.else_ ≡ close_if i t stack ops opened.kind
  unfolding round
  round-else = rw (h, with_top)

  round-end :
      round i (t ∷ stack) ops OperationKind.end ≡ close_block i t stack ops opened opened.kind
  unfolding round
  round-end = rw (h, with_top)

-- A block that was opened at `t` by `opened` and reaches `e`, where `closing` stands.
module _ (pre inner rest : List Operation) (opened closing : Operation) (t e : ℕ)
    (ht : t ≡ length pre) (he : e ≡ suc (t + length inner)) where
  abbrev pub region : Operation → Operation → List Operation
  region x y = pre ++ x ∷ (inner ++ y ∷ rest)

  regroup : (x y : Operation) → region x y ≡ (pre ++ x ∷ inner) ++ y ∷ rest
  regroup x y = sym (append_assoc pre (x ∷ inner) (y ∷ rest))

  place : (x : Operation) → e ≡ length (pre ++ x ∷ inner)
  place x = omega (arith, length-append pre (x ∷ inner))

  region-closing : (x y : Operation) → get_elem? (region x y) e ≡ some y
  region-closing x y = rw (regroup x y) (get_elem?-at (pre ++ x ∷ inner) y rest e (place x))

  region-opened : (x y : Operation) → get_elem? (region x y) t ≡ some x
  region-opened x y = get_elem?-at pre x (inner ++ y ∷ rest) t ht

  set_jump-closing :
      (x y : Operation) (j : ℕ) → set_jump (region x y) e j ≡ region x (record y { jump = j })
  set_jump-closing x y j = rw (regroup x y) (
      set_jump-at (pre ++ x ∷ inner) y rest e j (place x) ∙ sym (regroup x (record y { jump = j })))

  set_jump-opened :
      (x y : Operation) (j : ℕ) → set_jump (region x y) t j ≡ region (record x { jump = j }) y
  set_jump-opened x y j = set_jump-at pre x (inner ++ y ∷ rest) t j ht

  -- `do` closes a `while` and opens the loop's body.
  pub cross_loop-do :
      (n : ℕ) (stack : List ℕ)
      → opened.kind ≡ OperationKind.while
      → closing.kind ≡ OperationKind.do_
      → cross_loop (suc n) e (t ∷ stack) (region opened closing)
        ≡ cross_loop n (suc e) (e ∷ stack) (region opened (record closing { jump = t }))
  unfolding round close_while
  cross_loop-do n stack ho hc =
      cross_loop-round n e (t ∷ stack) (region opened closing) closing (e ∷ stack)
        (region opened (record closing { jump = t })) (region-closing opened closing)
        (ap (round e (t ∷ stack) (region opened closing)) hc
          ∙ round-do e t stack (region opened closing) opened (region-opened opened closing)
          ∙ ap (close_while e t stack (region opened closing)) ho
          ∙ ap (continues (e ∷ stack)) (set_jump-closing opened closing t))

  -- `else` closes an `if` and opens its second branch.
  pub cross_loop-else :
      (n : ℕ) (stack : List ℕ)
      → opened.kind ≡ OperationKind.if_
      → closing.kind ≡ OperationKind.else_
      → cross_loop (suc n) e (t ∷ stack) (region opened closing)
        ≡ cross_loop n (suc e) (e ∷ stack) (region (record opened { jump = suc e }) closing)
  unfolding round close_if
  cross_loop-else n stack ho hc =
      cross_loop-round n e (t ∷ stack) (region opened closing) closing (e ∷ stack)
        (region (record opened { jump = suc e }) closing) (region-closing opened closing)
        (ap (round e (t ∷ stack) (region opened closing)) hc
          ∙ round-else e t stack (region opened closing) opened (region-opened opened closing)
          ∙ ap (close_if e t stack (region opened closing)) ho
          ∙ ap (continues (e ∷ stack)) (set_jump-opened opened closing (suc e)))

  -- `end` closes an `if` or an `else`.
  pub cross_loop-end_if :
      (n : ℕ) (stack : List ℕ)
      → (opened.kind ≡ OperationKind.if_) ⊎ (opened.kind ≡ OperationKind.else_)
      → closing.kind ≡ OperationKind.end
      → cross_loop (suc n) e (t ∷ stack) (region opened closing)
        ≡ cross_loop n
            (suc e)
            stack
            (region (record opened { jump = e }) (record closing { jump = suc e }))
  unfolding round close_block
  cross_loop-end_if n stack ho hc =
      cross_loop-round n e (t ∷ stack) (region opened closing) closing stack
        (region (record opened { jump = e }) (record closing { jump = suc e }))
        (region-closing opened closing)
        (ap (round e (t ∷ stack) (region opened closing)) hc
          ∙ round-end e t stack (region opened closing) opened (region-opened opened closing)
          ∙ elim ho [
            | inl h ↦ ap (close_block e t stack (region opened closing) opened) h
            | inr h ↦ ap (close_block e t stack (region opened closing) opened) h
          ]
          ∙ ap (λ l. continues stack (set_jump l e (suc e))) (set_jump-opened opened closing e)
          ∙ ap (continues stack) (set_jump-closing (record opened { jump = e }) closing (suc e)))

  -- `end` closes the body of a loop.
  pub cross_loop-end_do :
      (n : ℕ) (stack : List ℕ)
      → opened.kind ≡ OperationKind.do_
      → closing.kind ≡ OperationKind.end
      → cross_loop (suc n) e (t ∷ stack) (region opened closing)
        ≡ cross_loop n
            (suc e)
            stack
            (region (record opened { jump = suc e }) (record closing { jump = opened.jump }))
  unfolding round close_block
  cross_loop-end_do n stack ho hc =
      cross_loop-round n e (t ∷ stack) (region opened closing) closing stack
        (region (record opened { jump = suc e }) (record closing { jump = opened.jump }))
        (region-closing opened closing)
        (ap (round e (t ∷ stack) (region opened closing)) hc
          ∙ round-end e t stack (region opened closing) opened (region-opened opened closing)
          ∙ ap (close_block e t stack (region opened closing) opened) ho
          ∙ ap (λ l. continues stack (set_jump l t (suc e)))
              (set_jump-closing opened closing opened.jump)
          ∙ ap (continues stack)
              (set_jump-opened opened (record closing { jump = opened.jump }) (suc e)))
