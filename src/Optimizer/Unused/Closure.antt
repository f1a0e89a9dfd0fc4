-- ===== src/Optimizer/Unused/Closure.antt =====
-- src/optimizer.cc, `remove_unused_words_and_strings`: each step of the marking keeps it closed.
use stacky.Common.{
  ℕ, zero, suc, ◌≡◌, refl, sym, ◌∙◌, subst, ◌⊎◌, inl, inr, Bool, true, false, none, some, List, [],
  ◌∷◌, arith, ◌==◌, Bool-cases, Option-cases,
}
use stacky.Syntax.{Operation, TokenKind, Word, WordKind}
use stacky.Report.{ok, exited}
use stacky.Dictionary.{Words}
use stacky.Optimizer.Unused.{
  Used, contains_id, find_id, Marking, then_mark, is_symbol, mark_body, mark_found, mark_symbol,
  mark_op, mark_ops, mark,
}
use stacky.Optimizer.Unused.Marked.{
  Grows, AllRefer, Refers-Grows, NotString, Refers-word, NewClosed, Marks, MarksOne, NewClosed-join,
  nothing_new,
}

module _ (words : Words) where
  module _ (go : List Operation → Used → Marking)
      (good : (body : List Operation) (u : Used) → Marks words u body (go body u)) where
    abbrev inserted : ℕ → Used → Used
    inserted id u = record u { words = id ∷ u.words }

    insert-Grows : (id : ℕ) (u : Used) → Grows u (inserted id u)
    unfolding contains_id
    insert-Grows id u = (λ n h. ground (arith, h), λ n h. h)

    contains-inserted : (id : ℕ) (u : Used) → contains_id id (id ∷ u.words) ≡ true
    unfolding contains_id
    contains-inserted id u = ground arith

    other_than :
        (id n : ℕ) (ids : List ℕ)
        → contains_id n ids ≡ false
        → (n ≡ id) ⊎ (contains_id n (id ∷ ids) ≡ false)
    unfolding contains_id
    other_than id n ids h = elim (Bool-cases (n == id)) [
      | inl b ↦ inl (ground (arith, b))
      | inr b ↦ inr (ground (arith, b, h))
    ]

    -- The marked body of a word closes it.
    close_word :
        (id : ℕ) (w : Word) (u v : Used)
        → find_id id words ≡ some w
        → (w.kind ≡ WordKind.function → AllRefer w.function_body v)
        → NewClosed words (inserted id u) v
        → NewClosed words u v
    close_word id w u v f h k n i a = elim (other_than id n u.words a) [
      | inl e ↦ λ x g j.
          let same : w ≡ x = ground (arith, f, subst (λ m. find_id m words ≡ some x) e g) in
          subst (λ (y : Word). y.kind ≡ WordKind.function → AllRefer y.function_body v) same h j
      | inr b ↦ k n i b
    ]

    -- What a marked word gives, from the mark on itself.
    abbrev MarksWord : ℕ → Used → Marking → Type 0
    MarksWord id u none = Unit {0}
    MarksWord id u (some (exited c)) = Unit {0}
    MarksWord id u (some (ok v)) = Grows u v × (contains_id id v.words ≡ true) × NewClosed words u v

    MarksWord-plain :
        (k : WordKind) (id : ℕ) (w : Word) (u : Used)
        → find_id id words ≡ some w
        → ((k ≡ WordKind.function) → ⊥)
        → w.kind ≡ k
        → MarksWord id u (some (ok (inserted id u)))
    MarksWord-plain k id w u f h e = (
      insert-Grows id u,
      contains-inserted id u,
      close_word id w u (inserted id u) f (λ j. absurd (h (sym e ∙ j)))
          (nothing_new words (inserted id u) (inserted id u) refl),
    )

    Marks-function :
        (id : ℕ) (w : Word) (u : Used) (r : Marking)
        → find_id id words ≡ some w
        → Marks words (inserted id u) w.function_body r
        → MarksWord id u r
    Marks-function id w u none f h = tt
    Marks-function id w u (some (exited c)) f h = tt
    Marks-function id w u (some (ok v)) f (g, refer, closed) =
        let first = insert-Grows id u in
        (
          (λ n i. g.0 n (first.0 n i), λ n i. g.1 n (first.1 n i)),
          g.0 id (contains-inserted id u),
          close_word id w u v f (λ j. refer) closed,
        )

    mark_body-MarksWord :
        (k : WordKind) (id : ℕ) (w : Word) (u : Used)
        → find_id id words ≡ some w
        → w.kind ≡ k
        → MarksWord id u (mark_body go k w (inserted id u))
    mark_body-MarksWord WordKind.function id w u f e =
        Marks-function id w u (go w.function_body (inserted id u)) f
          (good w.function_body (inserted id u))
    mark_body-MarksWord WordKind.intrinsic id w u f e =
        MarksWord-plain WordKind.intrinsic id w u f (λ h. ground (arith, h)) e
    mark_body-MarksWord WordKind.integer id w u f e =
        MarksWord-plain WordKind.integer id w u f (λ h. ground (arith, h)) e
    mark_body-MarksWord WordKind.array id w u f e =
        MarksWord-plain WordKind.array id w u f (λ h. ground (arith, h)) e

    mark_found-MarksWord :
        (id : ℕ) (u : Used) → MarksWord id u (mark_found go (find_id id words) (inserted id u))
    mark_found-MarksWord id u = elim (Option-cases (find_id id words)) [
      | inl e ↦ rw e tt
      | inr (w, e) ↦ rw e (mark_body-MarksWord w.kind id w u e refl)
    ]

    symbol_word :
        (id : ℕ) (u : Used)
        → MarksWord id u (elim (contains_id id u.words) [
          | true ↦ some (ok u)
          | false ↦ mark_found go (find_id id words) (inserted id u)
        ])
    symbol_word id u = elim (Bool-cases (contains_id id u.words)) [
      | inl b ↦ rw b ((λ n h. h, λ n h. h), b, nothing_new words u u refl)
      | inr b ↦ rw b (mark_found-MarksWord id u)
    ]

    word-MarksOne :
        (k : TokenKind) (op : Operation) (u : Used) (r : Marking)
        → NotString k
        → MarksWord op.ival u r
        → MarksOne words u true k op r
    word-MarksOne k op u none n h = tt
    word-MarksOne k op u (some (exited c)) n h = tt
    word-MarksOne k op u (some (ok v)) n (g, i, c) = (g, Refers-word k op v n i, c)

    mark_symbol-MarksOne :
        (k : TokenKind) (op : Operation) (u : Used)
        → MarksOne words u true k op (mark_symbol go words k op u)
    unfolding mark_symbol contains_id
    mark_symbol-MarksOne TokenKind.string op u = (
      (λ n h. h, λ n h. ground (arith, h)),
      ground arith,
      nothing_new words u (record u { strings = op.token.ival ∷ u.strings }) refl,
    )
    mark_symbol-MarksOne TokenKind.word op u =
        word-MarksOne TokenKind.word op u _ tt (symbol_word op.ival u)
    mark_symbol-MarksOne TokenKind.integer op u =
        word-MarksOne TokenKind.integer op u _ tt (symbol_word op.ival u)
    mark_symbol-MarksOne TokenKind.char op u =
        word-MarksOne TokenKind.char op u _ tt (symbol_word op.ival u)
    mark_symbol-MarksOne TokenKind.keyword op u =
        word-MarksOne TokenKind.keyword op u _ tt (symbol_word op.ival u)
    mark_symbol-MarksOne TokenKind.address_of op u =
        word-MarksOne TokenKind.address_of op u _ tt (symbol_word op.ival u)

    mark_op-MarksOne :
        (b : Bool) (op : Operation) (u : Used)
        → MarksOne words u b op.token.kind op (mark_op go words b op u)
    mark_op-MarksOne false op u = ((λ n h. h, λ n h. h), tt, nothing_new words u u refl)
    mark_op-MarksOne true op u = mark_symbol-MarksOne op.token.kind op u

    -- The marks of an operation and then those of the rest.
    one_then_rest :
        (op : Operation) (ops : List Operation) (u v : Used) (r : Marking)
        → MarksOne words u (is_symbol op.kind) op.token.kind op (some (ok v))
        → Marks words v ops r
        → Marks words u (op ∷ ops) r
    one_then_rest op ops u v none h k = tt
    one_then_rest op ops u v (some (exited c)) h k = tt
    one_then_rest op ops u v (some (ok x)) (g, refer, closed) (g', refer', closed') = (
      (λ n i. g'.0 n (g.0 n i), λ n i. g'.1 n (g.1 n i)),
      (Refers-Grows (is_symbol op.kind) op.token.kind op v x g' refer, refer'),
      NewClosed-join words u v x g' closed closed',
    )

    then-Marks :
        (op : Operation) (ops : List Operation) (u : Used) (r : Marking) (f : Used → Marking)
        → MarksOne words u (is_symbol op.kind) op.token.kind op r
        → ((v : Used) → Marks words v ops (f v))
        → Marks words u (op ∷ ops) (then_mark r f)
    then-Marks op ops u none f h k = tt
    then-Marks op ops u (some (exited c)) f h k = tt
    then-Marks op ops u (some (ok v)) f h k = one_then_rest op ops u v (f v) h (k v)

    mark_ops-Marks : (ops : List Operation) (u : Used) → Marks words u ops (mark_ops go words ops u)
    unfolding mark_ops
    mark_ops-Marks [] u = ((λ n h. h, λ n h. h), tt, nothing_new words u u refl)
    mark_ops-Marks (op ∷ ops) u =
        then-Marks op ops u (mark_op go words (is_symbol op.kind) op u) _
          (mark_op-MarksOne (is_symbol op.kind) op u) (mark_ops-Marks ops)

  pub mark-Marks :
      (fuel : ℕ) (ops : List Operation) (u : Used) → Marks words u ops (mark fuel words ops u)
  unfolding mark
  mark-Marks zero ops u = tt
  mark-Marks (suc fuel) ops u = mark_ops-Marks (mark fuel words) (mark-Marks fuel) ops u
