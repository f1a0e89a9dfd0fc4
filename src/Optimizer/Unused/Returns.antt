-- ===== src/Optimizer/Unused/Returns.antt =====
-- src/optimizer.cc, `remove_unused_words_and_strings`: the recursion through the bodies ends.
use stacky.Common.{
  ℕ, zero, suc, ◌≡◌, refl, sym, subst, inl, inr, Bool, true, false, none, some, List, [], ◌∷◌,
  arith, leb, ◌==◌, length, Bool-cases, Option-cases, if◌then◌else◌,
}
use stacky.Syntax.{Operation, TokenKind, Text, Word, WordKind}
use stacky.Report.{Outcome, ok, exited}
use stacky.Dictionary.{Words}
use stacky.Optimizer.Unused.{
  Used, Kept, Marking, then_mark, contains_id, find_id, is_symbol, mark_body, mark_found,
  mark_symbol, mark_op, mark_ops, mark, kept, remove_unused_words_and_strings,
}

-- The entries whose number is not marked.
abbrev free : Words → List ℕ → ℕ
free [] used = 0
free ((name, w) ∷ words) used =
    if contains_id w.id used then free words used else suc (free words used)

free-length : (words : Words) (used : List ℕ) → leb (free words used) (length words) ≡ true
free-length [] used = ground arith
free-length ((name, w) ∷ words) used = ground (arith, free-length words used)

free-insert :
    (words : Words) (id : ℕ) (used : List ℕ) → leb (free words (id ∷ used)) (free words used) ≡ true
unfolding contains_id
free-insert [] id used = ground arith
free-insert ((name, w) ∷ words) id used = ground (arith, free-insert words id used)

-- A number that was found is one less.
free-found :
    (words : Words) (id : ℕ) (used : List ℕ) (w : Word)
    → find_id id words ≡ some w
    → contains_id id used ≡ false
    → leb (suc (free words (id ∷ used))) (free words used) ≡ true
unfolding find_id contains_id
free-found [] id used w f h = absurd (ground (arith, f))
free-found ((name, x) ∷ words) id used w f h = elim (Bool-cases (x.id == id)) [
  | inl b ↦
      let e : x.id ≡ id = ground (arith, b) in
      let c : contains_id x.id used ≡ false = subst (λ n. contains_id n used ≡ false) (sym e) h in
      rw (b, c) (ground (arith, free-insert words id used))
  | inr b ↦
      let rest = free-found words id used w (rw b at f) h in
      elim (Bool-cases (contains_id x.id used)) [
        | inl c ↦ rw (b, c) rest
        | inr c ↦ rw (b, c) (ground (arith, rest))
      ]
]

module _ (words : Words) where
  -- It ends, with no more entries to mark than before.
  abbrev Shrinks : Used → Marking → Type 0
  Shrinks u none = ⊥
  Shrinks u (some (exited c)) = Unit {0}
  Shrinks u (some (ok v)) = leb (free words v.words) (free words u.words) ≡ true

  Shrinks-more :
      (u v : Used) (r : Marking)
      → leb (free words v.words) (free words u.words) ≡ true
      → Shrinks v r
      → Shrinks u r
  Shrinks-more u v none h k = k
  Shrinks-more u v (some (exited c)) h k = k
  Shrinks-more u v (some (ok x)) h k = ground (arith, h, k)

  module _ (n : ℕ) (go : List Operation → Used → Marking)
      (ends : (ops : List Operation) (u : Used)
        → leb (suc (free words u.words)) n ≡ true
        → Shrinks u (go ops u)) where
    mark_body-Shrinks :
        (k : WordKind) (w : Word) (u : Used)
        → leb (suc (free words u.words)) n ≡ true
        → Shrinks u (mark_body go k w u)
    mark_body-Shrinks WordKind.function w u h = ends w.function_body u h
    mark_body-Shrinks WordKind.intrinsic w u h = ground arith
    mark_body-Shrinks WordKind.integer w u h = ground arith
    mark_body-Shrinks WordKind.array w u h = ground arith

    symbol-Shrinks :
        (id : ℕ) (u : Used)
        → leb (free words u.words) n ≡ true
        → Shrinks u (elim (contains_id id u.words) [
          | true ↦ some (ok u)
          | false ↦ mark_found go (find_id id words) (record u { words = id ∷ u.words })
        ])
    symbol-Shrinks id u h = elim (Bool-cases (contains_id id u.words)) [
      | inl b ↦ rw b (ground arith)
      | inr b ↦ elim (Option-cases (find_id id words)) [
        | inl e ↦ rw (b, e) tt
        | inr (w, e) ↦
            let less = free-found words id u.words w e b in
            let inner = record u { words = id ∷ u.words } in
            rw (b, e)
              (Shrinks-more u inner (mark_body go w.kind w inner) (ground (arith, less))
                (mark_body-Shrinks w.kind w inner (ground (arith, less, h))))
      ]
    ]

    mark_symbol-Shrinks :
        (k : TokenKind) (op : Operation) (u : Used)
        → leb (free words u.words) n ≡ true
        → Shrinks u (mark_symbol go words k op u)
    unfolding mark_symbol
    mark_symbol-Shrinks TokenKind.string op u h = ground arith
    mark_symbol-Shrinks _ op u h = symbol-Shrinks op.ival u h

    mark_op-Shrinks :
        (b : Bool) (op : Operation) (u : Used)
        → leb (free words u.words) n ≡ true
        → Shrinks u (mark_op go words b op u)
    mark_op-Shrinks false op u h = ground arith
    mark_op-Shrinks true op u h = mark_symbol-Shrinks op.token.kind op u h

    then-Shrinks :
        (u : Used) (r : Marking) (f : Used → Marking)
        → leb (free words u.words) n ≡ true
        → Shrinks u r
        → ((v : Used) → leb (free words v.words) n ≡ true → Shrinks v (f v))
        → Shrinks u (then_mark r f)
    then-Shrinks u none f h k l = absurd k
    then-Shrinks u (some (exited c)) f h k l = tt
    then-Shrinks u (some (ok v)) f h k l = Shrinks-more u v (f v) k (l v (ground (arith, h, k)))

    mark_ops-Shrinks :
        (ops : List Operation) (u : Used)
        → leb (free words u.words) n ≡ true
        → Shrinks u (mark_ops go words ops u)
    unfolding mark_ops
    mark_ops-Shrinks [] u h = ground arith
    mark_ops-Shrinks (op ∷ ops) u h =
        then-Shrinks u (mark_op go words (is_symbol op.kind) op u) (mark_ops go words ops) h
          (mark_op-Shrinks (is_symbol op.kind) op u h) (mark_ops-Shrinks ops)

  mark-Shrinks :
      (fuel : ℕ) (ops : List Operation) (u : Used)
      → leb (suc (free words u.words)) fuel ≡ true
      → Shrinks u (mark fuel words ops u)
  unfolding mark
  mark-Shrinks zero ops u h = absurd (ground (arith, h))
  mark-Shrinks (suc fuel) ops u h =
      mark_ops-Shrinks fuel (mark fuel words) (mark-Shrinks fuel) ops u (ground (arith, h))

returned :
    (words : Words) (strings : List (Text × ℕ)) (u : Used) (r : Marking)
    → Shrinks words u r
    → (x : Outcome Kept) × (elim r [
      | none ↦ none
      | some (exited c) ↦ some (exited c)
      | some (ok used) ↦ some (ok (kept words strings used))
    ])
        ≡ some x
returned words strings u none h = absurd h
returned words strings u (some (exited c)) h = (exited c, refl)
returned words strings u (some (ok v)) h = (ok (kept words strings v), refl)

-- One level more than there are words is enough for the recursion through the bodies, recursive
-- functions included: the pass gives the words and strings that stay, or its assertion fails.
pub remove_unused-returns :
    (words : Words) (strings : List (Text × ℕ)) (main : List Operation)
    → (x : Outcome Kept) × (remove_unused_words_and_strings (suc (length words)) words strings main
        ≡ some x)
unfolding remove_unused_words_and_strings
remove_unused-returns words strings main =
    returned words strings (record { words = []; strings = [] })
      (mark (suc (length words)) words main (record { words = []; strings = [] }))
      (mark-Shrinks words (suc (length words)) main (record { words = []; strings = [] })
        (ground (arith, free-length words [])))
