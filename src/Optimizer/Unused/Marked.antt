-- ===== src/Optimizer/Unused/Marked.antt =====
-- src/optimizer.cc, `remove_unused_words_and_strings`: what is marked is closed under use.
use stacky.Common.{
  ℕ, ◌≡◌, ap, inl, inr, Bool, true, false, none, some, List, [], ◌∷◌, arith, Bool-cases,
}
use stacky.Syntax.{Operation, TokenKind, Word, WordKind}
use stacky.Report.{ok, exited}
use stacky.Dictionary.{Words}
use stacky.Optimizer.Unused.{Used, contains_id, find_id, Marking, is_symbol}

abbrev pub Within : List ℕ → List ℕ → Type 0
Within ids more = (n : ℕ) → contains_id n ids ≡ true → contains_id n more ≡ true

abbrev pub Grows : Used → Used → Type 0
Grows u v = Within u.words v.words × Within u.strings v.strings

-- What an operation refers to is marked.
abbrev pub Refers : Bool → TokenKind → Operation → Used → Type 0
Refers false k op u = Unit {0}
Refers true TokenKind.string op u = contains_id op.token.ival u.strings ≡ true
Refers true _ op u = contains_id op.ival u.words ≡ true

abbrev pub AllRefer : List Operation → Used → Type 0
AllRefer [] u = Unit {0}
AllRefer (op ∷ ops) u = Refers (is_symbol op.kind) op.token.kind op u × AllRefer ops u

pub Refers-Grows :
    (b : Bool) (k : TokenKind) (op : Operation) (u v : Used)
    → Grows u v
    → Refers b k op u
    → Refers b k op v
Refers-Grows false k op u v g h = tt
Refers-Grows true TokenKind.string op u v g h = g.1 op.token.ival h
Refers-Grows true _ op u v g h = g.0 op.ival h

pub AllRefer-Grows :
    (ops : List Operation) (u v : Used) → Grows u v → AllRefer ops u → AllRefer ops v
AllRefer-Grows [] u v g h = tt
AllRefer-Grows (op ∷ ops) u v g h =
    (Refers-Grows (is_symbol op.kind) op.token.kind op u v g h.0, AllRefer-Grows ops u v g h.1)

abbrev pub NotString : TokenKind → Type 0
NotString TokenKind.string = ⊥
NotString _ = Unit {0}

pub Refers-word :
    (k : TokenKind) (op : Operation) (v : Used)
    → NotString k
    → contains_id op.ival v.words ≡ true
    → Refers true k op v
Refers-word TokenKind.string op v n h = absurd n
Refers-word _ op v n h = h

module _ (words : Words) where
  abbrev pub BodyRefers : ℕ → Used → Type 0
  BodyRefers id v =
      (w : Word)
      → find_id id words ≡ some w
      → w.kind ≡ WordKind.function
      → AllRefer w.function_body v

  -- The bodies of the words that were marked since `u` are marked in `v`.
  abbrev pub NewClosed : Used → Used → Type 0
  NewClosed u v =
      (id : ℕ) → contains_id id v.words ≡ true → contains_id id u.words ≡ false → BodyRefers id v

  abbrev pub Marks : Used → List Operation → Marking → Type 0
  Marks u ops none = Unit {0}
  Marks u ops (some (exited c)) = Unit {0}
  Marks u ops (some (ok v)) = Grows u v × AllRefer ops v × NewClosed u v

  abbrev pub MarksOne : Used → Bool → TokenKind → Operation → Marking → Type 0
  MarksOne u b k op none = Unit {0}
  MarksOne u b k op (some (exited c)) = Unit {0}
  MarksOne u b k op (some (ok v)) = Grows u v × Refers b k op v × NewClosed u v

  pub NewClosed-join : (u v x : Used) → Grows v x → NewClosed u v → NewClosed v x → NewClosed u x
  NewClosed-join u v x g h k id i a = elim (Bool-cases (contains_id id v.words)) [
    | inl b ↦ λ w f e. AllRefer-Grows w.function_body v x g (h id b a w f e)
    | inr b ↦ k id i b
  ]

  pub nothing_new : (u v : Used) → (u.words ≡ v.words) → NewClosed u v
  nothing_new u v e id i a = absurd (ground (arith, i, a, ap (contains_id id) e))
