-- ===== src/Optimizer/Unused/Reached.antt =====
-- src/optimizer.cc, `remove_unused_words_and_strings`: no word that the program reaches is removed.
use stacky.Common.{
  ℕ, zero, suc, ◌≡◌, refl, ap, ◌∙◌, subst, ◌⊎◌, inl, inr, true, false, none, some, List, [], ◌∷◌,
  arith, ◌==◌, get_elem?, Bool-cases,
}
use stacky.Syntax.{Operation, TokenKind, Text, Word, WordKind}
use stacky.Report.{ok, exited}
use stacky.Dictionary.{Words}
use stacky.Optimizer.Unused.{
  Used, Kept, Marking, contains_id, find_id, is_symbol, stays, keep_words, mark, kept,
  remove_unused_words_and_strings,
}
use stacky.Optimizer.Unused.Marked.{Refers, AllRefer, NotString, NewClosed, Marks}
use stacky.Optimizer.Unused.Closure.{mark-Marks}

-- The operation pushes or calls the word with this number.
abbrev pub Names : Operation → ℕ → Type 0
Names op id = (is_symbol op.kind ≡ true) × NotString op.token.kind × (op.ival ≡ id)

-- The word has an entry in the dictionary.
abbrev pub InWords : Word → Words → Type 0
InWords w [] = ⊥
InWords w ((name, x) ∷ words) = (x ≡ w) ⊎ InWords w words

-- A function shares its number with no other word.
abbrev pub Unshared : Words → Type 0
Unshared words =
    (w x : Word)
    → InWords w words
    → w.kind ≡ WordKind.function
    → InWords x words
    → x.id ≡ w.id
    → x ≡ w

-- The numbers that the operations name, or the body of a function that is reached.
module _ (words : Words) (ops : List Operation) where
  pub data Reaches : ℕ → Type 0 where
    named : (i id : ℕ) (op : Operation) → get_elem? ops i ≡ some op → Names op id → Reaches id
    named_by :
        (i id : ℕ) (op : Operation) (w : Word)
        → Reaches w.id
        → InWords w words
        → w.kind ≡ WordKind.function
        → get_elem? w.function_body i ≡ some op
        → Names op id
        → Reaches id

other_id : (y w : Word) (id : ℕ) → y ≡ w → w.id ≡ id → (y.id == id) ≡ false → ⊥
other_id y w id same e b =
    let n : y.id ≡ id = ap (λ (x : Word). x.id) same ∙ e in absurd (ground (arith, n, b))

-- The search by number finds a word with the number, where there is one.
find_id-InWords :
    (id : ℕ) (w : Word) (words : Words)
    → InWords w words
    → w.id ≡ id
    → (x : Word) × (find_id id words ≡ some x) × InWords x words × (x.id ≡ id)
unfolding find_id
find_id-InWords id w [] h e = absurd h
find_id-InWords id w ((name, y) ∷ words) h e = elim (Bool-cases (y.id == id)) [
  | inl b ↦ (y, rw (find_id, b) refl, inl refl, ground (arith, b))
  | inr b ↦ elim h [
    | inl same ↦ absurd (other_id y w id same e b)
    | inr later ↦
        let (x, f, k, n) = find_id-InWords id w words later e in (x, rw (find_id, b) f, inr k, n)
  ]
]

find_id-function :
    (words : Words) (w : Word)
    → Unshared words
    → InWords w words
    → w.kind ≡ WordKind.function
    → find_id w.id words ≡ some w
find_id-function words w unshared h k =
    let (x, f, i, n) = find_id-InWords w.id w words h refl in f ∙ ap some (unshared w x h k i n)

AllRefer-get_elem? :
    (ops : List Operation) (i : ℕ) (op : Operation) (u : Used)
    → AllRefer ops u
    → get_elem? ops i ≡ some op
    → Refers (is_symbol op.kind) op.token.kind op u
AllRefer-get_elem? [] i op u h e = absurd (ground (arith, e))
AllRefer-get_elem? (o ∷ ops) zero op u h e =
    let same : o ≡ op = ground (arith, e) in
    subst (λ (p : Operation). Refers (is_symbol p.kind) p.token.kind p u) same h.0
AllRefer-get_elem? (o ∷ ops) (suc i) op u h e = AllRefer-get_elem? ops i op u h.1 e

Refers-contains :
    (k : TokenKind) (op : Operation) (u : Used)
    → NotString k
    → Refers true k op u
    → contains_id op.ival u.words ≡ true
Refers-contains TokenKind.string op u n h = absurd n
Refers-contains _ op u n h = h

Names-contains :
    (op : Operation) (id : ℕ) (u : Used)
    → Names op id
    → Refers (is_symbol op.kind) op.token.kind op u
    → contains_id id u.words ≡ true
Names-contains op id u (s, n, e) h =
    subst (λ m. contains_id m u.words ≡ true) e
      (Refers-contains op.token.kind op u n (subst (λ b. Refers b op.token.kind op u) s h))

Reaches-contains :
    (words : Words) (ops : List Operation) (u v : Used) (id : ℕ)
    → Unshared words
    → u.words ≡ []
    → AllRefer ops v
    → NewClosed words u v
    → Reaches words ops id
    → contains_id id v.words ≡ true
unfolding contains_id
Reaches-contains words ops u v id unshared e refer closed (named i _ op g n) =
    Names-contains op id v n (AllRefer-get_elem? ops i op v refer g)
Reaches-contains words ops u v id unshared e refer closed (named_by i _ op w r h k g n) =
    let marked = Reaches-contains words ops u v w.id unshared e refer closed r in
    let body =
      closed w.id marked (ap (contains_id w.id) e) w (find_id-function words w unshared h k) k in
    Names-contains op id v n (AllRefer-get_elem? w.function_body i op v body g)

stays-used : (k : WordKind) → stays k true ≡ true
stays-used WordKind.function = refl
stays-used WordKind.array = refl
stays-used WordKind.integer = refl
stays-used WordKind.intrinsic = refl

not_removed :
    (used : List ℕ) (x w : Word)
    → x ≡ w
    → contains_id w.id used ≡ true
    → stays x.kind (contains_id x.id used) ≡ false
    → ⊥
not_removed used x w same c s =
    let c' : contains_id x.id used ≡ true = ap (λ (y : Word). contains_id y.id used) same ∙ c in
    let kept_here : stays x.kind (contains_id x.id used) ≡ true =
      ap (stays x.kind) c' ∙ stays-used x.kind in
    absurd (ground (arith, kept_here, s))

-- A word whose number is used stays.
keep_words-InWords :
    (used : List ℕ) (words : Words) (w : Word)
    → contains_id w.id used ≡ true
    → InWords w words
    → InWords w (keep_words used words)
unfolding keep_words
keep_words-InWords used [] w c h = absurd h
keep_words-InWords used ((name, x) ∷ words) w c h =
    elim (Bool-cases (stays x.kind (contains_id x.id used))) [
      | inl s ↦
          rw (keep_words, s)
            (elim h [
              | inl same ↦ inl same
              | inr later ↦ inr (keep_words-InWords used words w c later)
            ])
      | inr s ↦ elim h [
        | inl same ↦ absurd (not_removed used x w same c s)
        | inr later ↦ rw (keep_words, s) (keep_words-InWords used words w c later)
      ]
    ]

keeps_reached :
    (words : Words) (main : List Operation) (r : Marking) (strings : List (Text × ℕ)) (k : Kept)
    (w : Word)
    → Unshared words
    → Marks words (record { words = []; strings = [] }) main r
    → (elim r [
      | none ↦ none
      | some (exited c) ↦ some (exited c)
      | some (ok used) ↦ some (ok (kept words strings used))
    ])
      ≡ some (ok k)
    → Reaches words main w.id
    → InWords w words
    → InWords w k.words
keeps_reached words main none strings k w unshared m e r h = absurd (ground (arith, e))
keeps_reached words main (some (exited c)) strings k w unshared m e r h = absurd (ground (arith, e))
keeps_reached words main (some (ok v)) strings k w unshared (g, refer, closed) e r h =
    let c =
      Reaches-contains words main (record { words = []; strings = [] }) v w.id unshared refl refer
        closed r in
    let same : kept words strings v ≡ k = ground (arith, e) in
    subst (λ (x : Kept). InWords w x.words) same (keep_words-InWords v.words words w c h)

-- A word stays in the dictionary, if the main body names its number, or the body of a function does
-- that is so reached, and every function has a number that no other word has.
pub remove_unused-InWords :
    (fuel : ℕ) (words : Words) (strings : List (Text × ℕ)) (main : List Operation) (k : Kept)
    (w : Word)
    → Unshared words
    → remove_unused_words_and_strings fuel words strings main ≡ some (ok k)
    → Reaches words main w.id
    → InWords w words
    → InWords w k.words
unfolding remove_unused_words_and_strings
remove_unused-InWords fuel words strings main k w unshared e r h =
    keeps_reached words main (mark fuel words main (record { words = []; strings = [] })) strings k
      w unshared (mark-Marks words fuel main (record { words = []; strings = [] })) e r h
