-- ===== src/Dictionary/Laws.antt =====
-- Lookup in a changed dictionary.
use stacky.Common.{
  ◌≡◌, sym, ap, subst, false, Option, none, some, [], ◌∷◌, if◌then◌else◌, text_eq, text_eq_sound,
  text_eq_refl, Bool-cases, inl, inr,
}
use stacky.Syntax.{Word, Text, new_word}
use stacky.Dictionary.{Words, find_word, change_word}

-- What the subscript refers to.
abbrev pub entry : Option Word → Word
entry none = new_word
entry (some word) = word

pub find_word-change_word :
    (name : Text) (f : Word → Word) (words : Words)
    → find_word name (change_word name f words) ≡ some (f (entry (find_word name words)))
unfolding find_word change_word
find_word-change_word name f [] = rw (text_eq_refl name)
find_word-change_word name f ((key, word) ∷ words) = elim (Bool-cases (text_eq key name)) [
  | inl b ↦ rw (b, find_word, b)
  | inr b ↦ rw (b, find_word, b) (find_word-change_word name f words)
]

-- Another name keeps its word.
pub find_word-change_other :
    (name other : Text) (f : Word → Word) (words : Words)
    → text_eq name other ≡ false
    → find_word other (change_word name f words) ≡ find_word other words
unfolding find_word change_word
find_word-change_other name other f [] h = rw h
find_word-change_other name other f ((key, word) ∷ words) h = elim (Bool-cases (text_eq key name)) [
  | inl b ↦
      let e : text_eq key other ≡ false =
        subst (λ k. text_eq k other ≡ false) (sym (text_eq_sound key name b)) h in
      rw (b, find_word, e, find_word)
  | inr b ↦
      rw (b, find_word)
        (ap (λ r. if text_eq key other then some word else r)
          (find_word-change_other name other f words h))
]
