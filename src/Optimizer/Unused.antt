-- ===== src/Optimizer/Unused.antt =====
-- src/optimizer.cc, `remove_unused_words_and_strings`: the marking of what the main body uses, and
-- the removal of the rest. `find_if` goes through the dictionary in the map's order, which is the
-- order of the list here. The recursion through the bodies takes fuel.
pub mod Marked
pub mod Closure
pub mod Reached
pub mod Returns
pub mod Tests
use stacky.Common.{
  ℕ, zero, suc, Bool, true, false, ◌||◌, Option, none, some, List, [], ◌∷◌, ltb, ◌==◌,
  if◌then◌else◌, length,
}
use stacky.Syntax.{Operation, OperationKind, Token, TokenKind, Text, Word, WordKind}
use stacky.Report.{Outcome, ok, exited, word_not_found}
use stacky.Dictionary.{Words}

-- The two sets.
pub record Used : Type 0 where
  pub words : List ℕ
  pub strings : List ℕ

unfoldable pub contains_id : ℕ → List ℕ → Bool
contains_id n [] = false
contains_id n (m ∷ ids) = n == m || contains_id n ids

unfoldable pub find_id : ℕ → Words → Option Word
find_id id [] = none
find_id id ((name, word) ∷ words) = if word.id == id then some word else find_id id words

abbrev pub Marking : Type 0
Marking = Option (Outcome Used)

abbrev pub then_mark : Marking → (Used → Marking) → Marking
then_mark none f = none
then_mark (some (exited c)) f = some (exited c)
then_mark (some (ok used)) f = f used

abbrev pub is_symbol : OperationKind → Bool
is_symbol OperationKind.push_symbol = true
is_symbol OperationKind.call_symbol = true
is_symbol _ = false

-- The word that was found, by its kind; `go` is the recursive call on its body.
abbrev pub mark_body : (List Operation → Used → Marking) → WordKind → Word → Used → Marking
mark_body go WordKind.function word used = go word.function_body used
mark_body go _ word used = some (ok used)

abbrev pub mark_found : (List Operation → Used → Marking) → Option Word → Used → Marking
mark_found go none used = some (exited word_not_found)
mark_found go (some word) used = mark_body go word.kind word used

unfoldable pub mark_symbol :
    (List Operation → Used → Marking) → Words → TokenKind → Operation → Used → Marking
mark_symbol go words TokenKind.string op used =
    some (ok (record used { strings = op.token.ival ∷ used.strings }))
mark_symbol go words _ op used = elim (contains_id op.ival used.words) [
  | true ↦ some (ok used)
  | false ↦ mark_found go (find_id op.ival words) (record used { words = op.ival ∷ used.words })
]

abbrev pub mark_op : (List Operation → Used → Marking) → Words → Bool → Operation → Used → Marking
mark_op go words false op used = some (ok used)
mark_op go words true op used = mark_symbol go words op.token.kind op used

unfoldable pub mark_ops :
    (List Operation → Used → Marking) → Words → List Operation → Used → Marking
unfolding mark_symbol
mark_ops go words [] used = some (ok used)
mark_ops go words (op ∷ ops) used =
    then_mark (mark_op go words (is_symbol op.kind) op used) λ u. mark_ops go words ops u

unfoldable pub mark : ℕ → Words → List Operation → Used → Marking
unfolding mark_ops
mark zero words ops used = none
mark (suc fuel) words ops used = mark_ops (mark fuel words) words ops used

-- `std::erase_if`, with the condition for an entry to stay.
abbrev pub stays : WordKind → Bool → Bool
stays WordKind.function used = used
stays WordKind.array used = used
stays _ used = true

unfoldable pub keep_words : List ℕ → Words → Words
keep_words used [] = []
keep_words used ((name, word) ∷ words) =
    if stays word.kind (contains_id word.id used)
    then (name, word) ∷ keep_words used words
    else keep_words used words

unfoldable pub keep_strings : List ℕ → List (Text × ℕ) → List (Text × ℕ)
keep_strings used [] = []
keep_strings used ((s, id) ∷ strings) =
    if contains_id id used then (s, id) ∷ keep_strings used strings else keep_strings used strings

pub record Kept : Type 0 where
  pub words : Words
  pub strings : List (Text × ℕ)
  pub done_something : Bool

abbrev pub kept : Words → List (Text × ℕ) → Used → Kept
kept words strings used =
    let words' = keep_words used.words words in
    let strings' = keep_strings used.strings strings in
    record {
      words = words';
      strings = strings';
      done_something = ltb (length words') (length words) || ltb (length strings') (length strings);
    }

unfoldable pub remove_unused_words_and_strings :
    ℕ → Words → List (Text × ℕ) → List Operation → Option (Outcome Kept)
unfolding mark keep_words keep_strings
remove_unused_words_and_strings fuel words strings main =
    elim (mark fuel words main (record { words = []; strings = [] })) [
      | none ↦ none
      | some (exited c) ↦ some (exited c)
      | some (ok used) ↦ some (ok (kept words strings used))
    ]
