-- ===== src/Dictionary.antt =====
-- `Words` of src/stacky.hh: the dictionary, from names to words, as an association list. An
-- `unordered_map` has one entry for each name; here the first one counts.
pub mod Laws
use stacky.Common.{Bool, Option, none, some, List, [], ◌∷◌, if◌then◌else◌, text_eq}
use stacky.Syntax.{Word, Text, new_word}

abbrev pub Words : Type 0
Words = List (Text × Word)

-- `words.find(name)`, `words.at(name)`
unfoldable pub find_word : Text → Words → Option Word
unfolding text_eq
find_word name [] = none
find_word name ((key, word) ∷ words) = if text_eq key name then some word else find_word name words

-- A change of `words[name]`, which is inserted by the subscript if it is not there.
unfoldable pub change_word : Text → (Word → Word) → Words → Words
unfolding text_eq
change_word name f [] = (name, f new_word) ∷ []
change_word name f ((key, word) ∷ words) =
    if text_eq key name then (key, f word) ∷ words else (key, word) ∷ change_word name f words
