-- ===== src/Optimizer/Unused/Tests.antt =====
-- `f` calls `g`, the main body calls `f`, and nothing calls `h`.
use stacky.Common.{
  ℕ, zero, suc, inl, inr, sym, ap, ◌∙◌, subst, false, ◌≡◌, refl, Option, none, some, List, [], ◌∷◌,
  map, codes, length,
}
use stacky.Syntax.{Operation, OperationKind, Text, Word, WordKind, new_operation, new_word}
use stacky.Report.{Outcome, ok, exited}
use stacky.Dictionary.{Words}
use stacky.Optimizer.Unused.{Kept, contains_id, find_id, remove_unused_words_and_strings}
use stacky.Optimizer.Unused.Reached.{
  Reaches, named, named_by, InWords, Unshared, remove_unused-InWords,
}
use stacky.Optimizer.Unused.Returns.{remove_unused-returns}

abbrev call : ℕ → Operation
call id = record (new_operation OperationKind.call_symbol) { ival = id }

abbrev function : ℕ → List Operation → Word
function id body = record new_word { kind = WordKind.function; id = id; function_body = body }

-- An intrinsic, and functions from number `n` on.
abbrev words_from : ℕ → Words
words_from n =
    (codes "+", new_word)
    ∷ (codes "f", function n (call (suc n) ∷ []))
    ∷ (codes "g", function (suc n) [])
    ∷ (codes "h", function (suc (suc n)) [])
    ∷ []

abbrev nothing : Kept
nothing = record { words = []; strings = []; done_something = false }

abbrev result : Option (Outcome Kept) → Kept
result none = nothing
result (some (exited c)) = nothing
result (some (ok k)) = k

abbrev names : Words → List Text
names = map {B = Text} (λ entry. entry.0)

abbrev strings : List (Text × ℕ)
strings = (codes "s", 0) ∷ []

abbrev run_from : ℕ → Option (Outcome Kept)
run_from n = remove_unused_words_and_strings 5 (words_from n) strings (call n ∷ [])

names_kept : names (result (run_from 1)).words ≡ codes "+" ∷ codes "f" ∷ codes "g" ∷ []
unfolding remove_unused_words_and_strings contains_id find_id
names_kept = refl

-- With the number of the intrinsics, the body of `f` is not visited, and `g` is removed.
names_lost : names (result (run_from 0)).words ≡ codes "+" ∷ codes "f" ∷ []
unfolding remove_unused_words_and_strings contains_id find_id
names_lost = refl

finished : run_from 1 ≡ some (ok (result (run_from 1)))
unfolding remove_unused_words_and_strings contains_id find_id
finished = refl

abbrev g : Word
g = function 2 []

g_reached : Reaches (words_from 1) (call 1 ∷ []) 2
g_reached =
    named_by 0 2 (call 2) (function 1 (call 2 ∷ [])) (named 0 1 (call 1) refl (refl, tt, refl))
      (inr (inl refl)) refl refl (refl, tt, refl)

abbrev numbered : ℕ → Word
numbered zero = new_word
numbered (suc zero) = function 1 (call 2 ∷ [])
numbered (suc (suc zero)) = g
numbered _ = function 3 []

-- Each of the four words is the one of its number.
numbered-id : (w : Word) → InWords w (words_from 1) → numbered w.id ≡ w
numbered-id w (inl e) = subst (λ (x : Word). numbered x.id ≡ x) e refl
numbered-id w (inr (inl e)) = subst (λ (x : Word). numbered x.id ≡ x) e refl
numbered-id w (inr (inr (inl e))) = subst (λ (x : Word). numbered x.id ≡ x) e refl
numbered-id w (inr (inr (inr (inl e)))) = subst (λ (x : Word). numbered x.id ≡ x) e refl
numbered-id w (inr (inr (inr (inr h)))) = absurd h

unshared : Unshared (words_from 1)
unshared w x h f k e = sym (numbered-id x k) ∙ ap numbered e ∙ numbered-id w h

remove_unused-InWords_example : InWords g (result (run_from 1)).words
remove_unused-InWords_example =
    remove_unused-InWords 5 (words_from 1) strings (call 1 ∷ []) (result (run_from 1)) g unshared
      finished g_reached (inr (inr (inl refl)))

remove_unused-returns_example :
    (x : Outcome Kept) × (remove_unused_words_and_strings
        (suc (length (words_from 0)))
        (words_from 0)
        strings
        (call 0 ∷ [])
      ≡ some x)
remove_unused-returns_example = remove_unused-returns (words_from 0) strings (call 0 ∷ [])
