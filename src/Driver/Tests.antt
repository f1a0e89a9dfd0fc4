-- ===== src/Driver/Tests.antt =====
-- A program that imports a file, which imports itself, and a file that includes itself.
use stacky.Common.{
  suc, ◌≤◌, ◌≡◌, ◌≢◌, refl, sym, ap, subst, true, false, none, some, List, [], ◌∷◌, text_eq, arith,
  Bool-cases, codes, length, if◌then◌else◌, text_eq_sound, inl, inr,
}
use stacky.Syntax.{Token, Text}
use stacky.Lexer.Tokens.{Lexed, lex, lexed, is_space}
use stacky.Driver.{Files, endless, contains_text, search_include_path, include_loop}
use stacky.Driver.Returns.{asks, ImportsOnly, left, include_loop-returns}
use stacky.Driver.Endless.{include_loop-endless}

-- One file with this name and this text, in the current directory.
abbrev one_file : Text → Text → Files
one_file name text = record {
  parent_path = λ path. [];
  has_parent_path = λ path. false;
  join = λ parent path. path;
  exists = λ path. text_eq path name;
  is_directory = λ path. false;
  canonical = λ path. path;
  read = λ path. if text_eq path name then some text else none;
  include_search_paths = [] ∷ [];
}

abbrev module_name : Text
module_name = codes "m.stacky"

abbrev module_text : Text
module_text = codes "\"m\" import 1"

abbrev modules : Files
modules = one_file module_name module_text

abbrev result : Lexed → List Token
result (lexed ts) = ts
result _ = []

abbrev tokens_of : Text → Text → List Token
unfolding lex
tokens_of text path = result (lex (suc (length text)) text path [])

main_tokens : List Token
unfolding lex
main_tokens = tokens_of (codes "\"m\" import \"m\" import") (codes "main.stacky")

known :
    (includer path found : Text)
    → search_include_path modules includer path ≡ some found
    → contains_text (modules.canonical found) (module_name ∷ []) ≡ true
unfolding search_include_path contains_text
known includer path found e = elim (Bool-cases (text_eq path module_name)) [
  | inl f ↦
      let same : path ≡ found = ground (arith, rw (search_include_path, f) at e) in
      subst (λ p. contains_text p (module_name ∷ []) ≡ true) same
        (subst (λ p. contains_text p (module_name ∷ []) ≡ true)
          (sym (text_eq_sound path module_name f)) refl)
  | inr f ↦ absurd (ground (arith, rw (search_include_path, f) at e))
]

fits :
    (path file : Text) (tokens : List Token)
    → modules.read path ≡ some file
    → lex (suc (length file)) file path [] ≡ lexed tokens
    → ImportsOnly tokens × (asks tokens ≤ 1)
unfolding lex asks is_space
fits path file tokens e f = elim (Bool-cases (text_eq path module_name)) [
  | inl g ↦
      let same : module_text ≡ file = ground (arith, rw g at e) in
      let read : lex (suc (length module_text)) module_text path [] ≡ lexed tokens =
        subst (λ t. lex (suc (length t)) t path [] ≡ lexed tokens) (sym same) f in
      let these : tokens_of module_text path ≡ tokens = ap result read in
      subst (λ ts. ImportsOnly ts × (asks ts ≤ 1)) these
        (((λ h. h), ((λ h. h), ((λ h. h), tt))), omega arith)
  | inr g ↦ absurd (ground (arith, rw g at e))
]

include_loop-returns_example : include_loop modules 4 [] main_tokens ≢ endless
unfolding main_tokens asks left is_space
include_loop-returns_example =
    include_loop-returns modules (module_name ∷ []) (λ name. 1) known fits 4 [] main_tokens
      ((λ h. h), ((λ h. h), ((λ h. h), ((λ h. h), tt)))) (omega arith)

abbrev itself : Files
itself = one_file (codes "a") (codes "\"a\" include 1")

abbrev itself_tokens : List Token
unfolding lex
itself_tokens = tokens_of (codes "\"a\" include 1") (codes "a")

include_loop-endless_example : include_loop itself 100 [] itself_tokens ≡ endless
unfolding lex is_space search_include_path
include_loop-endless_example =
    include_loop-endless itself (codes "a") (codes "\"a\" include 1") _ _ _ refl refl refl refl refl
      refl 100 [] _
