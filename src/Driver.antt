-- ===== src/Driver.antt =====
-- src/stacky.cc, `search_include_path` and the part of `main` that puts the included and the imported
-- files in place of the words that ask for them.
pub mod Returns
pub mod Endless
pub mod Tests
pub mod Checking
use stacky.Common.{
  ℕ, zero, suc, Bool, true, false, ◌&&◌, ◌||◌, Option, none, some, List, [], ◌∷◌, ◌++◌,
  if◌then◌else◌, text_eq, length, drop, take, codes,
}
use stacky.Syntax.{Token, KeywordKind, Text}
use stacky.Report.{Check, Outcome, ok, exited, file_not_found}
use stacky.Lexer.Tokens.{Lexed, lex, lexed, reported, undefined, unfinished}
use stacky.Parser.Extract.{Inclusion, extract_include_or_import}

-- The file system, as `std::filesystem` and the streams give it, and the paths of the command line.
-- `read` is `none` where the stream does not open.
pub record Files : Type 0 where
  pub parent_path : Text → Text
  pub has_parent_path : Text → Bool
  pub join : Text → Text → Text
  pub exists : Text → Bool
  pub is_directory : Text → Bool
  pub canonical : Text → Text
  pub read : Text → Option Text
  pub include_search_paths : List Text

module _ (files : Files) where
  abbrev pub is_file : Text → Bool
  is_file path = files.exists path && elim (files.is_directory path) [ true ↦ false | false ↦ true ]

  unfoldable pub search_paths : List Text → Text → Option Text
  search_paths [] path = none
  search_paths (parent ∷ parents) path =
      let p = files.join parent path in if is_file p then some p else search_paths parents path

  unfoldable pub search_include_path : Text → Text → Option Text
  unfolding search_paths
  search_include_path includer path =
      let local = files.join includer path in
      if files.has_parent_path path && is_file local
      then some local
      else search_paths files.include_search_paths path

-- What the loop ends with; `not_opened` is the `return 1` of a file that does not open.
pub data Gathered : Type 0 where
  gathered : List Token → Gathered
  stopped : Check → Gathered
  not_opened undefined_read endless : Gathered

unfoldable pub contains_text : Text → List Text → Bool
unfolding text_eq
contains_text s [] = false
contains_text s (t ∷ ts) = text_eq t s || contains_text s ts

-- The tokens with the two at the index replaced.
abbrev pub splice : ℕ → List Token → List Token → List Token
splice offset new tokens = take offset tokens ++ (new ++ drop (suc (suc offset)) tokens)

abbrev pub splice_lexed : (List Token → Gathered) → ℕ → List Token → Lexed → Gathered
splice_lexed on offset tokens (lexed new) = on (splice offset new tokens)
splice_lexed on offset tokens (reported c) = stopped c
splice_lexed on offset tokens undefined = undefined_read
splice_lexed on offset tokens unfinished = endless

abbrev pub is_import : KeywordKind → Bool
is_import KeywordKind.import = true
is_import _ = false

module _ (files : Files) where
  -- `lex` is given as much fuel as it needs.
  unfoldable pub include_file : (List Token → Gathered) → ℕ → List Token → Text → Gathered
  unfolding lex
  include_file on offset tokens path = elim (files.read path) [
    | none ↦ not_opened
    | some file ↦ splice_lexed on offset tokens (lex (suc (length file)) file path [])
  ]

  abbrev pub asked_path : Inclusion → Text
  asked_path inclusion =
      if is_import inclusion.keyword then inclusion.path ++ codes ".stacky" else inclusion.path

  -- What is done with a file that was found; `on` goes on with the tokens and `already_imported`.
  abbrev pub place :
      (List Text → List Token → Gathered) → List Text → List Token → Inclusion → Text → Gathered
  place on imported tokens inclusion path =
      let full = files.canonical path in
      elim (is_import inclusion.keyword) [
        | false ↦ include_file (on imported) inclusion.index tokens path
        | true ↦ elim (contains_text full imported) [
          | true ↦ on imported (splice inclusion.index [] tokens)
          | false ↦ include_file (on (full ∷ imported)) inclusion.index tokens path
        ]
      ]

  abbrev pub with_found :
      (List Text → List Token → Gathered)
      → List Text
      → List Token
      → Inclusion
      → Option Text
      → Gathered
  with_found on imported tokens inclusion none = stopped file_not_found
  with_found on imported tokens inclusion (some path) = place on imported tokens inclusion path

  abbrev pub include_round :
      (List Text → List Token → Gathered)
      → List Text
      → List Token
      → Outcome (Option Inclusion)
      → Gathered
  include_round on imported tokens (exited c) = stopped c
  include_round on imported tokens (ok none) = gathered tokens
  include_round on imported tokens (ok (some inclusion)) =
      with_found on imported tokens inclusion
        (search_include_path files inclusion.includer (asked_path inclusion))

  unfoldable pub include_loop : ℕ → List Text → List Token → Gathered
  unfolding include_file search_include_path contains_text extract_include_or_import
  include_loop zero imported tokens = endless
  include_loop (suc fuel) imported tokens =
      include_round (include_loop fuel) imported tokens
        (extract_include_or_import files.parent_path tokens)
