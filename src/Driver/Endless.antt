-- ===== src/Driver/Endless.antt =====
-- src/stacky.cc: a file that includes itself.
use stacky.Common.{ℕ, zero, suc, ◌≡◌, refl, ap, ◌∙◌, some, List, [], ◌∷◌, ◌++◌, length}
use stacky.Syntax.{Token, TokenKind, KeywordKind, Text}
use stacky.Report.{ok}
use stacky.Lexer.Tokens.{lex, lexed}
use stacky.Parser.Translate.{unquoted}
use stacky.Parser.Extract.{Inclusion, extract_include_or_import}
use stacky.Driver.{
  Files, search_include_path, Gathered, endless, splice_lexed, include_file, with_found,
  include_round, include_loop,
}

module _ (files : Files) (path file : Text) (name word : Token) (rest : List Token)
    (opens : files.read path ≡ some file)
    (starts : lex (suc (length file)) file path [] ≡ lexed (name ∷ word ∷ rest))
    (is_name : name.kind ≡ TokenKind.string) (is_word : word.kind ≡ TokenKind.keyword)
    (is_include : word.kval ≡ KeywordKind.include)
    (found : search_include_path files (files.parent_path word.location.file) (unquoted name.sval)
      ≡ some path) where
  abbrev asked : Inclusion
  asked = record {
    keyword = KeywordKind.include;
    includer = files.parent_path word.location.file;
    path = unquoted name.sval;
    index = 0;
  }

  asks_again :
      (post : List Token)
      → extract_include_or_import files.parent_path (name ∷ word ∷ post) ≡ ok (some asked)
  unfolding extract_include_or_import
  asks_again post = rw (extract_include_or_import, is_name, is_word, is_include) refl

  included_again :
      (on : List Token → Gathered) (post : List Token)
      → include_file files on 0 (name ∷ word ∷ post) path ≡ on (name ∷ word ∷ (rest ++ post))
  unfolding include_file
  included_again on post =
      rw (include_file, opens) (ap (splice_lexed on 0 (name ∷ word ∷ post)) starts)

  -- A file that starts with an `include` of itself is included again and again: however long the loop
  -- runs, it does not end.
  pub include_loop-endless :
      (fuel : ℕ) (imported : List Text) (post : List Token)
      → include_loop files fuel imported (name ∷ word ∷ post) ≡ endless
  unfolding include_loop
  include_loop-endless zero imported post = refl
  include_loop-endless (suc fuel) imported post =
      let tokens = name ∷ word ∷ post in
      let on = include_loop files fuel in
      ap (include_round files on imported tokens) (asks_again post)
      ∙ ap (with_found files on imported tokens asked) found
      ∙ included_again (on imported) post
      ∙ include_loop-endless fuel imported (rest ++ post)
