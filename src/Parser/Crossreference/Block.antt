-- ===== src/Parser/Crossreference/Block.antt =====
-- Well-formed blocks, as the language reference describes them: `if … end`, `if … else … end` and
-- `while … do … end`, nested at will, around operations that are none of these five keywords.
use stacky.Common.{ℕ, suc, List, ◌∷◌}
use stacky.Syntax.{Operation, OperationKind}

mutual
  pub data Statement : Type 0 where
    simple : Operation → Statement
    if_end : Operation → Block → Operation → Statement
    if_else_end : Operation → Block → Operation → Block → Operation → Statement
    while_do_end : Operation → Block → Operation → Block → Operation → Statement

  pub data Block : Type 0 where
    nil : Block
    cons : Statement → Block → Block

abbrev pub IsSimpleKind : OperationKind → Type 0
IsSimpleKind OperationKind.if_ = ⊥
IsSimpleKind OperationKind.else_ = ⊥
IsSimpleKind OperationKind.while = ⊥
IsSimpleKind OperationKind.do_ = ⊥
IsSimpleKind OperationKind.end = ⊥
IsSimpleKind _ = Unit {0}

-- Each operation of the block has the kind of its place.
abbrev mutual
  pub IsFormed : Statement → Type 0
  IsFormed (simple op) = IsSimpleKind op.kind
  IsFormed (if_end i b e) = AllFormed b
  IsFormed (if_else_end i b l c e) = AllFormed b × AllFormed c
  IsFormed (while_do_end w c d b e) = AllFormed c × AllFormed b

  pub AllFormed : Block → Type 0
  AllFormed nil = Unit {0}
  AllFormed (cons s b) = IsFormed s × AllFormed b

abbrev pub of_kind : OperationKind → Operation → Operation
of_kind k op = record op { kind = k }

-- With its jump.
abbrev pub jumping : OperationKind → ℕ → Operation → Operation
jumping k j op = record op { kind = k; jump = j }

-- The operations of a block in a row, in front of `rest`.
unfoldable mutual
  pub flatten_statement : Statement → List Operation → List Operation
  flatten_statement (simple op) rest = op ∷ rest
  flatten_statement (if_end i b e) rest =
      of_kind OperationKind.if_ i ∷ flatten b (of_kind OperationKind.end e ∷ rest)
  flatten_statement (if_else_end i b l c e) rest =
      of_kind OperationKind.if_ i
      ∷ flatten b (of_kind OperationKind.else_ l ∷ flatten c (of_kind OperationKind.end e ∷ rest))
  flatten_statement (while_do_end w c d b e) rest =
      of_kind OperationKind.while w
      ∷ flatten c (of_kind OperationKind.do_ d ∷ flatten b (of_kind OperationKind.end e ∷ rest))

  pub flatten : Block → List Operation → List Operation
  flatten nil rest = rest
  flatten (cons s b) rest = flatten_statement s (flatten b rest)

-- The index behind a block that starts at index `k`.
unfoldable mutual
  pub after_statement : Statement → ℕ → ℕ
  after_statement (simple op) k = suc k
  after_statement (if_end i b e) k = suc (after b (suc k))
  after_statement (if_else_end i b l c e) k = suc (after c (suc (after b (suc k))))
  after_statement (while_do_end w c d b e) k = suc (after b (suc (after c (suc k))))

  pub after : Block → ℕ → ℕ
  after nil k = k
  after (cons s b) k = after b (after_statement s k)

-- The same operations with the jumps that the blocks mean, for a block that starts at index `k`.
-- `if` goes behind its `else` or to its `end`, `else` to the `end`, the `end` of an `if` to the next
-- operation, `do` behind the loop's `end`, and that `end` back to the `while`.
unfoldable mutual
  pub resolve_statement : Statement → ℕ → List Operation → List Operation
  resolve_statement (simple op) k rest = op ∷ rest
  resolve_statement (if_end i b e) k rest =
      jumping OperationKind.if_ (after b (suc k)) i
      ∷ resolve b (suc k) (jumping OperationKind.end (suc (after b (suc k))) e ∷ rest)
  resolve_statement (if_else_end i b l c e) k rest =
      jumping OperationKind.if_ (suc (after b (suc k))) i
      ∷ resolve b (suc k) (
          jumping OperationKind.else_ (after c (suc (after b (suc k)))) l
          ∷ resolve c (suc (after b (suc k)))
              (jumping OperationKind.end (suc (after c (suc (after b (suc k))))) e ∷ rest))
  resolve_statement (while_do_end w c d b e) k rest =
      of_kind OperationKind.while w
      ∷ resolve c (suc k) (
          jumping OperationKind.do_ (suc (after b (suc (after c (suc k))))) d
          ∷ resolve b (suc (after c (suc k))) (jumping OperationKind.end k e ∷ rest))

  pub resolve : Block → ℕ → List Operation → List Operation
  resolve nil k rest = rest
  resolve (cons s b) k rest = resolve_statement s k (resolve b (after_statement s k) rest)
