-- ===== src/Types/Check/Closed.antt =====
-- src/types.cc, `typecheck`: the places and depths that the worklist has seen, and what it has
-- made sure of at each of them.
use stacky.Common.{ℕ, suc, ◌+◌, ◌≡◌, ◌⊎◌, true, false, none, some, List, [], ◌∷◌, length, get_elem?}
use stacky.Syntax.{Operation, OperationKind, Word}
use stacky.Program.{operation_step}
use stacky.Types.Effects.Depth.{Goes}
use stacky.Dictionary.{Words}
use stacky.Types.Check.{word_of}

-- An index and a depth of the stack.
abbrev pub Places : Type 0
Places = List (ℕ × ℕ)

abbrev pub Has : Places → ℕ → ℕ → Type 0
Has [] i d = ⊥
Has ((j, e) ∷ places) i d = ((i ≡ j) × (d ≡ e)) ⊎ Has places i d

-- At a depth `d` the operation does not fail, and leaves a depth `d'`, whatever the values are.
abbrev pub PassesAs : OperationKind → Operation → ℕ → ℕ → Type 0
PassesAs k op d d' = (v : ℕ) (s : List ℕ) → length s ≡ d → Goes d' (operation_step v k op s)

abbrev pub Passes : Operation → ℕ → ℕ → Type 0
Passes op d d' = PassesAs op.kind op d d'

-- The kinds that `operation_step` describes.
abbrev pub IsPlain : OperationKind → Type 0
IsPlain OperationKind.push_int = Unit {0}
IsPlain OperationKind.push_symbol = Unit {0}
IsPlain OperationKind.cast = Unit {0}
IsPlain OperationKind.while = Unit {0}
IsPlain OperationKind.intrinsic = Unit {0}
IsPlain _ = ⊥

abbrev pub IsGoto : OperationKind → Type 0
IsGoto OperationKind.else_ = Unit {0}
IsGoto OperationKind.end = Unit {0}
IsGoto _ = ⊥

-- The word of a call is checked by its own effect, which finds its input.
pub record Called (words : Words) (op : Operation) (d d' : ℕ) : Type 0 where
  pub word : Word
  pub below : ℕ
  pub found : word_of words op.word ≡ some word
  pub static : word.is_dynamically_typed ≡ false
  pub has_effect : word.has_effect ≡ true
  pub before : d ≡ length word.effect.input + below
  pub after : d' ≡ length word.effect.output + below

-- All ways on from a place are among `places`, and the body ends at the depth `out`. `Loop` is what is
-- known of a `do`, at its index and the depth behind its condition.
module _ (words : Words) (ops : List Operation) (out : ℕ) where
  pub data Closed (Loop : ℕ → ℕ → Type 0) (places : Places) (i d : ℕ) : Type 0 where
    ends : get_elem? ops i ≡ none → d ≡ out → Closed Loop places i d
    leaves :
        (op : Operation)
        → get_elem? ops i ≡ some op
        → op.kind ≡ OperationKind.return
        → d ≡ out
        → Closed Loop places i d
    passes :
        (op : Operation) (d' : ℕ)
        → get_elem? ops i ≡ some op
        → IsPlain op.kind
        → Passes op d d'
        → Has places (suc i) d'
        → Closed Loop places i d
    goes :
        (op : Operation)
        → get_elem? ops i ≡ some op
        → IsGoto op.kind
        → Has places op.jump d
        → Closed Loop places i d
    forks :
        (op : Operation) (d' : ℕ)
        → get_elem? ops i ≡ some op
        → op.kind ≡ OperationKind.if_
        → d ≡ suc d'
        → Has places (suc i) d'
        → Has places op.jump d'
        → Closed Loop places i d
    loops :
        (op : Operation) (d' : ℕ)
        → get_elem? ops i ≡ some op
        → op.kind ≡ OperationKind.do_
        → d ≡ suc d'
        → Loop i d'
        → Closed Loop places i d
    calls :
        (op : Operation) (d' : ℕ)
        → get_elem? ops i ≡ some op
        → op.kind ≡ OperationKind.call_symbol
        → Called words op d d'
        → Has places (suc i) d'
        → Closed Loop places i d

  -- More places keep it, and so does what follows from `Loop`.
  pub Closed-mono :
      {L M : ℕ → ℕ → Type 0} {places more : Places} {i d : ℕ}
      → ((j e : ℕ) → L j e → M j e)
      → ((j e : ℕ) → Has places j e → Has more j e)
      → Closed L places i d
      → Closed M more i d
  Closed-mono {i} {d} l h (ends g e) = ends g e
  Closed-mono {i} {d} l h (leaves op g k e) = leaves op g k e
  Closed-mono {i} {d} l h (passes op d' g k p n) = passes op d' g k p (h (suc i) d' n)
  Closed-mono {i} {d} l h (goes op g k n) = goes op g k (h op.jump d n)
  Closed-mono {i} {d} l h (forks op d' g k e n m) =
      forks op d' g k e (h (suc i) d' n) (h op.jump d' m)
  Closed-mono {i} {d} l h (loops op d' g k e m) = loops op d' g k e (l i d' m)
  Closed-mono {i} {d} l h (calls op d' g k c n) = calls op d' g k c (h (suc i) d' n)

  -- Both ways on from a `do`.
  abbrev pub BothWays : Places → ℕ → ℕ → Type 0
  BothWays places i d =
      (op : Operation) × (get_elem? ops i ≡ some op) × Has places (suc i) d × Has places op.jump d

  -- All places are closed, with loops resolved.
  abbrev pub AllClosed : Places → Type 0
  AllClosed places = (i d : ℕ) → Has places i d → Closed (BothWays places) places i d
