-- ===== src/Machine/Words.antt =====
-- The values that an intrinsic leaves are words.
use stacky.Common.{
  ℕ, ◌^◌, ◌<◌, ◌≡◌, Option, none, some, List, [], ◌∷◌, arith, subst, bit_and-lt, bit_or-lt,
  bit_xor-lt,
}
use stacky.Syntax.{IntrinsicKind}
use stacky.Machine.{AllWords, pure}

abbrev pub WordsIn : Option (List ℕ) → Type 0
WordsIn none = Unit {0}
WordsIn (some s) = AllWords s

none_left : (k : IntrinsicKind) → WordsIn (pure k [])
unfolding pure
none_left IntrinsicKind.add = tt
none_left _ = ground arith

one_left : (k : IntrinsicKind) (a : ℕ) → a < 2 ^ 64 → WordsIn (pure k (a ∷ []))
unfolding pure
one_left IntrinsicKind.add a h = tt
one_left _ a h = ground (arith, h)

two_left : (k : IntrinsicKind) (b a : ℕ) → b < 2 ^ 64 → a < 2 ^ 64 → WordsIn (pure k (b ∷ a ∷ []))
unfolding pure
two_left _ b a h g =
    ground (arith, h, g, bit_and-lt 64 a b g h, bit_or-lt 64 a b g h, bit_xor-lt 64 a b g h)

three_left :
    (k : IntrinsicKind) (c b a : ℕ)
    → c < 2 ^ 64
    → b < 2 ^ 64
    → a < 2 ^ 64
    → WordsIn (pure k (c ∷ b ∷ a ∷ []))
unfolding pure
three_left _ c b a i h g =
    ground (arith, i, h, g, bit_and-lt 64 b c h i, bit_or-lt 64 b c h i, bit_xor-lt 64 b c h i)

more_left :
    (k : IntrinsicKind) (d c b a : ℕ) (s : List ℕ)
    → AllWords (d ∷ c ∷ b ∷ a ∷ s)
    → WordsIn (pure k (d ∷ c ∷ b ∷ a ∷ s))
unfolding pure
more_left _ d c b a s (j, (i, (h, (g, ws)))) =
    ground
      (arith, i, h, g, j, ws, bit_and-lt 64 c d i j, bit_or-lt 64 c d i j, bit_xor-lt 64 c d i j)

words_in : (k : IntrinsicKind) (s : List ℕ) → AllWords s → WordsIn (pure k s)
words_in k [] ws = none_left k
words_in k (a ∷ []) ws = one_left k a ws.0
words_in k (b ∷ a ∷ []) ws = two_left k b a ws.0 ws.1.0
words_in k (c ∷ b ∷ a ∷ []) ws = three_left k c b a ws.0 ws.1.0 ws.1.1.0
words_in k (d ∷ c ∷ b ∷ a ∷ s) ws = more_left k d c b a s ws

pub pure-AllWords : (k : IntrinsicKind) (s t : List ℕ) → AllWords s → pure k s ≡ some t → AllWords t
pure-AllWords k s t ws e = subst WordsIn e (words_in k s ws)
