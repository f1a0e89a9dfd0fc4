-- ===== src/Lexer/Integer/Suffix.antt =====
-- src/lexer.cc, `parse_int`: the size suffix behind the digits.
use mathlib.Core.List.{append-nil}
use stacky.Common.{
  ℕ, zero, suc, ◌+◌, ◌-◌, ◌≤◌, ◌<◌, ◌≡◌, refl, ap, ◌⊎◌, inl, inr, true, false, none, some, List, [],
  ◌∷◌, ◌++◌, arith, le→leb, length, get_or, take, length-append,
}
use stacky.Lexer.Integer.{from_end, size_suffix, is_sign}
use stacky.Lexer.Integer.Value.{Glyphs, digit_char, render, AllBelow}

pub data Width : Type 0 where
  w8 w16 w32 w64 : Width

pub data Suffix : Type 0 where
  plain : Suffix
  signed unsigned : Width → Suffix

abbrev width_text : Width → List ℕ
width_text w8 = b'8' ∷ []
width_text w16 = b'1' ∷ b'6' ∷ []
width_text w32 = b'3' ∷ b'2' ∷ []
width_text w64 = b'6' ∷ b'4' ∷ []

abbrev bytes : Width → ℕ
bytes w8 = 1
bytes w16 = 2
bytes w32 = 4
bytes w64 = 8

-- A suffix as it is written, and the byte size that it sets.
abbrev pub suffix_text : Suffix → List ℕ
suffix_text plain = []
suffix_text (signed w) = b'i' ∷ width_text w
suffix_text (unsigned w) = b'u' ∷ width_text w

abbrev pub suffix_size : Suffix → ℕ → ℕ
suffix_size plain n = n
suffix_size (signed w) n = bytes w
suffix_size (unsigned w) n = bytes w

render-not-sign :
    (base : ℕ) (gs : Glyphs) (k : ℕ)
    → base ≤ 16
    → AllBelow base gs
    → is_sign (get_or (render gs) k 0) ≡ false
unfolding render digit_char
render-not-sign base [] k hb h = refl
render-not-sign base (none ∷ gs) zero hb h = refl
render-not-sign base (none ∷ gs) (suc k) hb h = render-not-sign base gs k hb h
render-not-sign base (some (true, d) ∷ gs) zero hb h = ground arith
render-not-sign base (some (false, d) ∷ gs) zero hb h = ground arith
render-not-sign base (some (u, d) ∷ gs) (suc k) hb h = render-not-sign base gs k hb h.1

get_or-append : (xs t : List ℕ) (k i : ℕ) → i ≡ length xs + k → get_or (xs ++ t) i 0 ≡ get_or t k 0
get_or-append [] t k i h = ap (λ j. get_or t j 0) (omega arith)
get_or-append (x ∷ xs) t k zero h = absurd (omega arith)
get_or-append (x ∷ xs) t k (suc i) h = get_or-append xs t k i (omega arith)

from_end-append :
    (xs t : List ℕ) (k : ℕ) → k < length t → from_end (length t - k) (xs ++ t) ≡ get_or t k 0
unfolding from_end
from_end-append xs t k h =
    rw (length-append xs t, le→leb (length t - k) (length xs + length t) (omega arith))
      (get_or-append xs t k (length xs + length t - (length t - k)) (omega arith))

take-append : (xs t : List ℕ) (n : ℕ) → n ≡ length xs → take n (xs ++ t) ≡ xs
take-append [] t zero h = refl
take-append [] t (suc n) h = absurd (omega arith)
take-append (x ∷ xs) t zero h = absurd (omega arith)
take-append (x ∷ xs) t (suc n) h = ap (λ l. x ∷ l) (take-append xs t n (omega arith))

from_end-render :
    (base : ℕ) (gs : Glyphs) (k : ℕ)
    → base ≤ 16
    → AllBelow base gs
    → is_sign (from_end k (render gs)) ≡ false
unfolding from_end
from_end-render base gs k hb h =
    ground (arith, render-not-sign base gs (length (render gs) - k) hb h)

remove_suffix-append : (xs t : List ℕ) → take (length (xs ++ t) - length t) (xs ++ t) ≡ xs
remove_suffix-append xs t =
    take-append xs t (length (xs ++ t) - length t) (omega (arith, length-append xs t))

module _ (xs : List ℕ) (size : ℕ) where
  size_suffix-8 : (c : ℕ) → is_sign c ≡ true → size_suffix (xs ++ c ∷ b'8' ∷ []) size ≡ some (1, xs)
  unfolding size_suffix from_end
  size_suffix-8 c h = ground (
    arith,
    length-append xs (c ∷ b'8' ∷ []),
    from_end-append xs (c ∷ b'8' ∷ []) 0,
    from_end-append xs (c ∷ b'8' ∷ []) 1,
    remove_suffix-append xs (c ∷ b'8' ∷ []),
  )

  size_suffix-16 :
      (c w : ℕ) (t : List ℕ)
      → is_sign c ≡ true
      → ((t ≡ c ∷ b'1' ∷ b'6' ∷ []) × (w ≡ 2))
        ⊎ ((t ≡ c ∷ b'3' ∷ b'2' ∷ []) × (w ≡ 4))
        ⊎ ((t ≡ c ∷ b'6' ∷ b'4' ∷ []) × (w ≡ 8))
      → size_suffix (xs ++ t) size ≡ some (w, xs)
  unfolding size_suffix from_end
  size_suffix-16 c w t h k = ground (
    arith,
    length-append xs t,
    from_end-append xs t 0,
    from_end-append xs t 1,
    from_end-append xs t 2,
    remove_suffix-append xs t,
  )

size_suffix-plain :
    (base : ℕ) (gs : Glyphs) (size : ℕ)
    → base ≤ 16
    → AllBelow base gs
    → size_suffix (render gs ++ []) size ≡ some (size, render gs)
unfolding size_suffix
size_suffix-plain base gs size hb h =
    rw append-nil (ground (arith, from_end-render base gs 2 hb h, from_end-render base gs 3 hb h))

pub size_suffix-render :
    (base : ℕ) (gs : Glyphs) (sf : Suffix) (size : ℕ)
    → base ≤ 16
    → AllBelow base gs
    → size_suffix (render gs ++ suffix_text sf) size ≡ some (suffix_size sf size, render gs)
size_suffix-render base gs plain size hb h = size_suffix-plain base gs size hb h
size_suffix-render base gs (signed w8) size hb h = size_suffix-8 (render gs) size b'i' refl
size_suffix-render base gs (signed w16) size hb h =
    size_suffix-16 (render gs) size b'i' 2 _ refl (inl (refl, refl))
size_suffix-render base gs (signed w32) size hb h =
    size_suffix-16 (render gs) size b'i' 4 _ refl (inr (inl (refl, refl)))
size_suffix-render base gs (signed w64) size hb h =
    size_suffix-16 (render gs) size b'i' 8 _ refl (inr (inr (refl, refl)))
size_suffix-render base gs (unsigned w8) size hb h = size_suffix-8 (render gs) size b'u' refl
size_suffix-render base gs (unsigned w16) size hb h =
    size_suffix-16 (render gs) size b'u' 2 _ refl (inl (refl, refl))
size_suffix-render base gs (unsigned w32) size hb h =
    size_suffix-16 (render gs) size b'u' 4 _ refl (inr (inl (refl, refl)))
size_suffix-render base gs (unsigned w64) size hb h =
    size_suffix-16 (render gs) size b'u' 8 _ refl (inr (inr (refl, refl)))
