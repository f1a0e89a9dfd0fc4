-- ===== src/Lexer/Integer/Value.antt =====
-- src/lexer.cc, `parse_int`: the number that a literal gets is the one that its digits write.
use native.Mathlib.Nat.{pow-zero, pow-suc, div-add-mod}
use stacky.Common.{
  ℕ, zero, suc, ◌+◌, ◌-◌, ◌*◌, ◌%◌, ◌^◌, ◌≤◌, ◌<◌, ◌≡◌, refl, ap, ◌∙◌, Bool, true, false, Option,
  none, some, List, [], ◌∷◌, arith, ltb, ◌==◌, if◌then◌else◌, length, get_elem?,
}
use stacky.Lexer.Integer.{pow_loop, pow, powers_lookup, digits_loop, digit_value}

-- A literal: its digits, with `none` for an underscore; a digit comes with `true` where a letter that
-- stands for it is written in upper case.
abbrev pub Glyphs : Type 0
Glyphs = List (Option (Bool × ℕ))

-- The digit characters.
unfoldable pub digit_char : Bool → ℕ → ℕ
digit_char true d = if ltb d 10 then d + b'0' else d - 10 + b'A'
digit_char false d = if ltb d 10 then d + b'0' else d - 10 + b'a'

unfoldable pub render : Glyphs → List ℕ
render [] = []
render (none ∷ gs) = b'_' ∷ render gs
render (some (u, d) ∷ gs) = digit_char u d ∷ render gs

-- The number written in base `base`, most significant digit first, behind the number `acc`.
unfoldable pub written : ℕ → ℕ → Glyphs → ℕ
written base acc [] = acc
written base acc (none ∷ gs) = written base acc gs
written base acc (some (u, d) ∷ gs) = written base (acc * base + d) gs

unfoldable pub digits : Glyphs → ℕ
digits [] = 0
digits (none ∷ gs) = digits gs
digits (some (u, d) ∷ gs) = suc (digits gs)

abbrev pub AllBelow : ℕ → Glyphs → Type 0
AllBelow base [] = Unit {0}
AllBelow base (none ∷ gs) = AllBelow base gs
AllBelow base (some (u, d) ∷ gs) = (d < base) × AllBelow base gs

-- A factor may be reduced first.
mod_mul : (a p : ℕ) → (a % 2 ^ 64 * p) % 2 ^ 64 ≡ (a * p) % 2 ^ 64
mod_mul a p = omega (arith, ap (λ (t : ℕ). t * p) (div-add-mod a (2 ^ 64)))

pow_loop-eq-pow : (x n r : ℕ) → r < 2 ^ 64 → pow_loop x n r ≡ (r * x ^ n) % 2 ^ 64
unfolding pow_loop
pow_loop-eq-pow x zero r h = rw pow-zero (omega arith)
pow_loop-eq-pow x (suc n) r h =
    pow_loop-eq-pow x n (r * x % 2 ^ 64) (omega arith)
    ∙ mod_mul (r * x) (x ^ n)
    ∙ ap (λ t. t % 2 ^ 64) (rw pow-suc (grind arith))

pow-eq-pow : (x n : ℕ) → pow x n ≡ x ^ n % 2 ^ 64
unfolding pow
pow-eq-pow x n = pow_loop-eq-pow x n 1 (omega arith) ∙ ap (λ t. t % 2 ^ 64) (omega arith)

-- The table holds at index `i` the weight of the digit that `n - i - 1` digits follow.
powers_lookup-elem :
    (base n k i : ℕ) → i + suc k ≡ n → get_elem? (powers_lookup base n) i ≡ some (base ^ k % 2 ^ 64)
unfolding powers_lookup
powers_lookup-elem base zero k i h = absurd (omega arith)
powers_lookup-elem base (suc n) k zero h =
    ap some (pow-eq-pow base n ∙ ap (λ t. base ^ t % 2 ^ 64) (omega arith))
powers_lookup-elem base (suc n) k (suc i) h = powers_lookup-elem base n k i (omega arith)

digit_value-digit_char :
    (u : Bool) (d base : ℕ) → d < base → base ≤ 16 → digit_value (digit_char u d) ≡ d
unfolding digit_value digit_char
digit_value-digit_char true d base h k = ground arith
digit_value-digit_char false d base h k = ground arith

digit_char-ne-underscore :
    (u : Bool) (d base : ℕ) → d < base → base ≤ 16 → (digit_char u d == b'_') ≡ false
unfolding digit_char
digit_char-ne-underscore true d base h k = ground arith
digit_char-ne-underscore false d base h k = ground arith

written-acc :
    (base acc : ℕ) (gs : Glyphs) → written base acc gs ≡ acc * base ^ digits gs + written base 0 gs
unfolding written digits
written-acc base acc [] = rw pow-zero (omega arith)
written-acc base acc (none ∷ gs) = written-acc base acc gs
written-acc base acc (some (u, d) ∷ gs) = omega (
  arith,
  written-acc base (acc * base + d) gs,
  written-acc base (0 * base + d) gs,
  ap (λ (t : ℕ). acc * t) (pow-suc base (digits gs)),
)

digits_loop-step :
    (base : ℕ) (table : List ℕ) (c : ℕ) (s : List ℕ) (i ival p : ℕ)
    → (c == b'_') ≡ false
    → digit_value c < base
    → get_elem? table i ≡ some p
    → digits_loop base table (c ∷ s) i ival
      ≡ digits_loop base table s (i + 1) ((ival + p * digit_value c) % 2 ^ 64)
unfolding digits_loop
digits_loop-step base table c s i ival p h k e = ground arith

sum_step :
    (ival w d rest : ℕ)
    → ((ival % 2 ^ 64 + w % 2 ^ 64 * d) + rest) % 2 ^ 64 ≡ (ival + (d * w + rest)) % 2 ^ 64
sum_step ival w d rest = omega (arith, ap (λ (t : ℕ). t * d) (div-add-mod w (2 ^ 64)))

-- The loop adds up the number that the digits write, modulo 2^64, if they fit in the table.
pub digits_loop-render :
    (base n : ℕ) (gs : Glyphs) (i ival : ℕ)
    → base ≤ 16
    → AllBelow base gs
    → i + digits gs ≡ n
    → digits_loop base (powers_lookup base n) (render gs) i (ival % 2 ^ 64)
      ≡ some (true, (ival + written base 0 gs) % 2 ^ 64)
unfolding digits_loop render written digits
digits_loop-render base n [] i ival hb ha hn = ap (λ t. some (true, t % 2 ^ 64)) (omega arith)
digits_loop-render base n (none ∷ gs) i ival hb ha hn = digits_loop-render base n gs i ival hb ha hn
digits_loop-render base n (some (u, d) ∷ gs) i ival hb ha hn =
    let dv = digit_value-digit_char u d base ha.0 hb in
    digits_loop-step base (powers_lookup base n) (digit_char u d) (render gs) i (ival % 2 ^ 64)
      (base ^ digits gs % 2 ^ 64) (digit_char-ne-underscore u d base ha.0 hb) (omega (arith, dv))
      (powers_lookup-elem base n (digits gs) i (omega arith))
    ∙ rw dv (
        digits_loop-render base n gs (i + 1) (ival % 2 ^ 64 + base ^ digits gs % 2 ^ 64 * d) hb ha.1
          (omega arith))
    ∙ ap (λ t. some (true, t))
        (sum_step ival (base ^ digits gs) d (written base 0 gs)
          ∙ ap (λ t. (ival + t) % 2 ^ 64) (omega (arith, written-acc base (0 * base + d) gs)))

length-powers_lookup : (base n : ℕ) → length (powers_lookup base n) ≡ n
unfolding powers_lookup
length-powers_lookup base zero = refl
length-powers_lookup base (suc n) = ap suc (length-powers_lookup base n)

get_elem?-beyond : (xs : List ℕ) (i : ℕ) → length xs ≤ i → get_elem? xs i ≡ none
get_elem?-beyond [] i h = refl
get_elem?-beyond (x ∷ xs) zero h = absurd (omega arith)
get_elem?-beyond (x ∷ xs) (suc i) h = get_elem?-beyond xs i (omega arith)

digits_loop-fault :
    (base : ℕ) (table : List ℕ) (c : ℕ) (s : List ℕ) (i ival : ℕ)
    → (c == b'_') ≡ false
    → digit_value c < base
    → get_elem? table i ≡ none
    → digits_loop base table (c ∷ s) i ival ≡ none
unfolding digits_loop
digits_loop-fault base table c s i ival h k e = ground arith

-- Started past the end of the table, the loop faults at the first digit.
pub digits_loop-beyond :
    (base n : ℕ) (u : Bool) (d : ℕ) (gs : Glyphs) (i ival : ℕ)
    → base ≤ 16
    → d < base
    → n ≤ i
    → digits_loop base (powers_lookup base n) (render (some (u, d) ∷ gs)) i ival ≡ none
unfolding render
digits_loop-beyond base n u d gs i ival hb hd hi =
    digits_loop-fault base (powers_lookup base n) (digit_char u d) (render gs) i ival
      (digit_char-ne-underscore u d base hd hb)
      (omega (arith, digit_value-digit_char u d base hd hb))
      (get_elem?-beyond (powers_lookup base n) i (omega (arith, length-powers_lookup base n)))
