-- ===== src/Codegen/Assembly/Steps.antt =====
-- What the machine does between two operations: the labels, the call of a function and its return.
use mathlib.Core.List.{append_assoc, map-append}
use stacky.Common.{
  ℕ, zero, suc, ◌<◌, ◌≤◌, ◌≡◌, refl, sym, ap, ◌∙◌, subst, inl, inr, Bool, true, false, Option, some,
  List, [], ◌∷◌, ◌++◌, map, arith, length, get_elem?, if◌then◌else◌, set as set_elem,
}
use stacky.Syntax.{Operation}
use stacky.Report.{ok, Outcome-cases}
use stacky.Machine.{Platform}
use stacky.Dictionary.{Words}
use stacky.Program.{Frame}
use stacky.Codegen.Functions.{call_function, Line, label, contains, operation_lines, lines_from}
use stacky.Codegen.Assembly.{Entry, line}
use stacky.Codegen.Assembly.Machine.{Layout, Machine, Progress, going, do_entry}
use stacky.Codegen.Assembly.Runs.{Reaches, step-Reaches, stays-Reaches}
use stacky.Codegen.Assembly.Placed.{IsSuffix, IsReturn, Before, After, FramesAt}

pub IsSuffix-tail :
    (front code text : List Entry) → IsSuffix (front ++ code) text → IsSuffix code text
IsSuffix-tail front code text (pre, e) = (pre ++ front, e ∙ sym (append_assoc pre front code))

pub IsReturn-IsSuffix : (code text : List Entry) → IsReturn code text → IsSuffix code text
IsReturn-IsSuffix code text (q, id, s) = IsSuffix-tail (line q (call_function id) ∷ []) code text s

-- The label of an operation, if it has one, and the code behind it.
pub labelled :
    (q : Option ℕ) (size : ℕ) (targets : List ℕ) (tail : List Entry) (i : ℕ) (op : Operation)
    (ops : List Operation) (lines : List Line)
    → lines_from i size targets (op ∷ ops) ≡ ok lines
    → (body : List Line) × (rest : List Line) × (operation_lines i size op.kind op ≡ ok body)
      × (lines_from (suc i) size targets ops ≡ ok rest)
      × (lines ≡ (if contains i targets then label i ∷ [] else []) ++ (body ++ rest))
unfolding lines_from
labelled q size targets tail i op ops lines e =
    elim (Outcome-cases (operation_lines i size op.kind op)) [
      | inl (c, f) ↦ absurd (ground (arith, rw (lines_from, f) at e))
      | inr (body, f) ↦ elim (Outcome-cases (lines_from (suc i) size targets ops)) [
        | inl (c, g) ↦ absurd (ground (arith, rw (lines_from, f, g) at e))
        | inr (rest, g) ↦ (body, rest, f, g, ground (arith, rw (lines_from, f, g) at e))
      ]
    ]

get_elem?-set_other :
    (xs : List ℕ) (i j v : ℕ) → j < i → get_elem? (set_elem xs i v) j ≡ get_elem? xs j
get_elem?-set_other [] i j v h = refl
get_elem?-set_other (x ∷ xs) zero j v h = absurd (omega (arith, h))
get_elem?-set_other (x ∷ xs) (suc i) zero v h = refl
get_elem?-set_other (x ∷ xs) (suc i) (suc j) v h = get_elem?-set_other xs i j v (omega (arith, h))

pub get_elem?-set : (xs : List ℕ) (i v : ℕ) → i < length xs → get_elem? (set_elem xs i v) i ≡ some v
get_elem?-set [] i v h = absurd (omega (arith, h))
get_elem?-set (x ∷ xs) zero v h = refl
get_elem?-set (x ∷ xs) (suc i) v h = get_elem?-set xs i v (omega (arith, h))

pub spread :
    (q : Option ℕ) (front back : List Line) (tail : List Entry)
    → map (line q) (front ++ back) ++ tail ≡ map (line q) front ++ (map (line q) back ++ tail)
spread q front back tail =
    ap (λ l. l ++ tail) (map-append (line q) front back)
    ∙ append_assoc (map (line q) front) (map (line q) back) tail

abbrev pub label_if : Bool → ℕ → List Line
label_if b i = if b then label i ∷ [] else []

module _ (p : Platform) (layout : Layout) (text : List Entry) where
  abbrev pub at_code : Machine p → List Entry → Machine p
  at_code m code = record m { code = code }

  -- One entry more.
  pub entry-Reaches :
      (e : Entry) (code : List Entry) (m m' : Machine p) (r : Progress p)
      → do_entry p layout text e (at_code m code) ≡ going m'
      → Reaches p layout text m' r
      → Reaches p layout text (at_code m (e ∷ code)) r
  entry-Reaches e code m m' r h k = step-Reaches p layout text (at_code m (e ∷ code)) m' r h k

  pub from_code :
      (m : Machine p) (code : List Entry) (r : Progress p)
      → m.code ≡ code
      → Reaches p layout text (at_code m code) r
      → Reaches p layout text m r
  from_code m code r e h = subst (λ c. Reaches p layout text (at_code m c) r) (sym e) h

  label-Reaches :
      (q : Option ℕ) (n : ℕ) (code : List Entry) (m : Machine p)
      → Reaches p layout text (at_code m (line q (label n) ∷ code)) (going (at_code m code))
  unfolding do_entry
  label-Reaches q n code m =
      entry-Reaches (line q (label n)) code m (at_code m code) (going (at_code m code)) refl
        (stays-Reaches p layout text (at_code m code))

  skip_label :
      (q : Option ℕ) (b : Bool) (i : ℕ) (code : List Entry) (m : Machine p)
      → Reaches p layout text
          (at_code m (map (line q) (label_if b i) ++ code))
          (going (at_code m code))
  skip_label q true i code m = label-Reaches q i code m
  skip_label q false i code m = stays-Reaches p layout text (at_code m code)

  -- From before a label to behind it.
  pub Before-Reaches :
      (q : Option ℕ) (size : ℕ) (targets : List ℕ) (tail : List Entry) (i : ℕ)
      (ops : List Operation) (code : List Entry)
      → Before q size targets tail i ops code
      → IsSuffix code text
      → (code' : List Entry) × After q size targets tail i ops code'
        × IsSuffix code' text
        × ((m : Machine p) → Reaches p layout text (at_code m code) (going (at_code m code')))
  unfolding lines_from
  Before-Reaches q size targets tail i [] code (lines, e, f) s =
      let same : lines ≡ label size ∷ [] = ground (arith, e) in
      let code_is : code ≡ line q (label size) ∷ tail =
        f ∙ ap (λ ls. map (line q) ls ++ tail) same in
      (
        tail,
        refl,
        IsSuffix-tail (line q (label size) ∷ []) tail text (subst (λ c. IsSuffix c text) code_is s),
        λ m.
            subst (λ c. Reaches p layout text (at_code m c) (going (at_code m tail))) (sym code_is)
              (label-Reaches q size tail m),
      )
  Before-Reaches q size targets tail i (op ∷ ops) code (lines, e, f) s =
      let (body, rest, g, h, k) = labelled q size targets tail i op ops lines e in
      let behind = map (line q) body ++ (map (line q) rest ++ tail) in
      let b = contains i targets in
      let code_is : code ≡ map (line q) (label_if b i) ++ behind =
        f
        ∙ ap (λ ls. map (line q) ls ++ tail) k
        ∙ spread q (label_if b i) (body ++ rest) tail
        ∙ ap (λ c. map (line q) (label_if b i) ++ c) (spread q body rest tail) in
      (
        behind,
        (body, rest, g, h, refl),
        IsSuffix-tail (map (line q) (label_if b i)) behind text
            (subst (λ c. IsSuffix c text) code_is s),
        λ m.
            subst (λ c. Reaches p layout text (at_code m c) (going (at_code m behind)))
              (sym code_is) (skip_label q b i behind m),
      )

  -- The return address that a frame keeps.
  module _ (words : Words) where
    pub FramesAt-length :
        (fs : List Frame) (slots : List ℕ) (pointer : ℕ)
        → FramesAt layout text words fs slots pointer
        → pointer ≡ length fs
    FramesAt-length [] slots pointer h = h
    FramesAt-length (f ∷ fs) slots pointer (k, code, pl, e, g, s, b, t, a, h) =
        e ∙ ap suc (FramesAt-length fs slots k h)

    pub FramesAt-set :
        (fs : List Frame) (slots : List ℕ) (pointer j v : ℕ)
        → pointer ≤ j
        → FramesAt layout text words fs slots pointer
        → FramesAt layout text words fs (set_elem slots j v) pointer
    FramesAt-set [] slots pointer j v l h = h
    FramesAt-set (f ∷ fs) slots pointer j v l (k, code, pl, e, g, s, b, t, a, h) = (
      k,
      code,
      pl,
      e,
      get_elem?-set_other slots j k v (omega (arith, e, l)) ∙ g,
      s,
      b,
      t,
      a,
      FramesAt-set fs slots k j v (omega (arith, e, l)) h,
    )
