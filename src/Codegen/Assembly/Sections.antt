-- ===== src/Codegen/Assembly/Sections.antt =====
-- Where the sections of the functions stand in the text.
use mathlib.Core.List.{append_assoc}
use stacky.Common.{
  ℕ, ◌≡◌, refl, sym, ap, ◌∙◌, subst, ◌⊎◌, inl, inr, true, false, Option, none, some, List, [], ◌∷◌,
  ◌++◌, map, arith, ◌==◌, ==_iff,
}
use stacky.Syntax.{Operation, Word}
use stacky.Report.{ok, Outcome-cases}
use stacky.Codegen.Functions.{Line, label, generate_instructions}
use stacky.Codegen.Assembly.{
  Entry, line, function_label, emit_return, start_label, Targeted, function_entries,
  function_sections,
}
use stacky.Codegen.Assembly.Machine.{
  find_function, is_label, is_function_label, same_prefix, find_start, is_start_label,
}
use stacky.Codegen.Assembly.Finding.{Unlabelled}

module _ (q : Option ℕ) where
  -- An entry of another body.
  abbrev Foreign : Entry → Type 0
  Foreign (line r l) = same_prefix q r ≡ false
  Foreign (function_label id) = same_prefix q (some id) ≡ false
  Foreign start_label = ⊥
  Foreign _ = Unit {0}

  abbrev pub AllForeign : List Entry → Type 0
  AllForeign [] = Unit {0}
  AllForeign (e ∷ code) = Foreign e × AllForeign code

  pub AllForeign-append :
      (xs ys : List Entry) → AllForeign xs → AllForeign ys → AllForeign (xs ++ ys)
  AllForeign-append [] ys h k = k
  AllForeign-append (x ∷ xs) ys h k = (h.0, AllForeign-append xs ys h.1 k)

  AllForeign-lines :
      (r : Option ℕ) (lines : List Line) → same_prefix q r ≡ false → AllForeign (map (line r) lines)
  AllForeign-lines r [] h = tt
  AllForeign-lines r (l ∷ lines) h = (h, AllForeign-lines r lines h)

  pub AllForeign-function :
      (id : ℕ) (lines : List Line)
      → same_prefix q (some id) ≡ false
      → AllForeign (function_entries id lines)
  AllForeign-function id lines h = (
    h,
    (
      tt,
      (
        tt,
        (
          tt,
          (
            tt,
            AllForeign-append (map (line (some id)) lines) emit_return
                (AllForeign-lines (some id) lines h) (tt, (tt, (tt, (tt, (tt, tt))))),
          ),
        ),
      ),
    ),
  )

  Foreign-is_label :
      (n : ℕ) (r : Option ℕ) (l : Line) → same_prefix q r ≡ false → is_label q n (line r l) ≡ false
  Foreign-is_label n r (label m) h = rw h refl
  Foreign-is_label n r _ h = refl

  Foreign-entry : (n : ℕ) (e : Entry) → Foreign e → is_label q n e ≡ false
  Foreign-entry n (line r l) h = Foreign-is_label n r l h
  Foreign-entry n _ h = refl

  pub AllForeign-Unlabelled : (n : ℕ) (code : List Entry) → AllForeign code → Unlabelled q n code
  AllForeign-Unlabelled n [] h = tt
  AllForeign-Unlabelled n (e ∷ code) h = (Foreign-entry n e h.0, AllForeign-Unlabelled n code h.1)

Foreign-function : (id : ℕ) (e : Entry) → Foreign (some id) e → is_function_label id e ≡ false
Foreign-function id (function_label m) h = h
Foreign-function id _ h = refl

find_function-skip :
    (id : ℕ) (e : Entry) (code : List Entry)
    → is_function_label id e ≡ false
    → find_function id (e ∷ code) ≡ find_function id code
unfolding find_function
find_function-skip id e code h = rw (find_function, h) refl

pub find_function-behind :
    (id : ℕ) (front code : List Entry)
    → AllForeign (some id) front
    → find_function id (front ++ code) ≡ find_function id code
find_function-behind id [] code h = refl
find_function-behind id (e ∷ front) code h =
    find_function-skip id e (front ++ code) (Foreign-function id e h.0)
    ∙ find_function-behind id front code h.1

pub find_function-here :
    (id : ℕ) (code : List Entry) → find_function id (function_label id ∷ code) ≡ some code
unfolding find_function
find_function-here id code =
    let same : (id == id) ≡ true = (==_iff id id).1 refl in rw (find_function, same) refl

Foreign-start : (e : Entry) → Foreign none e → is_start_label e ≡ false
Foreign-start start_label h = absurd h
Foreign-start _ h = refl

find_start-skip :
    (e : Entry) (code : List Entry)
    → is_start_label e ≡ false
    → find_start (e ∷ code) ≡ find_start code
unfolding find_start
find_start-skip e code h = rw (find_start, h) refl

pub find_start-behind :
    (front code : List Entry) → AllForeign none front → find_start (front ++ code) ≡ find_start code
find_start-behind [] code h = refl
find_start-behind (e ∷ front) code h =
    find_start-skip e (front ++ code) (Foreign-start e h.0) ∙ find_start-behind front code h.1

-- The function is one of these.
abbrev pub Among : Word → List ℕ → Targeted → Type 0
Among word targets [] = ⊥
Among word targets (f ∷ fs) = (f ≡ (word, targets)) ⊎ Among word targets fs

abbrev pub Others : ℕ → Targeted → Type 0
Others id [] = Unit {0}
Others id ((word, targets) ∷ fs) = ((id == word.id) ≡ false) × Others id fs

abbrev pub Apart : Targeted → Type 0
Apart [] = Unit {0}
Apart ((word, targets) ∷ fs) = Others word.id fs × Apart fs

-- The section of the function, behind sections of others.
abbrev pub InText : ℕ → List Operation → List ℕ → List Entry → Type 0
InText id body targets text =
    (pre : List Entry) × (lines : List Line) × (post : List Entry) × (generate_instructions targets
        body
      ≡ ok lines)
    × (text ≡ pre ++ (function_entries id lines ++ post))
    × AllForeign (some id) pre

Others-Among :
    (id : ℕ) (word : Word) (targets : List ℕ) (fs : Targeted)
    → Others id fs
    → Among word targets fs
    → (id == word.id) ≡ false
Others-Among id word targets [] h a = absurd a
Others-Among id word targets ((w, ts) ∷ fs) h (inl e) =
    subst (λ x. (id == x.id) ≡ false) (ap (λ x. x.0) e) h.0
Others-Among id word targets ((w, ts) ∷ fs) h (inr a) = Others-Among id word targets fs h.1 a

sections_cons :
    (word : Word) (targets : List ℕ) (fs : Targeted) (text : List Entry)
    → function_sections ((word, targets) ∷ fs) ≡ ok text
    → (lines : List Line) × (rest : List Entry) × (generate_instructions targets word.function_body
        ≡ ok lines)
      × (function_sections fs ≡ ok rest)
      × (text ≡ function_entries word.id lines ++ rest)
unfolding function_sections
sections_cons word targets fs text e =
    elim (Outcome-cases (generate_instructions targets word.function_body)) [
      | inl (c, f) ↦ absurd (ground (arith, rw (function_sections, f) at e))
      | inr (lines, f) ↦ elim (Outcome-cases (function_sections fs)) [
        | inl (c, g) ↦ absurd (ground (arith, rw (function_sections, f, g) at e))
        | inr (rest, g) ↦ (lines, rest, f, g, ground (arith, rw (function_sections, f, g) at e))
      ]
    ]

pub function_sections-InText :
    (word : Word) (targets : List ℕ) (fs : Targeted) (text : List Entry)
    → function_sections fs ≡ ok text
    → Apart fs
    → Among word targets fs
    → InText word.id word.function_body targets text
function_sections-InText word targets [] text e h a = absurd a
function_sections-InText word targets ((w, ts) ∷ fs) text e h (inl same) =
    let (lines, rest, f, g, k) = sections_cons w ts fs text e in
    subst (λ x. InText x.0.id x.0.function_body x.1 text) same ([], lines, rest, f, k, tt)
function_sections-InText word targets ((w, ts) ∷ fs) text e h (inr a) =
    let (lines, rest, f, g, k) = sections_cons w ts fs text e in
    let (pre, ls, post, f', k', foreign) = function_sections-InText word targets fs rest g h.1 a in
    let front = function_entries w.id lines in
    (
      front ++ pre,
      ls,
      post,
      f',
      k
          ∙ ap (λ c. front ++ c) k'
          ∙ sym (append_assoc front pre (function_entries word.id ls ++ post)),
      AllForeign-append (some word.id) front pre
          (AllForeign-function (some word.id) w.id lines
            (ground (arith, Others-Among w.id word targets fs h.0 a)))
          foreign,
    )

-- The main body meets no label of a function.
pub function_sections-AllForeign :
    (fs : Targeted) (text : List Entry) → function_sections fs ≡ ok text → AllForeign none text
unfolding function_sections
function_sections-AllForeign [] text e =
    let same : text ≡ [] = ground (arith, e) in subst (AllForeign none) (sym same) tt
function_sections-AllForeign ((w, ts) ∷ fs) text e =
    let (lines, rest, f, g, k) = sections_cons w ts fs text e in
    subst (AllForeign none) (sym k) (
      AllForeign-append none (function_entries w.id lines) rest
        (AllForeign-function none w.id lines refl) (function_sections-AllForeign fs rest g))
